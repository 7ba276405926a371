-- ===== src/Tage/Init/Fresh.antt =====
-- The state that `init_histories` (cbp2016_tage_sc_l.h) leaves.
use ternary_geo_bp.Base.{
  ℕ, zero, suc, ◌+◌, ◌^◌, ◌≡◌, refl, ap, ap₂, List, ◌∷◌, arith, length, replicate, length-replicate,
  Bool-cases, inl, inr, ◌&&◌, ltb, ◌==◌, ◌%◌, ◌-◌,
}
use ternary_geo_bp.Base.Int.{ℤ, pos}
use ternary_geo_bp.Tage.{Config, history_length, logg, tb, nhist, no_loop, no_entry, no_base}
use ternary_geo_bp.Tage.Counter.{Fits, AllFit}
use ternary_geo_bp.Tage.Fold.{init}
use ternary_geo_bp.Tage.Init.{
  tabulate, gehl_counter, init_gehl, init_bias, init_biassk, init_tables, init_folds, init_history,
  init_histories,
}
use ternary_geo_bp.Tage.Loop.Entries.{AllEntries}
use ternary_geo_bp.Tage.Record.Kept.{IsHistory}
use ternary_geo_bp.Tage.Learn.Sizes.{HasSizes, lengths_of, sizes}
use ternary_geo_bp.Tage.Learn.Threshold.{AllTables, IsGehl, InRange}

length-tabulate : {A : Type 0} (f : ℕ → A) (n j : ℕ) → length (tabulate f n j) ≡ n
length-tabulate f zero j = refl
length-tabulate f (suc n) j = ap suc (length-tabulate f n (j + 1))

tabulate-AllFit :
    (nbits : ℕ) (f : ℕ → ℤ)
    → ((j : ℕ) → Fits nbits (f j))
    → (n j : ℕ) → AllFit nbits (tabulate f n j)
tabulate-AllFit nbits f fits zero j = tt
tabulate-AllFit nbits f fits (suc n) j = (fits j, tabulate-AllFit nbits f fits n (j + 1))

replicate-AllFit : (nbits n : ℕ) (c : ℤ) → Fits nbits c → AllFit nbits (replicate n c)
replicate-AllFit nbits zero c fits = tt
replicate-AllFit nbits (suc n) c fits = (fits, replicate-AllFit nbits n c fits)

replicate-AllTables : (n : ℕ) (cs : List ℤ) → AllFit 6 cs → AllTables 6 (replicate n cs)
replicate-AllTables zero cs fit = tt
replicate-AllTables (suc n) cs fit = (fit, replicate-AllTables n cs fit)

replicate-AllEntries : (n : ℕ) → AllEntries (replicate n no_loop)
replicate-AllEntries zero = tt
replicate-AllEntries (suc n) = (
  record {
    nb_iter = omega arith;
    confid = omega arith;
    current_iter = omega arith;
    tag = omega arith;
    age = omega arith;
  },
  replicate-AllEntries n,
)

gehl_counter-Fits : (logs j : ℕ) → Fits 6 (gehl_counter logs j)
gehl_counter-Fits logs j = elim (Bool-cases (ltb j (2 ^ logs - 1) && (j % 2 == 0))) [
  | inl even ↦ rw even (omega arith, omega arith)
  | inr odd ↦ rw odd (omega arith, omega arith)
]

init_bias-Fits : (j : ℕ) → Fits 6 (init_bias j)
init_bias-Fits j = (ground arith, ground arith)

init_biassk-Fits : (j : ℕ) → Fits 6 (init_biassk j)
init_biassk-Fits j = (ground arith, ground arith)

init_gehl-IsGehl :
    (lengths : List ℕ) (number logs : ℕ) (weight : ℤ)
    → Fits 6 weight
    → IsGehl (init_gehl lengths number logs weight)
unfolding init_gehl
init_gehl-IsGehl lengths number logs weight fits = record {
  tab = replicate-AllTables number _ (tabulate-AllFit 6 _ (gehl_counter-Fits logs) (2 ^ logs) 0);
  w = replicate-AllFit 6 8 weight fits;
}

init_tables-InRange : InRange init_tables
unfolding init_tables
init_tables-InRange =
    let seven : Fits 6 (pos 7) = (omega arith, omega arith) in
    record {
      bias = tabulate-AllFit 6 init_bias init_bias-Fits 256 0;
      biassk = tabulate-AllFit 6 init_biassk init_biassk-Fits 256 0;
      biasbank = tabulate-AllFit 6 init_bias init_bias-Fits 256 0;
      wb = replicate-AllFit 6 8 (pos 4) (omega arith, omega arith);
      g = init_gehl-IsGehl _ 3 10 (pos 7) seven;
      p = init_gehl-IsGehl _ 3 9 (pos 7) seven;
      l = init_gehl-IsGehl _ 3 10 (pos 7) seven;
      s = init_gehl-IsGehl _ 3 9 (pos 7) seven;
      t = init_gehl-IsGehl _ 2 10 (pos 7) seven;
      im = init_gehl-IsGehl _ 2 9 (pos 0) (omega arith, omega arith);
      i = init_gehl-IsGehl _ 1 8 (pos 7) seven;
      first_h = (omega arith, omega arith);
      second_h = (omega arith, omega arith);
      threshold = (omega arith, omega arith);
      thresholds = replicate-AllFit 8 64 (pos 0) (omega arith, omega arith);
    }

sizes-init_gehl :
    (lengths : List ℕ) (number logs : ℕ) (weight : ℤ)
    → sizes (init_gehl lengths number logs weight) ≡ 8 ∷ replicate number (2 ^ logs)
unfolding init_gehl
sizes-init_gehl lengths number logs weight = ap₂ ◌∷◌ (length-replicate 8 weight) (
    alike number (tabulate (gehl_counter logs) (2 ^ logs) 0)
      (length-tabulate (gehl_counter logs) (2 ^ logs) 0))
  where
    alike :
        (n : ℕ) (cs : List ℤ)
        → length cs ≡ 2 ^ logs
        → lengths_of (replicate n cs) ≡ replicate n (2 ^ logs)
    alike zero cs e = refl
    alike (suc n) cs e = ap₂ ◌∷◌ e (alike n cs e)

-- The sizes of the tables of the corrector at construction.
pub init_tables-HasSizes : HasSizes init_tables
unfolding init_tables
init_tables-HasSizes = record {
  bias = length-tabulate init_bias 256 0;
  biassk = length-tabulate init_biassk 256 0;
  biasbank = length-tabulate init_bias 256 0;
  wb = length-replicate 8 (pos 4);
  g = sizes-init_gehl _ 3 10 (pos 7);
  p = sizes-init_gehl _ 3 9 (pos 7);
  l = sizes-init_gehl _ 3 10 (pos 7);
  s = sizes-init_gehl _ 3 9 (pos 7);
  t = sizes-init_gehl _ 2 10 (pos 7);
  im = sizes-init_gehl _ 2 9 (pos 0);
  i = sizes-init_gehl _ 1 8 (pos 7);
  thresholds = length-replicate 64 (pos 0);
}

init_folds-length : (c : Config) (clength : ℕ → ℕ) → length (init_folds c clength) ≡ nhist + 1
init_folds-length c clength =
    ap suc (length-tabulate (λ i. init (history_length c.rounded i) (clength i)) nhist 1)

init_history-IsHistory : (c : Config) → IsHistory (init_history c)
unfolding init_history
init_history-IsHistory c = record {
  ghist = length-replicate {A = ℕ} 4096 0;
  imhist = length-replicate {A = ℕ} 256 0;
  imli = omega arith;
  loops = replicate-AllEntries 32;
  loop_size = length-replicate 32 no_loop;
  indices = init_folds-length c (λ i. logg);
  tags0 = init_folds-length c tb;
  tags1 = init_folds-length c (λ i. tb i - 1);
  locals = length-replicate {A = ℕ} 256 0;
  seconds = length-replicate {A = ℕ} 16 3;
  thirds = length-replicate {A = ℕ} 16 0;
}

-- The state that `init_histories` leaves: all counters of the corrector are in the ranges of their
-- widths, the arrays of the history have their sizes, and the two tables of the tagged banks and the
-- bimodal table have as many entries as the indices need.
pub init_histories-IsHistory :
    (c : Config)
    → IsHistory (init_histories c).hist
      × InRange (init_histories c).tables
      × (length (init_histories c).tables.low ≡ 10240)
      × (length (init_histories c).tables.high ≡ 20480)
      × (length (init_histories c).tables.btable ≡ 8192)
unfolding init_histories init_tables
init_histories-IsHistory c = (
  init_history-IsHistory c,
  init_tables-InRange,
  length-replicate 10240 no_entry,
  length-replicate 20480 no_entry,
  length-replicate 8192 no_base,
)
