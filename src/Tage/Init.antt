-- ===== src/Tage/Init.antt =====
-- `init_histories` and the constructors (cbp2016_tage_sc_l.h): the tables, the histories and the
-- counters of a predictor with static storage, of which all that is not set is zero.
pub mod Fresh
use ternary_geo_bp.Base.{
  ℕ, zero, suc, ◌+◌, ◌-◌, ◌*◌, ◌%◌, ◌^◌, Bool, false, ◌&&◌, List, [], ◌∷◌, ltb, ◌==◌, if◌then◌else◌,
  replicate, some,
}
use ternary_geo_bp.Base.Int.{ℤ, pos, negsuc}
use ternary_geo_bp.Tage.{
  BaseEntry, Config, Folded, Gehl, History, Lookup, Predictor, Tables, TaggedEntry, no_entry,
  no_base, no_loop, history_length, tb, logl, logb, logg, logbias, logsizeup, logsizeups, nhist,
  nbanklow, nbankhigh, sizeusealt, histbufferlength, nlocal, nseclocal, ntlocal,
}
use ternary_geo_bp.Tage.Fold.{init}

-- An array of `n` elements from the index `j` on.
abbrev pub tabulate : {A : Type 0} → (ℕ → A) → ℕ → ℕ → List A
tabulate f zero j = []
tabulate f (suc n) j = f j ∷ tabulate f n (j + 1)

-- GEHL[i][j] for a table of 1 << logs counters.
abbrev pub gehl_counter : ℕ → ℕ → ℤ
gehl_counter logs j = if ltb j (2 ^ logs - 1) && (j % 2 == 0) then negsuc 0 else pos 0

-- The component of the history lengths `lengths`, whose weights are all `weight`.
unfoldable pub init_gehl : List ℕ → ℕ → ℕ → ℤ → Gehl
init_gehl lengths number logs weight = record {
  lengths = lengths;
  tab = replicate number (tabulate (gehl_counter logs) (2 ^ logs) 0);
  logs = logs;
  w = replicate (2 ^ logsizeups) weight;
}

-- The cases of j & 3.
abbrev pub by_residue : ℤ → ℤ → ℤ → ℤ → ℕ → ℤ
by_residue a b c d j =
    if j % 4 == 0 then a else if j % 4 == 1 then b else if j % 4 == 2 then c else d

-- BiasSK[j], and Bias[j] and BiasBank[j]
abbrev pub init_biassk : ℕ → ℤ
init_biassk = by_residue (negsuc 7) (pos 7) (negsuc 31) (pos 31)

abbrev pub init_bias : ℕ → ℤ
init_bias = by_residue (negsuc 31) (pos 31) (negsuc 0) (pos 0)

-- The global tables.
unfoldable pub init_tables : Tables
init_tables = record {
  btable = replicate (2 ^ logb) no_base;
  low = replicate (nbanklow * 2 ^ logg) no_entry;
  high = replicate (nbankhigh * 2 ^ logg) no_entry;
  use_alt_on_na = replicate sizeusealt (pos 0);
  bias = tabulate init_bias (2 ^ logbias) 0;
  biassk = tabulate init_biassk (2 ^ logbias) 0;
  biasbank = tabulate init_bias (2 ^ logbias) 0;
  wb = replicate (2 ^ logsizeups) (pos 4);
  g = init_gehl (40 ∷ 24 ∷ 10 ∷ []) 3 10 (pos 7);
  p = init_gehl (25 ∷ 16 ∷ 9 ∷ []) 3 9 (pos 7);
  l = init_gehl (11 ∷ 6 ∷ 3 ∷ []) 3 10 (pos 7);
  s = init_gehl (16 ∷ 11 ∷ 6 ∷ []) 3 9 (pos 7);
  t = init_gehl (9 ∷ 4 ∷ []) 2 10 (pos 7);
  im = init_gehl (10 ∷ 4 ∷ []) 2 9 (pos 0);
  i = init_gehl (8 ∷ []) 1 8 (pos 7);
  updatethreshold = pos (35 * 8);
  pupdatethreshold = replicate (2 ^ logsizeup) (pos 0);
  first_h = pos 0;
  second_h = pos 0;
  tick = pos 0;
  seed = 0;
}

-- A folded history that is not set.
abbrev pub zero_fold : Folded
zero_fold = record { comp = 0; clength = 0; olength = 0; outpoint = 0 }

-- The folded histories of the banks from 1 on; `clength` is the length that the history of a bank is
-- folded to.
abbrev pub init_folds : Config → (ℕ → ℕ) → List Folded
init_folds c clength =
    zero_fold ∷ tabulate (λ i. init (history_length c.rounded i) (clength i)) nhist 1

-- active_hist
unfoldable pub init_history : Config → History
init_history c = record {
  ghist_word = 0;
  ghist = replicate histbufferlength 0;
  phist = 0;
  ptghist = 0;
  ch_i = init_folds c (λ i. logg);
  ch_t0 = init_folds c tb;
  ch_t1 = init_folds c (λ i. tb i - 1);
  l_shist = replicate nlocal 0;
  s_slhist = replicate nseclocal 3;
  t_slhist = replicate ntlocal 0;
  imhist = replicate 256 0;
  imli_count = 0;
  ltable = replicate (2 ^ logl) no_loop;
  withloop = negsuc 0;
}

-- The members that a prediction sets, before any has been made.
unfoldable pub init_lookup : Lookup
init_lookup = record {
  gi = replicate (nhist + 1) 0;
  gtag = replicate (nhist + 1) 0;
  bi = 0;
  bim = 0;
  thres = pos 0;
  predloop = false;
  lib = 0;
  li = 0;
  lhit = some 0;
  ltag = 0;
  lvalid = false;
  tage_pred = false;
  alttaken = false;
  longest_match_pred = false;
  hit_bank = 0;
  alt_bank = 0;
  pred_inter = false;
  low_conf = false;
  high_conf = false;
  med_conf = false;
  alt_conf = false;
  lsum = pos 0;
}

-- `CBP2016_TAGE_SC_L` and `init_histories`
unfoldable pub init_histories : Config → Predictor
init_histories c = record {
  tables = init_tables;
  look = init_lookup;
  hist = init_history c;
  histories = [];
}
