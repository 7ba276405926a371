-- ===== src/Tage/Record/Kept.antt =====
-- What `HistoryUpdate` (cbp2016_tage_sc_l.h) keeps of a history.
use native.Mathlib.Nat.{mod-lt}
use ternary_geo_bp.Base.{
  ℕ, zero, suc, ◌+◌, ◌%◌, ◌^◌, ◌<◌, ◌≡◌, inl, inr, refl, ◌∙◌, ap, Bool, true, false, List, [], ◌∷◌,
  arith, ◌==◌, if◌then◌else◌, length, length-set, length-map, Bool-cases, xor, ◌&&◌,
}
use ternary_geo_bp.Base.Int.{ℤ, ◌≤ℤ◌}
use ternary_geo_bp.Base.Bits.{bit_and-low_mask}
use ternary_geo_bp.Tage.{Folded, History, Lookup, nhist, same}
use ternary_geo_bp.Tage.Counter.{ctrupdate}
use ternary_geo_bp.Tage.Loop.Entries.{length-loopupdate, AllEntries, loopupdate-AllEntries}
use ternary_geo_bp.Tage.Record.{
  Branch, next_imli, record_loop, record_imhist, record_locals, push_bit, push_bits, update_folds,
  record_path, history_update, target_word, path_word, rounds,
}

-- A history whose arrays have their sizes, and whose counters and paths are in their ranges.
pub record IsHistory (h : History) : Type 0 where
  pub ghist : length h.ghist ≡ 4096
  pub imhist : length h.imhist ≡ 256
  pub imli : h.imli_count < 256
  pub loops : AllEntries h.ltable
  pub loop_size : length h.ltable ≡ 32
  pub indices : length h.ch_i ≡ nhist + 1
  pub tags0 : length h.ch_t0 ≡ nhist + 1
  pub tags1 : length h.ch_t1 ≡ nhist + 1
  pub locals : length h.l_shist ≡ 256
  pub seconds : length h.s_slhist ≡ 16
  pub thirds : length h.t_slhist ≡ 16

next_imli-lt : (b : Branch) (n : ℕ) → n < 256 → next_imli b n < 256
unfolding next_imli
next_imli-lt b n small = ground arith

length-update_folds :
    (ghist : List ℕ) (y : ℕ) (folds : List Folded)
    → length (update_folds ghist y folds) ≡ length folds
length-update_folds ghist y [] = refl
length-update_folds ghist y (unused ∷ folds) = ap suc (length-map folds _)

push_bits-IsHistory : (n t path : ℕ) (h : History) → IsHistory h → IsHistory (push_bits n t path h)
unfolding push_bits push_bit
push_bits-IsHistory zero t path h v = v
push_bits-IsHistory (suc n) t path h v = push_bits-IsHistory n _ _ (push_bit t path h) (record {
  ghist = length-set h.ghist _ _ ∙ v.ghist;
  imhist = v.imhist;
  imli = v.imli;
  loops = v.loops;
  loop_size = v.loop_size;
  indices = length-update_folds _ _ h.ch_i ∙ v.indices;
  tags0 = length-update_folds _ _ h.ch_t0 ∙ v.tags0;
  tags1 = length-update_folds _ _ h.ch_t1 ∙ v.tags1;
  locals = v.locals;
  seconds = v.seconds;
  thirds = v.thirds;
})

record_path-IsHistory : (b : Branch) (h : History) → IsHistory h → IsHistory (record_path b h)
unfolding record_path
record_path-IsHistory b h v =
    let w = push_bits-IsHistory (rounds b.brtype) (target_word b) (path_word b) h v in
    record {
      ghist = w.ghist;
      imhist = w.imhist;
      imli = w.imli;
      loops = w.loops;
      loop_size = w.loop_size;
      indices = w.indices;
      tags0 = w.tags0;
      tags1 = w.tags1;
      locals = w.locals;
      seconds = w.seconds;
      thirds = w.thirds;
    }

record_path-phist : (b : Branch) (h : History) → (record_path b h).phist < 2 ^ 27
unfolding record_path
record_path-phist b h = rw (bit_and-low_mask 27 _) (mod-lt _ (omega arith))

conditional-IsHistory :
    (s : Lookup) (b : Branch) (seed : ℕ) (h : History)
    → s.ltag < 1024
    → IsHistory h
    → IsHistory (
        record_locals b (record (record_loop s b seed (record_imhist b h)).0 {
          imli_count = next_imli b (record_loop s b seed (record_imhist b h)).0.imli_count;
        }))
unfolding record_locals record_loop record_imhist
conditional-IsHistory s b seed h small v = record {
  ghist = v.ghist;
  imhist = length-set h.imhist _ _ ∙ v.imhist;
  imli = next_imli-lt b h.imli_count v.imli;
  loops = loopupdate-AllEntries s h.phist h.ptghist seed b.pred_taken false h.ltable small v.loops;
  loop_size = length-loopupdate s h.phist h.ptghist seed b.pred_taken false h.ltable ∙ v.loop_size;
  indices = v.indices;
  tags0 = v.tags0;
  tags1 = v.tags1;
  locals = length-set h.l_shist _ _ ∙ v.locals;
  seconds = length-set h.s_slhist _ _ ∙ v.seconds;
  thirds = length-set h.t_slhist _ _ ∙ v.thirds;
}

-- Recording any branch keeps the sizes of all arrays of the history and of the loop table, the number of iterations below
-- the 256 entries that it indexes, and the entries of the loop table in their widths; the path
-- history has 27 bits afterwards.
pub history_update-IsHistory :
    (s : Lookup) (b : Branch) (seed : ℕ) (h : History)
    → s.ltag < 1024
    → IsHistory h
    → IsHistory (history_update s b seed h).0 × ((history_update s b seed h).0.phist < 2 ^ 27)
unfolding history_update
history_update-IsHistory s b seed h small v = elim (Bool-cases (b.brtype % 2 == 1)) [
  | inl conditional ↦
      rw conditional (
        record_path-IsHistory b _ (conditional-IsHistory s b seed h small v),
        record_path-phist b _,
      )
  | inr other ↦ rw other (record_path-IsHistory b h v, record_path-phist b h)
]

lowered :
    (valid p q : Bool) (w : ℤ) → (if valid && xor p q then ctrupdate w (same q p) 7 else w) ≤ℤ w
unfolding ctrupdate mathlib.Core.Bool.xor
lowered true true true w = omega arith
lowered true true false w = ground arith
lowered true false true w = ground arith
lowered true false false w = omega arith
lowered false p q w = omega arith

-- The speculative update of the loop predictor's confidence never raises it: where the predictor
-- disagrees with the prediction, the test for agreement fails as well.
pub record_loop-withloop :
    (s : Lookup) (b : Branch) (seed : ℕ) (h : History)
    → (record_loop s b seed h).0.withloop ≤ℤ h.withloop
unfolding record_loop
record_loop-withloop s b seed h = lowered s.lvalid b.pred_taken s.predloop h.withloop
