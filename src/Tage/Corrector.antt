-- ===== src/Tage/Corrector.antt =====
-- `predict_using_given_hist` (cbp2016_tage_sc_l.h): the TAGE prediction, the loop prediction, and the
-- statistical corrector that may revert them.
pub mod Verdict
use ternary_geo_bp.Base.{
  ℕ, ◌+◌, ◌*◌, ◌/◌, ◌≡◌, Bool, true, false, not, ◌&&◌, ◌||◌, List, ltb, leb, ◌==◌, if◌then◌else◌,
  to_ℕ, get_or, u64, ◌<<<◌, xor,
}
use ternary_geo_bp.Base.Int.{ℤ, pos, negsuc, neg, ◌+ℤ◌, ltb_ℤ, nonneg, magnitude, centred, times}
use ternary_geo_bp.Tage.{Config, History, Lookup, Tables}
use ternary_geo_bp.Tage.Hash.{
  get_bias_index, get_biassk_index, get_biasbank_index, get_local_index, get_second_local_index,
  get_third_local_index, indupd, indupds,
}
use ternary_geo_bp.Tage.Match.{tagepred}
use ternary_geo_bp.Tage.Loop.{getloop}
use ternary_geo_bp.Tage.Sums.{weight, gpredict}

-- The loop prediction in front of that of TAGE: the lookup with `pred_inter`.
unfoldable pub with_loop : History → ℕ → Lookup → Lookup
with_loop h pc s0 =
    let (b, s) = getloop h.ltable pc s0 in
    record s {
      predloop = b;
      pred_inter = (if nonneg h.withloop && s.lvalid then b else s.tage_pred);
    }

-- The sum of the three bias counters.
unfoldable pub bias_sum : Tables → Lookup → ℕ → ℤ
bias_sum t s pc =
    centred (get_or t.bias (get_bias_index s pc) (pos 0))
    +ℤ centred (get_or t.biassk (get_biassk_index s pc) (pos 0))
    +ℤ centred (get_or t.biasbank (get_biasbank_index s pc) (pos 0))

-- (PC << 1) + pred_inter
abbrev pub with_inter : ℕ → Lookup → ℕ
with_inter pc s = u64 (u64 (pc <<< 1) + to_ℕ s.pred_inter)

-- LSUM
unfoldable pub lsum_of : Tables → Lookup → ℕ → History → ℤ
lsum_of t s pc h =
    times (weight (get_or t.wb (indupds pc) (pos 0))) (bias_sum t s pc)
    +ℤ gpredict (with_inter pc s) h.ghist_word t.g
    +ℤ gpredict pc h.phist t.p
    +ℤ gpredict pc (get_or h.l_shist (get_local_index pc) 0) t.l
    +ℤ gpredict pc (get_or h.s_slhist (get_second_local_index pc) 0) t.s
    +ℤ gpredict pc (get_or h.t_slhist (get_third_local_index pc) 0) t.t
    +ℤ gpredict pc (get_or h.imhist h.imli_count 0) t.im
    +ℤ gpredict pc h.imli_count t.i

-- x >> 3 of an int
abbrev pub eighth : ℤ → ℤ
eighth (pos n) = pos (n / 8)
eighth (negsuc n) = negsuc (n / 8)

-- The number of weights that are not negative.
abbrev pub heavy : List ℤ → ℕ → ℕ
heavy w index = to_ℕ (nonneg (get_or w index (pos 0)))

-- THRES
unfoldable pub thres_of : Tables → ℕ → ℤ
thres_of t pc =
    let i = indupds pc in
    eighth t.updatethreshold
    +ℤ get_or t.pupdatethreshold (indupd pc) (pos 0)
    +ℤ pos (
        12
        * (heavy t.wb i
            + heavy t.p.w i
            + heavy t.s.w i
            + heavy t.t.w i
            + heavy t.l.w i
            + heavy t.g.w i
            + heavy t.i.w i))

-- x / k of an int
abbrev pub quotient : ℤ → ℕ → ℤ
quotient (pos n) k = pos (n / k)
quotient (negsuc n) k = neg ((n + 1) / k)

-- abs (LSUM) < x
abbrev pub weaker : Lookup → ℤ → Bool
weaker s x = ltb_ℤ (pos (magnitude s.lsum)) x

-- pred_taken and SC_TAGEL, where a counter of the choice decides.
abbrev pub by_counter : ℤ → Lookup → Bool × Bool
by_counter counter s = (
  (if not (nonneg counter) then nonneg s.lsum else s.pred_inter),
  (if not (nonneg counter) then true else false),
)

-- pred_taken and SC_TAGEL after the test of HighConf.
unfoldable pub with_high : Tables → Lookup → Bool × Bool
with_high t s =
    if s.high_conf
    then (if weaker s (quotient s.thres 4)
        then (s.pred_inter, false)
        else if weaker s (quotient s.thres 2)
        then by_counter t.second_h s
        else (nonneg s.lsum, true))
    else (nonneg s.lsum, true)

-- pred_taken and SC_TAGEL at the end.
unfoldable pub corrected : Tables → Lookup → Bool × Bool
corrected t s =
    if xor s.pred_inter (nonneg s.lsum)
    then (if s.med_conf
        then (if weaker s (quotient s.thres 4) then by_counter t.first_h s else with_high t s)
        else with_high t s)
    else (s.pred_inter, false)

-- The final prediction, and the part that it comes from: 0 is TAGE, 1 the loop predictor, 2 the
-- statistical corrector.
unfoldable pub verdict : Tables → History → Lookup → Bool × ℕ
verdict t h s =
    let (pred_taken, sc_tagel) = corrected t s in
    (pred_taken, if sc_tagel then 2 else if nonneg h.withloop && s.lvalid then 1 else 0)

-- What `predict_using_given_hist` leaves in the members of the predictor.
unfoldable pub lookup : Config → Tables → ℕ → History → Lookup → Lookup
lookup c t pc h old =
    let s = with_loop h pc (tagepred c t pc h old) in
    record s { lsum = lsum_of t s pc h; thres = thres_of t pc }

-- `predict_using_given_hist`
unfoldable pub predict_using_given_hist :
    Config → Tables → ℕ → History → Lookup → (Bool × ℕ) × Lookup
predict_using_given_hist c t pc h old = let s = lookup c t pc h old in (verdict t h s, s)
