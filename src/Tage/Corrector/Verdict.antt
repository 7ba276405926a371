-- ===== src/Tage/Corrector/Verdict.antt =====
-- What the statistical corrector (cbp2016_tage_sc_l.h) decides, and what it reports of it.
use ternary_geo_bp.Base.{
  ◌≡◌, refl, sym, ◌∙◌, Bool, true, false, ◌&&◌, ◌==◌, if◌then◌else◌, xor, Bool-cases, inl, inr,
}
use ternary_geo_bp.Base.Int.{ℤ, nonneg}
use ternary_geo_bp.Tage.{History, Lookup, Tables}
use ternary_geo_bp.Tage.Corrector.{by_counter, with_high, corrected, verdict, weaker, quotient}

-- SC_TAGEL says whether pred_taken differs from `inter`.
abbrev IsSettled : Bool → Bool × Bool → Type 0
IsSettled inter (pred_taken, sc_tagel) = sc_tagel ≡ xor inter pred_taken

xor_self : (b : Bool) → false ≡ xor b b
unfolding mathlib.Core.Bool.xor
xor_self true = refl
xor_self false = refl

if-IsSettled :
    (inter b : Bool) (x y : Bool × Bool)
    → IsSettled inter x
    → IsSettled inter y
    → IsSettled inter (if b then x else y)
if-IsSettled inter true x y vx vy = vx
if-IsSettled inter false x y vx vy = vy

by_counter-IsSettled :
    (counter : ℤ) (s : Lookup)
    → xor s.pred_inter (nonneg s.lsum) ≡ true
    → IsSettled s.pred_inter (by_counter counter s)
by_counter-IsSettled counter s differ = elim (Bool-cases (nonneg counter)) [
  | inl up ↦ rw up (xor_self s.pred_inter)
  | inr down ↦ rw down (sym differ)
]

with_high-IsSettled :
    (t : Tables) (s : Lookup)
    → xor s.pred_inter (nonneg s.lsum) ≡ true
    → IsSettled s.pred_inter (with_high t s)
unfolding with_high
with_high-IsSettled t s differ =
    if-IsSettled s.pred_inter s.high_conf _ _
      (if-IsSettled s.pred_inter (weaker s (quotient s.thres 4)) _ _ (xor_self s.pred_inter) (
        if-IsSettled s.pred_inter (weaker s (quotient s.thres 2)) _ _
          (by_counter-IsSettled t.second_h s differ) (sym differ)))
      (sym differ)

corrected-IsSettled : (t : Tables) (s : Lookup) → IsSettled s.pred_inter (corrected t s)
unfolding corrected
corrected-IsSettled t s = elim (Bool-cases (xor s.pred_inter (nonneg s.lsum))) [
  | inr agree ↦ rw agree (xor_self s.pred_inter)
  | inl differ ↦ rw differ (
      if-IsSettled s.pred_inter s.med_conf _ _
        (if-IsSettled s.pred_inter (weaker s (quotient s.thres 4)) _ _
          (by_counter-IsSettled t.first_h s differ) (with_high-IsSettled t s differ))
        (with_high-IsSettled t s differ))
]

reported :
    (sc_tagel loop : Bool) → ((if sc_tagel then 2 else if loop then 1 else 0) == 2) ≡ sc_tagel
reported true loop = refl
reported false true = refl
reported false false = refl

same_bit : (a b : Bool) → xor a b ≡ false → a ≡ b
unfolding mathlib.Core.Bool.xor
same_bit true true e = refl
same_bit true false e = cc
same_bit false true e = cc
same_bit false false e = refl

-- A prediction is reported as the statistical corrector's exactly when it differs from the prediction
-- of the loop predictor and TAGE, in every branch of the choice. Where the confidence of TAGE is neither
-- high nor medium, the prediction is the sign of the corrector's sum; where it is high and not medium
-- and the sum is below a quarter of the threshold, it is that of the loop predictor and TAGE.
pub verdict-corrector :
    (t : Tables) (h : History) (s : Lookup)
    → (((verdict t h s).1 == 2) ≡ xor s.pred_inter (verdict t h s).0)
      × (s.high_conf ≡ false → s.med_conf ≡ false → (verdict t h s).0 ≡ nonneg s.lsum)
      × (s.high_conf ≡ true
          → s.med_conf ≡ false
          → weaker s (quotient s.thres 4) ≡ true
          → (verdict t h s).0 ≡ s.pred_inter)
unfolding verdict corrected with_high
verdict-corrector t h s = (
  reported (corrected t s).1 (nonneg h.withloop && s.lvalid) ∙ corrected-IsSettled t s,
  λ low none. elim (Bool-cases (xor s.pred_inter (nonneg s.lsum))) [
    | inr agree ↦ rw agree (same_bit s.pred_inter (nonneg s.lsum) agree)
    | inl differ ↦ rw (differ, low, none) refl
  ],
  λ high none small. elim (Bool-cases (xor s.pred_inter (nonneg s.lsum))) [
    | inr agree ↦ rw agree refl
    | inl differ ↦ rw (differ, high, none, small) refl
  ],
)
