-- ===== src/Ittage/Predict/Longest.antt =====
-- The banks that `GetPrediction` chooses (lib/ittage.h).
use ternary_geo_bp.Base.{
  ℕ, zero, suc, ◌+◌, ◌≡◌, ◌<◌, ◌⊎◌, inl, inr, refl, ap, Bool, true, false, Option, none, some, List,
  arith, if◌then◌else◌, Bool-cases, true-false, lt→ltb,
}
use native.Mathlib.Decide.{ℕ_discrete}
use ternary_geo_bp.Ittage.{Entry, Predictor, nhist}
use ternary_geo_bp.Ittage.Predict.{
  choose, find_alt, find_bank, get_prediction, is_negative, is_positive, lookup, tag_matches,
  target_of,
}

-- `bank` is the longest one below `limit` that matches, or none where none does.
pub IsLongest : (ℕ → Bool) → ℕ → Option ℕ → Type 0
IsLongest matches limit none = (i : ℕ) → i < limit → matches i ≡ false
IsLongest matches limit (some bank) =
    (bank < limit) × (matches bank ≡ true) × ((i : ℕ) → bank < i → i < limit → matches i ≡ false)

-- The banks up to `limit`, where the last one does not match.
IsLongest-suc :
    (matches : ℕ → Bool) (limit : ℕ) (b : Option ℕ)
    → matches limit ≡ false
    → IsLongest matches limit b
    → IsLongest matches (suc limit) b
unfolding IsLongest
IsLongest-suc matches limit none e l =
    λ i lt. elim (ℕ_discrete i limit) [ yes same ↦ rw same e | no ne ↦ l i (omega arith) ]
IsLongest-suc matches limit (some bank) e (lt, here, none_longer) = (
  omega arith,
  here,
  λ i above below. elim (ℕ_discrete i limit) [
    | yes same ↦ rw same e
    | no ne ↦ none_longer i above (omega arith)
  ],
)

find_bank-IsLongest :
    (itable : List (List Entry)) (gi gtag : List ℕ) (n : ℕ)
    → IsLongest (tag_matches itable gi gtag) n (find_bank itable gi gtag n)
unfolding IsLongest find_bank
find_bank-IsLongest itable gi gtag zero = λ i lt. absurd (omega arith)
find_bank-IsLongest itable gi gtag (suc n) = elim (Bool-cases (tag_matches itable gi gtag n)) [
  | inl here ↦ rw here (omega arith, here, λ i above below. absurd (omega arith))
  | inr other ↦ rw other (
      IsLongest-suc (tag_matches itable gi gtag) n (find_bank itable gi gtag n) other
        (find_bank-IsLongest itable gi gtag n))
]

-- The alternate bank is the longest one below the bank that is hit.
pub IsAlternate : (ℕ → Bool) → Option ℕ → Option ℕ → Type 0
IsAlternate matches none alt = alt ≡ none
IsAlternate matches (some hit) alt = IsLongest matches hit alt

find_alt-IsAlternate :
    (itable : List (List Entry)) (gi gtag : List ℕ) (hit : Option ℕ)
    → IsAlternate (tag_matches itable gi gtag) hit (find_alt itable gi gtag hit)
unfolding IsAlternate
find_alt-IsAlternate itable gi gtag none = refl
find_alt-IsAlternate itable gi gtag (some hit) = find_bank-IsLongest itable gi gtag hit

-- What a lookup finds: the banks, and the target.
pub record Found (p : Predictor) (target : ℕ) : Type 0 where
  pub hit : IsLongest (tag_matches p.itable p.gi p.gtag) (nhist + 1) p.hit_bank
  pub alt : IsAlternate (tag_matches p.itable p.gi p.gtag) p.hit_bank p.alt_bank
  pub longest : p.longest_match_pred ≡ target_of p.itable p.gi p.hit_bank
  pub alternative : p.alt_target ≡ target_of p.itable p.gi p.alt_bank
  pub chosen : (target ≡ p.longest_match_pred) ⊎ (target ≡ p.alt_target)
  pub kept : p.tage_target ≡ target

alternate-positive :
    (matches : ℕ → Bool) (hit alt : Option ℕ)
    → IsAlternate matches hit alt
    → is_negative alt ≡ false
    → is_positive hit ≡ true
unfolding IsAlternate IsLongest
alternate-positive matches none none a e = absurd (true-false refl e)
alternate-positive matches none (some bank) a e = absurd (true-false (ap is_negative a) e)
alternate-positive matches (some hit) none a e = absurd (true-false refl e)
alternate-positive matches (some hit) (some bank) (lt, here, none_longer) e =
    lt→ltb 0 hit (omega (arith, lt))

if_cases : (b : Bool) (x y : ℕ) → ((if b then x else y) ≡ x) ⊎ ((if b then x else y) ≡ y)
if_cases true x y = inl refl
if_cases false x y = inr refl

choose-cases :
    (p : Predictor)
    → IsAlternate (tag_matches p.itable p.gi p.gtag) p.hit_bank p.alt_bank
    → (choose p ≡ p.longest_match_pred) ⊎ (choose p ≡ p.alt_target)
unfolding choose
choose-cases p a = elim (Bool-cases (is_negative p.alt_bank)) [
  | inl single ↦ rw single (inl refl)
  | inr two ↦
      rw (two, alternate-positive (tag_matches p.itable p.gi p.gtag) p.hit_bank p.alt_bank a two)
        (if_cases _ _ _)
]

-- `GetPrediction` finds the bank with the longest history whose tag matches, and the longest one below
-- it that matches; the target that it returns is that of one of the two, and 0 where no bank matches.
pub get_prediction-Found :
    (rounded : ℕ → ℕ) (p : Predictor) (pc : ℕ)
    → Found (get_prediction rounded p pc).1 (get_prediction rounded p pc).0
unfolding get_prediction lookup
get_prediction-Found rounded p pc = record {
  hit = find_bank-IsLongest _ _ _ _;
  alt = find_alt-IsAlternate _ _ _ _;
  longest = refl;
  alternative = refl;
  chosen = choose-cases (lookup rounded p pc) (find_alt-IsAlternate _ _ _ _);
  kept = refl;
}
