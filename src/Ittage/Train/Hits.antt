-- ===== src/Ittage/Train/Hits.antt =====
-- `UpdatePredictor` (lib/ittage.h) after a lookup.
use mathlib.Core.Path.{subst}
use ternary_geo_bp.Base.{
  List, true-false, ℕ, ◌≡◌, refl, sym, ◌∙◌, Bool, true, false, not, ◌&&◌, Option, none, some, ◌==◌,
  if◌then◌else◌, done, ==_refl,
}
use ternary_geo_bp.Ittage.{Entry, Predictor}
use ternary_geo_bp.Ittage.Predict.{find_alt, get_prediction, lookup, target_of}
use ternary_geo_bp.Ittage.Record.{history_update}
use ternary_geo_bp.Ittage.Train.{
  Progress, allocate, praise, reward, tick_over, train_alt, train_banks, train_choice, train_hit,
  update_predictor, wants_entry,
}

-- What the update reads of the lookup.
abbrev pub looked : Predictor → Option ℕ × ℕ × ℕ
looked p = (p.hit_bank, p.longest_match_pred, p.alt_target)

if-looked :
    (b : Bool) (p q : Predictor) → looked p ≡ looked q → looked (if b then p else q) ≡ looked q
if-looked true p q e = e
if-looked false p q e = refl

train_choice-looked :
    (p : Predictor) (branch_target : ℕ) → looked (train_choice p branch_target) ≡ looked p
unfolding train_choice
train_choice-looked p branch_target = if-looked _ _ p refl

tick_over-looked : (p : Predictor) (g : Progress) → looked (tick_over p g) ≡ looked p
unfolding tick_over
tick_over-looked p g = if-looked _ _ _ refl

allocate-looked : (p : Predictor) (branch_target : ℕ) → looked (allocate p branch_target) ≡ looked p
unfolding allocate
allocate-looked p branch_target = tick_over-looked _ _

train_alt-looked :
    (p : Predictor) (branch_target hit : ℕ) (alt : Option ℕ)
    → looked (train_alt p branch_target hit alt) ≡ looked p
unfolding train_alt
train_alt-looked p branch_target hit none = refl
train_alt-looked p branch_target hit (some alt) = if-looked _ _ p refl

train_banks-looked :
    (p : Predictor) (branch_target : ℕ) (hit : Option ℕ)
    → looked (train_banks p branch_target hit) ≡ looked p
unfolding train_banks train_hit
train_banks-looked p branch_target none = refl
train_banks-looked p branch_target (some hit) = train_alt-looked p branch_target hit p.alt_bank

-- Where no bank was hit, both targets of the lookup are the same.
abbrev pub IsLooked : Option ℕ × ℕ × ℕ → Type 0
IsLooked (none, longest, alt) = longest ≡ alt
IsLooked (some hit, longest, alt) = Unit

praise-done : (p : Predictor) (hit : ℕ) → (q : Predictor) × (praise p (some hit) ≡ done q)
unfolding praise
praise-done p hit = (_, refl)

none-same :
    (hit : Option ℕ) (longest alt : ℕ) → IsLooked (hit, longest, alt) → hit ≡ none → longest ≡ alt
none-same none longest alt l e = l
none-same (some hit) longest alt l e = cc

rewarded :
    (p : Predictor) (b : Bool) (hit : Option ℕ)
    → (hit ≡ none → b ≡ false)
    → (q : Predictor) × ((if b then praise p hit else done p) ≡ done q)
rewarded p true none safe = absurd (true-false refl (safe refl))
rewarded p true (some hit) safe = praise-done p hit
rewarded p false hit safe = (p, refl)

reward-done :
    (p : Predictor) (branch_target : ℕ)
    → IsLooked (looked p)
    → (q : Predictor) × (reward p branch_target ≡ done q)
unfolding reward
reward-done p branch_target l =
    rewarded p (not (p.longest_match_pred == p.alt_target) && p.longest_match_pred == branch_target)
      p.hit_bank
      (λ e.
        rw (none-same p.hit_bank p.longest_match_pred p.alt_target l e, ==_refl p.alt_target) refl)

lookup-IsLooked :
    (itable : List (List Entry)) (gi gtag : List ℕ) (hit : Option ℕ)
    → IsLooked (hit, target_of itable gi hit, target_of itable gi (find_alt itable gi gtag hit))
lookup-IsLooked itable gi gtag none = refl
lookup-IsLooked itable gi gtag (some hit) = tt

-- After a lookup, `UpdatePredictor` of any branch and target returns: it does not read an entry of
-- bank -1, also where no bank was hit.
pub update_predictor-done :
    (rounded : ℕ → ℕ) (p : Predictor) (pc branch branch_target : ℕ)
    → (q : Predictor) × (update_predictor (get_prediction rounded p pc).1 branch branch_target
        ≡ done q)
unfolding update_predictor get_prediction lookup
update_predictor-done rounded p pc branch branch_target =
    let s = (get_prediction rounded p pc).1 in
    let s1 = train_choice s branch_target in
    let s2 = if wants_entry s branch_target then allocate s1 branch_target else s1 in
    let s3 = train_banks s2 branch_target s2.hit_bank in
    let same : looked s3 ≡ looked s =
      train_banks-looked s2 branch_target s2.hit_bank
      ∙ if-looked (wants_entry s branch_target) (allocate s1 branch_target) s1
          (allocate-looked s1 branch_target)
      ∙ train_choice-looked s branch_target in
    let (q, e) =
      reward-done s3 branch_target (subst IsLooked (sym same) (lookup-IsLooked _ _ _ _)) in
    (history_update q branch branch_target, rw e refl)
