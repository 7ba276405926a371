-- ===== src/Tage/Match/Longest.antt =====
-- The banks that `Tagepred` chooses (cbp2016_tage_sc_l.h).
use native.Mathlib.Decide.{ℕ_discrete}
use ternary_geo_bp.Base.{
  get_or, ℕ, zero, suc, ◌-◌, ◌≤◌, ◌<◌, ◌≡◌, ◌⊎◌, inl, inr, refl, sym, ◌∙◌, Bool, true, false, List,
  arith, ltb, if◌then◌else◌, Bool-cases, le→ltb, ltb→le,
}
use ternary_geo_bp.Base.Int.{nonneg}
use ternary_geo_bp.Tage.{Config, History, Lookup, Tables, bank_entry, no_base, nhist}
use ternary_geo_bp.Tage.Bimodal.{getbim}
use ternary_geo_bp.Tage.Match.{tag_matches, find_bank, alternate, choose, predict_from, tagepred}

-- `bank` is the longest one up to `limit` that matches, or 0 where none does.
pub record IsLongest (matches : ℕ → Bool) (limit bank : ℕ) : Type 0 where
  pub inside : bank ≤ limit
  pub found : (bank ≡ 0) ⊎ (matches bank ≡ true)
  pub none_longer : (i : ℕ) → bank < i → i ≤ limit → matches i ≡ false

find_bank-IsLongest :
    (t : Tables) (gi tags : List ℕ) (i : ℕ)
    → IsLongest (tag_matches t gi tags) i (find_bank t gi tags i)
unfolding find_bank
find_bank-IsLongest t gi tags zero = record {
  inside = omega arith;
  found = inl refl;
  none_longer = λ j p q. absurd (omega arith);
}
find_bank-IsLongest t gi tags (suc i) =
    let rest = find_bank-IsLongest t gi tags i in
    elim (Bool-cases (tag_matches t gi tags (suc i))) [
      | inl here ↦ rw here (record {
        inside = omega arith;
        found = inr here;
        none_longer = λ j p q. absurd (omega arith);
      })
      | inr other ↦ rw other (record {
        inside = omega (arith, rest.inside);
        found = rest.found;
        none_longer = λ j p q. elim (ℕ_discrete j (suc i)) [
          | yes e ↦ rw e other
          | no ne ↦ rest.none_longer j p (omega arith)
        ];
      })
    ]

-- The prediction of the bimodal table for the address that was looked up.
abbrev pub base_prediction : Tables → Lookup → Bool
base_prediction t s = ltb 0 (get_or t.btable s.bi no_base).pred

-- The prediction of a bank, which is that of the bimodal table for bank 0.
abbrev pub bank_prediction : Tables → Lookup → ℕ → Bool
bank_prediction t s bank =
    if ltb 0 bank then nonneg (bank_entry t s.gi bank).ctr else base_prediction t s

-- What a lookup in the tagged tables finds.
pub record Matched (t : Tables) (s : Lookup) : Type 0 where
  pub hit : IsLongest (tag_matches t s.gi s.gtag) nhist s.hit_bank
  pub alt : IsLongest (tag_matches t s.gi s.gtag) (s.hit_bank - 1) s.alt_bank
  pub longest : s.longest_match_pred ≡ bank_prediction t s s.hit_bank
  pub alternative : s.alttaken ≡ bank_prediction t s s.alt_bank
  pub chosen : (s.tage_pred ≡ s.longest_match_pred) ⊎ (s.tage_pred ≡ s.alttaken)

if_cases : (b x y : Bool) → ((if b then x else y) ≡ x) ⊎ ((if b then x else y) ≡ y)
if_cases true x y = inl refl
if_cases false x y = inr refl

predict_from-Matched :
    (t : Tables) (s : Lookup)
    → IsLongest (tag_matches t s.gi s.gtag) nhist s.hit_bank
    → IsLongest (tag_matches t s.gi s.gtag) (s.hit_bank - 1) s.alt_bank
    → s.longest_match_pred ≡ base_prediction t s
    → s.alttaken ≡ base_prediction t s
    → s.tage_pred ≡ base_prediction t s
    → Matched t (predict_from t s)
unfolding predict_from choose alternate getbim
predict_from-Matched t s hit alt l a p = elim (Bool-cases (ltb 0 s.hit_bank)) [
  | inr missed ↦ rw missed (record {
    hit = hit;
    alt = alt;
    longest = rw missed l;
    alternative =
        rw (le→ltb 0 s.alt_bank (omega (arith, alt.inside, ltb→le 0 s.hit_bank missed))) a;
    chosen = inl (p ∙ sym l);
  })
  | inl matched ↦ elim (Bool-cases (ltb 0 s.alt_bank)) [
    | inl two ↦
        rw (matched, two)
          (record {
            hit = hit;
            alt = alt;
            longest = rw matched refl;
            alternative = rw two refl;
            chosen = if_cases _ _ _;
          })
    | inr one ↦
        rw (matched, one)
          (record {
            hit = hit;
            alt = alt;
            longest = rw matched refl;
            alternative = rw one refl;
            chosen = if_cases _ _ _;
          })
  ]
]

-- `Tagepred` finds the bank with the longest history whose tag matches, and the next longest one;
-- bank 0, the bimodal table, where there is none. Both predictions are those of these banks, and the
-- prediction of TAGE is one of the two.
pub tagepred-Matched :
    (c : Config) (t : Tables) (pc : ℕ) (h : History) (old : Lookup)
    → Matched t (tagepred c t pc h old)
unfolding tagepred getbim
tagepred-Matched c t pc h old =
    predict_from-Matched t _ (find_bank-IsLongest t _ _ nhist) (find_bank-IsLongest t _ _ _) refl
      refl refl
