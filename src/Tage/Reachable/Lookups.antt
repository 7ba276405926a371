-- ===== src/Tage/Reachable/Lookups.antt =====
-- What a prediction leaves in the members of the predictor (cbp2016_tage_sc_l.h).
use native.Mathlib.Nat.{mod-lt}
use ternary_geo_bp.Base.{
  ℕ, zero, suc, ◌+◌, ◌≡◌, ◌<◌, refl, ◌∙◌, ap, inl, inr, List, arith, Bool-cases, ltb, ◌==◌, length,
  get_or,
}
use ternary_geo_bp.Base.Bits.{bit_and-low_mask}
use ternary_geo_bp.Tage.{Config, History, Lookup, LoopEntry, Tables, no_loop, looptag}
use ternary_geo_bp.Tage.Bimodal.{getbim}
use ternary_geo_bp.Tage.Loop.{way_index, loop_tag, found_loop, find_loop, getloop}
use ternary_geo_bp.Tage.Match.{place, alternate, choose, predict_from, tagepred}
use ternary_geo_bp.Tage.Match.Bounds.{place-length}
use ternary_geo_bp.Tage.Corrector.{with_loop, lookup, predict_using_given_hist}

loop_tag-lt : (pc : ℕ) → loop_tag pc < 1024
unfolding loop_tag
loop_tag-lt pc = rw (bit_and-low_mask looptag _) (mod-lt _ (omega arith))

find_loop-ltag :
    (ltable : List LoopEntry) (n i : ℕ) (s : Lookup) → (find_loop ltable n i s).1.ltag ≡ s.ltag
unfolding find_loop found_loop
find_loop-ltag ltable zero i s = refl
find_loop-ltag ltable (suc n) i s =
    elim (Bool-cases ((get_or ltable (way_index s.li s.lib i) no_loop).tag == s.ltag)) [
      | inl hit ↦ rw hit refl
      | inr miss ↦ rw miss (find_loop-ltag ltable n (i + 1) s)
    ]

find_loop-gi :
    (ltable : List LoopEntry) (n i : ℕ) (s : Lookup) → (find_loop ltable n i s).1.gi ≡ s.gi
unfolding find_loop found_loop
find_loop-gi ltable zero i s = refl
find_loop-gi ltable (suc n) i s =
    elim (Bool-cases ((get_or ltable (way_index s.li s.lib i) no_loop).tag == s.ltag)) [
      | inl hit ↦ rw hit refl
      | inr miss ↦ rw miss (find_loop-gi ltable n (i + 1) s)
    ]

alternate-gi : (t : Tables) (s : Lookup) → (alternate t s).gi ≡ s.gi
unfolding alternate getbim
alternate-gi t s = elim (Bool-cases (ltb 0 s.alt_bank)) [
  | inl found ↦ rw found refl
  | inr missing ↦ rw missing refl
]

predict_from-gi : (t : Tables) (s : Lookup) → (predict_from t s).gi ≡ s.gi
unfolding predict_from choose
predict_from-gi t s = elim (Bool-cases (ltb 0 s.hit_bank)) [
  | inl found ↦ rw found (alternate-gi t _)
  | inr missing ↦ rw missing refl
]

-- What later operations rely on: the tag of the loop predictor has its width, and there is an index
-- for each bank.
pub record IsLookup (s : Lookup) : Type 0 where
  pub ltag : s.ltag < 1024
  pub gi : length s.gi ≡ 37

-- The indices that a prediction leaves are those of `place`.
pub predict_using_given_hist-gi :
    (c : Config) (t : Tables) (pc : ℕ) (h : History) (old : Lookup)
    → (predict_using_given_hist c t pc h old).1.gi ≡ (place c pc h (old.gi, old.gtag)).0
unfolding predict_using_given_hist lookup with_loop getloop tagepred getbim
predict_using_given_hist-gi c t pc h old = find_loop-gi h.ltable 4 0 _ ∙ predict_from-gi t _

pub predict_using_given_hist-IsLookup :
    (c : Config) (t : Tables) (pc : ℕ) (h : History) (old : Lookup)
    → length old.gi ≡ 37
    → IsLookup (predict_using_given_hist c t pc h old).1
unfolding predict_using_given_hist lookup with_loop getloop tagepred getbim
predict_using_given_hist-IsLookup c t pc h old size = record {
  ltag = rw (find_loop-ltag h.ltable 4 0 _) (loop_tag-lt pc);
  gi =
      ap length (predict_using_given_hist-gi c t pc h old)
      ∙ place-length c pc h old.gi old.gtag
      ∙ size;
}
