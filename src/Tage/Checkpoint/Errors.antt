-- ===== src/Tage/Checkpoint/Errors.antt =====
-- Updates that have no history (cbp2016_tage_sc_l.h).
use native.Mathlib.Decide.{ℕ_discrete}
use ternary_geo_bp.Base.{
  ℕ, ◌≡◌, refl, ◌∙◌, ap, List, [], ◌∷◌, none, ==_refl, ne→==, done, assert_failed, >>=-eq-done,
}
use ternary_geo_bp.Tage.{Config, History, Predictor}
use ternary_geo_bp.Tage.Checkpoint.{get_unique_inst_id, find, erase, at_key, Resolved, update}
use ternary_geo_bp.Tage.Checkpoint.Restored.{update-histories}

pub find-erase_self : (key : ℕ) (m : List (ℕ × History)) → find key (erase key m) ≡ none
unfolding find erase
find-erase_self key [] = refl
find-erase_self key ((k, h) ∷ m) = elim (ℕ_discrete k key) [
  | yes e ↦ rw (e, ==_refl key) (find-erase_self key m)
  | no d ↦ rw (ne→== k key d, find, ne→== k key d) (find-erase_self key m)
]

at_key-none : (key : ℕ) (m : List (ℕ × History)) → find key m ≡ none → at_key key m ≡ assert_failed
unfolding at_key
at_key-none key m e = rw (e, at_key) refl

-- A branch is resolved once: after an update that returns, a second update of the same instruction
-- fails, since `at` finds no history.
pub update-update :
    (fuel fuel' : ℕ) (c : Config) (p q : Predictor) (seq_no piece : ℕ) (r r' : Resolved)
    → update fuel c p seq_no piece r ≡ done q
    → update fuel' c q seq_no piece r' ≡ assert_failed
unfolding update
update-update fuel fuel' c p q seq_no piece r r' e =
    let (key, id, e1) = >>=-eq-done (get_unique_inst_id seq_no piece) _ e in
    let gone : find key q.histories ≡ none =
      ap (find key) (update-histories fuel c p q seq_no piece key r id e)
      ∙ find-erase_self key p.histories in
    rw (id, at_key-none key q.histories gone, update) refl
