-- ===== src/Pipeline/Events/Retired.antt =====
-- What `eval_retire` (lib/uarchsim.cc) leaves of the window.
use ternary_geo_bp.Base.{
  ℕ, ◌≡◌, ◌<◌, refl, ap, some, List, [], ◌∷◌, arith, ltb, leb, ◌==◌, if◌then◌else◌, done, assert,
  >>=-eq-done, done_injective, Bool-cases, inl, inr, leb→le,
}
use ternary_geo_bp.Pipeline.{Hooks, Options, ValuePredictor, WindowEntry}
use ternary_geo_bp.Pipeline.Events.{checked, locate_entry_in_window, retire_from}

-- The window without the entries at its front that retire up to `now`.
pub staying : ℕ → List WindowEntry → List WindowEntry
staying now [] = []
staying now (w ∷ ws) = if leb w.retire_cycle now then staying now ws else w ∷ ws

pub retire_from-staying :
    {P V : Type 0} (hooks : Hooks P) (vpi : ValuePredictor V) (o : Options) (now : ℕ)
    (ws : List WindowEntry) (p : P) (v : V)
    → (retire_from hooks vpi o now ws p v).0 ≡ staying now ws
unfolding retire_from staying
retire_from-staying hooks vpi o now [] p v = refl
retire_from-staying hooks vpi o now (w ∷ ws) p v = elim (Bool-cases (leb w.retire_cycle now)) [
  | inl over ↦ rw (over, retire_from) (retire_from-staying hooks vpi o now ws _ _)
  | inr on ↦ rw (on, retire_from) refl
]

-- The front of the window retires after `now`.
pub FrontAfter : ℕ → List WindowEntry → Type 0
FrontAfter now [] = Unit
FrontAfter now (w ∷ ws) = now < w.retire_cycle

pub staying-FrontAfter : (now : ℕ) (ws : List WindowEntry) → FrontAfter now (staying now ws)
unfolding staying FrontAfter
staying-FrontAfter now [] = tt
staying-FrontAfter now (w ∷ ws) = elim (Bool-cases (leb w.retire_cycle now)) [
  | inl over ↦ rw over (staying-FrontAfter now ws)
  | inr on ↦ rw on (ground (arith, on))
]

checked-eq : (x w : WindowEntry) (seq_no piece : ℕ) → checked (some x) seq_no piece ≡ done w → x ≡ w
unfolding checked
checked-eq x w seq_no piece e =
    let (a, ea, e1) = >>=-eq-done (assert (x.seq_no == seq_no)) _ e in
    let (b, eb, e2) = >>=-eq-done (assert (x.piece == piece)) _ e1 in done_injective x w e2

-- An entry that retires later is still found.
pub locate-staying :
    (now : ℕ) (ws : List WindowEntry) (seq_no piece : ℕ) (w : WindowEntry)
    → now < w.retire_cycle
    → locate_entry_in_window ws seq_no piece ≡ done w
    → locate_entry_in_window (staying now ws) seq_no piece ≡ done w
unfolding locate_entry_in_window staying
locate-staying now [] seq_no piece w later e = e
locate-staying now (x ∷ ws) seq_no piece w later e = elim (Bool-cases (leb x.retire_cycle now)) [
  | inr on ↦ rw on e
  | inl over ↦ elim (Bool-cases (ltb x.seq_no seq_no)) [
    | inl below ↦ rw over (locate-staying now ws seq_no piece w later (rw below at e))
    | inr here ↦
        let same : x ≡ w = checked-eq x w seq_no piece (rw here at e) in
        let le = leb→le x.retire_cycle now over in
        let eq = ap (λ (y : WindowEntry). y.retire_cycle) same in absurd (omega arith)
  ]
]
