-- ===== src/Tage/Checkpoint/Keys.antt =====
-- The numbers of instructions and the map of histories (cbp2016_tage_sc_l.h).
use native.Mathlib.Decide.{ℕ_discrete}
use ternary_geo_bp.Base.{
  ℕ, ◌+◌, ◌*◌, ◌^◌, ◌<◌, ◌≡◌, ◌≢◌, inl, inr, refl, sym, ◌∙◌, ap, none, some, List, [], ◌∷◌, arith,
  ltb, ◌==◌, if◌then◌else◌, Run, done, assert_failed, Bool-cases, ltb→lt, Option-cases, ==_refl,
  ne→==, lt→ltb,
}
use ternary_geo_bp.Base.Bits.{bit_and-low_mask}
use ternary_geo_bp.Tage.{History}
use ternary_geo_bp.Tage.Checkpoint.{get_unique_inst_id, find, emplace, erase}

-- The number of an instruction, where the sequence number has 60 bits.
pub get_unique_inst_id-done :
    (seq_no piece : ℕ)
    → seq_no < 2 ^ 60
    → piece < 16
    → get_unique_inst_id seq_no piece ≡ done (seq_no * 16 + piece)
unfolding get_unique_inst_id
get_unique_inst_id-done seq_no piece small below =
    rw (lt→ltb piece 16 below, bit_and-low_mask 4 piece) (ap (λ (k : ℕ). done k) (omega arith))

-- Two instructions with 60-bit sequence numbers and fewer than 16 pieces have the same number only if
-- they are the same piece of the same instruction.
pub get_unique_inst_id_injective :
    (seq_no piece seq_no' piece' key : ℕ)
    → seq_no < 2 ^ 60
    → seq_no' < 2 ^ 60
    → get_unique_inst_id seq_no piece ≡ done key
    → get_unique_inst_id seq_no' piece' ≡ done key
    → (seq_no ≡ seq_no') × (piece ≡ piece')
unfolding get_unique_inst_id
get_unique_inst_id_injective seq_no piece seq_no' piece' key small small' e e' =
    elim (Bool-cases (ltb piece 16)) [
      | inr big ↦ let fails : ◌≡◌ {A = Run ℕ} assert_failed (done key) = rw big at e in absurd cc
      | inl p ↦ elim (Bool-cases (ltb piece' 16)) [
        | inr big ↦ let fails : ◌≡◌ {A = Run ℕ} assert_failed (done key) = rw big at e' in absurd cc
        | inl p' ↦
            let k : done (seq_no * 16 + piece) ≡ done key =
              sym (get_unique_inst_id-done seq_no piece small (ltb→lt piece 16 p)) ∙ e in
            let k' : done (seq_no' * 16 + piece') ≡ done key =
              sym (get_unique_inst_id-done seq_no' piece' small' (ltb→lt piece' 16 p')) ∙ e' in
            let eq : seq_no * 16 + piece ≡ seq_no' * 16 + piece' = cc in
            let q = ltb→lt piece 16 p in let q' = ltb→lt piece' 16 p' in (omega arith, omega arith)
      ]
    ]

emplace-none :
    (key : ℕ) (h : History) (m : List (ℕ × History))
    → find key m ≡ none
    → emplace key h m ≡ (key, h) ∷ m
unfolding emplace
emplace-none key h m fresh = rw (fresh, emplace) refl

emplace-some :
    (key : ℕ) (h old : History) (m : List (ℕ × History))
    → find key m ≡ some old
    → emplace key h m ≡ m
unfolding emplace
emplace-some key h old m e = rw (e, emplace) refl

find-cons :
    (key k : ℕ) (h : History) (m : List (ℕ × History))
    → find key ((k, h) ∷ m) ≡ (if k == key then some h else find key m)
unfolding find
find-cons key k h m = refl

pub find-emplace_self :
    (key : ℕ) (h : History) (m : List (ℕ × History))
    → find key m ≡ none
    → find key (emplace key h m) ≡ some h
find-emplace_self key h m fresh =
    rw (emplace-none key h m fresh, find-cons key key h m, ==_refl key) refl

pub find-emplace_ne :
    (key other : ℕ) (h : History) (m : List (ℕ × History))
    → key ≢ other
    → find key (emplace other h m) ≡ find key m
find-emplace_ne key other h m ne = elim (Option-cases (find other m)) [
  | inl fresh ↦
      rw (emplace-none other h m fresh, find-cons key other h m, ne→== other key (λ e. ne (sym e)))
        refl
  | inr (old, e) ↦ rw (emplace-some other h old m e) refl
]

pub find-erase_ne :
    (key other : ℕ) (m : List (ℕ × History)) → key ≢ other → find key (erase other m) ≡ find key m
unfolding find erase
find-erase_ne key other [] ne = refl
find-erase_ne key other ((k, h) ∷ m) ne = elim (ℕ_discrete k other) [
  | yes e ↦ rw (e, ==_refl other, ne→== other key (λ d. ne (sym d))) (find-erase_ne key other m ne)
  | no far ↦ elim (ℕ_discrete k key) [
    | yes e ↦ rw (ne→== k other far, e, ==_refl key) refl
    | no different ↦ rw (ne→== k other far, ne→== k key different) (find-erase_ne key other m ne)
  ]
]
