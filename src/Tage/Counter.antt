-- ===== src/Tage/Counter.antt =====
-- `ctrupdate` (cbp2016_tage_sc_l.h): the saturating counter of `nbits` bits.
use native.Mathlib.Nat.{one-le-pow}
use ternary_geo_bp.Base.{
  zero, suc, [], ◌∷◌, ℕ, ◌-◌, ◌^◌, ◌≡◌, Bool, true, false, List, arith, if◌then◌else◌, get_or, set,
}
use ternary_geo_bp.Base.Int.{ℤ, pos, neg, ◌+ℤ◌, ◌-ℤ◌, ◌≤ℤ◌, ltb_ℤ}

unfoldable pub ctrupdate : ℤ → Bool → ℕ → ℤ
ctrupdate ctr taken nbits =
    if taken
    then (if ltb_ℤ ctr (pos (2 ^ (nbits - 1) - 1)) then ctr +ℤ pos 1 else ctr)
    else (if ltb_ℤ (neg (2 ^ (nbits - 1))) ctr then ctr -ℤ pos 1 else ctr)

-- ctrupdate (table[index], …)
abbrev pub bump : List ℤ → ℕ → Bool → ℕ → List ℤ
bump table index taken nbits = set table index (ctrupdate (get_or table index (pos 0)) taken nbits)

-- A counter is in the range of `nbits` bits.
abbrev pub Fits : ℕ → ℤ → Type 0
Fits nbits c = (neg (2 ^ (nbits - 1)) ≤ℤ c) × (c ≤ℤ pos (2 ^ (nbits - 1) - 1))

-- A counter of `nbits` bits stays in the range of `nbits` bits, whatever the outcome. It moves by one
-- towards the outcome, and stands still only at the end of the range.
pub ctrupdate-Fits :
    (nbits : ℕ) (c : ℤ) (taken : Bool)
    → Fits nbits c
    → Fits nbits (ctrupdate c taken nbits)
      × (ctrupdate c taken nbits ≡ (
          if taken
          then (if ltb_ℤ c (pos (2 ^ (nbits - 1) - 1))
              then c +ℤ pos 1
              else pos (2 ^ (nbits - 1) - 1))
          else (if ltb_ℤ (neg (2 ^ (nbits - 1))) c then c -ℤ pos 1 else neg (2 ^ (nbits - 1)))))
unfolding ctrupdate
ctrupdate-Fits nbits c true f = (
  ground (arith, one-le-pow (nbits - 1) 2 (omega arith)),
  ground (arith, one-le-pow (nbits - 1) 2 (omega arith)),
)
ctrupdate-Fits nbits c false f = (
  ground (arith, one-le-pow (nbits - 1) 2 (omega arith)),
  ground (arith, one-le-pow (nbits - 1) 2 (omega arith)),
)

-- Every counter of a table is in range.
abbrev pub AllFit : ℕ → List ℤ → Type 0
AllFit nbits [] = Unit
AllFit nbits (c ∷ cs) = Fits nbits c × AllFit nbits cs

pub set-AllFit :
    (nbits : ℕ) (cs : List ℤ) (i : ℕ) (c : ℤ)
    → Fits nbits c
    → AllFit nbits cs
    → AllFit nbits (set cs i c)
set-AllFit nbits [] i c f a = tt
set-AllFit nbits (x ∷ cs) zero c f (fx, a) = (f, a)
set-AllFit nbits (x ∷ cs) (suc i) c f (fx, a) = (fx, set-AllFit nbits cs i c f a)

pub get_or-AllFit :
    (nbits : ℕ) (cs : List ℤ) (i : ℕ) → AllFit nbits cs → Fits nbits (get_or cs i (pos 0))
get_or-AllFit nbits [] i a = ground (arith, one-le-pow (nbits - 1) 2 (omega arith))
get_or-AllFit nbits (x ∷ cs) zero (fx, a) = fx
get_or-AllFit nbits (x ∷ cs) (suc i) (fx, a) = get_or-AllFit nbits cs i a

pub bump-AllFit :
    (nbits : ℕ) (cs : List ℤ) (i : ℕ) (taken : Bool)
    → AllFit nbits cs
    → AllFit nbits (bump cs i taken nbits)
bump-AllFit nbits cs i taken a =
    set-AllFit nbits cs i (ctrupdate (get_or cs i (pos 0)) taken nbits)
      ((ctrupdate-Fits nbits (get_or cs i (pos 0)) taken (get_or-AllFit nbits cs i a)).0) a
