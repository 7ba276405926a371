-- ===== src/Schedule/Slots.antt =====
-- The slots of a window whose depth is a power of two (lib/resource_schedule.cc).
use native.Mathlib.Nat.{mod-lt, one-le-pow, pow-le-pow_right, div-add-mod, mul-le-mul_left}
use native.Mathlib.Decide.{dec_lt}
use ternary_geo_bp.Base.{
  ℕ, ◌+◌, ◌-◌, ◌/◌, ◌%◌, ◌^◌, ◌≤◌, ◌<◌, ◌≡◌, ◌≢◌, sym, ◌∙◌, ap, arith, bit_and, length, sub64,
  get_or-set_self, get_or-set_ne, length-set,
}
use ternary_geo_bp.Base.Bits.{bit_and-low_mask}
use ternary_geo_bp.Schedule.{Schedule, mod_s, slot, put}

-- A schedule whose array holds `2 ^ k` slots.
pub record HasWindow (k : ℕ) (s : Schedule) : Type 0 where
  pub power : s.depth ≡ 2 ^ k
  pub small : k < 64
  pub array : length s.sched ≡ s.depth

-- A cycle of the window.
abbrev pub InWindow : Schedule → ℕ → Type 0
InWindow s cycle = (s.base_cycle ≤ cycle) × (cycle < s.base_cycle + s.depth)

-- With such a depth MOD_S is the remainder.
pub mod_s-eq-mod : (k x d : ℕ) → k < 64 → d ≡ 2 ^ k → mod_s x d ≡ x % d
mod_s-eq-mod k x d small e = ap (bit_and x) mask ∙ bit_and-low_mask k x ∙ ap (λ t. x % t) (sym e)
  where
    mask : sub64 d 1 ≡ 2 ^ k - 1
    mask = omega (
      arith,
      e,
      one-le-pow k 2 (omega arith),
      pow-le-pow_right {n = 2} (omega arith) {i = k} {j = 63} (omega arith),
    )

-- Two cycles less than `d` apart with the same remainder are the same.
pub mod_injective : (d x y : ℕ) → x ≤ y → y < x + d → x % d ≡ y % d → x ≡ y
mod_injective d x y le lt e = elim (dec_lt (x / d) (y / d)) [
  | yes less ↦ absurd (
      omega (
        arith,
        div-add-mod x d,
        div-add-mod y d,
        mul-le-mul_left {m = x / d + 1} {n = y / d} d (omega arith),
      ))
  | no more ↦ omega (
    arith,
    div-add-mod x d,
    div-add-mod y d,
    mul-le-mul_left {m = y / d} {n = x / d} d (omega arith),
  )
]

-- Two cycles of a window whose slots are the same are the same.
pub slot_injective :
    (k : ℕ) (s : Schedule) (x y : ℕ)
    → HasWindow k s
    → InWindow s x
    → InWindow s y
    → mod_s x s.depth ≡ mod_s y s.depth
    → x ≡ y
slot_injective k s x y h p q e = elim (dec_lt x y) [
  | yes below ↦ mod_injective s.depth x y (omega arith) (omega arith) e'
  | no above ↦ sym (mod_injective s.depth y x (omega arith) (omega arith) (sym e'))
]
  where
    e' : x % s.depth ≡ y % s.depth
    e' =
        sym (mod_s-eq-mod k x s.depth h.small h.power)
        ∙ e
        ∙ mod_s-eq-mod k y s.depth h.small h.power

-- Every cycle has its slot inside the array.
pub slot_inside : (k : ℕ) (s : Schedule) (x : ℕ) → HasWindow k s → mod_s x s.depth < length s.sched
slot_inside k s x h =
    rw (mod_s-eq-mod k x s.depth h.small h.power, h.array)
      (mod-lt x (omega (arith, h.power, one-le-pow k 2 (omega arith))))

pub put-HasWindow : (k : ℕ) (s : Schedule) (x n : ℕ) → HasWindow k s → HasWindow k (put s x n)
put-HasWindow k s x n h = record {
  power = h.power;
  small = h.small;
  array = length-set s.sched _ n ∙ h.array;
}

-- A write to the slot of a cycle is read back, and no other cycle of the window sees it.
pub slot-put_self : (k : ℕ) (s : Schedule) (x n : ℕ) → HasWindow k s → slot (put s x n) x ≡ n
slot-put_self k s x n h = get_or-set_self s.sched (mod_s x s.depth) n 0 (slot_inside k s x h)

pub slot-put_ne :
    (k : ℕ) (s : Schedule) (x y n : ℕ)
    → HasWindow k s
    → InWindow s x
    → InWindow s y
    → x ≢ y
    → slot (put s x n) y ≡ slot s y
slot-put_ne k s x y n h p q ne =
    get_or-set_ne s.sched (mod_s x s.depth) (mod_s y s.depth) n 0
      (λ e. ne (slot_injective k s x y h p q e))
