-- ===== src/Base/Bits.antt =====
-- Laws of the native bit operations at variables, from the recursion on binary digits that they
-- stand for: one equation for the lowest digit, low masks as remainders, and bounds.
use Prim.Native.Nat.{
  ℕ, zero, suc, ◌+◌, ◌*◌, ◌/◌, ◌%◌, ◌^◌, ◌≤◌, ◌<◌, min, digits, differ, bitwise, bit_and, bit_xor,
  bit_and-bitwise, bit_xor-bitwise,
}
use mathlib.Core.Path.{◌≡◌, refl, ◌∙◌, ap}
use native.Mathlib.Nat.{
  pow-succ', one-le-pow, le_refl, add-mul-mod_self_right, mod-eq_of_lt, div-add-mod',
}
use native.Mathlib.Omega.{arith}
use ternary_geo_bp.Base.Words.{low_mask}

-- The recursion ends with the first number: more rounds than it has digits change nothing.
digits_rounds :
    (z : ℕ → ℕ) (f : ℕ → ℕ → ℕ) (i j x y : ℕ) → x ≤ i → x ≤ j → digits z f i x y ≡ digits z f j x y
digits_rounds z f zero zero x y p q = refl
digits_rounds z f zero (suc j) x y p q = let e : 0 ≡ x = omega arith in rw (← e)
digits_rounds z f (suc i) zero x y p q = let e : 0 ≡ x = omega arith in rw (← e)
digits_rounds z f (suc i) (suc j) zero y p q = refl
digits_rounds z f (suc i) (suc j) (suc x) y p q =
    rw (digits_rounds z f i j (suc x / 2) (y / 2) (omega arith) (omega arith))

-- What one round adds to the digits above the lowest.
abbrev pub joined : ℕ → ℕ → ℕ
joined above lowest = above * 2 + lowest

by_digit :
    (z : ℕ → ℕ) (f : ℕ → ℕ → ℕ) (x y : ℕ)
    → bitwise z f (suc x) y ≡ joined (bitwise z f (suc x / 2) (y / 2)) (f (suc x % 2) (y % 2))
by_digit z f x y =
    let rounds = digits_rounds z f x (suc x / 2) (suc x / 2) (y / 2) in
    omega (arith, rounds (omega arith) (le_refl _))

pub bit_and_step : (x y : ℕ) → bit_and x y ≡ joined (bit_and (x / 2) (y / 2)) (min (x % 2) (y % 2))
bit_and_step zero y = simp bit_and-bitwise (omega arith)
bit_and_step (suc x) y = simp bit_and-bitwise (by_digit (λ _. 0) min x y)

-- The remainder by a power of two, one digit at a time.
pub mod_two_pow_suc : (a k : ℕ) → a % 2 ^ suc k ≡ (a / 2 % 2 ^ k) * 2 + a % 2
mod_two_pow_suc a k =
    ap (λ t. t % 2 ^ suc k) split
    ∙ add-mul-mod_self_right low (a / 2 / 2 ^ k) (2 ^ suc k)
    ∙ mod-eq_of_lt low_lt
  where
    low : ℕ
    low = (a / 2 % 2 ^ k) * 2 + a % 2

    low_lt : low < 2 ^ suc k
    low_lt = omega (arith, pow-succ' 2 k, one-le-pow k 2 (omega arith))

    split : a ≡ low + a / 2 / 2 ^ k * 2 ^ suc k
    split =
        omega
          (arith, div-add-mod' (a / 2) (2 ^ k), ap (λ (t : ℕ). a / 2 / 2 ^ k * t) (pow-succ' 2 k))

bit_and-zero_rounds : (n a : ℕ) → a ≤ n → bit_and a 0 ≡ 0
bit_and-zero_rounds zero a h = let e : 0 ≡ a = omega arith in rw (← e)
bit_and-zero_rounds (suc n) zero h = refl
bit_and-zero_rounds (suc n) (suc a) h =
    omega (arith, bit_and_step (suc a) 0, bit_and-zero_rounds n (suc a / 2) (omega arith))

-- `x & ((1 << k) - 1)` is `x % 2 ^ k`.
pub bit_and-low_mask : (k a : ℕ) → bit_and a (low_mask k) ≡ a % 2 ^ k
bit_and-low_mask zero a = bit_and-zero_rounds a a (le_refl _) ∙ omega arith
bit_and-low_mask (suc k) a = omega (
  arith,
  bit_and_step a (low_mask (suc k)),
  ap (λ t. bit_and (a / 2) t) half,
  bit_and-low_mask k (a / 2),
  mod_two_pow_suc a k,
  pow-succ' 2 k,
  one-le-pow k 2 (omega arith),
)
  where
    half : low_mask (suc k) / 2 ≡ low_mask k
    half = omega (arith, pow-succ' 2 k, one-le-pow k 2 (omega arith))

bit_and_zero-le : (b : ℕ) → bit_and 0 b ≤ b
bit_and_zero-le b = simp bit_and-bitwise (omega arith)

-- A mask never lets more through than it has itself.
pub bit_and-le_right : (n a b : ℕ) → a ≤ n → bit_and a b ≤ b
bit_and-le_right zero a b h = let e : 0 ≡ a = omega arith in rw (← e) (bit_and_zero-le b)
bit_and-le_right (suc n) zero b h = bit_and_zero-le b
bit_and-le_right (suc n) (suc a) b h =
    omega (arith, bit_and_step (suc a) b, bit_and-le_right n (suc a / 2) (b / 2) (omega arith))

differ_digit : (x y : ℕ) → x < 2 → y < 2 → differ x y ≡ (x + y) % 2
differ_digit zero y p q = omega arith
differ_digit (suc zero) zero p q = refl
differ_digit (suc zero) (suc zero) p q = refl
differ_digit (suc zero) (suc (suc y)) p q = absurd (omega arith)
differ_digit (suc (suc x)) y p q = absurd (omega arith)

pub bit_xor_step : (x y : ℕ) → bit_xor x y ≡ joined (bit_xor (x / 2) (y / 2)) ((x % 2 + y % 2) % 2)
bit_xor_step zero y = simp bit_xor-bitwise (omega arith)
bit_xor_step (suc x) y = simp bit_xor-bitwise (
    by_digit (λ t. t) differ x y
    ∙ ap (joined (bitwise (λ t. t) differ (suc x / 2) (y / 2)))
        (differ_digit (suc x % 2) (y % 2) (omega arith) (omega arith)))

-- The exclusive or of two numbers below 2 ^ k is below 2 ^ k.
pub bit_xor-lt : (k x y : ℕ) → x < 2 ^ k → y < 2 ^ k → bit_xor x y < 2 ^ k
bit_xor-lt zero x y p q =
    let e : 0 ≡ x = omega arith in let d : 0 ≡ y = omega arith in rw (← e, ← d) (le_refl 1)
bit_xor-lt (suc k) x y p q =
    let half = pow-succ' 2 k in
    let rest = bit_xor-lt k (x / 2) (y / 2) (omega (arith, half)) (omega (arith, half)) in
    omega (arith, bit_xor_step x y, half, rest)
