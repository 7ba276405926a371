-- ===== src/Base/Words.antt =====
-- Fixed widths: wrap-around by `%`, shifts by `*` and `/`, and low masks.
use Prim.Native.Nat.{ℕ, ◌+◌, ◌-◌, ◌*◌, ◌/◌, ◌%◌, ◌^◌, ◌<◌, bit_and, bit_xor}
use mathlib.Core.Path.{◌≡◌}
use native.Mathlib.Omega.{arith}
use ternary_geo_bp.Base.Tests.{ltb, if◌then◌else◌}

abbrev pub u8 : ℕ → ℕ
u8 n = n % 2 ^ 8

abbrev pub u16 : ℕ → ℕ
u16 n = n % 2 ^ 16

abbrev pub u32 : ℕ → ℕ
u32 n = n % 2 ^ 32

abbrev pub u64 : ℕ → ℕ
u64 n = n % 2 ^ 64

infixl 75 ◌<<<◌ ◌>>>◌
abbrev pub ◌<<<◌ : ℕ → ℕ → ℕ
x <<< k = x * 2 ^ k

abbrev pub ◌>>>◌ : ℕ → ℕ → ℕ
x >>> k = x / 2 ^ k

-- (1 << k) - 1
abbrev pub low_mask : ℕ → ℕ
low_mask k = 2 ^ k - 1

-- UINT64_MAX, which the scheduler calls MAX_CYCLE.
abbrev pub max_cycle : ℕ
max_cycle = 2 ^ 64 - 1

-- The word that the sources use to mark an address or a value that was never set.
abbrev pub dead_beef : ℕ
dead_beef = 0xdeadbeef

-- uint64_t a - b, which wraps.
abbrev pub sub64 : ℕ → ℕ → ℕ
sub64 a b = (a + 2 ^ 64 - b) % 2 ^ 64

infixl 60 ◌&&&◌
infixl 55 ◌^^^◌
abbrev pub ◌&&&◌ : ℕ → ℕ → ℕ
x &&& y = bit_and x y

abbrev pub ◌^^^◌ : ℕ → ℕ → ℕ
x ^^^ y = bit_xor x y

-- int x >> 1, on the word that holds x.
abbrev pub half32 : ℕ → ℕ
half32 x = x / 2 + (if ltb x (2 ^ 31) then 0 else 2 ^ 31)

-- (int64_t) x of an int, on the words that hold them.
abbrev pub extend : ℕ → ℕ
extend x = if ltb x (2 ^ 31) then x else x + 2 ^ 64 - 2 ^ 32

pub u64-small : (n : ℕ) → n < 2 ^ 64 → u64 n ≡ n
u64-small n lt = omega arith
