-- ===== src/Base/Outcome.antt =====
-- The outcome of code that may stop at an `assert`, read outside its data, or loop.
use mathlib.Core.Path.{◌≡◌, refl, ap}
use mathlib.Core.Bool.{Bool, true, false}

-- `assert_failed` is an `assert` that does not hold, a read that C leaves undefined, or an
-- exception.
-- `out_of_fuel` is a loop that did not end within the rounds that the model gives it.
pub data Run {ℓ} (A : Type ℓ) : Type ℓ where
  done : A → Run A
  assert_failed out_of_fuel : Run A

infixl 5 ◌>>=◌ ◌>>◌
abbrev pub ◌>>=◌ {ℓ κ} : {A : Type ℓ} {B : Type κ} → Run A → (A → Run B) → Run B
done a >>= f = f a
assert_failed >>= f = assert_failed
out_of_fuel >>= f = out_of_fuel

abbrev pub ◌>>◌ {ℓ} : {B : Type ℓ} → Run (Unit {0}) → Run B → Run B
m >> k = m >>= λ _. k

abbrev pub assert : Bool → Run (Unit {0})
assert true = done tt
assert false = assert_failed

pub >>=-eq-done {ℓ κ} :
    {A : Type ℓ} {B : Type κ} (m : Run A) (f : A → Run B) {b : B}
    → (m >>= f) ≡ done b
    → (a : A) × (m ≡ done a) × (f a ≡ done b)
>>=-eq-done (done a) f h = (a, refl, h)
>>=-eq-done assert_failed f h = cc
>>=-eq-done out_of_fuel f h = cc

value {ℓ} : {A : Type ℓ} → A → Run A → A
value d (done a) = a
value d assert_failed = d
value d out_of_fuel = d

pub done_injective {ℓ} : {A : Type ℓ} (a b : A) → done a ≡ done b → a ≡ b
unfolding value
done_injective a b e = ap (value a) e
