-- ===== src/Base/Maps.antt =====
-- A std::unordered_map by numbers as a list of keys and values.
use Prim.Native.Nat.{ℕ}
use mathlib.Core.Path.{◌≡◌}
use mathlib.Core.Option.{Option, none, some}
use mathlib.Core.List.{List, [], ◌∷◌}
use native.Mathlib.Omega.{arith}
use ternary_geo_bp.Base.Tests.{◌==◌, if◌then◌else◌}

module _ {ℓ} {A : Type ℓ} where
  -- m.find (key)
  abbrev pub find_key : ℕ → List (ℕ × A) → Option A
  find_key key [] = none
  find_key key ((k, v) ∷ m) = if k == key then some v else find_key key m

  -- m.erase (key)
  abbrev pub erase_key : ℕ → List (ℕ × A) → List (ℕ × A)
  erase_key key [] = []
  erase_key key ((k, v) ∷ m) = if k == key then erase_key key m else (k, v) ∷ erase_key key m

  -- m[key] = v
  abbrev pub assign_key : ℕ → A → List (ℕ × A) → List (ℕ × A)
  assign_key key v m = (key, v) ∷ erase_key key m

  -- The value of m[key], which is `d` for a new key.
  abbrev pub value_or : A → Option A → A
  value_or d none = d
  value_or d (some v) = v

module _ {ℓ} {A : Type ℓ} where
  pub find_key-erase_key :
      (key k : ℕ) (m : List (ℕ × A))
      → find_key key (erase_key k m) ≡ (if k == key then none else find_key key m)
  find_key-erase_key key k [] = ground arith
  find_key-erase_key key k ((j, v) ∷ m) = ground (arith, find_key-erase_key key k m)

  pub find_key-assign_key :
      (key k : ℕ) (v : A) (m : List (ℕ × A))
      → find_key key (assign_key k v m) ≡ (if k == key then some v else find_key key m)
  find_key-assign_key key k v m = ground (arith, find_key-erase_key key k m)
