-- ===== src/Fifo/Tests.antt =====
-- A queue of three numbers that has wrapped.
use ternary_geo_bp.Base.{
  ℕ, zero, suc, ◌+◌, ◌-◌, ◌<◌, ◌≡◌, refl, ltb, if◌then◌else◌, [], ◌∷◌, ◌++◌, arith, get_or, done,
  assert_failed,
}
use ternary_geo_bp.Fifo.{Fifo, pop, push}
use ternary_geo_bp.Fifo.Queue.{Represents, push-Represents, pop-Represents}

abbrev two : Fifo ℕ
two = record { q = 9 ∷ 7 ∷ 8 ∷ []; size = 3; head = 2; tail = 1; length = 2 }

two-Represents : Represents 0 two (8 ∷ 9 ∷ [])
two-Represents = record {
  array = refl;
  small = omega arith;
  head_inside = omega arith;
  count = refl;
  room = omega arith;
  tail = refl;
  items = each;
}
  where
    each :
        (i : ℕ)
        → i < 2
        → get_or two.q (if ltb (2 + i) 3 then 2 + i else 2 + i - 3) 0 ≡ get_or (8 ∷ 9 ∷ []) i 0
    each zero h = refl
    each (suc zero) h = refl
    each (suc (suc i)) h = absurd (omega arith)

overflow : push (record two { length = 3 }) 1 ≡ assert_failed
unfolding push
overflow = refl

underflow : pop 0 (record two { length = 0 }) ≡ assert_failed
unfolding pop
underflow = refl

push-Represents_example :
    (f : Fifo ℕ) × (push two 5 ≡ done f) × Represents 0 f ((8 ∷ 9 ∷ []) ++ (5 ∷ []))
push-Represents_example = push-Represents 0 two (8 ∷ 9 ∷ []) 5 two-Represents (omega arith)

pop-Represents_example : (f : Fifo ℕ) × (pop 0 two ≡ done (8, f)) × Represents 0 f (9 ∷ [])
pop-Represents_example = pop-Represents 0 two 8 (9 ∷ []) two-Represents
