-- ===== src/Schedule/FirstFree.antt =====
-- `schedule` and `try_schedule` (lib/resource_schedule.cc) inside a window: the first cycle that has
-- a lane left, and what the two have in common.
use mathlib.Core.Path.{subst}
use ternary_geo_bp.Base.{
  ℕ, zero, suc, ◌+◌, ◌-◌, ◌^◌, ◌≤◌, ◌<◌, ◌≡◌, inl, inr, refl, ◌∙◌, ap, arith, ltb, leb, ◌==◌,
  if◌then◌else◌, u64, sub64, max_cycle, Run, done, assert_failed, out_of_fuel, ◌>>=◌, Bool-cases,
  lt→ltb, le→leb, ne→==, le→ltb,
}
use ternary_geo_bp.Schedule.{
  Schedule, slot, put, grow, schedule_from, schedule, try_schedule_from, try_schedule,
}
use ternary_geo_bp.Schedule.Slots.{InWindow}

-- Inside the window the array does not grow.
grow-window :
    (s : Schedule) (x : ℕ) → InWindow s x → s.base_cycle + s.depth < 2 ^ 64 → grow s x ≡ done s
unfolding grow
grow-window s x p fits = rw (le→ltb s.depth (u64 (sub64 x s.base_cycle + 1)) (omega arith))

-- The cycles from `x` on, `n` of them, have no lane left.
abbrev pub AllFull : Schedule → ℕ → ℕ → Type 0
AllFull s x n = (i : ℕ) → i < n → s.width ≤ slot s (x + i)

at_full :
    (s : Schedule) (x n : ℕ) → AllFull s x n → (i y : ℕ) → i < n → x + i ≡ y → s.width ≤ slot s y
at_full s x n full i y h e = subst (λ (t : ℕ). s.width ≤ slot s t) e (full i h)

schedule_from-free :
    (n fuel : ℕ) (s : Schedule) (x c limit : ℕ)
    → n < fuel
    → c ≡ x + n
    → AllFull s x n
    → slot s c < s.width
    → s.base_cycle ≤ x
    → c < s.base_cycle + s.depth
    → s.base_cycle + s.depth < 2 ^ 64
    → c ≤ limit
    → schedule_from fuel s x limit ≡ done (c, put s c (u64 (slot s c + 1)))
unfolding schedule_from
schedule_from-free n zero s x c limit enough at full free low high fits le = absurd (omega arith)
schedule_from-free zero (suc fuel) s x c limit enough at full free low high fits le =
    let here : x ≡ c = omega arith in
    rw (here, grow-window s c (omega arith) fits, lt→ltb (slot s c) s.width free)
schedule_from-free (suc n) (suc fuel) s x c limit enough at full free low high fits le =
    let next : u64 (x + 1) ≡ x + 1 = omega arith in
    let none_left : s.width ≤ slot s x = at_full s x (suc n) full 0 x (omega arith) (omega arith) in
    rw
      (
        grow-window s x (omega arith) fits,
        le→ltb (slot s x) s.width none_left,
        next,
        le→ltb limit (x + 1) (omega arith),
      )
      (schedule_from-free n fuel s (x + 1) c limit (omega arith) (omega arith)
        (λ i h. at_full s x (suc n) full (suc i) (x + 1 + i) (omega arith) (omega arith)) free
        (omega arith) high fits le)

-- Where every cycle up to the limit is full, the loop gives up at the limit.
schedule_from-full :
    (n fuel : ℕ) (s : Schedule) (x limit : ℕ)
    → n < fuel
    → limit ≡ x + n
    → AllFull s x (n + 1)
    → s.base_cycle ≤ x
    → limit < s.base_cycle + s.depth
    → s.base_cycle + s.depth < 2 ^ 64
    → schedule_from fuel s x limit ≡ done (max_cycle, s)
unfolding schedule_from
schedule_from-full n zero s x limit enough at full low high fits = absurd (omega arith)
schedule_from-full zero (suc fuel) s x limit enough at full low high fits =
    let none_left : s.width ≤ slot s x = at_full s x (0 + 1) full 0 x (omega arith) (omega arith) in
    rw (
      grow-window s x (omega arith) fits,
      le→ltb (slot s x) s.width none_left,
      lt→ltb limit (u64 (x + 1)) (omega arith),
    )
schedule_from-full (suc n) (suc fuel) s x limit enough at full low high fits =
    let next : u64 (x + 1) ≡ x + 1 = omega arith in
    let none_left : s.width ≤ slot s x =
      at_full s x (suc n + 1) full 0 x (omega arith) (omega arith) in
    rw
      (
        grow-window s x (omega arith) fits,
        le→ltb (slot s x) s.width none_left,
        next,
        le→ltb limit (x + 1) (omega arith),
      )
      (schedule_from-full n fuel s (x + 1) limit (omega arith) (omega arith)
        (λ i h. at_full s x (suc n + 1) full (suc i) (x + 1 + i) (omega arith) (omega arith))
        (omega arith) high fits)

-- `schedule` takes the first cycle, from `start` on, that has a lane left, and books it: with a
-- free cycle `c` in the window, no free cycle before it, and `c` within `max_delta`, it returns
-- `c` and adds one to the slot of `c`, where no cycle or width reaches 2 ^ 64. As much fuel as there
-- are cycles to look at is enough.
pub schedule-first_free :
    (fuel : ℕ) (s : Schedule) (start c max_delta : ℕ)
    → s.base_cycle ≤ start
    → start ≤ c
    → c < s.base_cycle + s.depth
    → s.base_cycle + s.depth < 2 ^ 64
    → AllFull s start (c - start)
    → slot s c < s.width
    → s.width < 2 ^ 64
    → c ≤ start + max_delta
    → start + max_delta < 2 ^ 64
    → c - start < fuel
    → schedule fuel s start max_delta ≡ done (c, put s c (slot s c + 1))
unfolding schedule
schedule-first_free fuel s start c max_delta low le high fits full free width reach no_wrap enough =
    rw (le→leb s.base_cycle start low) (
      schedule_from-free (c - start) fuel s start c _ enough (omega arith) full free low high fits
        within
      ∙ ap (λ n. done (c, put s c n)) (omega arith))
  where
    within : c ≤ (if max_delta == max_cycle then max_cycle else u64 (start + max_delta))
    within = ground arith

-- Where no cycle from `start` to `start + max_delta` has a lane left, and these cycles are in the
-- window and below 2 ^ 64, `schedule` returns MAX_CYCLE and books nothing. More fuel than
-- `max_delta` is enough.
pub schedule-full :
    (fuel : ℕ) (s : Schedule) (start max_delta : ℕ)
    → s.base_cycle ≤ start
    → start + max_delta < s.base_cycle + s.depth
    → s.base_cycle + s.depth < 2 ^ 64
    → AllFull s start (max_delta + 1)
    → max_delta < fuel
    → schedule fuel s start max_delta ≡ done (max_cycle, s)
unfolding schedule
schedule-full fuel s start max_delta low high fits full enough =
    rw (le→leb s.base_cycle start low, ne→== max_delta max_cycle (omega arith))
      (schedule_from-full max_delta fuel s start _ enough (omega arith) full low (omega arith) fits)

-- What `schedule` does after `try_schedule` has found the cycle.
abbrev pub book : ℕ × Schedule → Run (ℕ × Schedule)
book r = done (r.0, put r.1 r.0 (u64 (slot r.1 r.0 + 1)))

schedule_from-try :
    (fuel : ℕ) (s : Schedule) (x : ℕ)
    → schedule_from fuel s x max_cycle ≡ (try_schedule_from fuel s x >>= book)
unfolding schedule_from try_schedule_from
schedule_from-try zero s x = refl
schedule_from-try (suc fuel) s x = look (grow s x) (λ s'. schedule_from-try fuel s' (u64 (x + 1)))
  where
    look :
        (r : Run Schedule)
        → ((s' : Schedule)
            → schedule_from fuel s' (u64 (x + 1)) max_cycle
              ≡ (try_schedule_from fuel s' (u64 (x + 1)) >>= book))
        → (r >>= λ s'.
            if ltb (slot s' x) s'.width
            then done (x, put s' x (u64 (slot s' x + 1)))
            else if ltb max_cycle (u64 (x + 1))
            then done (max_cycle, s')
            else schedule_from fuel s' (u64 (x + 1)) max_cycle)
          ≡ (r
              >>= (λ s'.
                  if ltb (slot s' x) s'.width
                  then done (x, s')
                  else try_schedule_from fuel s' (u64 (x + 1)))
              >>= book)
    look (done s') rest =
        rw (le→ltb max_cycle (u64 (x + 1)) (omega arith))
          (elim (Bool-cases (ltb (slot s' x) s'.width)) [
            | inl free ↦ rw free
            | inr full ↦ rw full (rest s')
          ])
    look assert_failed rest = refl
    look out_of_fuel rest = refl

-- Without a limit, `schedule` books exactly the cycle that `try_schedule` finds, and stops at the
-- same failed asserts: it is `try_schedule` and then one more operation in the slot of the result.
pub schedule-try_schedule :
    (fuel : ℕ) (s : Schedule) (start : ℕ)
    → schedule fuel s start max_cycle ≡ (try_schedule fuel s start >>= book)
unfolding schedule try_schedule
schedule-try_schedule fuel s start = elim (Bool-cases (leb s.base_cycle start)) [
  | inl low ↦ rw low (schedule_from-try fuel s start)
  | inr high ↦ rw high
]
