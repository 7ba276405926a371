-- ===== src/Schedule/Tests.antt =====
-- A resource of two lanes.
use ternary_geo_bp.Base.{
  ℕ, zero, suc, ◌≤◌, ◌≡◌, refl, [], ◌∷◌, arith, get_or, max_cycle, done, assert_failed, ◌>>=◌,
}
use ternary_geo_bp.Schedule.{
  Schedule, put, grow, schedule_from, schedule, try_schedule, advance_base_cycle,
}
use ternary_geo_bp.Schedule.Slots.{HasWindow}
use ternary_geo_bp.Schedule.FirstFree.{
  AllFull, book, schedule-first_free, schedule-full, schedule-try_schedule,
}
use ternary_geo_bp.Schedule.Window.{
  IsBounded, Advanced, schedule-IsBounded, advance_base_cycle-Advanced,
}

-- Four slots, with cycle 9 full and cycle 10 half full.
abbrev four : Schedule
four = record { sched = 0 ∷ 2 ∷ 1 ∷ 0 ∷ []; depth = 4; width = 2; base_cycle = 8 }

four-HasWindow : HasWindow 2 four
four-HasWindow = record { power = refl; small = omega arith; array = refl }

four-IsBounded : IsBounded 2 four
four-IsBounded = record { same_width = refl; bounded = each }
  where
    each : (i : ℕ) → get_or four.sched i 0 ≤ 2
    each zero = omega arith
    each (suc zero) = omega arith
    each (suc (suc zero)) = omega arith
    each (suc (suc (suc zero))) = omega arith
    each (suc (suc (suc (suc i)))) = omega arith

nine_full : AllFull four 9 1
nine_full zero h = omega arith
nine_full (suc i) h = absurd (omega arith)

next_free : schedule 5 four 9 max_cycle ≡ done (10, put four 10 2)
unfolding schedule schedule_from grow
next_free = refl

too_early : schedule 5 four 7 max_cycle ≡ assert_failed
unfolding schedule
too_early = refl

schedule-first_free_example : schedule 3 four 9 5 ≡ done (10, put four 10 2)
schedule-first_free_example =
    schedule-first_free 3 four 9 10 5 (omega arith) (omega arith) (omega arith) (omega arith)
      nine_full (omega arith) (omega arith) (omega arith) (omega arith) (omega arith)

schedule-full_example : schedule 3 four 9 0 ≡ done (max_cycle, four)
schedule-full_example =
    schedule-full 3 four 9 0 (omega arith) (omega arith) (omega arith) nine_full (omega arith)

schedule-try_schedule_example : schedule 5 four 9 max_cycle ≡ (try_schedule 5 four 9 >>= book)
schedule-try_schedule_example = schedule-try_schedule 5 four 9

schedule-IsBounded_example : IsBounded 2 (put four 10 2)
schedule-IsBounded_example =
    schedule-IsBounded 2 5 four (put four 10 2) 9 max_cycle 10 (omega arith) next_free
      four-IsBounded

advance_base_cycle-Advanced_example :
    (s' : Schedule) × (advance_base_cycle four 10 ≡ done s') × Advanced 2 four 10 s'
advance_base_cycle-Advanced_example =
    advance_base_cycle-Advanced 2 four 10 four-HasWindow (omega arith) (omega arith)
