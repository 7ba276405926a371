-- ===== src/Pipeline/Drain/Calls.antt =====
-- The calls of the drain of the prefetches (lib/uarchsim.cc): a schedule for one cycle and an access of
-- the caches never run out of fuel.
use ternary_geo_bp.Base.{
  ℕ, suc, ◌+◌, ◌≢◌, ◌<◌, ◌^◌, Bool, Option, none, some, List, [], ◌∷◌, arith, out_of_fuel, get_or,
}
use ternary_geo_bp.Cache.{Block, no_block, Cache, access, age_below, update_lru, victim}
use ternary_geo_bp.Schedule.{Schedule, grow, resize, schedule, schedule_from}

grow-ends : (s : Schedule) (cycle : ℕ) → grow s cycle ≢ out_of_fuel
unfolding grow resize
grow-ends s cycle = ground arith

-- A schedule for one cycle only, which looks at no other.
pub schedule-ends :
    (fuel : ℕ) (s : Schedule) (start : ℕ)
    → start + 1 < 2 ^ 64
    → schedule (suc fuel) s start 0 ≢ out_of_fuel
unfolding schedule schedule_from
schedule-ends fuel s start word = ground (arith, grow-ends s start)

age_below-ends : (assoc mru : ℕ) (bs : List Block) → age_below assoc mru bs ≢ out_of_fuel
unfolding age_below
age_below-ends assoc mru [] = ground arith
age_below-ends assoc mru (b ∷ bs) = ground (arith, age_below-ends assoc mru bs)

update_lru-ends : (assoc : ℕ) (bs : List Block) (way : ℕ) → update_lru assoc bs way ≢ out_of_fuel
unfolding update_lru
update_lru-ends assoc bs way = ground (arith, age_below-ends assoc (get_or bs way no_block).lru bs)

victim-ends : (assoc n : ℕ) (way : Option ℕ) → victim assoc n way ≢ out_of_fuel
unfolding victim
victim-ends assoc n none = ground arith
victim-ends assoc n (some way) = ground arith

pub access-ends :
    (memory : ℕ) (levels : List Cache) (cycle : ℕ) (read : Bool) (addr : ℕ) (pf : Bool)
    → access memory levels cycle read addr pf ≢ out_of_fuel
unfolding access
access-ends memory [] cycle read addr pf = ground arith
access-ends memory (c ∷ levels) cycle read addr pf =
    grind (arith, access-ends memory levels, update_lru-ends, victim-ends)
