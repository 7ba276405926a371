-- ===== src/Schedule.antt =====
-- lib/resource_schedule.h and lib/resource_schedule.cc: how many operations each cycle of a window
-- takes on the lanes of a resource. Slot `cycle & (depth - 1)` of the array counts those of a cycle;
-- the array grows when a cycle past its depth is asked for. Cycles are uint64_t.
-- A loop that looks for a free cycle has fuel, one unit for each cycle that it looks at.
pub mod Slots
pub mod FirstFree
pub mod Window
mod Tests
use ternary_geo_bp.Base.{
  ℕ, zero, suc, ◌+◌, ◌-◌, ◌*◌, ◌/◌, ◌%◌, ◌≡◌, Bool, true, false, List, [], ◌∷◌, ◌++◌, bit_and, ltb,
  leb, ◌==◌, if◌then◌else◌, get_or, set, replicate, u64, sub64, max_cycle, Run, done, assert_failed,
  out_of_fuel, ◌>>=◌, ◌>>◌, assert,
}

-- resource_schedule
pub record Schedule : Type 0 where
  pub sched : List ℕ
  pub depth : ℕ
  pub width : ℕ
  pub base_cycle : ℕ

-- SCHED_DEPTH_INCREMENT
abbrev pub depth_increment : ℕ
depth_increment = 256

-- MOD_S
abbrev pub mod_s : ℕ → ℕ → ℕ
mod_s x y = bit_and x (sub64 y 1)

-- The constructor.
unfoldable pub init : ℕ → Schedule
init width = record {
  sched = replicate depth_increment 0;
  depth = depth_increment;
  width = width;
  base_cycle = 0;
}

-- The depth that `resize` rounds up to.
abbrev pub round_up : ℕ → ℕ
round_up new_depth = u64 (
    (new_depth / depth_increment + (if new_depth % depth_increment == 0 then 0 else 1))
    * depth_increment)

-- `resize`. It is called with more than the old depth, so the copy fits the new array.
unfoldable pub resize : Schedule → ℕ → Run Schedule
resize s new_depth = do
  assert (leb new_depth (round_up new_depth))
  assert (leb s.depth (round_up new_depth))
  done (record s {
    sched = s.sched ++ replicate (round_up new_depth - s.depth) 0;
    depth = round_up new_depth;
  })

-- sched[MOD_S(cycle, depth)]
abbrev pub slot : Schedule → ℕ → ℕ
slot s cycle = get_or s.sched (mod_s cycle s.depth) 0

-- sched[MOD_S(cycle, depth)] = n
abbrev pub put : Schedule → ℕ → ℕ → Schedule
put s cycle n = record s { sched = set s.sched (mod_s cycle s.depth) n }

-- The first `if` of both loops.
unfoldable pub grow : Schedule → ℕ → Run Schedule
grow s cycle =
    let new_depth = u64 (sub64 cycle s.base_cycle + 1) in
    if ltb s.depth new_depth then resize s new_depth else done s

-- The loop of `schedule`.
unfoldable pub schedule_from : ℕ → Schedule → ℕ → ℕ → Run (ℕ × Schedule)
schedule_from zero s start_cycle limit_cycle = out_of_fuel
schedule_from (suc fuel) s start_cycle limit_cycle = do
  s' ← grow s start_cycle
  let next_cycle = u64 (start_cycle + 1)
  let rest = schedule_from fuel s' next_cycle limit_cycle
  let taken = put s' start_cycle (u64 (slot s' start_cycle + 1))
  (if ltb (slot s' start_cycle) s'.width
      then done (start_cycle, taken)
      else if ltb limit_cycle next_cycle
      then done (max_cycle, s')
      else rest)

-- `schedule`
unfoldable pub schedule : ℕ → Schedule → ℕ → ℕ → Run (ℕ × Schedule)
schedule fuel s start_cycle max_delta = do
  assert (leb s.base_cycle start_cycle)
  schedule_from fuel s start_cycle
      (if max_delta == max_cycle then max_cycle else u64 (start_cycle + max_delta))

-- The loop of `try_schedule`.
unfoldable pub try_schedule_from : ℕ → Schedule → ℕ → Run (ℕ × Schedule)
try_schedule_from zero s try_cycle = out_of_fuel
try_schedule_from (suc fuel) s try_cycle = do
  s' ← grow s try_cycle
  let rest = try_schedule_from fuel s' (u64 (try_cycle + 1))
  if ltb (slot s' try_cycle) s'.width then done (try_cycle, s') else rest

-- `try_schedule`
unfoldable pub try_schedule : ℕ → Schedule → ℕ → Run (ℕ × Schedule)
try_schedule fuel s try_cycle = do
  assert (leb s.base_cycle try_cycle)
  try_schedule_from fuel s try_cycle

-- The loop of `advance_base_cycle` over `n` cycles from `i` on.
unfoldable pub clear_from : ℕ → Schedule → ℕ → Schedule
clear_from zero s i = s
clear_from (suc n) s i = clear_from n (put s i 0) (i + 1)

-- `advance_base_cycle`
unfoldable pub advance_base_cycle : Schedule → ℕ → Run Schedule
advance_base_cycle s new_base_cycle = do
  assert (leb s.base_cycle new_base_cycle)
  let cleared = clear_from (new_base_cycle - s.base_cycle) s s.base_cycle
  done (record cleared { base_cycle = new_base_cycle })
