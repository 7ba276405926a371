-- ===== src/Interface/Summary.antt =====
-- `compute_CyclWP_summary` (cond_branch_predictor_interface.cc): the mispredictions of the log and
-- the cycles that they cost, by the number of loads that the branches depend on.
pub mod Totals
use ternary_geo_bp.Base.{
  ℕ, ◌+◌, ◌≡◌, ◌%◌, Bool, true, false, not, ◌&&◌, ◌||◌, List, [], ◌∷◌, map, arith, ltb, ◌==◌,
  if◌then◌else◌, to_ℕ, u32, u64, sub64, refl,
}
use ternary_geo_bp.Insts.{cond_branch, same_class, DebugLog}
use ternary_geo_bp.Interface.Hooks.{has_sources}

-- The entry of a key, which is the word of an int8_t: the count, an int as the word that
-- holds it, and the sum of cycles.
pub record Row : Type 0 where
  pub key : ℕ
  pub misses : ℕ
  pub cycles : ℕ

-- Whether an instruction of the log counts.
abbrev pub is_miss : DebugLog → Bool
is_miss log =
    same_class log.inst_class cond_branch && log.executed && not (log.taken == log.pred_dir)

-- CyclWP
abbrev pub cycles_of : DebugLog → ℕ
cycles_of log =
    sub64 (if ltb log.fetch_cycle log.execute_cycle then log.execute_cycle else log.fetch_cycle)
      log.pred_cycle

-- The key of a row: -1 for a branch without sources.
abbrev pub key_of : DebugLog → ℕ
key_of log = if has_sources log.src_regs then log.load_dependence else 255

-- summary[key].first += 1 and summary[key].second += cycles; the rows are in no order.
unfoldable pub add_row : ℕ → ℕ → List Row → List Row
add_row key cycles [] = record { key = key; misses = 1; cycles = cycles } ∷ []
add_row key cycles (r ∷ rs) =
    if r.key == key
    then record r { misses = u32 (r.misses + 1); cycles = u64 (r.cycles + cycles) } ∷ rs
    else r ∷ add_row key cycles rs

-- The loop over the log.
unfoldable pub summary_of : List (ℕ × DebugLog) → List Row → List Row
summary_of [] rows = rows
summary_of ((key, log) ∷ rest) rows =
    summary_of rest (if is_miss log then add_row (key_of log) (cycles_of log) rows else rows)

-- `compute_CyclWP_summary`, with `ratio` for the division of doubles.
unfoldable pub compute_cyclwp_summary :
    {D : Type 0} → (ℕ → ℕ → D) → List (ℕ × DebugLog) → List (Row × D)
compute_cyclwp_summary ratio log =
    map (λ (r : Row). (r, ratio r.cycles r.misses)) (summary_of log [])
