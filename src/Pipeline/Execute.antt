-- ===== src/Pipeline/Execute.antt =====
-- The part of `step` (lib/uarchsim.cc) that finds the cycle at which an instruction has executed: its
-- sources, a lane, and for a load the data cache and the store queue.
pub mod Sources
pub mod Range
use ternary_geo_bp.Base.{
  ℕ, zero, suc, ◌+◌, ◌-◌, ◌≡◌, Bool, true, false, not, ◌&&◌, ◌||◌, Option, none, some, List, [],
  ◌∷◌, ltb, leb, ◌==◌, if◌then◌else◌, to_ℕ, get_or, u64, sub64, ◌>>>◌, find_key, max_cycle, Run,
  done, assert_failed, ◌>>=◌, ◌>>◌, assert,
}
use ternary_geo_bp.Insts.{fp, slow_alu, same_class, is_mem}
use ternary_geo_bp.Cache.{Cache, is_hit, access}
use ternary_geo_bp.Schedule.{Schedule, schedule}
use ternary_geo_bp.Prefetcher.{Prefetcher, lookahead, train}
use ternary_geo_bp.Pipeline.{Inst, Machine, Operand, Options, StoreQueueEntry, max, rfsize, rfzero}

-- One source: where the first source is not the zero register, its cycle.
unfoldable pub wait_for : List ℕ → ℕ → Operand → ℕ → Run ℕ
wait_for rf first op exec_cycle =
    if op.valid
    then (do
      assert (ltb op.log_reg rfsize)
      done (if first == rfzero then exec_cycle else max exec_cycle (get_or rf op.log_reg 0)))
    else done exec_cycle

-- The three sources. All three tests are of the first one.
unfoldable pub wait_for_sources : List ℕ → Inst → ℕ → Run ℕ
wait_for_sources rf inst exec_cycle = do
  c1 ← wait_for rf inst.a.log_reg inst.a exec_cycle
  c2 ← wait_for rf inst.a.log_reg inst.b c1
  wait_for rf inst.a.log_reg inst.c c2

-- The latency of an instruction that is not a load.
abbrev pub latency_of : Options → Inst → ℕ
latency_of o inst =
    if same_class inst.insn_class fp
    then o.fp_exec_latency
    else if same_class inst.insn_class slow_alu
    then o.slow_alu_exec_latency
    else o.default_exec_latency

-- The loop over the `n` bytes of a load from `addr` on: temp_cycle and inc_sqmiss.
unfoldable pub search_sq : List (ℕ × StoreQueueEntry) → ℕ → ℕ → ℕ → ℕ → ℕ × Bool → ℕ × Bool
search_sq sq zero addr exec_cycle data_cache_cycle (temp, miss) = (temp, miss)
search_sq sq (suc n) addr exec_cycle data_cache_cycle (temp, miss) =
    search_sq sq n (u64 (addr + 1)) exec_cycle data_cache_cycle (elim (find_key addr sq) [
      | none ↦ (max temp data_cache_cycle, true)
      | some e ↦
          if ltb exec_cycle e.ret_cycle
          then (max temp (max exec_cycle e.exec_cycle), miss)
          else (max temp data_cache_cycle, true)
    ])

-- What the execution of an instruction finds.
pub record Executed (M : Type 0) : Type 0 where
  pub exec_cycle : ℕ
  pub agen_cycle : ℕ
  pub latency : ℕ
  pub machine : M

module _ {P I V : Type 0} (o : Options) where
  -- The levels that L1.access leaves.
  abbrev pub with_l1 : Machine P I V → List Cache → Machine P I V
  with_l1 m [] = m
  with_l1 m (c ∷ cs) = record m { l1 = c; shared = cs }

  -- L1.access
  unfoldable pub access_l1 : Machine P I V → ℕ → ℕ → Bool → Run (ℕ × Machine P I V)
  access_l1 m cycle addr pf = do
    (available, levels) ← access o.main_memory_latency (m.l1 ∷ m.shared) cycle true addr pf
    done (available, with_l1 m levels)

  -- The training of the prefetcher by a load.
  unfoldable pub train_prefetcher : Machine P I V → Inst → Run (Machine P I V)
  train_prefetcher m inst =
      if o.prefetcher_enable
      then (do
        prefetcher ←
            train (lookahead m.prefetcher (inst.pc >>> 2) m.fetch_cycle)
              (record { pc = inst.pc >>> 2; address = inst.addr })
        done (record m { prefetcher = prefetcher }))
      else done m

  -- A load that has a lane at `start`.
  unfoldable pub execute_load : Machine P I V → Inst → ℕ → Run (ℕ × ℕ × Machine P I V)
  execute_load m0 inst start =
      let agen = u64 (start + 1) in
      do
        m ← train_prefetcher m0 inst
        (data_cache_cycle, m') ←
            (if o.perfect_cache
              then done (u64 (agen + o.l1_latency), m)
              else access_l1 m agen inst.addr false)
        let searched = u64 (agen + 1)
        let (temp_cycle, inc_sqmiss) =
            search_sq m'.sq inst.size inst.addr searched data_cache_cycle (0, false)
        assert (leb searched temp_cycle)
        let latency = sub64 temp_cycle start
        assert (leb 2 latency)
        done (
          temp_cycle,
          latency,
          record m' {
            num_load = u64 (m'.num_load + 1);
            num_load_sqmiss = u64 (m'.num_load_sqmiss + to_ℕ inc_sqmiss);
          },
        )

  -- A lane for the instruction, from `ready` on.
  unfoldable pub schedule_lane : ℕ → Machine P I V → Inst → ℕ → Run (ℕ × Machine P I V)
  schedule_lane fuel m inst ready =
      if inst.is_load || inst.is_store
      then (do
        (cycle, lanes) ← schedule fuel m.ldst_lanes ready max_cycle
        done (cycle, record m { ldst_lanes = lanes }))
      else (do
        (cycle, lanes) ← schedule fuel m.alu_lanes ready max_cycle
        done (cycle, record m { alu_lanes = lanes }))

  -- From the sources to the end of the execution.
  unfoldable pub execute : ℕ → Machine P I V → Inst → Run (Executed (Machine P I V))
  execute fuel m inst = do
    ready ← wait_for_sources m.rf inst (u64 (m.fetch_cycle + o.pipeline_fill_latency))
    (start, m1) ← schedule_lane fuel m inst ready
    let agen_cycle = if is_mem inst.insn_class then u64 (start + 1) else max_cycle
    (if inst.is_load
        then (do
          (exec_cycle, latency, m2) ← execute_load m1 inst start
          done (record {
            exec_cycle = exec_cycle;
            agen_cycle = agen_cycle;
            latency = latency;
            machine = m2;
          }))
        else done (record {
          exec_cycle = u64 (start + latency_of o inst);
          agen_cycle = agen_cycle;
          latency = latency_of o inst;
          machine = m1;
        }))
