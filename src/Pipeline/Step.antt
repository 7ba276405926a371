-- ===== src/Pipeline/Step.antt =====
-- The constructor and `step` of uarchsim_t (lib/uarchsim.cc), from the parts of the other files.
use ternary_geo_bp.Base.{
  ℕ, ◌+◌, true, false, not, List, [], ◌∷◌, ltb, leb, ◌==◌, if◌then◌else◌, u8, u64, to_ℕ, replicate,
  Run, done, assert_failed, ◌>>=◌, ◌>>◌, assert,
}
use ternary_geo_bp.Branch.{BranchUnit, Conditional, Indirect}
use ternary_geo_bp.Cache.{Cache, access}
use ternary_geo_bp.Schedule
use ternary_geo_bp.Prefetcher
use ternary_geo_bp.Pipeline.{
  Hooks, Inst, Machine, Options, ValuePredictor, pending_of, with_pending, rfsize,
}
use ternary_geo_bp.Pipeline.Events.{advance}
use ternary_geo_bp.Pipeline.Value.{predict_value}
use ternary_geo_bp.Pipeline.Execute.{execute}
use ternary_geo_bp.Pipeline.Drain.{drain}
use ternary_geo_bp.Pipeline.Dispatch.{
  write_destination, write_store, count_inst, count_values, dispatch, end_current_begin_new_epoch,
}
use ternary_geo_bp.Pipeline.Fetch.{manage_fetch, predict_branch, mark_predicted, advance_lanes}

-- uarchsim_t(): from the window size, the numbers of lanes, the caches, the predictors, and
-- what the storage of cycles_on_wrong_path held.
unfoldable pub init :
    {P I V : Type 0}
    → ℕ
    → ℕ
    → ℕ
    → Cache
    → Cache
    → List Cache
    → BranchUnit P I
    → V
    → ℕ
    → Run (Machine P I V)
init window_size num_ldst_lanes num_alu_lanes l1 ic shared bp vp garbage = do
  assert (not (window_size == 0))
  assert (ltb 0 num_ldst_lanes)
  assert (ltb 0 num_alu_lanes)
  end_current_begin_new_epoch
      (record {
        num_fetched = 0;
        num_fetched_branch = 0;
        window = [];
        window_capacity = window_size;
        alu_lanes = ternary_geo_bp.Schedule.init num_alu_lanes;
        ldst_lanes = ternary_geo_bp.Schedule.init num_ldst_lanes;
        rf = replicate rfsize 0;
        sq = [];
        dq = [];
        aq = [];
        eq = [];
        l1 = l1;
        ic = ic;
        shared = shared;
        fetch_cycle = 0;
        previous_fetch_cycle = 0;
        bp = bp;
        prefetcher = ternary_geo_bp.Prefetcher.init;
        num_inst = 0;
        num_uop = 0;
        cycle = 0;
        num_insts_per_epoch = [];
        num_cycles_per_epoch = [];
        last_epoch_end_cycle = 0;
        num_eligible = 0;
        num_correct = 0;
        num_incorrect = 0;
        num_load = 0;
        num_load_sqmiss = 0;
        cycles_on_wrong_path = garbage;
        stat_pfs_issued_to_mem = 0;
        piece = 255;
        vp = vp;
      })
      true false 0

module _ {P I V : Type 0} (hooks : Hooks P) (cond : Conditional P) (ind : Indirect I)
    (vpi : ValuePredictor V) (bo : ternary_geo_bp.Branch.Options) (o : Options) where
  -- The cycles from one fetch cycle to another.
  unfoldable pub advance_machine : Machine P I V → ℕ → ℕ → Run (Machine P I V)
  advance_machine m from to = do
    p ← advance hooks vpi o (pending_of m) from to
    done (with_pending m p)

  -- The instruction cache.
  unfoldable pub fetch_icache : Machine P I V → Inst → Run (Machine P I V)
  fetch_icache m inst =
      if o.fetch_model_icache
      then (do
        (next_fetch_cycle, levels) ←
            access o.main_memory_latency (m.ic ∷ m.shared) m.fetch_cycle true inst.pc false
        m' ← elim levels [
          | [] ↦ done m
          | ic ∷ shared ↦ done (record m { ic = ic; shared = shared })
        ]
        assert (leb m.fetch_cycle next_fetch_cycle)
        m'' ← advance_machine m' m.fetch_cycle next_fetch_cycle
        done (record m'' { fetch_cycle = next_fetch_cycle }))
      else done m

  -- From the start of `step` to the fetch of the instruction.
  unfoldable pub fetch : Machine P I V → Inst → Run (Machine P I V)
  fetch m0 inst = do
    let m = record m0 { piece = (if m0.piece == 255 then 0 else u8 (m0.piece + 1)) }
    assert (leb m.previous_fetch_cycle m.fetch_cycle)
    m' ← advance_machine m m.previous_fetch_cycle m.fetch_cycle
    fetch_icache m' inst

  -- The last piece of an instruction, and the end of an epoch.
  unfoldable pub end_inst : Machine P I V → Inst → ℕ → Run (Machine P I V)
  end_inst m inst predict_cycle = elim m.num_insts_per_epoch [
    | [] ↦ assert_failed
    | n ∷ ns ↦
        let n' = u64 (n + to_ℕ inst.is_last_piece) in
        let m' = record m {
          piece = (if inst.is_last_piece then 255 else m.piece);
          num_insts_per_epoch = n' ∷ ns;
        } in
        if n' == o.epoch_size_insts
        then end_current_begin_new_epoch m' false false predict_cycle
        else done m'
  ]

  -- `step`. `fuel` is for the searches for a lane.
  unfoldable pub step : ℕ → Machine P I V → Inst → Run (Machine P I V)
  step fuel m0 inst = do
    m1 ← fetch m0 inst
    let seq_no = m1.num_uop
    let piece = m1.piece
    (predictable, pred, m2) ← predict_value o vpi fuel m1 seq_no piece inst
    x ← execute o fuel m2 inst
    m3 ← drain o fuel x.machine
    let m4 = count_inst o m3 inst x.exec_cycle
    (squash, m5) ← write_destination o m4 inst pred x.exec_cycle
    m6 ← write_store o m5 inst x.exec_cycle
    let m7 = count_values o m6 predictable pred.speculate squash
    let predict_cycle = m7.fetch_cycle
    (info, m8) ← dispatch o hooks m7 inst seq_no piece x
    m9 ← manage_fetch o m8 inst squash
    (br_mispred, m10) ← predict_branch o cond ind bo m9 inst seq_no piece predict_cycle x.exec_cycle
    m11 ← mark_predicted o m10 inst info br_mispred
    m12 ← advance_lanes o m11
    end_inst m12 inst predict_cycle

  -- The instructions of a trace.
  unfoldable pub run : ℕ → Machine P I V → List Inst → Run (Machine P I V)
  run fuel m [] = done m
  run fuel m (inst ∷ rest) = do m' ← step fuel m inst; run fuel m' rest
