-- ===== src/Pipeline/Fetch.antt =====
-- The part of `step` (lib/uarchsim.cc) that finds the fetch cycle of the next instruction, from
-- `Manage fetch cycle` on, with the prediction of a branch.
use ternary_geo_bp.Base.{
  ℕ, ◌+◌, ◌-◌, Bool, true, false, not, ◌&&◌, ◌||◌, List, [], ◌∷◌, ltb, ◌==◌, if◌then◌else◌, length,
  u64, to_ℕ, Run, done, assert_failed, ◌>>=◌, ◌>>◌, assert,
}
use ternary_geo_bp.Insts.{ExecuteInfo, is_br, is_cond_br, is_uncond_br, is_uncond_ind_br}
use ternary_geo_bp.Branch.{Conditional, Indirect, predict, update_cycles_on_wrong_path}
use ternary_geo_bp.Schedule.{advance_base_cycle}
use ternary_geo_bp.Prefetcher.{get_oldest_pf_cycle}
use ternary_geo_bp.Pipeline.{Inst, Machine, Options, WindowEntry, max, min_of}
use ternary_geo_bp.Pipeline.Events.{value}
use ternary_geo_bp.Pipeline.Dispatch.{last_retire}

-- window.front().retire_cycle
abbrev pub front_retire : List WindowEntry → Run ℕ
front_retire [] = assert_failed
front_retire (w ∷ ws) = done w.retire_cycle

-- window.back().update_pred_taken
abbrev pub update_last : List WindowEntry → Bool → List WindowEntry
update_last [] taken = []
update_last (w ∷ []) taken = record w { pred_taken = taken } ∷ []
update_last (w ∷ (w' ∷ ws)) taken = w ∷ update_last (w' ∷ ws) taken

-- Whether a taken instruction may be taken.
abbrev pub taken_branch : Inst → Bool
taken_branch inst =
    (is_cond_br inst.insn_class && not (inst.next_pc == u64 (inst.pc + 4)))
    || is_uncond_br inst.insn_class

module _ {P I V : Type 0} (o : Options) where
  -- The last case of `Manage fetch cycle`: the constraints on a fetch bundle.
  unfoldable pub fetch_bundle : Machine P I V → Inst → Run (Machine P I V)
  fetch_bundle m inst =
      let fetched = u64 (m.num_fetched + to_ℕ inst.is_last_piece) in
      let branches = u64 (m.num_fetched_branch + 1) in
      let limited = ltb 0 o.fetch_width in
      let counted = ltb 0 o.fetch_num_branch && is_br inst.insn_class in
      let at_taken = o.fetch_stop_at_taken && inst.is_taken in
      let stop =
        (limited && fetched == o.fetch_width)
        || ((counted && branches == o.fetch_num_branch)
            || ((o.fetch_stop_at_indirect && is_uncond_ind_br inst.insn_class) || at_taken)) in
      do
        assert (not at_taken || taken_branch inst)
        (if stop
            then done (record m {
              num_fetched = 0;
              num_fetched_branch = 0;
              fetch_cycle = u64 (m.fetch_cycle + 1);
            })
            else done (record m {
              num_fetched = (if limited then fetched else m.num_fetched);
              num_fetched_branch = (if counted then branches else m.num_fetched_branch);
            }))

  -- `Manage fetch cycle`
  unfoldable pub manage_fetch : Machine P I V → Inst → Bool → Run (Machine P I V)
  manage_fetch m0 inst squash = do
    let m = record m0 { previous_fetch_cycle = m0.fetch_cycle }
    front ← front_retire m.window
    assert (ltb m.fetch_cycle front)
    (if squash
        then (do
          assert (ltb m.fetch_cycle (last_retire m.window))
          done (record m { num_fetched = 0; fetch_cycle = last_retire m.window }))
        else if length m.window == m.window_capacity
        then (if ltb m.fetch_cycle front
            then done (record m { num_fetched = 0; fetch_cycle = front })
            else done m)
        else fetch_bundle m inst)

  -- The prediction of a branch, and what a misprediction does to the fetch cycle.
  unfoldable pub predict_branch :
      Conditional P
      → Indirect I
      → ternary_geo_bp.Branch.Options
      → Machine P I V
      → Inst
      → ℕ
      → ℕ
      → ℕ
      → ℕ
      → Run (Bool × Machine P I V)
  predict_branch cond ind bo m inst seq_no piece predict_cycle exec_cycle =
      if o.perfect_branch_pred then done (false, m) else (do
        (misp, bp) ← predict cond ind bo m.bp (record {
          seq_no = seq_no;
          piece = piece;
          inst_class = inst.insn_class;
          pc = inst.pc;
          next_pc = inst.next_pc;
          pred_cycle = predict_cycle;
          fetch_cycle = m.fetch_cycle;
          exec_cycle = exec_cycle;
        })
        (if misp
            then (do
              let resumed = max m.fetch_cycle exec_cycle
              assert (ltb predict_cycle resumed)
              bp' ← update_cycles_on_wrong_path bp (resumed - predict_cycle)
              done (
                true,
                record m {
                  num_fetched = 0;
                  num_fetched_branch = 0;
                  fetch_cycle = resumed;
                  cycles_on_wrong_path = u64 (m.cycles_on_wrong_path + (resumed - predict_cycle));
                  bp = bp';
                },
              ))
            else done (false, record m { bp = bp })))

  -- `pred_taken` of the entry of a branch.
  unfoldable pub mark_predicted : Machine P I V → Inst → ExecuteInfo → Bool → Run (Machine P I V)
  mark_predicted m inst info br_mispred =
      if is_br inst.insn_class
      then (do
        taken ← value info.taken
        assert (is_cond_br inst.insn_class || taken)
        let predicted =
            if is_cond_br inst.insn_class then (if br_mispred then not taken else taken) else true
        done (record m { window = update_last m.window predicted }))
      else done m

  -- The lanes follow the fetch cycle, and the oldest prefetch that waits.
  unfoldable pub advance_lanes : Machine P I V → Run (Machine P I V)
  advance_lanes m = do
    let base = min_of m.fetch_cycle (get_oldest_pf_cycle m.prefetcher)
    ldst ← advance_base_cycle m.ldst_lanes base
    alu ← advance_base_cycle m.alu_lanes base
    done (record m { ldst_lanes = ldst; alu_lanes = alu })
