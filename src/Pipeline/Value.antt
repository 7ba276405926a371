-- ===== src/Pipeline/Value.antt =====
-- The value prediction of `step` (lib/uarchsim.cc): which instructions are candidates, and what the
-- value predictor is told at fetch.
use ternary_geo_bp.Base.{
  ℕ, ◌+◌, Bool, true, false, not, ◌&&◌, List, [], ◌∷◌, ◌==◌, if◌then◌else◌, u64, dead_beef, Run,
  done, assert_failed, ◌>>=◌,
}
use ternary_geo_bp.Insts.{code}
use ternary_geo_bp.Cache.{Cache, is_hit}
use ternary_geo_bp.Schedule.{try_schedule}
use ternary_geo_bp.Pipeline.{
  HitMissInfo, miss, l1d_hit, l2_hit, l3_hit, invalid, Inst, Machine, Operand, Options,
  PredictionRequest, PredictionResult, ValuePredictor, rfflags,
}
use ternary_geo_bp.Pipeline.Execute.{wait_for_sources}

-- L2 and L3 in the order in which they are asked.
abbrev pub hit_in_shared : List Cache → ℕ → ℕ → HitMissInfo
hit_in_shared [] cycle addr = miss
hit_in_shared (l2 ∷ []) cycle addr = if is_hit l2 cycle addr then l2_hit else miss
hit_in_shared (l2 ∷ (l3 ∷ rest)) cycle addr =
    if is_hit l2 cycle addr then l2_hit else if is_hit l3 cycle addr then l3_hit else miss

-- The register of an operand, or 0xDEADBEEF.
abbrev pub reg_or_none : Operand → ℕ
reg_or_none op = if op.valid then op.log_reg else dead_beef

-- Whether the instruction writes a register other than the flags.
abbrev pub is_predictable : Inst → Bool
is_predictable inst = inst.d.valid && not (inst.d.log_reg == rfflags)

abbrev pub no_prediction : PredictionResult
no_prediction = record { predicted_value = 0; speculate = false }

module _ {P I V : Type 0} (o : Options) where
  -- `get_load_exec_cycle`, which may let the lanes grow.
  unfoldable pub get_load_exec_cycle : ℕ → Machine P I V → Inst → Run (ℕ × Machine P I V)
  get_load_exec_cycle fuel m inst = do
    ready ← wait_for_sources m.rf inst (u64 (m.fetch_cycle + o.pipeline_fill_latency))
    (cycle, lanes) ← try_schedule fuel m.ldst_lanes ready
    done (u64 (cycle + 1), record m { ldst_lanes = lanes })

  -- `get_value_prediction_req_for_track`
  unfoldable pub get_value_prediction_req_for_track :
      ℕ → Machine P I V → ℕ → ℕ → Inst → Run (PredictionRequest × Machine P I V)
  get_value_prediction_req_for_track fuel m seq_no piece inst =
      let req : PredictionRequest = record {
        seq_no = seq_no;
        pc = inst.pc;
        piece = piece;
        is_candidate = inst.is_load;
        cache_hit = invalid;
      } in
      if o.vp_track == 0
      then done (record req { is_candidate = true }, m)
      else if o.vp_track == 1
      then done (req, m)
      else if o.vp_track == 2
      then (if inst.is_load
          then (do
            (exec_cycle, m') ← get_load_exec_cycle fuel m inst
            done (
              record req {
                cache_hit =
                    (if is_hit m'.l1 exec_cycle inst.addr
                      then l1d_hit
                      else hit_in_shared m'.shared exec_cycle inst.addr);
              },
              m',
            ))
          else done (req, m))
      else assert_failed

  -- The prediction at fetch: `predictable` and `pred`.
  unfoldable pub predict_value :
      ValuePredictor V
      → ℕ
      → Machine P I V
      → ℕ
      → ℕ
      → Inst
      → Run (Bool × PredictionResult × Machine P I V)
  predict_value vpi fuel m seq_no piece inst =
      if o.vp_enable
      then (do
        (req, m') ← get_value_prediction_req_for_track fuel m seq_no piece inst
        let predictable = is_predictable inst
        let (pred, v) = vpi.get_prediction m'.vp req
        let result =
            if predictable && pred.speculate && req.is_candidate
            then (if pred.predicted_value == inst.d.value then 1 else 0)
            else 2
        let v' = vpi.speculative_update v (record {
          seq_no = seq_no;
          eligible = predictable;
          prediction_result = result;
          pc = inst.pc;
          next_pc = inst.next_pc;
          insn_class = code inst.insn_class;
          piece = piece;
          src1 = reg_or_none inst.a;
          src2 = reg_or_none inst.b;
          src3 = reg_or_none inst.c;
          dst = reg_or_none inst.d;
        })
        done (
            if o.vp_perfect
            then (
              predictable && req.is_candidate,
              record {
                predicted_value = inst.d.value;
                speculate = predictable && req.is_candidate;
              },
              m',
            )
            else (
              predictable && req.is_candidate,
              record pred { speculate = pred.speculate && req.is_candidate },
              record m' { vp = v' },
            )))
      else done (is_predictable inst, no_prediction, m)
