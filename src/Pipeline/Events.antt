-- ===== src/Pipeline/Events.antt =====
-- `eval_decode`, `eval_aq`, `eval_exec` and `eval_retire` (lib/uarchsim.cc): what the instructions in
-- flight do in a cycle, and the loops of `step` that run them for the cycles that are skipped.
pub mod Retired
pub mod Queues
pub mod Cycles
use ternary_geo_bp.Base.{
  ℕ, zero, suc, ◌+◌, ◌-◌, ◌≡◌, Bool, true, false, not, ◌&&◌, Option, none, some, List, [], ◌∷◌, ltb,
  leb, ◌==◌, if◌then◌else◌, u64, Run, done, assert_failed, ◌>>=◌, ◌>>◌, assert,
}
use ternary_geo_bp.Insts.{ExecuteInfo, is_mem}
use ternary_geo_bp.Pipeline.{Event, Hooks, Options, Pending, ValuePredictor, WindowEntry}

-- std::lower_bound by seq_no in a window that is sorted by it: the first entry that is not below.
abbrev pub lower_bound : List WindowEntry → ℕ → Option WindowEntry
lower_bound [] seq_no = none
lower_bound (w ∷ ws) seq_no = if ltb w.seq_no seq_no then lower_bound ws seq_no else some w

-- The asserts on the entry that was found.
unfoldable pub checked : Option WindowEntry → ℕ → ℕ → Run WindowEntry
checked none seq_no piece = assert_failed
checked (some w) seq_no piece = do assert (w.seq_no == seq_no); assert (w.piece == piece); done w

-- `locate_entry_in_window`
unfoldable pub locate_entry_in_window : List WindowEntry → ℕ → ℕ → Run WindowEntry
locate_entry_in_window window seq_no piece = checked (lower_bound window seq_no) seq_no piece

-- `value` of an optional
abbrev pub value : {A : Type 0} → Option A → Run A
value none = assert_failed
value (some a) = done a

module _ {P V : Type 0} (hooks : Hooks P) (vpi : ValuePredictor V) (o : Options) where
  -- The loop of `eval_decode`: the rest of DQ, and the predictor.
  unfoldable pub decode_from : List WindowEntry → ℕ → List Event → P → Run (List Event × P)
  decode_from window now [] p = done ([], p)
  decode_from window now (e ∷ es) p = do
    assert (leb now e.at_cycle)
    elim (now == e.at_cycle) [
      | false ↦ done (e ∷ es, p)
      | true ↦ do
        w ← locate_entry_in_window window e.seq_no e.piece
        assert (e.at_cycle == w.decode_cycle)
        decode_from window now es
            (hooks.notify_instr_decode p w.seq_no w.piece w.pc w.exec_info.dec_info now)
    ]

  -- `eval_decode`
  unfoldable pub eval_decode : Pending P V → ℕ → Run (Pending P V)
  eval_decode s now = do
    (dq, p) ← decode_from s.window now s.dq s.cond
    done (record s { dq = dq; cond = p })

  -- The loop of `eval_aq`.
  unfoldable pub agen_from : List WindowEntry → ℕ → List Event → P → Run (List Event × P)
  agen_from window now [] p = done ([], p)
  agen_from window now (e ∷ es) p = do
    assert (leb now e.at_cycle)
    elim (now == e.at_cycle) [
      | false ↦ do (es', p') ← agen_from window now es p; done (e ∷ es', p')
      | true ↦ do
        w ← locate_entry_in_window window e.seq_no e.piece
        assert (is_mem w.exec_info.dec_info.insn_class)
        assert (ltb w.decode_cycle now)
        assert (leb now w.exec_cycle)
        mem_va ← value w.exec_info.mem_va
        mem_sz ← value w.exec_info.mem_sz
        agen_from window now es (
            hooks.notify_agen_complete p w.seq_no w.piece w.pc w.exec_info.dec_info mem_va mem_sz
              now)
    ]

  -- `eval_aq`
  unfoldable pub eval_aq : Pending P V → ℕ → Run (Pending P V)
  eval_aq s now = do
    (aq, p) ← agen_from s.window now s.aq s.cond
    done (record s { aq = aq; cond = p })

  -- The loop of `eval_exec`.
  unfoldable pub exec_from : List WindowEntry → ℕ → List Event → P → Run (List Event × P)
  exec_from window now [] p = done ([], p)
  exec_from window now (e ∷ es) p = do
    assert (leb now e.at_cycle)
    elim (now == e.at_cycle) [
      | false ↦ do (es', p') ← exec_from window now es p; done (e ∷ es', p')
      | true ↦ do
        w ← locate_entry_in_window window e.seq_no e.piece
        assert (w.exec_cycle == e.at_cycle)
        exec_from window now es (
            hooks.notify_instr_execute_resolve p w.seq_no w.piece w.pc w.pred_taken w.exec_info now)
    ]

  -- `eval_exec`
  unfoldable pub eval_exec : Pending P V → ℕ → Run (Pending P V)
  eval_exec s now = do
    (eq, p) ← exec_from s.window now s.eq s.cond
    done (record s { eq = eq; cond = p })

  -- The loop of `eval_retire`: the window, and both predictors.
  unfoldable pub retire_from : ℕ → List WindowEntry → P → V → List WindowEntry × P × V
  retire_from now [] p v = ([], p, v)
  retire_from now (w ∷ ws) p v = elim (leb w.retire_cycle now) [
    | false ↦ (w ∷ ws, p, v)
    | true ↦
        retire_from now ws
          (hooks.notify_instr_commit p w.seq_no w.piece w.pc w.pred_taken w.exec_info now)
          (if o.vp_enable && not o.vp_perfect
            then vpi.update_predictor v w.seq_no w.addr w.value w.latency
            else v)
  ]

  -- `eval_retire`
  unfoldable pub eval_retire : Pending P V → ℕ → Pending P V
  eval_retire s now =
      let (window, p, v) = retire_from now s.window s.cond s.vp in
      record s { window = window; cond = p; vp = v }

  -- A cycle of the loops in `step`.
  unfoldable pub eval_cycle : Pending P V → ℕ → Run (Pending P V)
  eval_cycle s now = do
    s1 ← eval_decode s now
    s2 ← eval_aq s1 now
    s3 ← eval_exec s2 now
    done (eval_retire s3 now)

  -- `n` cycles from `now` on.
  unfoldable pub eval_cycles : ℕ → Pending P V → ℕ → Run (Pending P V)
  eval_cycles zero s now = done s
  eval_cycles (suc n) s now = do s' ← eval_cycle s now; eval_cycles n s' (now + 1)

  -- The loop of `step` from the cycle `from` up to `to`, which does nothing where they are the same.
  unfoldable pub advance : Pending P V → ℕ → ℕ → Run (Pending P V)
  advance s from to = if from == to then done s else eval_cycles (to + 1 - from) s from
