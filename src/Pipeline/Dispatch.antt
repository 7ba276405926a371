-- ===== src/Pipeline/Dispatch.antt =====
-- The part of `step` (lib/uarchsim.cc) that follows the execution of an instruction: its results, its
-- entry in the window and in the queues, and the end of an epoch.
pub mod Operands
pub mod Pending
use ternary_geo_bp.Base.{
  ℕ, zero, suc, ◌+◌, Bool, false, not, ◌&&◌, ◌||◌, none, some, List, [], ◌∷◌, ◌++◌, ltb, leb, ◌==◌,
  if◌then◌else◌, length, set, u64, sub64, to_ℕ, dead_beef, assign_key, Run, done, assert_failed,
  ◌>>=◌, ◌>>◌, assert,
}
use ternary_geo_bp.Insts.{
  DecodeInfo, ExecuteInfo, is_br, is_cond_br, is_mem, no_decode_info, no_execute_info,
}
use ternary_geo_bp.Branch.{notify_begin_new_epoch}
use ternary_geo_bp.Pipeline.{
  Event, Hooks, Inst, Machine, Operand, Options, PredictionResult, StoreQueueEntry, WindowEntry,
  max, rfflags, rfsize, rfzero,
}
use ternary_geo_bp.Pipeline.Execute.{Executed, access_l1}

-- window.back().retire_cycle, and 0 for an empty window.
abbrev pub last_retire : List WindowEntry → ℕ
last_retire [] = 0
last_retire (w ∷ []) = w.retire_cycle
last_retire (w ∷ (w' ∷ ws)) = last_retire (w' ∷ ws)

-- push_back of a source register.
unfoldable pub add_source : Operand → List ℕ → Run (List ℕ)
add_source op regs =
    if op.valid
    then (do assert (ltb op.log_reg rfsize); done (regs ++ (op.log_reg ∷ [])))
    else done regs

-- `populate_decode_info`
unfoldable pub populate_decode_info : Inst → Run DecodeInfo
populate_decode_info inst = do
  a ← add_source inst.a []
  b ← add_source inst.b a
  c ← add_source inst.c b
  let info = record no_decode_info { insn_class = inst.insn_class; src_reg_info = c }
  (if inst.d.valid
      then (do
        assert (ltb inst.d.log_reg rfsize)
        done (record info { dst_reg_info = some inst.d.log_reg }))
      else done info)

-- `populate_exec_info`
unfoldable pub populate_exec_info : Inst → Run ExecuteInfo
populate_exec_info inst = do
  dec_info ← populate_decode_info inst
  assert (not (is_br inst.insn_class) || (is_cond_br inst.insn_class || inst.is_taken))
  assert (not inst.d.valid || ltb inst.d.log_reg rfsize)
  done (record no_execute_info {
    dec_info = dec_info;
    taken = (if is_br inst.insn_class then some inst.is_taken else none);
    next_pc = inst.next_pc;
    mem_va = (if inst.is_load || inst.is_store then some inst.addr else none);
    mem_sz = (if inst.is_load || inst.is_store then some inst.size else none);
    dst_reg_value = (if inst.d.valid then some inst.d.value else none);
  })

-- The loop over the `n` bytes of a store from `addr` on.
unfoldable pub store_bytes :
    ℕ → ℕ → StoreQueueEntry → List (ℕ × StoreQueueEntry) → List (ℕ × StoreQueueEntry)
store_bytes zero addr e sq = sq
store_bytes (suc n) addr e sq = store_bytes n (u64 (addr + 1)) e (assign_key addr e sq)

module _ {P I V : Type 0} (o : Options) where
  -- The destination register: `squash`, and RF.
  unfoldable pub write_destination :
      Machine P I V → Inst → PredictionResult → ℕ → Run (Bool × Machine P I V)
  write_destination m inst pred exec_cycle =
      if inst.d.valid
      then (do
        assert (ltb inst.d.log_reg rfsize)
        let right = pred.speculate && pred.predicted_value == inst.d.value
        let wrong = pred.speculate && not (pred.predicted_value == inst.d.value)
        (if inst.d.log_reg == rfzero
            then done (false, m)
            else done (
              wrong,
              record m {
                rf = set m.rf inst.d.log_reg (if right then m.fetch_cycle else exec_cycle);
              },
            )))
      else done (false, m)

  -- The bytes of a store.
  unfoldable pub write_store : Machine P I V → Inst → ℕ → Run (Machine P I V)
  write_store m inst exec_cycle =
      if inst.is_store
      then (do
        (data_cache_cycle, m') ←
            (if not o.write_allocate || o.perfect_cache
              then done (exec_cycle, m)
              else access_l1 o m exec_cycle inst.addr false)
        let e : StoreQueueEntry = record {
          exec_cycle = exec_cycle;
          ret_cycle = max data_cache_cycle (last_retire m'.window);
        }
        done (record m' { sq = store_bytes inst.size inst.addr e m'.sq }))
      else done m

  -- The counters, from `num_uop` on and from `num_eligible` on.
  unfoldable pub count_inst : Machine P I V → Inst → ℕ → Machine P I V
  count_inst m inst exec_cycle = record m {
    num_uop = u64 (m.num_uop + 1);
    num_inst = u64 (m.num_inst + to_ℕ inst.is_last_piece);
    cycle = max m.cycle exec_cycle;
  }

  unfoldable pub count_values : Machine P I V → Bool → Bool → Bool → Machine P I V
  count_values m predictable speculate squash = record m {
    num_eligible = u64 (m.num_eligible + to_ℕ predictable);
    num_correct = u64 (m.num_correct + to_ℕ (predictable && speculate && not squash));
    num_incorrect = u64 (m.num_incorrect + to_ℕ (predictable && speculate && squash));
  }

  -- The new entry of the window.
  abbrev pub entry_of :
      Machine P I V → Inst → ℕ → ℕ → ExecuteInfo → Executed (Machine P I V) → WindowEntry
  entry_of m inst seq_no piece info x = record {
    seq_no = seq_no;
    piece = piece;
    pc = inst.pc;
    fetch_cycle = m.fetch_cycle;
    decode_cycle = u64 (m.fetch_cycle + o.dq_latency);
    exec_cycle = x.exec_cycle;
    exec_info = info;
    retire_cycle = max x.exec_cycle (last_retire m.window);
    pred_taken = false;
    addr = (if inst.is_load || inst.is_store then inst.addr else dead_beef);
    value = (if inst.d.valid && not (inst.d.log_reg == rfflags) then inst.d.value else dead_beef);
    latency = x.latency;
  }

  -- The window and the queues: `Manage window: dispatch`.
  unfoldable pub dispatch :
      Hooks P
      → Machine P I V
      → Inst
      → ℕ
      → ℕ
      → Executed (Machine P I V)
      → Run (ExecuteInfo × Machine P I V)
  dispatch hooks m inst seq_no piece x = do
    info ← populate_exec_info inst
    assert (ltb m.fetch_cycle x.exec_cycle)
    let w = entry_of m inst seq_no piece info x
    assert (leb (length m.window + 1) m.window_capacity)
    let mem = is_mem inst.insn_class
    assert (not mem || leb (length m.aq + 1) m.window_capacity)
    let event_at : ℕ → Event = λ c. record { seq_no = seq_no; piece = piece; at_cycle = c }
    done (
      info,
      record m {
        window = m.window ++ (w ∷ []);
        dq = m.dq ++ (event_at w.decode_cycle ∷ []);
        aq = (if mem then m.aq ++ (event_at x.agen_cycle ∷ []) else m.aq);
        eq = m.eq ++ (event_at x.exec_cycle ∷ []);
        bp = record m.bp {
          cond = hooks.notify_instr_fetch m.bp.cond seq_no piece inst.pc m.fetch_cycle;
        };
      },
    )

module _ {P I V : Type 0} where
  -- `end_current_begin_new_epoch`
  unfoldable pub end_current_begin_new_epoch : Machine P I V → Bool → Bool → ℕ → Run (Machine P I V)
  end_current_begin_new_epoch m first_epoch last_epoch epoch_end_cycle = do
    assert (first_epoch || ltb m.last_epoch_end_cycle epoch_end_cycle)
    cycles ←
        (if first_epoch then done m.num_cycles_per_epoch else elim m.num_cycles_per_epoch [
          | [] ↦ assert_failed
          | c ∷ cs ↦ done (sub64 epoch_end_cycle m.last_epoch_end_cycle ∷ cs)
        ])
    let ended = record m { num_cycles_per_epoch = cycles; last_epoch_end_cycle = epoch_end_cycle }
    (if last_epoch
        then done ended
        else done (record ended {
          num_insts_per_epoch = 0 ∷ ended.num_insts_per_epoch;
          num_cycles_per_epoch = 0 ∷ ended.num_cycles_per_epoch;
          bp = notify_begin_new_epoch ended.bp;
        }))
