-- ===== src/Pipeline/Tests.antt =====
-- A pipeline with a load in flight, and a second load that is dispatched behind it.
use ternary_geo_bp.Base.{
  ℕ, ◌+◌, ◌≡◌, ◌≢◌, refl, true, false, some, [], ◌∷◌, ◌++◌, arith, replicate, set, done, Run,
  assert_failed, out_of_fuel, length, ◌≤◌, zero, suc,
}
use ternary_geo_bp.Insts.{alu, load, ExecuteInfo, no_decode_info, no_execute_info}
use ternary_geo_bp.Cache.{Cache}
use ternary_geo_bp.Schedule
use ternary_geo_bp.Schedule.{grow, put, resize, schedule, schedule_from, slot}
use ternary_geo_bp.Prefetcher
use ternary_geo_bp.Pipeline.{
  Event, Hooks, Inst, Machine, Operand, Options, Pending, ValuePredictor, WindowEntry, max,
  pending_of, rfsize, rfzero,
}
use ternary_geo_bp.Pipeline.Events.{checked, eval_cycle, advance, locate_entry_in_window}
use ternary_geo_bp.Pipeline.Events.Retired.{FrontAfter}
use ternary_geo_bp.Pipeline.Events.Cycles.{
  IsPending, Evaluated, eval_cycle-IsPending, advance-IsPending,
}
use ternary_geo_bp.Pipeline.Execute.{
  Executed, execute, execute_load, schedule_lane, search_sq, train_prefetcher, wait_for,
  wait_for_sources,
}
use ternary_geo_bp.Pipeline.Execute.Sources.{ready, wait_for_sources-latest}
use ternary_geo_bp.Pipeline.Drain.{drain}
use ternary_geo_bp.Pipeline.Drain.Ends.{Drains, drain-Drains}
use ternary_geo_bp.Pipeline.Dispatch.{dispatch, entry_of}
use ternary_geo_bp.Pipeline.Dispatch.Pending.{IsNext, dispatch-IsPending}
use ternary_geo_bp.Pipeline.Execute.Range.{AllBy, set_by}

-- Predictors without a state.
abbrev EmptyState : Type 0
EmptyState = Unit {0}

abbrev hooks : Hooks EmptyState
hooks = record {
  notify_instr_fetch = λ p a b c d. p;
  notify_instr_decode = λ p a b c d e. p;
  notify_agen_complete = λ p a b c d e f g. p;
  notify_instr_execute_resolve = λ p a b c d e f. p;
  notify_instr_commit = λ p a b c d e f. p;
}

abbrev vpi : ValuePredictor EmptyState
vpi = record {
  get_prediction = λ v r. (record { predicted_value = 0; speculate = false }, v);
  speculative_update = λ v u. v;
  update_predictor = λ v a b c d. v;
}

abbrev options : Options
options = record {
  vp_enable = false;
  vp_perfect = false;
  vp_track = 0;
  fetch_width = 16;
  fetch_num_branch = 0;
  fetch_stop_at_indirect = true;
  fetch_stop_at_taken = true;
  fetch_model_icache = false;
  perfect_branch_pred = false;
  pipeline_fill_latency = 10;
  prefetcher_enable = false;
  perfect_cache = true;
  write_allocate = true;
  l1_latency = 3;
  main_memory_latency = 150;
  default_exec_latency = 1;
  fp_exec_latency = 3;
  slow_alu_exec_latency = 4;
  dq_latency = 2;
  epoch_size_insts = 1000000;
}

abbrev load_entry : WindowEntry
load_entry = record {
  seq_no = 3;
  piece = 0;
  pc = 0x4000;
  fetch_cycle = 10;
  decode_cycle = 12;
  exec_cycle = 24;
  exec_info = record no_execute_info {
    dec_info = record no_decode_info { insn_class = load };
    mem_va = some 0x8000;
    mem_sz = some 8;
  };
  retire_cycle = 24;
  pred_taken = false;
  addr = 0x8000;
  value = 5;
  latency = 4;
}

abbrev load_at : ℕ → Event
load_at c = record { seq_no = 3; piece = 0; at_cycle = c }

abbrev small_cache : Cache
small_cache = record {
  sets = [];
  num_index_bits = 0;
  num_offset_bits = 6;
  index_mask = 0;
  assoc = 1;
  latency = 3;
  accesses = 0;
  pf_accesses = 0;
  misses = 0;
  pf_misses = 0;
}

abbrev machine : Machine EmptyState EmptyState EmptyState
machine = record {
  num_fetched = 1;
  num_fetched_branch = 0;
  window = load_entry ∷ [];
  window_capacity = 4;
  alu_lanes = ternary_geo_bp.Schedule.init 2;
  ldst_lanes = ternary_geo_bp.Schedule.init 1;
  rf = set (replicate rfsize 0) 7 24;
  sq = [];
  dq = load_at 12 ∷ [];
  aq = load_at 21 ∷ [];
  eq = load_at 24 ∷ [];
  l1 = small_cache;
  ic = small_cache;
  shared = [];
  fetch_cycle = 10;
  previous_fetch_cycle = 10;
  bp = record { cond = tt; ittage = tt; mispred_correction_seed = 0; epochs = [] };
  prefetcher = ternary_geo_bp.Prefetcher.init;
  num_inst = 4;
  num_uop = 4;
  cycle = 24;
  num_insts_per_epoch = 4 ∷ [];
  num_cycles_per_epoch = 0 ∷ [];
  last_epoch_end_cycle = 0;
  num_eligible = 0;
  num_correct = 0;
  num_incorrect = 0;
  num_load = 1;
  num_load_sqmiss = 1;
  cycles_on_wrong_path = 0;
  stat_pfs_issued_to_mem = 0;
  piece = 255;
  vp = tt;
}

located_load : locate_entry_in_window (load_entry ∷ []) 3 0 ≡ done load_entry
unfolding locate_entry_in_window checked
located_load = refl

machine-IsPending : IsPending 10 (pending_of machine)
machine-IsPending = record {
  rising = (tt, tt);
  decodes = (
    record {
      w = load_entry;
      located = located_load;
      due = omega arith;
      cycle = refl;
      retires = omega arith;
    },
    tt,
  );
  agens = (
    record {
      w = load_entry;
      located = located_load;
      due = omega arith;
      class = refl;
      decoded = omega arith;
      executes = omega arith;
      va = 0x8000;
      mem_va = refl;
      sz = 8;
      mem_sz = refl;
      retires = omega arith;
    },
    tt,
  );
  execs = (
    record {
      w = load_entry;
      located = located_load;
      due = omega arith;
      cycle = refl;
      retires = omega arith;
    },
    tt,
  );
}

eval_cycle-IsPending_example :
    (t : Pending EmptyState EmptyState) × (eval_cycle hooks vpi options (pending_of machine) 10
      ≡ done t)
    × Evaluated 10 (pending_of machine) t
    × IsPending (10 + 1) t
eval_cycle-IsPending_example =
    eval_cycle-IsPending hooks vpi options 10 (pending_of machine) machine-IsPending

advance-IsPending_example :
    (t : Pending EmptyState EmptyState) × (advance hooks vpi options (pending_of machine) 10 12
      ≡ done t)
    × IsPending (12 + 1) t
    × FrontAfter 12 t.window
advance-IsPending_example =
    advance-IsPending hooks vpi options 10 12 (pending_of machine) (omega arith) machine-IsPending

-- An addition of the register that is loaded and of register 8, into the flags.
abbrev no_operand : Operand
no_operand = record { valid = false; log_reg = 0; value = 0 }

abbrev addition : Inst
addition = record {
  insn_class = alu;
  pc = 0x4004;
  is_taken = false;
  next_pc = 0x4008;
  a = record { valid = true; log_reg = 8; value = 0 };
  b = record { valid = true; log_reg = 7; value = 0 };
  c = no_operand;
  d = record { valid = true; log_reg = 9; value = 5 };
  is_load = false;
  is_store = false;
  addr = 0;
  size = 0;
  is_last_piece = true;
}

wait_for_sources-latest_example :
    (8 ≢ rfzero
      → wait_for_sources machine.rf addition 20
        ≡ done (
            max
              (max (max 20 (ready machine.rf addition.a)) (ready machine.rf addition.b))
              (ready machine.rf addition.c)))
    × (8 ≡ rfzero → wait_for_sources machine.rf addition 20 ≡ done 20)
wait_for_sources-latest_example =
    wait_for_sources-latest machine.rf addition 20 (λ e. omega arith) (λ e. omega arith)
      (λ e. omega arith)

-- Behind the zero register, the addition does not wait for the load.
behind_zero :
    (wait_for_sources machine.rf addition 20 ≡ done 24)
    × (wait_for_sources machine.rf
          (record addition { a = record addition.a { log_reg = rfzero } })
          20
        ≡ done 20)
unfolding wait_for_sources wait_for
behind_zero = (refl, refl)

-- A second load, from the address in register 8, and what its execution finds.
abbrev second_load : Inst
second_load = record {
  insn_class = load;
  pc = 0x4008;
  is_taken = false;
  next_pc = 0x400c;
  a = record { valid = true; log_reg = 8; value = 0x8040 };
  b = no_operand;
  c = no_operand;
  d = record { valid = true; log_reg = 9; value = 5 };
  is_load = true;
  is_store = false;
  addr = 0x8040;
  size = 8;
  is_last_piece = true;
}

abbrev loaded : Run (Executed (Machine EmptyState EmptyState EmptyState))
loaded = execute options 5 machine second_load

abbrev result :
    Run (Executed (Machine EmptyState EmptyState EmptyState))
    → Executed (Machine EmptyState EmptyState EmptyState)
result (done x) = x
result assert_failed = record { exec_cycle = 0; agen_cycle = 0; latency = 0; machine = machine }
result out_of_fuel = record { exec_cycle = 0; agen_cycle = 0; latency = 0; machine = machine }

loaded-done : loaded ≡ done (result loaded)
unfolding execute execute_load wait_for_sources wait_for schedule_lane schedule schedule_from grow
    resize slot put train_prefetcher search_sq Schedule.init
loaded-done = refl

second_load-IsNext : IsNext options machine second_load 4
second_load-IsNext = record {
  operands = record {
    a = λ e. omega arith;
    b = λ e. omega arith;
    c = λ e. omega arith;
    d = λ e. omega arith;
    taken = refl;
  };
  memory = λ e. refl;
  room = omega arith;
  fewer = omega arith;
  older = (omega arith, tt);
  decoding = (omega arith, tt);
}

all_zero : (n : ℕ) → AllBy 24 (replicate n 0)
all_zero zero = tt
all_zero (suc n) = (omega arith, all_zero n)

dispatch-IsPending_example :
    (info : ExecuteInfo) × (m' : Machine EmptyState EmptyState EmptyState) × (dispatch options hooks
        machine second_load 4 0
        (result loaded)
      ≡ done (info, m'))
    × (m'.window
        ≡ machine.window ++ (entry_of options machine second_load 4 0 info (result loaded) ∷ []))
    × (length m'.aq ≤ length m'.window)
    × IsPending m'.fetch_cycle (pending_of m')
dispatch-IsPending_example =
    dispatch-IsPending hooks options 5 24 machine machine second_load 4 0 (result loaded)
      machine-IsPending second_load-IsNext refl loaded-done
      (set_by 24 (replicate rfsize 0) 7 24 (all_zero rfsize) (omega arith)) (omega arith)
      (omega arith) (omega arith) (omega arith)

-- A prefetch that waits.
abbrev waiting : Machine EmptyState EmptyState EmptyState
waiting = record machine {
  prefetcher = record ternary_geo_bp.Prefetcher.init {
    queue = record { address = 0x9000; cycle_generated = 9 } ∷ [];
  };
}

abbrev prefetching : Options
prefetching = record options { prefetcher_enable = true }

drain-Drains_example :
    Drains prefetching 5 waiting
      (record { address = 0; cycle_generated = 0 })
      (drain prefetching 5 waiting)
drain-Drains_example = drain-Drains prefetching 4 waiting refl (omega arith)
