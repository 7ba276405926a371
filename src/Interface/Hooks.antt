-- ===== src/Interface/Hooks.antt =====
-- The hooks that the simulator calls (cond_branch_predictor_interface.cc), and their shared state.
-- notify_instr_fetch and notify_agen_complete do nothing.
pub mod Lifecycle
pub mod Resolution
use ternary_geo_bp.Base.{
  ℕ, ◌+◌, ◌%◌, ◌≡◌, Bool, true, false, not, ◌&&◌, ◌||◌, Option, none, some, List, [], ◌∷◌, map, ltb,
  ◌==◌, if◌then◌else◌, to_ℕ, u8, u16, length, find_key, erase_key, assign_key, value_or, Run, done,
  assert_failed, ◌>>=◌, ◌>>◌, assert,
}
use ternary_geo_bp.Insts.{
  InstClass, cond_branch, uncond_indirect_branch, call_indirect, return_inst, load, same_class,
  is_load, is_br, is_cond_br, is_uncond_ind_br, DecodeInfo, ExecuteInfo, DebugLog, fresh_log,
}
use ternary_geo_bp.Tage.{Config, Predictor}
use ternary_geo_bp.Tage.Record.{Branch}
use ternary_geo_bp.Tage.Checkpoint.{get_unique_inst_id, Resolved, predict, track, update}
use ternary_geo_bp.Interface.Graph.{Graph, add_dependency, delete_destination, get_all_dependencies}
use ternary_geo_bp.Interface.Sample.{SampleCondPredictor}
use ternary_geo_bp.Interface.Sample

-- cbp2016_tage_sc_l, cond_predictor_impl, histories_log, depGraph, registers_in_flight
pub record Interface : Type 0 where
  pub tage : Predictor
  pub impl : SampleCondPredictor
  pub histories_log : List (ℕ × DebugLog)
  pub dep_graph : Graph
  pub registers_in_flight : List (ℕ × Bool)

-- What the hooks read from the options: U_incrment and the history lengths, and
-- LOAD_DEPENDENT_BRANCHES.
pub record Options : Type 0 where
  pub config : Config
  pub load_dependent_branches : Bool

-- `value` of an optional, which throws where there is none
abbrev pub value : {A : Type 0} → Option A → Run A
value none = assert_failed
value (some a) = done a

-- histories_log[key]
abbrev pub log_of : List (ℕ × DebugLog) → ℕ → DebugLog
log_of m key = value_or fresh_log (find_key key m)

-- `get_cond_dir_prediction`
unfoldable pub get_cond_dir_prediction :
    Options → Interface → ℕ → ℕ → ℕ → ℕ → ℕ → ℕ → Run (Bool × Interface)
get_cond_dir_prediction o i seq_no piece pc pred_cycle fetch_cycle exec_cycle = do
  ((tage_sc_l_pred, predictor_used), tage') ← predict o.config i.tage seq_no piece pc
  (my_prediction, impl') ← Sample.predict i.impl seq_no piece tage_sc_l_pred
  log_key ← get_unique_inst_id seq_no piece
  let log = record fresh_log {
    pc = pc;
    pred_cycle = pred_cycle;
    fetch_cycle = fetch_cycle;
    execute_cycle = exec_cycle;
    pred_dir = to_ℕ tage_sc_l_pred;
    inst_class = cond_branch;
    ghist = i.tage.hist.ghist_word;
    predictor_used = predictor_used;
  }
  done (
    my_prediction,
    record i { tage = tage'; impl = impl'; histories_log = assign_key log_key log i.histories_log },
  )

-- br_type
abbrev pub br_type : InstClass → ℕ
br_type c = if is_cond_br c then 1 else if is_uncond_ind_br c then 2 else 0

-- `spec_update`
unfoldable pub spec_update : Interface → ℕ → InstClass → Bool → Bool → ℕ → Run Interface
spec_update i pc inst_class resolve_dir pred_dir next_pc =
    let branch : Branch = record {
      pc = pc;
      brtype = br_type inst_class;
      pred_taken = pred_dir;
      taken = resolve_dir;
      next_pc = next_pc;
    } in
    do
      assert (is_br inst_class)
      done (record i {
        tage = track i.tage branch;
        impl =
            (if same_class inst_class cond_branch
              then Sample.history_update i.impl resolve_dir
              else i.impl);
      })

-- The loop of addDependency over the sources.
abbrev pub add_all : Graph → ℕ → List ℕ → Graph
add_all g dst [] = g
add_all g dst (src ∷ srcs) = add_all (add_dependency g dst src) dst srcs

-- Whether the sources of a branch are looked at: there is one, and not the flags alone.
abbrev pub has_sources : List ℕ → Bool
has_sources [] = false
has_sources (src ∷ []) = not (src == 64)
has_sources (src ∷ (src' ∷ srcs)) = true

-- loadCount, a uint16_t
unfoldable pub load_count : ℕ → Graph → List ℕ → ℕ → Run ℕ
load_count fuel g [] n = done n
load_count fuel g (src ∷ srcs) n = do
  dependencies ← get_all_dependencies fuel g src
  load_count fuel g srcs (u16 (n + length dependencies))

-- `notify_instr_decode`
unfoldable pub notify_instr_decode : ℕ → Interface → ℕ → ℕ → DecodeInfo → Run Interface
notify_instr_decode fuel i seq_no piece info =
    if is_load info.insn_class
    then (do
      dst_reg ← value info.dst_reg_info
      done (record i {
        registers_in_flight = assign_key dst_reg true i.registers_in_flight;
        dep_graph = add_all (delete_destination i.dep_graph dst_reg) dst_reg info.src_reg_info;
      }))
    else if is_cond_br info.insn_class
    then (do
      count ←
          (if has_sources info.src_reg_info
            then load_count fuel i.dep_graph info.src_reg_info 0
            else done 0)
      log_key ← get_unique_inst_id seq_no piece
      done (record i {
        histories_log =
            assign_key log_key
              (record (log_of i.histories_log log_key) { load_dependence = u8 count })
              i.histories_log;
      }))
    else done i

-- The loop over the sources in `notify_instr_execute_resolve`: is_LD_dependent, and the map, which
-- the reads extend.
unfoldable pub any_in_flight : List (ℕ × Bool) → List ℕ → Bool → Bool × List (ℕ × Bool)
any_in_flight m [] b = (b, m)
any_in_flight m (src ∷ srcs) b =
    let v = value_or false (find_key src m) in any_in_flight (assign_key src v m) srcs (b || v)

-- The part of `notify_instr_execute_resolve` for a conditional branch.
unfoldable pub resolve_cond_br : ℕ → Options → Interface → ℕ → ℕ → ℕ → ExecuteInfo → Run Interface
resolve_cond_br fuel o i seq_no piece pc info =
    let srcs = info.dec_info.src_reg_info in
    let (in_flight, regs) =
      if has_sources srcs
      then any_in_flight i.registers_in_flight srcs false
      else (false, i.registers_in_flight) in
    do
      resolve_dir ← value info.taken
      tage' ← update fuel o.config i.tage seq_no piece (record {
        pc = pc;
        resolve_dir = resolve_dir;
        is_ld_dependent = o.load_dependent_branches && in_flight;
      })
      impl' ← Sample.update i.impl seq_no piece
      done (record i { tage = tage'; impl = impl'; registers_in_flight = regs })

-- The first fields that `notify_instr_execute_resolve` writes, for a load.
abbrev pub log_load : ℕ → Bool → ℕ → DebugLog → DebugLog
log_load pc pred_dir execute_cycle log = record log {
  pc = pc;
  execute_cycle = execute_cycle;
  pred_dir = to_ℕ pred_dir;
  inst_class = load;
}

-- The word of an int8_t that holds `taken`, or -1.
abbrev pub taken_word : Option Bool → ℕ
taken_word none = 255
taken_word (some taken) = to_ℕ taken

-- What `notify_instr_execute_resolve` writes to the log.
unfoldable pub log_executed : ℕ → Bool → ℕ → ExecuteInfo → DebugLog → DebugLog
log_executed pc pred_dir execute_cycle info log =
    record (if is_load info.dec_info.insn_class
      then log_load pc pred_dir execute_cycle log
      else log) {
        taken = taken_word info.taken;
        src_regs = info.dec_info.src_reg_info;
        dst_reg = u8 (value_or 255 info.dec_info.dst_reg_info);
        mem_va = value_or 0 info.mem_va;
        next_pc = info.next_pc;
        executed = true;
      }

-- `notify_instr_execute_resolve`
unfoldable pub notify_instr_execute_resolve :
    ℕ → Options → Interface → ℕ → ℕ → ℕ → Bool → ExecuteInfo → ℕ → Run Interface
notify_instr_execute_resolve fuel o i seq_no piece pc pred_dir info execute_cycle =
    let c = info.dec_info.insn_class in
    do
      log_key ← get_unique_inst_id seq_no piece
      i' ←
          (if is_br c
            then (if is_cond_br c
                then resolve_cond_br fuel o i seq_no piece pc info
                else (assert pred_dir >> done i))
            else done i)
      done (
          if is_cond_br c || is_load c
          then record i' {
            histories_log =
                assign_key log_key
                  (log_executed pc pred_dir execute_cycle info (log_of i'.histories_log log_key))
                  i'.histories_log;
          }
          else i')

-- `notify_instr_commit`
unfoldable pub notify_instr_commit : Interface → ExecuteInfo → Run Interface
notify_instr_commit i info =
    if is_load info.dec_info.insn_class
    then (do
      dst_reg ← value info.dec_info.dst_reg_info
      done (record i {
        dep_graph = delete_destination i.dep_graph dst_reg;
        registers_in_flight = erase_key dst_reg i.registers_in_flight;
      }))
    else done i
