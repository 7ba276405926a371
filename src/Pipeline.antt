-- ===== src/Pipeline.antt =====
-- uarchsim_t (lib/uarchsim.h and lib/uarchsim.cc): the timing of a pipeline, one instruction of the
-- trace after the other. This file has the state; a deque is a list with its front first, and the
-- vectors of the epochs are lists with their back first. Cycles and counters are uint64_t.
pub mod Events
pub mod Value
pub mod Execute
pub mod Drain
pub mod Dispatch
pub mod Fetch
pub mod Step
mod Tests
use ternary_geo_bp.Base.{
  ℕ, ◌+◌, Bool, true, false, Option, none, some, List, [], ◌∷◌, ltb, if◌then◌else◌,
}
use ternary_geo_bp.Insts.{InstClass, DecodeInfo, ExecuteInfo}
use ternary_geo_bp.Branch.{BranchUnit}
use ternary_geo_bp.Cache.{Cache}
use ternary_geo_bp.Schedule.{Schedule}
use ternary_geo_bp.Prefetcher.{Prefetcher}

-- RFSIZE, RFFLAGS, RFZERO
abbrev pub rfsize : ℕ
rfsize = 66

abbrev pub rfflags : ℕ
rfflags = 64

abbrev pub rfzero : ℕ
rfzero = 65

-- MAX and MIN
abbrev pub max : ℕ → ℕ → ℕ
max a b = if ltb b a then a else b

abbrev pub min_of : ℕ → ℕ → ℕ
min_of a b = if ltb b a then b else a

-- db_operand_t
pub record Operand : Type 0 where
  pub valid : Bool
  pub log_reg : ℕ
  pub value : ℕ

-- db_t
pub record Inst : Type 0 where
  pub insn_class : InstClass
  pub pc : ℕ
  pub is_taken : Bool
  pub next_pc : ℕ
  pub a : Operand
  pub b : Operand
  pub c : Operand
  pub d : Operand
  pub is_load : Bool
  pub is_store : Bool
  pub addr : ℕ
  pub size : ℕ
  pub is_last_piece : Bool

-- window_t
pub record WindowEntry : Type 0 where
  pub seq_no : ℕ
  pub piece : ℕ
  pub pc : ℕ
  pub fetch_cycle : ℕ
  pub decode_cycle : ℕ
  pub exec_cycle : ℕ
  pub exec_info : ExecuteInfo
  pub retire_cycle : ℕ
  pub pred_taken : Bool
  pub addr : ℕ
  pub value : ℕ
  pub latency : ℕ

-- store_queue_t
pub record StoreQueueEntry : Type 0 where
  pub exec_cycle : ℕ
  pub ret_cycle : ℕ

-- An element of DQ, AQ or EQ.
pub record Event : Type 0 where
  pub seq_no : ℕ
  pub piece : ℕ
  pub at_cycle : ℕ

-- What the pipeline reads from lib/parameters.cc.
pub record Options : Type 0 where
  pub vp_enable : Bool
  pub vp_perfect : Bool
  pub vp_track : ℕ
  pub fetch_width : ℕ
  pub fetch_num_branch : ℕ
  pub fetch_stop_at_indirect : Bool
  pub fetch_stop_at_taken : Bool
  pub fetch_model_icache : Bool
  pub perfect_branch_pred : Bool
  pub pipeline_fill_latency : ℕ
  pub prefetcher_enable : Bool
  pub perfect_cache : Bool
  pub write_allocate : Bool
  pub l1_latency : ℕ
  pub main_memory_latency : ℕ
  pub default_exec_latency : ℕ
  pub fp_exec_latency : ℕ
  pub slow_alu_exec_latency : ℕ
  pub dq_latency : ℕ
  pub epoch_size_insts : ℕ

-- The hooks on the state of the conditional predictor (cond_branch_predictor_interface.cc).
pub record Hooks (P : Type 0) : Type 0 where
  pub notify_instr_fetch : P → ℕ → ℕ → ℕ → ℕ → P
  pub notify_instr_decode : P → ℕ → ℕ → ℕ → DecodeInfo → ℕ → P
  pub notify_agen_complete : P → ℕ → ℕ → ℕ → DecodeInfo → ℕ → ℕ → ℕ → P
  pub notify_instr_execute_resolve : P → ℕ → ℕ → ℕ → Bool → ExecuteInfo → ℕ → P
  pub notify_instr_commit : P → ℕ → ℕ → ℕ → Bool → ExecuteInfo → ℕ → P

-- HitMissInfo
pub data HitMissInfo : Type 0 where
  miss l1d_hit l2_hit l3_hit invalid : HitMissInfo

-- PredictionRequest and PredictionResult (lib/value_predictor_interface.h)
pub record PredictionRequest : Type 0 where
  pub seq_no : ℕ
  pub pc : ℕ
  pub piece : ℕ
  pub is_candidate : Bool
  pub cache_hit : HitMissInfo

pub record PredictionResult : Type 0 where
  pub predicted_value : ℕ
  pub speculate : Bool

-- The arguments of speculativeUpdate.
pub record SpeculativeUpdate : Type 0 where
  pub seq_no : ℕ
  pub eligible : Bool
  pub prediction_result : ℕ
  pub pc : ℕ
  pub next_pc : ℕ
  pub insn_class : ℕ
  pub piece : ℕ
  pub src1 : ℕ
  pub src2 : ℕ
  pub src3 : ℕ
  pub dst : ℕ

-- The value predictor (lib/value_predictor_interface.h).
pub record ValuePredictor (V : Type 0) : Type 0 where
  pub get_prediction : V → PredictionRequest → PredictionResult × V
  pub speculative_update : V → SpeculativeUpdate → V
  pub update_predictor : V → ℕ → ℕ → ℕ → ℕ → V

-- What the queues and the window hold, with the two predictors that their instructions are shown to.
pub record Pending (P V : Type 0) : Type 0 where
  pub window : List WindowEntry
  pub dq : List Event
  pub aq : List Event
  pub eq : List Event
  pub cond : P
  pub vp : V

-- uarchsim_t. L1 and IC share the levels behind them. `piece` is the static variable of `step`.
pub record Machine (P I V : Type 0) : Type 0 where
  pub num_fetched : ℕ
  pub num_fetched_branch : ℕ
  pub window : List WindowEntry
  pub window_capacity : ℕ
  pub alu_lanes : Schedule
  pub ldst_lanes : Schedule
  pub rf : List ℕ
  pub sq : List (ℕ × StoreQueueEntry)
  pub dq : List Event
  pub aq : List Event
  pub eq : List Event
  pub l1 : Cache
  pub ic : Cache
  pub shared : List Cache
  pub fetch_cycle : ℕ
  pub previous_fetch_cycle : ℕ
  pub bp : BranchUnit P I
  pub prefetcher : Prefetcher
  pub num_inst : ℕ
  pub num_uop : ℕ
  pub cycle : ℕ
  pub num_insts_per_epoch : List ℕ
  pub num_cycles_per_epoch : List ℕ
  pub last_epoch_end_cycle : ℕ
  pub num_eligible : ℕ
  pub num_correct : ℕ
  pub num_incorrect : ℕ
  pub num_load : ℕ
  pub num_load_sqmiss : ℕ
  pub cycles_on_wrong_path : ℕ
  pub stat_pfs_issued_to_mem : ℕ
  pub piece : ℕ
  pub vp : V

module _ {P I V : Type 0} where
  abbrev pub pending_of : Machine P I V → Pending P V
  pending_of m = record {
    window = m.window;
    dq = m.dq;
    aq = m.aq;
    eq = m.eq;
    cond = m.bp.cond;
    vp = m.vp;
  }

  abbrev pub with_pending : Machine P I V → Pending P V → Machine P I V
  with_pending m p = record m {
    window = p.window;
    dq = p.dq;
    aq = p.aq;
    eq = p.eq;
    bp = record m.bp { cond = p.cond };
    vp = p.vp;
  }
