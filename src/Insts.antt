-- ===== src/Insts.antt =====
-- lib/sim_common_structs.h: the classes of instructions, the questions about them, and what the
-- simulator tells of an instruction.
use ternary_geo_bp.Base.{ℕ, Bool, false, not, ◌&&◌, ◌||◌, ◌==◌, List, [], Option, none, max_cycle}

-- InstClass
pub data InstClass : Type 0 where
  alu load store cond_branch uncond_direct_branch uncond_indirect_branch fp slow_alu undef
        call_direct call_indirect return_inst :
      InstClass

-- The value of the enumerator.
abbrev pub code : InstClass → ℕ
code alu = 0
code load = 1
code store = 2
code cond_branch = 3
code uncond_direct_branch = 4
code uncond_indirect_branch = 5
code fp = 6
code slow_alu = 7
code undef = 8
code call_direct = 9
code call_indirect = 10
code return_inst = 11

-- c == d
abbrev pub same_class : InstClass → InstClass → Bool
same_class c d = code c == code d

abbrev pub is_load : InstClass → Bool
is_load c = same_class c load

abbrev pub is_store : InstClass → Bool
is_store c = same_class c store

abbrev pub is_mem : InstClass → Bool
is_mem c = is_load c || is_store c

abbrev pub is_br : InstClass → Bool
is_br c =
    same_class c cond_branch
    || (same_class c uncond_direct_branch
        || (same_class c uncond_indirect_branch
            || (same_class c call_direct
                || (same_class c call_indirect || same_class c return_inst))))

abbrev pub is_cond_br : InstClass → Bool
is_cond_br c = same_class c cond_branch

abbrev pub is_uncond_ind_br : InstClass → Bool
is_uncond_ind_br c =
    same_class c uncond_indirect_branch || (same_class c call_indirect || same_class c return_inst)

abbrev pub is_uncond_br : InstClass → Bool
is_uncond_br c = is_br c && not (same_class c cond_branch)

-- DecodeInfo
pub record DecodeInfo : Type 0 where
  pub insn_class : InstClass
  pub src_reg_info : List ℕ
  pub dst_reg_info : Option ℕ

-- `reset` of DecodeInfo
abbrev pub no_decode_info : DecodeInfo
no_decode_info = record { insn_class = undef; src_reg_info = []; dst_reg_info = none }

-- ExecuteInfo
pub record ExecuteInfo : Type 0 where
  pub dec_info : DecodeInfo
  pub taken : Option Bool
  pub next_pc : ℕ
  pub taken_target : Option ℕ
  pub mem_va : Option ℕ
  pub mem_sz : Option ℕ
  pub dst_reg_value : Option ℕ

-- `reset` of ExecuteInfo
abbrev pub no_execute_info : ExecuteInfo
no_execute_info = record {
  dec_info = no_decode_info;
  taken = none;
  next_pc = max_cycle;
  taken_target = none;
  mem_va = none;
  mem_sz = none;
  dst_reg_value = none;
}

-- DebugLog. `taken` is the word of an int8_t, and `src_regs` the registers that `src_regs_string`
-- lists.
pub record DebugLog : Type 0 where
  pub pc : ℕ
  pub next_pc : ℕ
  pub pred_cycle : ℕ
  pub fetch_cycle : ℕ
  pub execute_cycle : ℕ
  pub pred_dir : ℕ
  pub taken : ℕ
  pub predictor_used : ℕ
  pub src_regs : List ℕ
  pub dst_reg : ℕ
  pub mem_va : ℕ
  pub inst_class : InstClass
  pub ghist : ℕ
  pub load_dependence : ℕ
  pub executed : Bool

-- `reset` of DebugLog
abbrev pub fresh_log : DebugLog
fresh_log = record {
  pc = 0;
  next_pc = 0;
  pred_cycle = 0;
  fetch_cycle = 0;
  execute_cycle = 0;
  pred_dir = 2;
  taken = 2;
  predictor_used = 10;
  src_regs = [];
  dst_reg = 254;
  mem_va = 0;
  inst_class = undef;
  ghist = 0;
  load_dependence = 255;
  executed = false;
}
