-- ===== src/Pipeline/Dispatch/Operands.antt =====
-- What `populate_exec_info` (lib/uarchsim.cc) tells of an instruction that the asserts accept.
use ternary_geo_bp.Base.{
  ℕ, ◌≡◌, refl, true, not, ◌||◌, none, some, List, [], ◌∷◌, ◌++◌, ltb, if◌then◌else◌, done,
  Bool-cases, inl, inr, lt→ltb,
}
use ternary_geo_bp.Insts.{
  DecodeInfo, ExecuteInfo, is_br, is_cond_br, no_decode_info, no_execute_info,
}
use ternary_geo_bp.Pipeline.{Inst, Operand, rfsize}
use ternary_geo_bp.Pipeline.Execute.Sources.{IsOperand}
use ternary_geo_bp.Pipeline.Dispatch.{add_source, populate_decode_info, populate_exec_info}

-- What the trace says of an instruction.
pub record IsInst (inst : Inst) : Type 0 where
  pub a : IsOperand inst.a
  pub b : IsOperand inst.b
  pub c : IsOperand inst.c
  pub d : IsOperand inst.d
  pub taken : (not (is_br inst.insn_class) || (is_cond_br inst.insn_class || inst.is_taken)) ≡ true

add_source-done :
    (op : Operand) (regs : List ℕ) → IsOperand op → (r : List ℕ) × (add_source op regs ≡ done r)
unfolding add_source
add_source-done op regs ok = elim (Bool-cases op.valid) [
  | inl here ↦ (regs ++ (op.log_reg ∷ []), rw (here, lt→ltb op.log_reg rfsize (ok here)) refl)
  | inr none_given ↦ (regs, rw none_given refl)
]

populate_decode_info-done :
    (inst : Inst)
    → IsInst inst
    → (info : DecodeInfo) × (populate_decode_info inst ≡ done info)
      × (info.insn_class ≡ inst.insn_class)
unfolding populate_decode_info
populate_decode_info-done inst ok =
    let (ra, ea) = add_source-done inst.a [] ok.a in
    let (rb, eb) = add_source-done inst.b ra ok.b in
    let (rc, ec) = add_source-done inst.c rb ok.c in
    elim (Bool-cases inst.d.valid) [
      | inl here ↦ (
        record no_decode_info {
          insn_class = inst.insn_class;
          src_reg_info = rc;
          dst_reg_info = some inst.d.log_reg;
        },
        rw (ea, eb, ec, here, lt→ltb inst.d.log_reg rfsize (ok.d here)) refl,
        refl,
      )
      | inr none_given ↦ (
        record no_decode_info { insn_class = inst.insn_class; src_reg_info = rc },
        rw (ea, eb, ec, none_given) refl,
        refl,
      )
    ]

-- What the queues read of it.
pub record Populated (inst : Inst) (info : ExecuteInfo) : Type 0 where
  pub class : info.dec_info.insn_class ≡ inst.insn_class
  pub mem_va : info.mem_va ≡ (if inst.is_load || inst.is_store then some inst.addr else none)
  pub mem_sz : info.mem_sz ≡ (if inst.is_load || inst.is_store then some inst.size else none)

destination_fits : (op : Operand) → IsOperand op → (not op.valid || ltb op.log_reg rfsize) ≡ true
destination_fits op ok = elim (Bool-cases op.valid) [
  | inl here ↦ rw (here, lt→ltb op.log_reg rfsize (ok here)) refl
  | inr none_given ↦ rw none_given refl
]

pub populate_exec_info-done :
    (inst : Inst)
    → IsInst inst
    → (info : ExecuteInfo) × (populate_exec_info inst ≡ done info) × Populated inst info
unfolding populate_exec_info
populate_exec_info-done inst ok =
    let (dec, e, c) = populate_decode_info-done inst ok in
    (
      record no_execute_info {
        dec_info = dec;
        taken = (if is_br inst.insn_class then some inst.is_taken else none);
        next_pc = inst.next_pc;
        mem_va = (if inst.is_load || inst.is_store then some inst.addr else none);
        mem_sz = (if inst.is_load || inst.is_store then some inst.size else none);
        dst_reg_value = (if inst.d.valid then some inst.d.value else none);
      },
      rw (e, ok.taken, destination_fits inst.d ok.d) refl,
      record { class = c; mem_va = refl; mem_sz = refl },
    )
