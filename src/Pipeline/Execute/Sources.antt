-- ===== src/Pipeline/Execute/Sources.antt =====
-- The cycle at which the sources of an instruction are ready (lib/uarchsim.cc).
use ternary_geo_bp.Base.{
  ℕ, ◌≡◌, ◌≢◌, ◌<◌, refl, sym, ap, true, List, arith, ◌==◌, if◌then◌else◌, get_or, done, Bool-cases,
  inl, inr, lt→ltb, ne→==,
}
use ternary_geo_bp.Pipeline.{Inst, Operand, max, rfsize, rfzero}
use ternary_geo_bp.Pipeline.Execute.{wait_for, wait_for_sources}

-- A register that the file has.
abbrev pub IsOperand : Operand → Type 0
IsOperand op = op.valid ≡ true → op.log_reg < rfsize

-- The cycle at which the register of an operand is ready.
abbrev pub ready : List ℕ → Operand → ℕ
ready rf op = if op.valid then get_or rf op.log_reg 0 else 0

max_zero : (n : ℕ) → max n 0 ≡ n
max_zero n = ground arith

wait_for-waits :
    (rf : List ℕ) (first : ℕ) (op : Operand) (cycle : ℕ)
    → IsOperand op
    → first ≢ rfzero
    → wait_for rf first op cycle ≡ done (max cycle (ready rf op))
unfolding wait_for
wait_for-waits rf first op cycle ok ne = elim (Bool-cases op.valid) [
  | inl here ↦ rw (here, lt→ltb op.log_reg rfsize (ok here), ne→== first rfzero ne) refl
  | inr none_given ↦ rw none_given (ap (λ (n : ℕ). done n) (sym (max_zero cycle)))
]

wait_for-skips :
    (rf : List ℕ) (first : ℕ) (op : Operand) (cycle : ℕ)
    → IsOperand op
    → (first == rfzero) ≡ true
    → wait_for rf first op cycle ≡ done cycle
unfolding wait_for
wait_for-skips rf first op cycle ok same = elim (Bool-cases op.valid) [
  | inl here ↦ rw (here, lt→ltb op.log_reg rfsize (ok here), same) refl
  | inr none_given ↦ rw none_given refl
]

-- The sources of an instruction whose registers are in the file: where the first register is not the
-- zero register, the instruction waits for the latest of its sources that it has, and for its
-- front-end cycle; where the first register is the zero register, it waits for none of them.
pub wait_for_sources-latest :
    (rf : List ℕ) (inst : Inst) (cycle : ℕ)
    → IsOperand inst.a
    → IsOperand inst.b
    → IsOperand inst.c
    → (inst.a.log_reg ≢ rfzero
        → wait_for_sources rf inst cycle
          ≡ done (max (max (max cycle (ready rf inst.a)) (ready rf inst.b)) (ready rf inst.c)))
      × (inst.a.log_reg ≡ rfzero → wait_for_sources rf inst cycle ≡ done cycle)
unfolding wait_for_sources
wait_for_sources-latest rf inst cycle a b c = (
  λ ne.
      let first = inst.a.log_reg in
      let c1 = max cycle (ready rf inst.a) in
      rw (wait_for-waits rf first inst.a cycle a ne, wait_for-waits rf first inst.b c1 b ne)
        (wait_for-waits rf first inst.c (max c1 (ready rf inst.b)) c ne),
  λ same.
      let first = inst.a.log_reg in
      let zero_first : (first == rfzero) ≡ true = ap (λ (n : ℕ). n == rfzero) same in
      rw
        (
          wait_for-skips rf first inst.a cycle a zero_first,
          wait_for-skips rf first inst.b cycle b zero_first,
        )
        (wait_for-skips rf first inst.c cycle c zero_first),
)
