-- ===== src/Branch/Counts.antt =====
-- What `predict` (lib/bp.cc) counts, on each of its branches, and when it reports a misprediction.
use ternary_geo_bp.Base.{
  ℕ, ◌+◌, ◌^◌, ◌≤◌, ◌<◌, ◌≡◌, refl, inl, inr, Bool, true, false, not, ◌&&◌, ◌||◌, List, ◌∷◌, arith,
  to_ℕ, Run, done, ◌>>=◌, Bool-cases,
}
use ternary_geo_bp.Insts.{
  cond_branch, uncond_direct_branch, call_direct, same_class, is_br, is_uncond_ind_br,
}
use ternary_geo_bp.Branch.{
  Epoch, Query, Conditional, Indirect, Options, BranchUnit, count, correct, count_conddir,
  count_jump, count_other, predict_conditional, predict_direct, predict_indirect, predict_other,
  predict,
}

-- The instructions of an epoch.
abbrev pub total : Epoch → ℕ
total e = e.conddir_n + e.jumpdir_n + e.jumpind_n + e.jumpret_n + e.notctrl_n

-- The mispredictions of an epoch.
abbrev pub missed : Epoch → ℕ
missed e = e.conddir_m + e.jumpind_m + e.jumpret_m + e.notctrl_m

-- Each kind has at most as many mispredictions as instructions, and no counter is about to wrap.
pub record IsCounted (e : Epoch) : Type 0 where
  pub conddir : e.conddir_m ≤ e.conddir_n
  pub jumpind : e.jumpind_m ≤ e.jumpind_n
  pub jumpret : e.jumpret_m ≤ e.jumpret_n
  pub notctrl : e.notctrl_m ≤ e.notctrl_n
  pub small : total e + 1 < 2 ^ 64

-- One more instruction has been counted, as mispredicted or not, in the kind that it is of.
pub record Counted (misp : Bool) (e e' : Epoch) : Type 0 where
  pub one_more : total e' ≡ total e + 1
  pub missed_more : missed e' ≡ missed e + to_ℕ misp
  pub conddir : e'.conddir_m ≤ e'.conddir_n
  pub jumpind : e'.jumpind_m ≤ e'.jumpind_n
  pub jumpret : e'.jumpret_m ≤ e'.jumpret_n
  pub notctrl : e'.notctrl_m ≤ e'.notctrl_n
  pub same_cycles : e'.cycles_on_wrong_path ≡ e.cycles_on_wrong_path

count_conddir-Counted :
    (misp : Bool) (e : Epoch) → IsCounted e → Counted misp e (count_conddir misp e)
count_conddir-Counted true e c = ground arith
count_conddir-Counted false e c = ground arith

count_jump-Counted :
    (is_ret misp : Bool) (e : Epoch) → IsCounted e → Counted misp e (count_jump is_ret misp e)
count_jump-Counted true true e c = ground arith
count_jump-Counted true false e c = ground arith
count_jump-Counted false true e c = ground arith
count_jump-Counted false false e c = ground arith

count_other-Counted : (misp : Bool) (e : Epoch) → IsCounted e → Counted misp e (count_other misp e)
count_other-Counted true e c = ground arith
count_other-Counted false e c = ground arith

-- What a call of `predict` leaves.
pub record Predicted {C I : Type 0} (r : Run (Bool × BranchUnit C I)) (e : Epoch) (es : List Epoch)
    : Type 0 where
  pub misp : Bool
  pub after : BranchUnit C I
  pub now : Epoch
  pub returns : r ≡ done (misp, after)
  pub epochs : after.epochs ≡ now ∷ es
  pub counted : Counted misp e now

count-Predicted :
    {C I : Type 0} (counters : List Epoch) (misp : Bool) (after : List Epoch → BranchUnit C I)
    (f : Epoch → Epoch) (e : Epoch) (es : List Epoch)
    → counters ≡ e ∷ es
    → ((xs : List Epoch) → (after xs).epochs ≡ xs)
    → Counted misp e (f e)
    → Predicted (count counters f >>= λ xs. done (misp, after xs)) e es
count-Predicted counters misp after f e es here kept c = record {
  misp = misp;
  after = after (f e ∷ es);
  now = f e;
  returns = rw here refl;
  epochs = kept (f e ∷ es);
  counted = c;
}

module _ {C I : Type 0} (cond : Conditional C) (ind : Indirect I) (o : Options) (u : BranchUnit C I)
    (q : Query) (e : Epoch) (es : List Epoch) (here : u.epochs ≡ e ∷ es) (c : IsCounted e) where
  predict_conditional-Predicted : Predicted (predict_conditional cond ind o u q) e es
  unfolding predict_conditional
  predict_conditional-Predicted =
      count-Predicted u.epochs _ _ _ e es here (λ xs. refl) (count_conddir-Counted _ e c)

  predict_direct-Predicted : Predicted (predict_direct cond ind o u q) e es
  unfolding predict_direct
  predict_direct-Predicted = count-Predicted u.epochs _ _ _ e es here (λ xs. refl) (ground arith)

  predict_indirect-Predicted : Predicted (predict_indirect cond ind o u q) e es
  unfolding predict_indirect
  predict_indirect-Predicted =
      count-Predicted u.epochs _ _ _ e es here (λ xs. refl) (count_jump-Counted _ _ e c)

  predict_other-Predicted : Predicted (predict_other cond ind o u q) e es
  unfolding predict_other
  predict_other-Predicted =
      count-Predicted u.epochs _ _ _ e es here (λ xs. refl) (count_other-Counted _ e c)

-- In an epoch whose counters are consistent and not about to wrap, `predict` returns on every class
-- of instruction. It counts exactly one instruction more in that epoch, and one misprediction more
-- exactly where it reports one; no kind then has more mispredictions than instructions, and earlier
-- epochs stay as they are.
pub predict-Predicted :
    {C I : Type 0} (cond : Conditional C) (ind : Indirect I) (o : Options) (u : BranchUnit C I)
    (q : Query) (e : Epoch) (es : List Epoch)
    → u.epochs ≡ e ∷ es
    → IsCounted e
    → Predicted (predict cond ind o u q) e es
unfolding predict
predict-Predicted cond ind o u q e es here c =
    elim (Bool-cases (same_class q.inst_class cond_branch)) [
      | inl p1 ↦ rw p1 (predict_conditional-Predicted cond ind o u q e es here c)
      | inr n1 ↦
          elim (Bool-cases
            (same_class q.inst_class uncond_direct_branch || same_class q.inst_class call_direct)) [
              | inl p2 ↦ rw (n1, p2) (predict_direct-Predicted cond ind o u q e es here c)
              | inr n2 ↦ elim (Bool-cases (is_uncond_ind_br q.inst_class)) [
                | inl p3 ↦ rw (n1, n2, p3) (predict_indirect-Predicted cond ind o u q e es here c)
                | inr n3 ↦ rw (n1, n2, n3) (predict_other-Predicted cond ind o u q e es here c)
              ]
            ]
    ]

-- What is reported as mispredicted when every misprediction is corrected.
correct_all :
    (o : Options) (seed : ℕ) (wrong : Bool)
    → o.misp_reduction_perc ≡ 100
    → (wrong && not (correct o seed wrong).0) ≡ false
unfolding correct
correct_all o seed true e = rw e refl
correct_all o seed false e = refl

count-false :
    {C I : Type 0} (counters : List Epoch) (misp : Bool) (after : List Epoch → BranchUnit C I)
    (f : Epoch → Epoch) (e : Epoch) (es : List Epoch)
    → counters ≡ e ∷ es
    → misp ≡ false
    → (u' : BranchUnit C I) × (◌>>=◌ {B = Bool × BranchUnit C I}
          (count counters f)
          (λ xs. done (misp, after xs))
        ≡ done (false, u'))
count-false counters misp after f e es here right = (after (f e ∷ es), rw (here, right) refl)

module _ {C I : Type 0} (cond : Conditional C) (ind : Indirect I) (o : Options) (u : BranchUnit C I)
    (q : Query) (e : Epoch) (es : List Epoch) (here : u.epochs ≡ e ∷ es) where
  corrected_conditional :
      o.misp_reduction_perc ≡ 100
      → (u' : BranchUnit C I) × (predict_conditional cond ind o u q ≡ done (false, u'))
  unfolding predict_conditional
  corrected_conditional all =
      count-false u.epochs _ _ _ e es here (correct_all o u.mispred_correction_seed _ all)

  corrected_direct : (u' : BranchUnit C I) × (predict_direct cond ind o u q ≡ done (false, u'))
  unfolding predict_direct
  corrected_direct = count-false u.epochs _ _ _ e es here refl

  corrected_indirect :
      o.perfect_indirect_pred ≡ true
      → (u' : BranchUnit C I) × (predict_indirect cond ind o u q ≡ done (false, u'))
  unfolding predict_indirect
  corrected_indirect perfect = count-false u.epochs _ _ _ e es here (rw perfect refl)

-- Where every misprediction of a conditional branch is corrected (MISP_REDUCTION_PERC is 100) and
-- indirect targets are taken as known (PERFECT_INDIRECT_PRED), `predict` returns "not mispredicted"
-- for every branch, whatever the predictors say.
pub predict-corrected :
    {C I : Type 0} (cond : Conditional C) (ind : Indirect I) (o : Options) (u : BranchUnit C I)
    (q : Query) (e : Epoch) (es : List Epoch)
    → u.epochs ≡ e ∷ es
    → o.misp_reduction_perc ≡ 100
    → o.perfect_indirect_pred ≡ true
    → is_br q.inst_class ≡ true
    → (u' : BranchUnit C I) × (predict cond ind o u q ≡ done (false, u'))
unfolding predict
predict-corrected cond ind o u q e es here all perfect br =
    elim (Bool-cases (same_class q.inst_class cond_branch)) [
      | inl p1 ↦ rw p1 (corrected_conditional cond ind o u q e es here all)
      | inr n1 ↦
          elim (Bool-cases
            (same_class q.inst_class uncond_direct_branch || same_class q.inst_class call_direct)) [
              | inl p2 ↦ rw (n1, p2) (corrected_direct cond ind o u q e es here)
              | inr n2 ↦ elim (Bool-cases (is_uncond_ind_br q.inst_class)) [
                | inl p3 ↦ rw (n1, n2, p3) (corrected_indirect cond ind o u q e es here perfect)
                | inr n3 ↦ absurd (ground (arith, br, n1, n2, n3))
              ]
            ]
    ]
