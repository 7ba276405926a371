-- ===== src/Branch.antt =====
-- lib/bp.h and lib/bp.cc: the unit that asks the predictors about each instruction and counts the
-- mispredictions of each epoch. The two predictors stand behind the interfaces `Conditional` and
-- `Indirect`. The ten vectors of counters always grow together, so the model has one list of records,
-- the epoch of `back()` first. Counters are uint64_t.
pub mod Counts
mod Tests
use ternary_geo_bp.Base.{
  ℕ, ◌+◌, ◌%◌, Bool, true, false, not, ◌&&◌, ◌||◌, xor, List, [], ◌∷◌, ltb, ◌==◌, if◌then◌else◌,
  to_ℕ, u64, Run, done, assert_failed, ◌>>=◌,
}
use ternary_geo_bp.Insts.{
  InstClass, cond_branch, uncond_direct_branch, uncond_indirect_branch, call_direct, call_indirect,
  return_inst, same_class,
}

-- The counters of an epoch.
pub record Epoch : Type 0 where
  pub conddir_n : ℕ
  pub conddir_m : ℕ
  pub jumpdir_n : ℕ
  pub jumpind_n : ℕ
  pub jumpind_m : ℕ
  pub jumpret_n : ℕ
  pub jumpret_m : ℕ
  pub notctrl_n : ℕ
  pub notctrl_m : ℕ
  pub cycles_on_wrong_path : ℕ

abbrev pub new_epoch : Epoch
new_epoch = record {
  conddir_n = 0;
  conddir_m = 0;
  jumpdir_n = 0;
  jumpind_n = 0;
  jumpind_m = 0;
  jumpret_n = 0;
  jumpret_m = 0;
  notctrl_n = 0;
  notctrl_m = 0;
  cycles_on_wrong_path = 0;
}

-- The arguments of `predict`.
pub record Query : Type 0 where
  pub seq_no : ℕ
  pub piece : ℕ
  pub inst_class : InstClass
  pub pc : ℕ
  pub next_pc : ℕ
  pub pred_cycle : ℕ
  pub fetch_cycle : ℕ
  pub exec_cycle : ℕ

-- The conditional predictor (cond_branch_predictor_interface.cc).
pub record Conditional (C : Type 0) : Type 0 where
  pub get_cond_dir_prediction : C → Query → Bool × C
  pub spec_update : C → Query → Bool → Bool → C

-- IPREDICTOR (lib/ittage.h)
pub record Indirect (I : Type 0) : Type 0 where
  pub get_prediction : I → ℕ → ℕ × I
  pub update_predictor : I → ℕ → ℕ → I
  pub track_other_inst : I → ℕ → ℕ → I

-- What the unit reads from lib/parameters.cc, and the function rand_r of <cstdlib>.
pub record Options : Type 0 where
  pub perfect_indirect_pred : Bool
  pub misp_reduction_perc : ℕ
  pub rand_r : ℕ → ℕ × ℕ

-- bp_t
pub record BranchUnit (C I : Type 0) : Type 0 where
  pub cond : C
  pub ittage : I
  pub mispred_correction_seed : ℕ
  pub epochs : List Epoch

-- counter.back() += …
abbrev pub count : List Epoch → (Epoch → Epoch) → Run (List Epoch)
count [] f = assert_failed
count (e ∷ es) f = done (f e ∷ es)

-- Whether the misprediction is turned into a right prediction, and the seed afterwards.
unfoldable pub correct : Options → ℕ → Bool → Bool × ℕ
correct o seed misp =
    if not (o.misp_reduction_perc == 0) && misp
    then (if o.misp_reduction_perc == 100
        then (true, seed)
        else (ltb ((o.rand_r seed).0 % 100) o.misp_reduction_perc, (o.rand_r seed).1))
    else (false, seed)

abbrev pub count_conddir : Bool → Epoch → Epoch
count_conddir misp e = record e {
  conddir_n = u64 (e.conddir_n + 1);
  conddir_m = u64 (e.conddir_m + to_ℕ misp);
}

abbrev pub count_jump : Bool → Bool → Epoch → Epoch
count_jump is_ret misp e = record e {
  jumpind_n = u64 (e.jumpind_n + to_ℕ (not is_ret));
  jumpret_n = u64 (e.jumpret_n + to_ℕ is_ret);
  jumpind_m = u64 (e.jumpind_m + to_ℕ (not is_ret && misp));
  jumpret_m = u64 (e.jumpret_m + to_ℕ (is_ret && misp));
}

abbrev pub count_other : Bool → Epoch → Epoch
count_other misp e = record e {
  notctrl_n = u64 (e.notctrl_n + 1);
  notctrl_m = u64 (e.notctrl_m + to_ℕ misp);
}

module _ {C I : Type 0} (cond : Conditional C) (ind : Indirect I) (o : Options) where
  -- The branch of `predict` for conditional branches.
  unfoldable pub predict_conditional : BranchUnit C I → Query → Run (Bool × BranchUnit C I)
  predict_conditional u q =
      let taken = not (q.next_pc == u64 (q.pc + 4)) in
      let (guess, cond') = cond.get_cond_dir_prediction u.cond q in
      let wrong = xor guess taken in
      let (flip, seed) = correct o u.mispred_correction_seed wrong in
      let misp = wrong && not flip in
      let pred_taken = if flip then taken else guess in
      do
        epochs' ← count u.epochs (count_conddir misp)
        done (
          misp,
          record u {
            cond = cond.spec_update cond' q taken pred_taken;
            mispred_correction_seed = seed;
            epochs = epochs';
          },
        )

  -- The branch of `predict` for direct jumps and calls.
  unfoldable pub predict_direct : BranchUnit C I → Query → Run (Bool × BranchUnit C I)
  predict_direct u q = do
    epochs' ← count u.epochs (λ e. record e { jumpdir_n = u64 (e.jumpdir_n + 1) })
    done (
      false,
      record u {
        cond = cond.spec_update u.cond q true true;
        ittage =
            (if o.perfect_indirect_pred
              then u.ittage
              else ind.track_other_inst u.ittage q.pc q.next_pc);
        epochs = epochs';
      },
    )

  -- The branch of `predict` for indirect jumps, indirect calls and returns.
  unfoldable pub predict_indirect : BranchUnit C I → Query → Run (Bool × BranchUnit C I)
  predict_indirect u q =
      let is_ret = same_class q.inst_class return_inst in
      let (pred_target, ittage') = ind.get_prediction u.ittage q.pc in
      let misp = not o.perfect_indirect_pred && not (pred_target == q.next_pc) in
      do
        epochs' ← count u.epochs (count_jump is_ret misp)
        done (
          misp,
          record u {
            cond = cond.spec_update u.cond q true true;
            ittage =
                (if o.perfect_indirect_pred
                  then u.ittage
                  else ind.update_predictor ittage' q.pc q.next_pc);
            epochs = epochs';
          },
        )

  -- The last branch of `predict`.
  unfoldable pub predict_other : BranchUnit C I → Query → Run (Bool × BranchUnit C I)
  predict_other u q =
      let misp = not (q.next_pc == u64 (q.pc + 4)) in
      do epochs' ← count u.epochs (count_other misp); done (misp, record u { epochs = epochs' })

  -- `predict`
  unfoldable pub predict : BranchUnit C I → Query → Run (Bool × BranchUnit C I)
  predict u q =
      let c = q.inst_class in
      if same_class c cond_branch
      then predict_conditional u q
      else if same_class c uncond_direct_branch || same_class c call_direct
      then predict_direct u q
      else if same_class c uncond_indirect_branch
          || (same_class c call_indirect || same_class c return_inst)
      then predict_indirect u q
      else predict_other u q

module _ {C I : Type 0} where
  -- `notify_begin_new_epoch`
  unfoldable pub notify_begin_new_epoch : BranchUnit C I → BranchUnit C I
  notify_begin_new_epoch u = record u { epochs = new_epoch ∷ u.epochs }

  -- `update_cycles_on_wrong_path`
  unfoldable pub update_cycles_on_wrong_path : BranchUnit C I → ℕ → Run (BranchUnit C I)
  update_cycles_on_wrong_path u cycles = do
    epochs' ←
        count u.epochs
          (λ e. record e { cycles_on_wrong_path = u64 (e.cycles_on_wrong_path + cycles) })
    done (record u { epochs = epochs' })
