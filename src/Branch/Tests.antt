-- ===== src/Branch/Tests.antt =====
-- A unit whose predictors always say "taken" and 0x100.
use ternary_geo_bp.Base.{◌+◌, ◌≡◌, refl, true, false, [], ◌∷◌, arith, done, assert_failed}
use ternary_geo_bp.Insts.{cond_branch, return_inst}
use ternary_geo_bp.Branch.{
  new_epoch, Query, Conditional, Indirect, Options, BranchUnit, correct, predict_conditional,
  predict_indirect, predict,
}
use ternary_geo_bp.Branch.Counts.{Predicted, predict-Predicted}

abbrev always_taken : Conditional Unit
always_taken = record {
  get_cond_dir_prediction = λ c q. (true, c);
  spec_update = λ c q taken pred_taken. c;
}

abbrev one_target : Indirect Unit
one_target = record {
  get_prediction = λ i pc. (0x100, i);
  update_predictor = λ i pc next_pc. i;
  track_other_inst = λ i pc next_pc. i;
}

abbrev options : Options
options = record {
  perfect_indirect_pred = false;
  misp_reduction_perc = 0;
  rand_r = λ seed. (seed, seed + 1);
}

abbrev unit : BranchUnit Unit Unit
unit = record { cond = tt; ittage = tt; mispred_correction_seed = 0; epochs = new_epoch ∷ [] }

abbrev fall_through : Query
fall_through = record {
  seq_no = 1;
  piece = 0;
  inst_class = cond_branch;
  pc = 0x40;
  next_pc = 0x44;
  pred_cycle = 5;
  fetch_cycle = 5;
  exec_cycle = 9;
}

not_taken_is_missed :
    predict always_taken one_target options unit fall_through
    ≡ done (true, record unit { epochs = record new_epoch { conddir_n = 1; conddir_m = 1 } ∷ [] })
unfolding predict predict_conditional correct mathlib.Core.Bool.xor
not_taken_is_missed = refl

other_target_is_missed :
    predict always_taken one_target options unit (record fall_through { inst_class = return_inst })
    ≡ done (true, record unit { epochs = record new_epoch { jumpret_n = 1; jumpret_m = 1 } ∷ [] })
unfolding predict predict_indirect
other_target_is_missed = refl

no_epoch :
    predict always_taken one_target options (record unit { epochs = [] }) fall_through
    ≡ assert_failed
unfolding predict predict_conditional
no_epoch = refl

predict-Predicted_example :
    Predicted (predict always_taken one_target options unit fall_through) new_epoch []
predict-Predicted_example =
    predict-Predicted always_taken one_target options unit fall_through new_epoch [] refl (record {
      conddir = omega arith;
      jumpind = omega arith;
      jumpret = omega arith;
      notctrl = omega arith;
      small = omega arith;
    })

abbrev corrected : Options
corrected = record options { perfect_indirect_pred = true; misp_reduction_perc = 100 }
