-- ===== src/Interface/Sample.antt =====
-- SampleCondPredictor (my_cond_branch_predictor.h), which stands behind TAGE-SC-L and passes its
-- prediction on. get_unique_inst_id is that of the other predictor.
use ternary_geo_bp.Base.{
  ℕ, ◌+◌, Bool, none, some, List, ◌∷◌, to_ℕ, u64, ◌<<<◌, find_key, erase_key, Run, done,
  assert_failed, ◌>>=◌,
}
use ternary_geo_bp.Tage.Checkpoint.{get_unique_inst_id}

-- SampleHist
pub record SampleHist : Type 0 where
  pub ghist : ℕ
  pub tage_pred : Bool

-- SampleCondPredictor
pub record SampleCondPredictor : Type 0 where
  pub active_hist : SampleHist
  pub pred_time_histories : List (ℕ × SampleHist)

-- emplace, which keeps an old value
unfoldable pub emplace : ℕ → SampleHist → List (ℕ × SampleHist) → List (ℕ × SampleHist)
emplace key h m = elim (find_key key m) [ none ↦ (key, h) ∷ m | some old ↦ m ]

-- `predict_using_given_hist`
abbrev pub predict_using_given_hist : SampleHist → Bool
predict_using_given_hist h = h.tage_pred

-- `predict`
unfoldable pub predict : SampleCondPredictor → ℕ → ℕ → Bool → Run (Bool × SampleCondPredictor)
predict p seq_no piece tage_pred =
    let active = record p.active_hist { tage_pred = tage_pred } in
    do
      key ← get_unique_inst_id seq_no piece
      done (
        predict_using_given_hist active,
        record {
          active_hist = active;
          pred_time_histories = emplace key active p.pred_time_histories;
        },
      )

-- `history_update`
unfoldable pub history_update : SampleCondPredictor → Bool → SampleCondPredictor
history_update p taken = record p {
  active_hist = record p.active_hist { ghist = u64 (p.active_hist.ghist <<< 1) + to_ℕ taken };
}

-- pred_time_histories.at (key)
unfoldable pub at_key : ℕ → List (ℕ × SampleHist) → Run SampleHist
at_key key m = elim (find_key key m) [ none ↦ assert_failed | some h ↦ done h ]

-- `update`, which trains nothing
unfoldable pub update : SampleCondPredictor → ℕ → ℕ → Run SampleCondPredictor
update p seq_no piece = do
  key ← get_unique_inst_id seq_no piece
  old ← at_key key p.pred_time_histories
  done (record p { pred_time_histories = erase_key key p.pred_time_histories })
