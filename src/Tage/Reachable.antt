-- ===== src/Tage/Reachable.antt =====
-- The runs of the predictor: any sequence of predictions, recorded branches and resolved branches
-- from construction on (cbp2016_tage_sc_l.h).
pub mod Lookups
pub mod Keeping
pub mod Banks
pub mod Training
pub mod Sound
pub mod Inside
use ternary_geo_bp.Base.{ℕ, Bool, ◌≡◌, Run, done}
use ternary_geo_bp.Tage.{Config, Predictor}
use ternary_geo_bp.Tage.Record.{Branch}
use ternary_geo_bp.Tage.Checkpoint.{predict, track, Resolved, update}
use ternary_geo_bp.Tage.Init.{init_histories}

-- The predictors that the calls of the simulator lead to, in any order and for any instructions, as
-- long as every call returns.
pub data Reachable (c : Config) : Predictor → Type 0 where
  constructed : Reachable c (init_histories c)
  predicting :
      {p q : Predictor} (seq_no piece pc : ℕ) (v : Bool × ℕ)
      → Reachable c p
      → predict c p seq_no piece pc ≡ done (v, q)
      → Reachable c q
  recording : {p : Predictor} (b : Branch) → Reachable c p → Reachable c (track p b)
  resolving :
      {p q : Predictor} (fuel seq_no piece : ℕ) (r : Resolved)
      → Reachable c p
      → update fuel c p seq_no piece r ≡ done q
      → Reachable c q
