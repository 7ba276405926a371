-- ===== src/Tage/Checkpoint.antt =====
-- The interface of the predictor (cbp2016_tage_sc_l.h): `predict` keeps the history of the prediction
-- under the number of the instruction, and `update` predicts with it again before it trains.
pub mod Keys
pub mod Restored
pub mod Errors
use ternary_geo_bp.Base.{
  ℕ, ◌+◌, ◌*◌, ◌/◌, ◌%◌, ◌^◌, ◌≡◌, Bool, true, false, Option, none, some, List, [], ◌∷◌, ltb, ◌==◌,
  if◌then◌else◌, u64, ◌<<<◌, ◌&&&◌, Run, done, assert_failed, ◌>>=◌, ◌>>◌, assert,
}
use ternary_geo_bp.Tage.{Config, History, Lookup, Predictor, Tables}
use ternary_geo_bp.Tage.Corrector.{predict_using_given_hist}
use ternary_geo_bp.Tage.Record.{Branch, history_update}
use ternary_geo_bp.Tage.Learn.{learn}

-- `get_unique_inst_id`; `bit_or` of a multiple of 16 and a number below 16.
unfoldable pub get_unique_inst_id : ℕ → ℕ → Run ℕ
get_unique_inst_id seq_no piece = do
  assert (ltb piece 16)
  done (u64 (seq_no <<< 4) + (piece &&& 15))

-- The operations of the map: find, emplace (which keeps an old value), and erase.
unfoldable pub find : ℕ → List (ℕ × History) → Option History
find key [] = none
find key ((k, h) ∷ rest) = if k == key then some h else find key rest

unfoldable pub emplace : ℕ → History → List (ℕ × History) → List (ℕ × History)
unfolding find
emplace key h histories = elim (find key histories) [
  | none ↦ (key, h) ∷ histories
  | some old ↦ histories
]

unfoldable pub erase : ℕ → List (ℕ × History) → List (ℕ × History)
erase key [] = []
erase key ((k, h) ∷ rest) = if k == key then erase key rest else (k, h) ∷ erase key rest

-- pred_time_histories.at (key), which throws where there is none.
unfoldable pub at_key : ℕ → List (ℕ × History) → Run History
unfolding find
at_key key histories = elim (find key histories) [ none ↦ assert_failed | some h ↦ done h ]

-- `predict`: the direction and the part that it comes from.
unfoldable pub predict : Config → Predictor → ℕ → ℕ → ℕ → Run ((Bool × ℕ) × Predictor)
predict c p seq_no piece pc = do
  key ← get_unique_inst_id seq_no piece
  let (verdict, s) = predict_using_given_hist c p.tables pc p.hist p.look
  done (verdict, record p { look = s; histories = emplace key p.hist p.histories })

-- `history_update` and `TrackOtherInst`
unfoldable pub track : Predictor → Branch → Predictor
track p b =
    let (h, seed) = history_update p.look b p.tables.seed p.hist in
    record p { hist = h; tables = record p.tables { seed = seed } }

-- What a resolved branch tells.
pub record Resolved : Type 0 where
  pub pc : ℕ
  pub resolve_dir : Bool
  pub is_ld_dependent : Bool

-- `update`, once the history of the prediction has been found.
unfoldable pub update_from : ℕ → Config → Predictor → ℕ → Resolved → History → Run Predictor
update_from fuel c p key r old =
    let (verdict, s) = predict_using_given_hist c p.tables r.pc old p.look in
    do
      (tables, hist) ←
          learn fuel c s r.pc r.resolve_dir (verdict.0) old r.is_ld_dependent p.hist p.tables
      done (record p { look = s; tables = tables; hist = hist; histories = erase key p.histories })

-- `update`
unfoldable pub update : ℕ → Config → Predictor → ℕ → ℕ → Resolved → Run Predictor
update fuel c p seq_no piece r = do
  key ← get_unique_inst_id seq_no piece
  old ← at_key key p.histories
  update_from fuel c p key r old
