-- ===== src/Tage/Checkpoint/Restored.antt =====
-- A branch between its prediction and its update (cbp2016_tage_sc_l.h).
use ternary_geo_bp.Base.{
  ℕ, ◌≤◌, ◌≡◌, ◌≢◌, refl, sym, ◌∙◌, ap, Bool, true, false, none, some, List, [], Run, done,
  assert_failed, out_of_fuel, ◌>>=◌, >>=-eq-done, if◌then◌else◌,
}
use ternary_geo_bp.Tage.{Config, History, Lookup, Predictor, Tables}
use ternary_geo_bp.Tage.Allocate.Ends.{allocate-done}
use ternary_geo_bp.Tage.Allocate.{allocate}
use ternary_geo_bp.Tage.Corrector.{predict_using_given_hist}
use ternary_geo_bp.Tage.Record.{Branch}
use ternary_geo_bp.Tage.Learn.{learn, train_tage}
use ternary_geo_bp.Tage.Checkpoint.{
  get_unique_inst_id, find, emplace, erase, at_key, predict, track, Resolved, update_from, update,
}
use ternary_geo_bp.Tage.Checkpoint.Keys.{find-emplace_self, find-emplace_ne, find-erase_ne}

-- What happens to the predictor while the instruction of number `key` is in flight: other
-- instructions are predicted and resolved, and any branches are recorded in the history.
pub data Meanwhile (c : Config) (key : ℕ) : Predictor → Predictor → Type 0 where
  none_yet : {p : Predictor} → Meanwhile c key p p
  predicted :
      {p p' q : Predictor} (seq_no piece pc other : ℕ) (v : Bool × ℕ)
      → Meanwhile c key p p'
      → get_unique_inst_id seq_no piece ≡ done other
      → key ≢ other
      → predict c p' seq_no piece pc ≡ done (v, q)
      → Meanwhile c key p q
  recorded : {p p' : Predictor} (b : Branch) → Meanwhile c key p p' → Meanwhile c key p (track p' b)
  resolved :
      {p p' q : Predictor} (fuel seq_no piece other : ℕ) (r : Resolved)
      → Meanwhile c key p p'
      → get_unique_inst_id seq_no piece ≡ done other
      → key ≢ other
      → update fuel c p' seq_no piece r ≡ done q
      → Meanwhile c key p q

-- The map of a predictor that an operation returns.
abbrev kept : Run Predictor → List (ℕ × History)
kept (done q) = q.histories
kept assert_failed = []
kept out_of_fuel = []

abbrev kept_predicted : Run ((Bool × ℕ) × Predictor) → List (ℕ × History)
kept_predicted (done (v, q)) = q.histories
kept_predicted assert_failed = []
kept_predicted out_of_fuel = []

pub predict-histories :
    (c : Config) (p q : Predictor) (seq_no piece pc key : ℕ) (v : Bool × ℕ)
    → get_unique_inst_id seq_no piece ≡ done key
    → predict c p seq_no piece pc ≡ done (v, q)
    → q.histories ≡ emplace key p.hist p.histories
unfolding predict
predict-histories c p q seq_no piece pc key v id e =
    let e' = rw id at e in sym (ap kept_predicted e')

update_from-histories :
    (fuel : ℕ) (c : Config) (p q : Predictor) (key : ℕ) (r : Resolved) (old : History)
    → update_from fuel c p key r old ≡ done q
    → q.histories ≡ erase key p.histories
unfolding update_from
update_from-histories fuel c p q key r old e =
    let s = (predict_using_given_hist c p.tables r.pc old p.look).1 in
    let v = (predict_using_given_hist c p.tables r.pc old p.look).0 in
    let (th, el, e') =
      >>=-eq-done (learn fuel c s r.pc r.resolve_dir (v.0) old r.is_ld_dependent p.hist p.tables) _
        e in
    sym (ap kept e')

pub update-histories :
    (fuel : ℕ) (c : Config) (p q : Predictor) (seq_no piece key : ℕ) (r : Resolved)
    → get_unique_inst_id seq_no piece ≡ done key
    → update fuel c p seq_no piece r ≡ done q
    → q.histories ≡ erase key p.histories
unfolding update
update-histories fuel c p q seq_no piece key r id e =
    let (k, ek, e1) = >>=-eq-done (get_unique_inst_id seq_no piece) _ e in
    let (old, eo, e2) = >>=-eq-done (at_key k p.histories) _ e1 in
    let same : k ≡ key = cc (ek, id) in
    update_from-histories fuel c p q k r old e2 ∙ ap (λ (t : ℕ). erase t p.histories) same

track-histories : (p : Predictor) (b : Branch) → (track p b).histories ≡ p.histories
unfolding track
track-histories p b = refl

Meanwhile-find :
    {c : Config} {key : ℕ} {p q : Predictor}
    → Meanwhile c key p q
    → find key q.histories ≡ find key p.histories
Meanwhile-find none_yet = refl
Meanwhile-find {c} {key} (predicted {p' = p'} {q = q} seq_no piece pc other v m id ne e) =
    ap (find key) (predict-histories c p' q seq_no piece pc other v id e)
    ∙ find-emplace_ne key other p'.hist p'.histories ne
    ∙ Meanwhile-find m
Meanwhile-find {key} (recorded {p' = p'} b m) =
    ap (find key) (track-histories p' b) ∙ Meanwhile-find m
Meanwhile-find {c} {key} (resolved {p' = p'} {q = q} fuel seq_no piece other r m id ne e) =
    ap (find key) (update-histories fuel c p' q seq_no piece other r id e)
    ∙ find-erase_ne key other p'.histories ne
    ∙ Meanwhile-find m

bind-done :
    {A B : Type 0} (m : Run A) (f : A → B)
    → (a : A) × (m ≡ done a)
    → (b : B) × ((m >>= λ a. done (f a)) ≡ done b)
bind-done m f (a, e) = (f a, rw e refl)

at_key-some :
    (key : ℕ) (m : List (ℕ × History)) (h : History) → find key m ≡ some h → at_key key m ≡ done h
unfolding at_key
at_key-some key m h e = rw (e, at_key) refl

if-done :
    (b : Bool) (m : Run Tables) (t : Tables)
    → (t' : Tables) × (m ≡ done t')
    → (t' : Tables) × ((if b then m else done t) ≡ done t')
if-done true m t d = d
if-done false m t d = (t, refl)

train_tage-done :
    (fuel : ℕ) (c : Config) (s : Lookup) (dir pred_taken ld : Bool) (h : History) (t : Tables)
    → 19 ≤ fuel
    → (t' : Tables) × (train_tage fuel c s dir pred_taken ld h t ≡ done t')
unfolding train_tage
train_tage-done fuel c s dir pred_taken ld h t enough =
    bind-done _ _ (if-done _ (allocate fuel s dir h _) _ (allocate-done fuel s dir h _ enough))

learn-done :
    (fuel : ℕ) (c : Config) (s : Lookup) (pc : ℕ) (dir pred_taken : Bool) (old : History)
    (ld : Bool) (h : History) (t : Tables)
    → 19 ≤ fuel
    → (r : Tables × History) × (learn fuel c s pc dir pred_taken old ld h t ≡ done r)
unfolding learn
learn-done fuel c s pc dir pred_taken old ld h t enough =
    bind-done _ _ (train_tage-done fuel c s dir pred_taken ld _ _ enough)

update_from-done :
    (fuel : ℕ) (c : Config) (p : Predictor) (key : ℕ) (r : Resolved) (old : History)
    → 19 ≤ fuel
    → (q : Predictor) × (update_from fuel c p key r old ≡ done q)
unfolding update_from
update_from-done fuel c p key r old enough =
    bind-done _ _
      (learn-done fuel c _ r.pc r.resolve_dir _ old r.is_ld_dependent p.hist p.tables enough)

-- Between the prediction of a branch, whose number no earlier branch in flight has, and its update,
-- other instructions may be predicted and resolved and any branches recorded: the update then finds
-- the history that the prediction was made with, and it returns with 19 rounds of fuel.
pub update-restores :
    (fuel : ℕ) (c : Config) (p p' q : Predictor) (seq_no piece pc key : ℕ) (v : Bool × ℕ)
    (r : Resolved)
    → 19 ≤ fuel
    → get_unique_inst_id seq_no piece ≡ done key
    → find key p.histories ≡ none
    → predict c p seq_no piece pc ≡ done (v, p')
    → Meanwhile c key p' q
    → (update fuel c q seq_no piece r ≡ update_from fuel c q key r p.hist)
      × ((q' : Predictor) × (update fuel c q seq_no piece r ≡ done q'))
unfolding update
update-restores fuel c p p' q seq_no piece pc key v r enough id fresh e0 m =
    let (q', e) = update_from-done fuel c q key r p.hist enough in (here, (q', here ∙ e))
  where
    stored : find key q.histories ≡ some p.hist
    stored =
        Meanwhile-find m
        ∙ ap (find key) (predict-histories c p p' seq_no piece pc key v id e0)
        ∙ find-emplace_self key p.hist p.histories fresh

    found : at_key key q.histories ≡ done p.hist
    found = at_key-some key q.histories p.hist stored

    here : update fuel c q seq_no piece r ≡ update_from fuel c q key r p.hist
    here = rw (id, found, update) refl

-- An update that finds its history returns.
pub update-done :
    (fuel : ℕ) (c : Config) (q : Predictor) (seq_no piece key : ℕ) (r : Resolved) (h : History)
    → 19 ≤ fuel
    → get_unique_inst_id seq_no piece ≡ done key
    → find key q.histories ≡ some h
    → (q' : Predictor) × (update fuel c q seq_no piece r ≡ done q')
unfolding update
update-done fuel c q seq_no piece key r h enough id stored =
    let (q', e) = update_from-done fuel c q key r h enough in
    (q', rw (id, at_key-some key q.histories h stored, update) e)
