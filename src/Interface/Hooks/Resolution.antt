-- ===== src/Interface/Hooks/Resolution.antt =====
-- The resolution of a conditional branch (cond_branch_predictor_interface.cc).
use ternary_geo_bp.Base.{
  find_key-erase_key, ==_refl, ℕ, ◌≤◌, ◌≡◌, refl, sym, ◌∙◌, ap, ap₂, Bool, true, false, ◌&&◌,
  Option, none, some, List, if◌then◌else◌, find_key, erase_key, assign_key, done, >>=-eq-done,
  done_injective,
}
use ternary_geo_bp.Insts.{cond_branch, ExecuteInfo, is_br, is_cond_br}
use ternary_geo_bp.Tage.{History}
use ternary_geo_bp.Tage.Checkpoint.{get_unique_inst_id, Resolved, find, predict}
use ternary_geo_bp.Tage.Checkpoint.Keys.{find-emplace_self}
use ternary_geo_bp.Tage.Checkpoint.Restored.{predict-histories, update-histories, update-done}
use ternary_geo_bp.Tage.Checkpoint.Errors.{find-erase_self}
use ternary_geo_bp.Interface.Sample.{SampleCondPredictor, SampleHist}
use ternary_geo_bp.Interface.Sample
use ternary_geo_bp.Interface.Hooks.{
  Interface, Options, get_cond_dir_prediction, resolve_cond_br, notify_instr_execute_resolve,
  any_in_flight, has_sources, log_executed, log_of,
}
use ternary_geo_bp.Interface.Hooks.Lifecycle.{Between, kept, Between-kept, find_key-emplace_self}

sample_predict-stores :
    (p q : SampleCondPredictor) (seq_no piece key : ℕ) (t b : Bool)
    → get_unique_inst_id seq_no piece ≡ done key
    → find_key key p.pred_time_histories ≡ none
    → Sample.predict p seq_no piece t ≡ done (b, q)
    → find_key key q.pred_time_histories ≡ some (record p.active_hist { tage_pred = t })
unfolding Sample.predict
sample_predict-stores p q seq_no piece key t b id fresh e =
    let e' = rw id at e in
    ap (λ (r : Bool × SampleCondPredictor). find_key key r.1.pred_time_histories)
      (sym (done_injective _ (b, q) e'))
    ∙ find_key-emplace_self key (record p.active_hist { tage_pred = t }) p.pred_time_histories fresh

sample_update-done :
    (p : SampleCondPredictor) (seq_no piece key : ℕ) (h : SampleHist)
    → get_unique_inst_id seq_no piece ≡ done key
    → find_key key p.pred_time_histories ≡ some h
    → (q : SampleCondPredictor) × (Sample.update p seq_no piece ≡ done q)
      × (find_key key q.pred_time_histories ≡ none)
unfolding Sample.update Sample.at_key
sample_update-done p seq_no piece key h id stored = (
  record p { pred_time_histories = erase_key key p.pred_time_histories },
  rw (id, stored, Sample.update, Sample.at_key) refl,
  find_key-erase_key key key p.pred_time_histories ∙ rw (==_refl key) refl,
)

predicted-kept :
    (o : Options) (i j : Interface) (seq_no piece pc pred_cycle fetch_cycle exec_cycle key : ℕ)
    (b : Bool)
    → get_unique_inst_id seq_no piece ≡ done key
    → find key i.tage.histories ≡ none
    → find_key key i.impl.pred_time_histories ≡ none
    → get_cond_dir_prediction o i seq_no piece pc pred_cycle fetch_cycle exec_cycle ≡ done (b, j)
    → (h : History) × (h' : SampleHist) × (kept key j ≡ (some h, some h'))
unfolding get_cond_dir_prediction
predicted-kept o i j seq_no piece pc pred_cycle fetch_cycle exec_cycle key b id new new' e =
    let (r, er, e1) = >>=-eq-done (predict o.config i.tage seq_no piece pc) _ e in
    let (r', er', e2) = >>=-eq-done (Sample.predict i.impl seq_no piece (r.0.0)) _ e1 in
    let (l, el, e3) = >>=-eq-done (get_unique_inst_id seq_no piece) _ e2 in
    (
      i.tage.hist,
      record i.impl.active_hist { tage_pred = r.0.0 },
      ap (λ (x : Bool × Interface). kept key x.1) (sym (done_injective _ (b, j) e3))
          ∙ ap₂ (λ (x : Option History) (y : Option SampleHist). (x, y))
              (ap (find key)
                  (predict-histories o.config i.tage (r.1) seq_no piece pc key (r.0) id er)
                ∙ find-emplace_self key i.tage.hist i.tage.histories new)
              (sample_predict-stores i.impl (r'.1) seq_no piece key (r.0.0) (r'.0) id new' er'),
    )

resolve_cond_br-done :
    (fuel : ℕ) (o : Options) (k : Interface) (seq_no piece pc key : ℕ) (info : ExecuteInfo)
    (dir : Bool) (h : History) (h' : SampleHist)
    → 19 ≤ fuel
    → get_unique_inst_id seq_no piece ≡ done key
    → info.taken ≡ some dir
    → kept key k ≡ (some h, some h')
    → (k' : Interface) × (resolve_cond_br fuel o k seq_no piece pc info ≡ done k')
      × (find key k'.tage.histories ≡ none)
      × (find_key key k'.impl.pred_time_histories ≡ none)
unfolding resolve_cond_br
resolve_cond_br-done fuel o k seq_no piece pc key info dir h h' enough id known stored =
    let (t, et) =
      update-done fuel o.config k.tage seq_no piece key resolved h enough id
        (ap (λ (x : Option History × Option SampleHist). x.0) stored) in
    let (s, es, erased) =
      sample_update-done k.impl seq_no piece key h' id
        (ap (λ (x : Option History × Option SampleHist). x.1) stored) in
    (
      record k { tage = t; impl = s; registers_in_flight = looked.1 },
      rw (known, et, es) refl,
      ap (find key) (update-histories fuel o.config k.tage t seq_no piece key resolved id et)
          ∙ find-erase_self key k.tage.histories,
      erased,
    )
  where
    looked : Bool × List (ℕ × Bool)
    looked =
        if has_sources info.dec_info.src_reg_info
        then any_in_flight k.registers_in_flight info.dec_info.src_reg_info false
        else (false, k.registers_in_flight)

    resolved : Resolved
    resolved = record {
      pc = pc;
      resolve_dir = dir;
      is_ld_dependent = o.load_dependent_branches && looked.0;
    }

-- A conditional branch that is predicted is resolved: whatever hooks are called for other
-- instructions in between, notify_instr_execute_resolve finds the histories of both predictors,
-- returns with 19 rounds of fuel, and leaves a history under the number of the branch in neither of them.
pub resolve-predicted :
    (fuel : ℕ) (o : Options) (i j k : Interface)
    (seq_no piece pc pred_cycle fetch_cycle exec_cycle key : ℕ) (b : Bool) (pc' execute_cycle : ℕ)
    (pred_dir dir : Bool) (info : ExecuteInfo)
    → 19 ≤ fuel
    → get_unique_inst_id seq_no piece ≡ done key
    → find key i.tage.histories ≡ none
    → find_key key i.impl.pred_time_histories ≡ none
    → get_cond_dir_prediction o i seq_no piece pc pred_cycle fetch_cycle exec_cycle ≡ done (b, j)
    → Between o key j k
    → info.dec_info.insn_class ≡ cond_branch
    → info.taken ≡ some dir
    → (k' : Interface) × (notify_instr_execute_resolve fuel o k seq_no piece pc' pred_dir info
          execute_cycle
        ≡ done k')
      × (find key k'.tage.histories ≡ none)
      × (find_key key k'.impl.pred_time_histories ≡ none)
unfolding notify_instr_execute_resolve
resolve-predicted fuel o i j k seq_no piece pc c1 c2 c3 key b pc' cycle pred_dir dir info enough id
      new new' e m class known =
    let br : is_br info.dec_info.insn_class ≡ true = ap is_br class in
    let cond : is_cond_br info.dec_info.insn_class ≡ true = ap is_cond_br class in
    let (h, h', stored) = predicted-kept o i j seq_no piece pc c1 c2 c3 key b id new new' e in
    let (k', ek, gone, gone') =
      resolve_cond_br-done fuel o k seq_no piece pc' key info dir h h' enough id known
        (Between-kept m ∙ stored) in
    (
      record k' {
        histories_log =
            assign_key key (log_executed pc' pred_dir cycle info (log_of k'.histories_log key))
              k'.histories_log;
      },
      rw (id, br, cond, ek) refl,
      gone,
      gone',
    )
