-- ===== src/Interface/Hooks/Lifecycle.antt =====
-- A conditional branch between its prediction and its resolution
-- (cond_branch_predictor_interface.cc).
use ternary_geo_bp.Base.{
  ℕ, ◌≡◌, ◌≢◌, refl, sym, ◌∙◌, ap, ap₂, Bool, true, false, Option, none, some, List, if◌then◌else◌,
  find_key, find_key-erase_key, done, ◌>>◌, assert, ◌||◌, >>=-eq-done, done_injective, ==_refl,
  ne→==, Option-cases, inl, inr, Bool-cases,
}
use ternary_geo_bp.Insts.{
  InstClass, cond_branch, same_class, DebugLog, DecodeInfo, ExecuteInfo, is_br, is_cond_br, is_load,
}
use ternary_geo_bp.Tage.{History}
use ternary_geo_bp.Tage.Checkpoint.{get_unique_inst_id, find, predict, track, update}
use ternary_geo_bp.Tage.Checkpoint.Keys.{find-emplace_ne, find-erase_ne}
use ternary_geo_bp.Tage.Checkpoint.Restored.{predict-histories, update-histories}
use ternary_geo_bp.Interface.Sample.{SampleCondPredictor, SampleHist}
use ternary_geo_bp.Interface.Sample
use ternary_geo_bp.Interface.Hooks.{
  Interface, Options, get_cond_dir_prediction, spec_update, notify_instr_decode, resolve_cond_br,
  notify_instr_execute_resolve, notify_instr_commit, value, has_sources, load_count,
}

-- The hooks that the simulator may call while the instruction of number `key` is in flight.
pub data Between (o : Options) (key : ℕ) : Interface → Interface → Type 0 where
  at_once : {i : Interface} → Between o key i i
  predicting :
      {i j k : Interface} (seq_no piece pc pred_cycle fetch_cycle exec_cycle other : ℕ) (b : Bool)
      → Between o key i j
      → get_unique_inst_id seq_no piece ≡ done other
      → key ≢ other
      → get_cond_dir_prediction o j seq_no piece pc pred_cycle fetch_cycle exec_cycle ≡ done (b, k)
      → Between o key i k
  updating :
      {i j k : Interface} (pc : ℕ) (c : InstClass) (resolve_dir pred_dir : Bool) (next_pc : ℕ)
      → Between o key i j
      → spec_update j pc c resolve_dir pred_dir next_pc ≡ done k
      → Between o key i k
  decoding :
      {i j k : Interface} (fuel seq_no piece : ℕ) (info : DecodeInfo)
      → Between o key i j
      → notify_instr_decode fuel j seq_no piece info ≡ done k
      → Between o key i k
  executing :
      {i j k : Interface} (fuel seq_no piece pc execute_cycle other : ℕ) (pred_dir : Bool)
      (info : ExecuteInfo)
      → Between o key i j
      → get_unique_inst_id seq_no piece ≡ done other
      → key ≢ other
      → notify_instr_execute_resolve fuel o j seq_no piece pc pred_dir info execute_cycle ≡ done k
      → Between o key i k
  committing :
      {i j k : Interface} (info : ExecuteInfo)
      → Between o key i j
      → notify_instr_commit j info ≡ done k
      → Between o key i k

-- The two histories that are kept for a number.
abbrev pub kept : ℕ → Interface → Option History × Option SampleHist
kept key i = (find key i.tage.histories, find_key key i.impl.pred_time_histories)

find_key-emplace_ne :
    (key k : ℕ) (h : SampleHist) (m : List (ℕ × SampleHist))
    → key ≢ k
    → find_key key (Sample.emplace k h m) ≡ find_key key m
unfolding Sample.emplace
find_key-emplace_ne key k h m ne = elim (Option-cases (find_key k m)) [
  | inl fresh ↦ rw (fresh, Sample.emplace, ne→== k key (λ d. ne (sym d))) refl
  | inr (old, e) ↦ rw (e, Sample.emplace) refl
]

pub find_key-emplace_self :
    (key : ℕ) (h : SampleHist) (m : List (ℕ × SampleHist))
    → find_key key m ≡ none
    → find_key key (Sample.emplace key h m) ≡ some h
unfolding Sample.emplace
find_key-emplace_self key h m fresh = rw (fresh, Sample.emplace, ==_refl key) refl

sample_predict-kept :
    (p q : SampleCondPredictor) (seq_no piece key other : ℕ) (t b : Bool)
    → get_unique_inst_id seq_no piece ≡ done other
    → key ≢ other
    → Sample.predict p seq_no piece t ≡ done (b, q)
    → find_key key q.pred_time_histories ≡ find_key key p.pred_time_histories
unfolding Sample.predict
sample_predict-kept p q seq_no piece key other t b id ne e =
    let (k, ek, e1) = >>=-eq-done (get_unique_inst_id seq_no piece) _ e in
    let same_key : k ≡ other = done_injective k other (sym ek ∙ id) in
    ap (λ (r : Bool × SampleCondPredictor). find_key key r.1.pred_time_histories)
      (sym (done_injective (t, _) (b, q) e1))
    ∙ find_key-emplace_ne key k (record p.active_hist { tage_pred = t }) p.pred_time_histories
        (λ d. ne (d ∙ same_key))

sample_update-kept :
    (p q : SampleCondPredictor) (seq_no piece key other : ℕ)
    → get_unique_inst_id seq_no piece ≡ done other
    → key ≢ other
    → Sample.update p seq_no piece ≡ done q
    → find_key key q.pred_time_histories ≡ find_key key p.pred_time_histories
unfolding Sample.update
sample_update-kept p q seq_no piece key other id ne e =
    let (k, ek, e1) = >>=-eq-done (get_unique_inst_id seq_no piece) _ e in
    let (old, eo, e2) = >>=-eq-done (Sample.at_key k p.pred_time_histories) _ e1 in
    let same_key : k ≡ other = done_injective k other (sym ek ∙ id) in
    ap (λ (r : SampleCondPredictor). find_key key r.pred_time_histories)
      (sym (done_injective _ q e2))
    ∙ find_key-erase_key key k p.pred_time_histories
    ∙ ap (λ (b : Bool). if b then none else find_key key p.pred_time_histories)
        (ne→== k key (λ d. ne (sym d ∙ same_key)))

predicting-kept :
    (o : Options) (j k : Interface)
    (seq_no piece pc pred_cycle fetch_cycle exec_cycle key other : ℕ) (b : Bool)
    → get_unique_inst_id seq_no piece ≡ done other
    → key ≢ other
    → get_cond_dir_prediction o j seq_no piece pc pred_cycle fetch_cycle exec_cycle ≡ done (b, k)
    → kept key k ≡ kept key j
unfolding get_cond_dir_prediction
predicting-kept o j k seq_no piece pc pred_cycle fetch_cycle exec_cycle key other b id ne e =
    let (r, er, e1) = >>=-eq-done (predict o.config j.tage seq_no piece pc) _ e in
    let (r', er', e2) = >>=-eq-done (Sample.predict j.impl seq_no piece (r.0.0)) _ e1 in
    let (l, el, e3) = >>=-eq-done (get_unique_inst_id seq_no piece) _ e2 in
    ap (λ (x : Bool × Interface). kept key x.1) (sym (done_injective _ (b, k) e3))
    ∙ ap₂ (λ (x : Option History) (y : Option SampleHist). (x, y))
        (ap (find key) (predict-histories o.config j.tage (r.1) seq_no piece pc other (r.0) id er)
          ∙ find-emplace_ne key other j.tage.hist j.tage.histories ne)
        (sample_predict-kept j.impl (r'.1) seq_no piece key other (r.0.0) (r'.0) id ne er')

resolve_cond_br-kept :
    (fuel : ℕ) (o : Options) (j k : Interface) (seq_no piece pc key other : ℕ) (info : ExecuteInfo)
    → get_unique_inst_id seq_no piece ≡ done other
    → key ≢ other
    → resolve_cond_br fuel o j seq_no piece pc info ≡ done k
    → kept key k ≡ kept key j
unfolding resolve_cond_br
resolve_cond_br-kept fuel o j k seq_no piece pc key other info id ne e =
    let (dir, ed, e1) = >>=-eq-done (value info.taken) _ e in
    let (t, et, e2) = >>=-eq-done (update fuel o.config j.tage seq_no piece _) _ e1 in
    let (s, es, e3) = >>=-eq-done (Sample.update j.impl seq_no piece) _ e2 in
    ap (kept key) (sym (done_injective _ k e3))
    ∙ ap₂ (λ (x : Option History) (y : Option SampleHist). (x, y))
        (ap (find key) (update-histories fuel o.config j.tage t seq_no piece other _ id et)
          ∙ find-erase_ne key other j.tage.histories ne)
        (sample_update-kept j.impl s seq_no piece key other id ne es)

executing-kept :
    (fuel : ℕ) (o : Options) (j k : Interface) (seq_no piece pc execute_cycle key other : ℕ)
    (pred_dir : Bool) (info : ExecuteInfo)
    → get_unique_inst_id seq_no piece ≡ done other
    → key ≢ other
    → notify_instr_execute_resolve fuel o j seq_no piece pc pred_dir info execute_cycle ≡ done k
    → kept key k ≡ kept key j
unfolding notify_instr_execute_resolve
executing-kept fuel o j k seq_no piece pc execute_cycle key other pred_dir info id ne e =
    let (l, el, e1) = >>=-eq-done (get_unique_inst_id seq_no piece) _ e in
    let (i', ei, e2) =
      >>=-eq-done
        (if is_br info.dec_info.insn_class
          then (if is_cond_br info.dec_info.insn_class
              then resolve_cond_br fuel o j seq_no piece pc info
              else (assert pred_dir >> done j))
          else done j)
        _ e1 in
    ap (kept key) (sym (done_injective _ k e2))
    ∙ logged (is_cond_br info.dec_info.insn_class || is_load info.dec_info.insn_class) i' _
    ∙ branches (is_br info.dec_info.insn_class) (is_cond_br info.dec_info.insn_class) i' ei
  where
    logged :
        (b : Bool) (i : Interface) (m : List (ℕ × DebugLog))
        → kept key (if b then record i { histories_log = m } else i) ≡ kept key i
    logged true i m = refl
    logged false i m = refl

    branches :
        (b c : Bool) (i : Interface)
        → (if b
            then (if c
                then resolve_cond_br fuel o j seq_no piece pc info
                else (assert pred_dir >> done j))
            else done j)
          ≡ done i
        → kept key i ≡ kept key j
    branches false c i h = ap (kept key) (sym (done_injective j i h))
    branches true true i h = resolve_cond_br-kept fuel o j i seq_no piece pc key other info id ne h
    branches true false i h =
        let (u, eu, h1) = >>=-eq-done (assert pred_dir) (λ x. done j) h in
        ap (kept key) (sym (done_injective j i h1))

updating-kept :
    (j k : Interface) (pc : ℕ) (c : InstClass) (resolve_dir pred_dir : Bool) (next_pc key : ℕ)
    → spec_update j pc c resolve_dir pred_dir next_pc ≡ done k
    → kept key k ≡ kept key j
unfolding spec_update track Sample.history_update
updating-kept j k pc c resolve_dir pred_dir next_pc key e =
    let (u, eu, e1) = >>=-eq-done (assert (is_br c)) _ e in
    ap (kept key) (sym (done_injective _ k e1))
    ∙ ap (λ (y : Option SampleHist). (find key j.tage.histories, y))
        (chosen (same_class c cond_branch))
  where
    chosen :
        (b : Bool)
        → find_key key
            (if b then Sample.history_update j.impl resolve_dir else j.impl).pred_time_histories
          ≡ find_key key j.impl.pred_time_histories
    chosen true = refl
    chosen false = refl

decoding-kept :
    (fuel : ℕ) (j k : Interface) (seq_no piece : ℕ) (info : DecodeInfo) (key : ℕ)
    → notify_instr_decode fuel j seq_no piece info ≡ done k
    → kept key k ≡ kept key j
unfolding notify_instr_decode
decoding-kept fuel j k seq_no piece info key e = elim (Bool-cases (is_load info.insn_class)) [
  | inl l ↦
      let e' = rw l at e in
      let (d, ed, e1) = >>=-eq-done (value info.dst_reg_info) _ e' in
      ap (kept key) (sym (done_injective _ k e1))
  | inr nl ↦ elim (Bool-cases (is_cond_br info.insn_class)) [
    | inl c ↦
        let e' = rw (nl, c) at e in
        let (n, en, e1) =
          >>=-eq-done
            (if has_sources info.src_reg_info
              then load_count fuel j.dep_graph info.src_reg_info 0
              else done 0)
            _ e' in
        let (l, el, e2) = >>=-eq-done (get_unique_inst_id seq_no piece) _ e1 in
        ap (kept key) (sym (done_injective _ k e2))
    | inr nc ↦ let e' = rw (nl, nc) at e in ap (kept key) (sym (done_injective j k e'))
  ]
]

committing-kept :
    (j k : Interface) (info : ExecuteInfo) (key : ℕ)
    → notify_instr_commit j info ≡ done k
    → kept key k ≡ kept key j
unfolding notify_instr_commit
committing-kept j k info key e = elim (Bool-cases (is_load info.dec_info.insn_class)) [
  | inl l ↦
      let e' = rw l at e in
      let (d, ed, e1) = >>=-eq-done (value info.dec_info.dst_reg_info) _ e' in
      ap (kept key) (sym (done_injective _ k e1))
  | inr nl ↦ let e' = rw nl at e in ap (kept key) (sym (done_injective j k e'))
]

pub Between-kept :
    {o : Options} {key : ℕ} {i j : Interface} → Between o key i j → kept key j ≡ kept key i
Between-kept at_once = refl
Between-kept {o} {key} (predicting {j = j} {k = k} seq_no piece pc c1 c2 c3 other b m id ne e) =
    predicting-kept o j k seq_no piece pc c1 c2 c3 key other b id ne e ∙ Between-kept m
Between-kept {key} (updating {j = j} {k = k} pc c r p n m e) =
    updating-kept j k pc c r p n key e ∙ Between-kept m
Between-kept {key} (decoding {j = j} {k = k} fuel seq_no piece info m e) =
    decoding-kept fuel j k seq_no piece info key e ∙ Between-kept m
Between-kept {o} {key}
      (executing {j = j} {k = k} fuel seq_no piece pc cycle other p info m id ne e) =
    executing-kept fuel o j k seq_no piece pc cycle key other p info id ne e ∙ Between-kept m
Between-kept {key} (committing {j = j} {k = k} info m e) =
    committing-kept j k info key e ∙ Between-kept m
