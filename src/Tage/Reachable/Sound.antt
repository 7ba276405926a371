-- ===== src/Tage/Reachable/Sound.antt =====
-- What holds in every run of the predictor (cbp2016_tage_sc_l.h).
use mathlib.Core.Path.{subst}
use ternary_geo_bp.Base.{
  ℕ, ◌≡◌, inl, inr, Bool, some, List, [], ◌∷◌, arith, Bool-cases, Option-cases, ◌==◌, Run, done,
  assert_failed, >>=-eq-done, done_injective, length-replicate,
}
use ternary_geo_bp.Base.Int.{pos}
use ternary_geo_bp.Tage.{Config, History, Lookup, Predictor, Tables}
use ternary_geo_bp.Tage.Corrector.{predict_using_given_hist}
use ternary_geo_bp.Tage.Record.{Branch}
use ternary_geo_bp.Tage.Record.Kept.{IsHistory, history_update-IsHistory}
use ternary_geo_bp.Tage.Learn.{learn}
use ternary_geo_bp.Tage.Init.{init_histories, init_lookup, init_tables}
use ternary_geo_bp.Tage.Init.Fresh.{init_histories-IsHistory, init_tables-HasSizes}
use ternary_geo_bp.Tage.Checkpoint.{
  get_unique_inst_id, find, emplace, erase, at_key, predict, track, Resolved, update_from, update,
}
use ternary_geo_bp.Tage.Reachable.{Reachable, constructed, predicting, recording, resolving}
use ternary_geo_bp.Tage.Reachable.Lookups.{IsLookup, predict_using_given_hist-IsLookup}
use ternary_geo_bp.Tage.Reachable.Training.{IsTables, reseeded, learn-IsTables}

-- Every history that is kept is one.
abbrev pub AllHistories : List (ℕ × History) → Type 0
AllHistories [] = Unit
AllHistories ((k, h) ∷ m) = IsHistory h × AllHistories m

pub record IsPredictor (p : Predictor) : Type 0 where
  pub tables : IsTables p.tables
  pub look : IsLookup p.look
  pub hist : IsHistory p.hist
  pub histories : AllHistories p.histories

find-IsHistory :
    (key : ℕ) (h : History) (m : List (ℕ × History))
    → AllHistories m
    → find key m ≡ some h
    → IsHistory h
unfolding find
find-IsHistory key h [] a e = absurd cc
find-IsHistory key h ((k, h') ∷ m) (v, a) e = elim (Bool-cases (k == key)) [
  | inl here ↦
      let found : some h' ≡ some h = rw here at e in let eq : h' ≡ h = cc in subst IsHistory eq v
  | inr there ↦ let found : find key m ≡ some h = rw there at e in find-IsHistory key h m a found
]

emplace-AllHistories :
    (key : ℕ) (h : History) (m : List (ℕ × History))
    → IsHistory h
    → AllHistories m
    → AllHistories (emplace key h m)
unfolding emplace
emplace-AllHistories key h m v a = elim (Option-cases (find key m)) [
  | inl e ↦ rw (e, emplace) (v, a)
  | inr (old, e) ↦ rw (e, emplace) a
]

erase-AllHistories :
    (key : ℕ) (m : List (ℕ × History)) → AllHistories m → AllHistories (erase key m)
unfolding erase
erase-AllHistories key [] a = tt
erase-AllHistories key ((k, h) ∷ m) (v, a) = elim (Bool-cases (k == key)) [
  | inl e ↦ rw e (erase-AllHistories key m a)
  | inr e ↦ rw e (v, erase-AllHistories key m a)
]

predict-IsPredictor :
    (c : Config) (p q : Predictor) (seq_no piece pc : ℕ) (v : Bool × ℕ)
    → IsPredictor p
    → predict c p seq_no piece pc ≡ done (v, q)
    → IsPredictor q
unfolding predict
predict-IsPredictor c p q seq_no piece pc v w e =
    let (key, id, e1) = >>=-eq-done (get_unique_inst_id seq_no piece) _ e in
    subst (λ (x : (Bool × ℕ) × Predictor). IsPredictor x.1)
      (done_injective (made.0, next key) (v, q) e1)
      (record {
        tables = w.tables;
        look = predict_using_given_hist-IsLookup c p.tables pc p.hist p.look w.look.gi;
        hist = w.hist;
        histories = emplace-AllHistories key p.hist p.histories w.hist w.histories;
      })
  where
    made : (Bool × ℕ) × Lookup
    made = predict_using_given_hist c p.tables pc p.hist p.look

    next : ℕ → Predictor
    next key = record p { look = made.1; histories = emplace key p.hist p.histories }

track-IsPredictor : (p : Predictor) (b : Branch) → IsPredictor p → IsPredictor (track p b)
unfolding track
track-IsPredictor p b w = record {
  tables = reseeded p.tables _ w.tables;
  look = w.look;
  hist = (history_update-IsHistory p.look b p.tables.seed p.hist w.look.ltag w.hist).0;
  histories = w.histories;
}

at_key-IsHistory :
    (key : ℕ) (h : History) (m : List (ℕ × History))
    → AllHistories m
    → at_key key m ≡ done h
    → IsHistory h
unfolding at_key
at_key-IsHistory key h m a e = elim (Option-cases (find key m)) [
  | inl missing ↦
      let fails : ◌≡◌ {A = Run History} assert_failed (done h) = rw (missing, at_key) at e in
      absurd cc
  | inr (old, found) ↦
      let same_one : ◌≡◌ {A = Run History} (done old) (done h) = rw (found, at_key) at e in
      subst IsHistory (done_injective old h same_one) (find-IsHistory key old m a found)
]

update_from-IsPredictor :
    (fuel : ℕ) (c : Config) (p q : Predictor) (key : ℕ) (r : Resolved) (old : History)
    → IsPredictor p
    → IsHistory old
    → update_from fuel c p key r old ≡ done q
    → IsPredictor q
unfolding update_from
update_from-IsPredictor fuel c p q key r old w o e =
    let (th, el, e1) =
      >>=-eq-done
        (learn fuel c made.1 r.pc r.resolve_dir (made.0.0) old r.is_ld_dependent p.hist p.tables) _
        e in
    let (vt, vh) =
      learn-IsTables fuel c made.1 r.pc r.resolve_dir (made.0.0) old r.is_ld_dependent p.hist
        p.tables th look.ltag o w.hist w.tables el in
    subst IsPredictor (done_injective (next th) q e1) (record {
      tables = vt;
      look = look;
      hist = vh;
      histories = erase-AllHistories key p.histories w.histories;
    })
  where
    made : (Bool × ℕ) × Lookup
    made = predict_using_given_hist c p.tables r.pc old p.look

    look : IsLookup made.1
    look = predict_using_given_hist-IsLookup c p.tables r.pc old p.look w.look.gi

    next : Tables × History → Predictor
    next (t, h) = record p {
      look = made.1;
      tables = t;
      hist = h;
      histories = erase key p.histories;
    }

update-IsPredictor :
    (fuel : ℕ) (c : Config) (p q : Predictor) (seq_no piece : ℕ) (r : Resolved)
    → IsPredictor p
    → update fuel c p seq_no piece r ≡ done q
    → IsPredictor q
unfolding update
update-IsPredictor fuel c p q seq_no piece r w e =
    let (key, id, e1) = >>=-eq-done (get_unique_inst_id seq_no piece) _ e in
    let (old, eo, e2) = >>=-eq-done (at_key key p.histories) _ e1 in
    update_from-IsPredictor fuel c p q key r old w
      (at_key-IsHistory key old p.histories w.histories eo) e2

init_histories-IsPredictor : (c : Config) → IsPredictor (init_histories c)
unfolding init_histories init_lookup init_tables
init_histories-IsPredictor c =
    let (h, t, low, high, btable) = init_histories-IsHistory c in
    record {
      tables = record {
        range = t;
        sized = record {
          low = low;
          high = high;
          btable = btable;
          use_alt = length-replicate 16 (pos 0);
        };
        corrector = init_tables-HasSizes;
      };
      look = record { ltag = omega arith; gi = length-replicate {A = ℕ} 37 0 };
      hist = h;
      histories = tt;
    }

-- In every run of the predictor, with calls in any order, every table keeps the size it is constructed
-- with: the banks, the bimodal table, the counters of the choice of the alternate prediction, and the
-- tables, weights and thresholds of the corrector. All counters of the corrector stay in the ranges of
-- their widths. The arrays of the running history and of every history that is kept, their loop tables
-- included, have their sizes, the entries of the loop predictor fit their fields, and there is an index
-- for each bank.
pub Reachable-IsPredictor : {c : Config} {p : Predictor} → Reachable c p → IsPredictor p
Reachable-IsPredictor {c} constructed = init_histories-IsPredictor c
Reachable-IsPredictor {c} (predicting {p} {q} seq_no piece pc v r e) =
    predict-IsPredictor c p q seq_no piece pc v (Reachable-IsPredictor r) e
Reachable-IsPredictor (recording {p} b r) = track-IsPredictor p b (Reachable-IsPredictor r)
Reachable-IsPredictor {c} (resolving {p} {q} fuel seq_no piece r m e) =
    update-IsPredictor fuel c p q seq_no piece r (Reachable-IsPredictor m) e
