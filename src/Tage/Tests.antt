-- ===== src/Tage/Tests.antt =====
-- A predictor as it is constructed, with history lengths that grow by two.
use ternary_geo_bp.Base.{
  assert_failed, ℕ, ◌+◌, ◌*◌, ◌-◌, ◌^◌, ◌≤◌, ◌<◌, ◌≡◌, refl, true, false, none, some, List, [], ◌∷◌,
  arith, ltb, ◌==◌, if◌then◌else◌, length, get_or, min, done, xor,
}
use ternary_geo_bp.Base.Int.{nonneg, pos, negsuc}
use ternary_geo_bp.Tage.{bank_table, BaseEntry, Config, Lookup, Predictor, LoopEntry, no_loop}
use ternary_geo_bp.Tage.Counter.{ctrupdate}
use ternary_geo_bp.Tage.Bimodal.{getbim, baseupdate, baseupdate-getbim}
use ternary_geo_bp.Tage.Match.{tagepred}
use ternary_geo_bp.Tage.Match.Longest.{Matched, tagepred-Matched}
use ternary_geo_bp.Tage.Loop.{loopupdate}
use ternary_geo_bp.Tage.Loop.Entries.{AllEntries, loopupdate-AllEntries}
use ternary_geo_bp.Tage.Corrector.{weaker, quotient, predict_using_given_hist, verdict}
use ternary_geo_bp.Tage.Corrector.Verdict.{verdict-corrector}
use ternary_geo_bp.Tage.Record.{Branch, history_update}
use ternary_geo_bp.Tage.Record.Kept.{IsHistory, history_update-IsHistory}
use ternary_geo_bp.Tage.Allocate.{Progress, allocate_from}
use ternary_geo_bp.Tage.Allocate.Ends.{allocate_from-na}
use ternary_geo_bp.Tage.Learn.{train_corrector}
use ternary_geo_bp.Tage.Learn.Threshold.{InRange, train_corrector-InRange}
use ternary_geo_bp.Tage.Checkpoint.{
  get_unique_inst_id, find, emplace, predict, track, Resolved, update_from, update,
}
use ternary_geo_bp.Tage.Checkpoint.Restored.{
  Meanwhile, none_yet, predicted, recorded, update-restores,
}
use ternary_geo_bp.Tage.Checkpoint.Errors.{update-update}
use ternary_geo_bp.Tage.Reachable.{Reachable, constructed, predicting, recording}
use ternary_geo_bp.Tage.Reachable.Sound.{IsPredictor, Reachable-IsPredictor}
use ternary_geo_bp.Tage.Reachable.Inside.{Reachable-inside}
use ternary_geo_bp.Tage.Init.{init_histories, init_tables, init_history, init_lookup}
use ternary_geo_bp.Tage.Init.Fresh.{init_histories-IsHistory}

abbrev config : Config
config = record { rounded = λ i. 2 * i + 6; u_increment = 1 }

abbrev taken_back : Branch
taken_back = record { pc = 0x4010; brtype = 1; pred_taken = false; taken = true; next_pc = 0x4000 }

-- A three-bit counter at its upper end.
full_counter :
    (ctrupdate (pos 3) true 3 ≡ pos 3)
    × (ctrupdate (negsuc 3) false 3 ≡ negsuc 3)
    × (ctrupdate (pos 0) false 3 ≡ negsuc 0)
unfolding ctrupdate
full_counter = (refl, refl, refl)

-- Two entries of the bimodal table, and a lookup of the second one that read the counter 1.
abbrev two_entries : List BaseEntry
two_entries = record { hyst = 1; pred = 0 } ∷ record { hyst = 1; pred = 0 } ∷ []

abbrev second_entry : Lookup
unfolding init_lookup
second_entry = record init_lookup { bi = 1; bim = 1 }

baseupdate-getbim_example :
    ((getbim (baseupdate two_entries second_entry true) second_entry).1.bim
      ≡ (if true then min (1 + 1) 3 else 1 - 1))
    × ((getbim (baseupdate two_entries second_entry true) second_entry).0
        ≡ ltb 1 (if true then min (1 + 1) 3 else 1 - 1))
unfolding init_lookup
baseupdate-getbim_example =
    baseupdate-getbim two_entries second_entry true (omega arith) (omega arith)

tagepred-Matched_example :
    Matched init_tables (tagepred config init_tables 0x4010 (init_history config) init_lookup)
tagepred-Matched_example =
    tagepred-Matched config init_tables 0x4010 (init_history config) init_lookup

-- An entry that has seen a loop of three iterations.
abbrev loop_of_three : LoopEntry
loop_of_three = record { nb_iter = 3; confid = 15; current_iter = 2; tag = 4; age = 8; dir = true }

abbrev at_loop : Lookup
unfolding init_lookup
at_loop = record init_lookup {
  lhit = some 0;
  ltag = 4;
  lvalid = true;
  predloop = false;
  tage_pred = true;
}

loopupdate-AllEntries_example :
    AllEntries (loopupdate at_loop 5 6 7 false false (loop_of_three ∷ no_loop ∷ [])).0
unfolding init_lookup
loopupdate-AllEntries_example =
    loopupdate-AllEntries at_loop 5 6 7 false false (loop_of_three ∷ no_loop ∷ []) (omega arith) (
      record {
        nb_iter = omega arith;
        confid = omega arith;
        current_iter = omega arith;
        tag = omega arith;
        age = omega arith;
      },
      (
        record {
          nb_iter = omega arith;
          confid = omega arith;
          current_iter = omega arith;
          tag = omega arith;
          age = omega arith;
        },
        tt,
      ),
    )

verdict-corrector_example :
    (((verdict init_tables (init_history config) init_lookup).1 == 2)
      ≡ xor init_lookup.pred_inter (verdict init_tables (init_history config) init_lookup).0)
    × (init_lookup.high_conf ≡ false
        → init_lookup.med_conf ≡ false
        → (verdict init_tables (init_history config) init_lookup).0 ≡ nonneg init_lookup.lsum)
    × (init_lookup.high_conf ≡ true
        → init_lookup.med_conf ≡ false
        → weaker init_lookup (quotient init_lookup.thres 4) ≡ true
        → (verdict init_tables (init_history config) init_lookup).0 ≡ init_lookup.pred_inter)
verdict-corrector_example = verdict-corrector init_tables (init_history config) init_lookup

history_update-IsHistory_example :
    IsHistory (history_update at_loop taken_back 7 (init_histories config).hist).0
    × ((history_update at_loop taken_back 7 (init_histories config).hist).0.phist < 2 ^ 27)
unfolding init_lookup
history_update-IsHistory_example =
    history_update-IsHistory at_loop taken_back 7 (init_histories config).hist (omega arith)
      ((init_histories-IsHistory config).0)

train_corrector-InRange_example :
    InRange
      (train_corrector at_loop 0x4010 true (init_history config) (init_histories config).tables)
train_corrector-InRange_example =
    train_corrector-InRange at_loop 0x4010 true (init_history config) (init_histories config).tables
      ((init_histories-IsHistory config).1)

abbrev start : Progress
start = record { tables = init_tables; t = 1; na = 0; penalty = 0 }

allocate_from-na_example :
    (q : Progress) × (allocate_from init_lookup true 19 start 0 ≡ done q) × (q.na ≤ 2)
allocate_from-na_example = allocate_from-na init_lookup true 19 start 0 (omega arith) (omega arith)

-- The predictor after one prediction of the instruction of number `key`.
abbrev after : ℕ → ℕ → Predictor → Predictor
after key pc p = record p {
  look = (predict_using_given_hist config p.tables pc p.hist p.look).1;
  histories = (key, p.hist) ∷ p.histories;
}

-- A branch is predicted, then recorded with another direction, and another branch is predicted
-- before the first one is resolved.
abbrev first : Predictor
first = after 53 0x4010 (init_histories config)

abbrev in_flight : Predictor
in_flight = after 64 0x4000 (track first taken_back)

predict-first :
    predict config (init_histories config) 3 5 0x4010
    ≡ done (
      (predict_using_given_hist config init_tables 0x4010 (init_history config) init_lookup).0,
      first,
    )
unfolding predict get_unique_inst_id find emplace init_histories
predict-first = refl

predict-in_flight :
    predict config (track first taken_back) 4 0 0x4000
    ≡ done (
      (predict_using_given_hist config
          (track first taken_back).tables
          0x4000
          (track first taken_back).hist
          (track first taken_back).look).0,
      in_flight,
    )
unfolding predict get_unique_inst_id find emplace track init_histories
predict-in_flight = refl

abbrev outcome : Resolved
outcome = record { pc = 0x4010; resolve_dir = true; is_ld_dependent = false }

first_key : get_unique_inst_id 3 5 ≡ done 53
unfolding get_unique_inst_id
first_key = refl

second_key : get_unique_inst_id 4 0 ≡ done 64
unfolding get_unique_inst_id
second_key = refl

nothing_kept : find 53 (init_histories config).histories ≡ none
unfolding init_histories find
nothing_kept = refl

between : Meanwhile config 53 first in_flight
between =
    predicted 4 0 0x4000 64 _ (recorded taken_back none_yet) second_key (λ e. omega (arith, e))
      predict-in_flight

update-restores_example :
    (update 19 config in_flight 3 5 outcome
      ≡ update_from 19 config in_flight 53 outcome (init_histories config).hist)
    × ((q : Predictor) × (update 19 config in_flight 3 5 outcome ≡ done q))
update-restores_example =
    update-restores 19 config (init_histories config) first in_flight 3 5 0x4010 53 _ outcome
      (omega arith) first_key nothing_kept predict-first between

resolved_once : (q : Predictor) × (update 19 config in_flight 3 5 outcome ≡ done q)
resolved_once =
    (update-restores 19 config (init_histories config) first in_flight 3 5 0x4010 53 _ outcome
      (omega arith) first_key nothing_kept predict-first between).1

update-update_example : update 19 config (resolved_once.0) 3 5 outcome ≡ assert_failed
update-update_example =
    update-update 19 19 config in_flight (resolved_once.0) 3 5 outcome outcome (resolved_once.1)

reached : Reachable config in_flight
reached =
    predicting 4 0 0x4000 _
      (recording taken_back (predicting 3 5 0x4010 _ constructed predict-first)) predict-in_flight

Reachable-IsPredictor_example : IsPredictor in_flight
Reachable-IsPredictor_example = Reachable-IsPredictor reached

Reachable-inside_example :
    get_or
      (predict_using_given_hist config in_flight.tables 0x4010 in_flight.hist in_flight.look).1.gi
      36
      0
    < length (bank_table in_flight.tables 36)
Reachable-inside_example =
    Reachable-inside 0x4010 in_flight.hist 36 reached (omega arith) (omega arith)
