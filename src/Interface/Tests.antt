-- ===== src/Interface/Tests.antt =====
-- Concrete runs of the hooks: a graph with a cycle, a branch that is predicted and resolved with a
-- load in between, and a log with two mispredictions.
use ternary_geo_bp.Base.{
  find_key, ℕ, ◌+◌, ◌*◌, ◌≡◌, ◌≢◌, ◌↔◌, refl, Bool, true, false, none, some, List, [], ◌∷◌, arith,
  ◌==◌, if◌then◌else◌, done,
}
use ternary_geo_bp.Insts.{
  cond_branch, load, DecodeInfo, no_decode_info, no_execute_info, DebugLog, ExecuteInfo, fresh_log,
}
use ternary_geo_bp.Tage.Init.{init_histories}
use ternary_geo_bp.Tage.Checkpoint
use ternary_geo_bp.Tage.Checkpoint.{get_unique_inst_id, find}
use ternary_geo_bp.Interface.Sample
use ternary_geo_bp.Interface.Sample.{SampleCondPredictor}
use ternary_geo_bp.Interface.Graph.{Graph, has, sources, delete_destination, get_all_dependencies}
use ternary_geo_bp.Interface.Graph.Reaches.{
  Reach, get_all_dependencies-Reach, delete_destination-sources,
}
use ternary_geo_bp.Interface.Hooks.{
  Interface, Options, get_cond_dir_prediction, notify_instr_decode, notify_instr_execute_resolve,
}
use ternary_geo_bp.Interface.Hooks.Lifecycle.{at_once, decoding}
use ternary_geo_bp.Interface.Hooks.Resolution.{resolve-predicted}
use ternary_geo_bp.Interface.Summary.{summary_of}
use ternary_geo_bp.Interface.Summary.Totals.{
  IsDistinct, IsTimed, Says, delays, occurrences, row_of, summary_of-totals,
}

-- Register 1 depends on 2, and 2 on 3 and on 1 again.
abbrev graph : Graph
graph = (1, 2 ∷ []) ∷ (2, 3 ∷ 1 ∷ []) ∷ []

get_all_dependencies-Reach_example :
    (r : List ℕ) × (get_all_dependencies 3 graph 1 ≡ done r)
    × ((x : ℕ) → (has x r ≡ true) ↔ (Reach graph 1 x × (x ≢ 1)))
get_all_dependencies-Reach_example = get_all_dependencies-Reach 3 graph 1 (omega arith)

delete_destination-sources_example :
    has 1 (sources (delete_destination graph 1) 2)
    ≡ (if 1 == 2 then false else if 1 == 1 then false else has 1 (sources graph 2))
delete_destination-sources_example = delete_destination-sources graph 1 2 1

abbrev options : Options
options = record {
  config = record { rounded = λ i. 2 * i + 6; u_increment = 1 };
  load_dependent_branches = true;
}

abbrev started : Interface
started = record {
  tage = init_histories options.config;
  impl = record { active_hist = record { ghist = 0; tage_pred = false }; pred_time_histories = [] };
  histories_log = [];
  dep_graph = [];
  registers_in_flight = [];
}

-- The branch 3, piece 5, is predicted.
asked_first :
    (b : Bool) × (j : Interface) × (get_cond_dir_prediction options started 3 5 0x4010 7 7 20
      ≡ done (b, j))
unfolding get_cond_dir_prediction Checkpoint.predict Sample.predict get_unique_inst_id
    Checkpoint.emplace Sample.emplace init_histories
asked_first = (_, _, refl)

abbrev asked : Interface
asked = asked_first.1

-- A load into register 7 from the address in 8.
abbrev a_load : DecodeInfo
a_load = record no_decode_info { insn_class = load; src_reg_info = 8 ∷ []; dst_reg_info = some 7 }

decoded_load : (j : Interface) × (notify_instr_decode 3 asked 4 0 a_load ≡ done j)
unfolding notify_instr_decode asked_first
decoded_load = (_, refl)

-- The branch, which reads the register that is loaded.
abbrev resolved : ExecuteInfo
resolved = record no_execute_info {
  dec_info = record no_decode_info { insn_class = cond_branch; src_reg_info = 7 ∷ [] };
  taken = some true;
}

first_key : get_unique_inst_id 3 5 ≡ done 53
unfolding get_unique_inst_id
first_key = refl

nothing_kept : find 53 started.tage.histories ≡ none
unfolding init_histories find
nothing_kept = refl

resolve-predicted_example :
    (k' : Interface) × (notify_instr_execute_resolve 19 options decoded_load.0 3 5 0x4010 false
        resolved 20
      ≡ done k')
    × (find 53 k'.tage.histories ≡ none)
    × (find_key 53 k'.impl.pred_time_histories ≡ none)
resolve-predicted_example =
    resolve-predicted 19 options started asked decoded_load.0 3 5 0x4010 7 7 20 53 (asked_first.0)
      0x4010 20 false true resolved (omega arith) first_key nothing_kept refl (asked_first.2)
      (decoding 3 4 0 a_load at_once (decoded_load.1)) refl refl

-- Three branches that were mispredicted, two behind two loads and one that reads nothing, and one that was
-- not.
abbrev log : List (ℕ × DebugLog)
log =
    (
      53,
      record fresh_log {
        inst_class = cond_branch;
        executed = true;
        taken = 1;
        pred_dir = 0;
        src_regs = 7 ∷ [];
        load_dependence = 2;
        pred_cycle = 7;
        fetch_cycle = 9;
        execute_cycle = 20;
      },
    )
    ∷ (
      54,
      record fresh_log {
        inst_class = cond_branch;
        executed = true;
        taken = 0;
        pred_dir = 1;
        pred_cycle = 30;
        fetch_cycle = 30;
        execute_cycle = 41;
      },
    )
    ∷ (55, record fresh_log { inst_class = cond_branch; executed = true; taken = 1; pred_dir = 1 })
    ∷ (
      56,
      record fresh_log {
        inst_class = cond_branch;
        executed = true;
        taken = 0;
        pred_dir = 1;
        src_regs = 7 ∷ [];
        load_dependence = 2;
        pred_cycle = 50;
        fetch_cycle = 54;
        execute_cycle = 52;
      },
    )
    ∷ []

log-IsTimed : IsTimed log
log-IsTimed = (
  omega arith,
  omega arith,
  omega arith,
  (
    omega arith,
    omega arith,
    omega arith,
    (omega arith, omega arith, omega arith, (omega arith, omega arith, omega arith, tt)),
  ),
)

summary_of-totals_example :
    IsDistinct (summary_of log [])
    × ((key : ℕ) → Says (occurrences key log) (delays key log) (row_of key (summary_of log [])))
summary_of-totals_example = summary_of-totals log log-IsTimed (omega arith)

-- Two branches behind two loads, which cost 17 cycles, and one that reads nothing.
behind_two : (occurrences 2 log ≡ 2) × (delays 2 log ≡ 17) × (occurrences 255 log ≡ 1)
unfolding occurrences delays
behind_two = (refl, refl, refl)
