-- ===== src/Lib.antt =====
-- A simulator of a processor's front end, which drives branch predictors with recorded traces. For
-- each instruction of a trace, `uarchsim_t::step` (lib/uarchsim.cc) runs the instructions in flight
-- up to the fetch cycle, looks for the lanes and cache blocks that the instruction needs, puts it into
-- the window and the queues, and predicts it where it is a branch. The hooks of
-- cond_branch_predictor_interface.cc tell the conditional predictor of it.
--
-- The files:
--   Base       What the others share: tests, lists, words that wrap, and `Run`, the outcome of code
--              that may stop at an assert.
--   Cache      lib/cache.h and lib/cache.cc. `Cache` is `cache_t`, and a list of caches is a level
--              with those behind it (`next_level`), ending at main memory. `access`, `is_hit`,
--              `update_lru` and the constructor `init` are the methods of these names; `search` is
--              the loop of `access` over the ways.
--   Schedule   lib/resource_schedule.h and lib/resource_schedule.cc. `Schedule` is
--              `resource_schedule`; `schedule`, `try_schedule`, `advance_base_cycle` and `resize`
--              are its methods, and `schedule_from`, `try_schedule_from` and `clear_from` are their
--              loops.
--   Prefetcher lib/stride_prefetcher.h. `Prefetcher` is `StridePrefetcher`, `Entry` is `RPTEntry`;
--              `train_rpt` is `train` on the table, `advance` its switch on the state of an entry.
--   Fifo       lib/fifo.h. `Fifo` is `fifo_t`, with its methods.
--   Insts      lib/sim_common_structs.h: the classes of instructions, and the records that the hooks
--              are given and the log keeps.
--   Branch     lib/bp.h and lib/bp.cc. `BranchUnit` is `bp_t`; `predict` is cut into its four branches.
--              The predictors that it calls are the records `Conditional` and `Indirect`.
--   Tage       cbp2016_tage_sc_l.h, the conditional predictor TAGE-SC-L. The file has the constants and
--              the state: `Tables` are the global tables and counters, `History` is `cbp_hist_t`,
--              `Lookup` the members that a prediction leaves for its update, and `Predictor` is the
--              class. Its child modules are named for the parts of the class: Counter, Random, Fold
--              and Hash have the counters, MYRANDOM, the folded histories and the indices; Bimodal
--              and Match have `getbim`, `baseupdate` and `Tagepred`; Loop is the loop predictor; Sums
--              and Corrector are the statistical corrector and `predict_using_given_hist`; Record is
--              `HistoryUpdate`; Allocate and Learn are the two halves of the inner `update`;
--              Checkpoint is `predict`, `history_update`, `TrackOtherInst` and the outer `update`,
--              with the histories that are kept for branches in flight; Init is `init_histories`;
--              Reachable is the relation of the states that these calls lead to.
--              The modules below those prove what they are named for.
--   Ittage     lib/ittage.h. `Predictor` is `IPREDICTOR`; Predict is `GetPrediction`, Record is
--              `HistoryUpdate`, and Train is `UpdatePredictor`, in the order of its parts.
--   Interface  cond_branch_predictor_interface.cc and my_cond_branch_predictor.h. Graph is
--              `DependencyGraph`, Sample is `SampleCondPredictor`, Hooks has the functions that the
--              simulator calls, on `Interface`, the state that they share, and Summary is
--              `compute_CyclWP_summary`.
--   Pipeline   lib/uarchsim.h and lib/uarchsim.cc. `Machine` is `uarchsim_t`, and `Pending` the part of
--              it that the cycles of the instructions in flight change. Events has `eval_decode`,
--              `eval_aq`, `eval_exec` and `eval_retire`; the other files have the parts of `step` in
--              their order: Value the value prediction, Execute the sources, the lane and the memory
--              access, Drain the prefetches, Dispatch the results and the new entry of the window,
--              Fetch the next fetch cycle and the branch; Step is `step` from these parts, with
--              the constructor as `init`.
-- In each part, the tests and the concrete instances of the theorems stand in the module Tests.
--
-- Integers: uint64_t is the native number with `% 2 ^ 64` where the source adds, and an int64_t that
-- is only added, multiplied and compared for equality is the word that holds it. A pointer is a
-- position or the list behind it.
--
-- Fuel: `schedule` and `try_schedule` loop until they find a free cycle; their models have one
-- unit of fuel for each cycle that they look at, and theorems about them say how much is enough.
-- The loop that allocates tagged entries steps over the 36 banks by two or four; it has one unit
-- of fuel for each step, and 19 are enough for it. `dfs` has one unit for each call inside
-- another, and one more than the graph has registers is enough. The drain of the prefetches has
-- one for each prefetch of the queue, and one more, since each turn takes one off. All other
-- loops are recursion on the list or on the count that they run over.
--
-- Parameters: `log2` of <math.h> in the constructor of the cache, `rand_r`, the two predictors of
-- `predict`, the options of the command line, the latency of main memory, and what `new` leaves
-- in memory that the source does not initialise; and for TAGE-SC-L the record `Config`: the
-- history lengths that `pow` of <math.h> gives, rounded, and `U_incrment`, from 0 to 126, so that
-- the int8_t that it is added to does not wrap; the history lengths of ITTAGE likewise. For the
-- pipeline they are the options of lib/parameters.cc, the records `Hooks` and `ValuePredictor` of
-- the functions that it calls, and what the storage of the uninitialised `cycles_on_wrong_path`
-- held; std::lower_bound, which is called on a window that is sorted, is the first entry that is
-- not below.
--
-- Not modelled: printing, logging and the activity trace; `predictorsize`, which prints a sum;
-- the rendering of the source registers as a string, for which the log keeps the registers; the
-- files that endCondDirPredictor writes; the example value predictor (lib/my_value_predictor.h),
-- the trace reader (lib/trace_reader.h), and the command line.
pub mod Base
pub mod Cache
pub mod Schedule
pub mod Prefetcher
pub mod Fifo
pub mod Insts
pub mod Branch
pub mod Tage
pub mod Interface
pub mod Ittage
pub mod Pipeline
