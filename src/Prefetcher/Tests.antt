-- ===== src/Prefetcher/Tests.antt =====
-- The prefetcher on a load at 0x400 with a stride of 64.
use ternary_geo_bp.Base.{
  ◌+◌, ◌*◌, ◌≡◌, ◌==◌, refl, true, some, [], ◌∷◌, arith, u64, dead_beef, done, assert_failed,
}
use ternary_geo_bp.Prefetcher.{
  Entry, no_entry, Prefetch, Prefetcher, TrainingInfo, initial, steady_state, init, find_if,
  advance, insert, sort, line, generate, lookahead, drop_untimely, issue_front, issue,
}
use ternary_geo_bp.Prefetcher.Table.{init-IsTable}
use ternary_geo_bp.Prefetcher.Train.{Trained, train_rpt-Trained}
use ternary_geo_bp.Prefetcher.Steady.{advance_twice, advance_twice-steady, Covers, lookahead-Covers}
use ternary_geo_bp.Prefetcher.Queue.{Sorted, IsQueue, generate-IsQueue, Issued, issue-Issued}

abbrev load : TrainingInfo
load = record { pc = 0x400; address = 0x1000 }

abbrev established : Entry
established = record {
  state = initial;
  tag = 0x400;
  prev_address = dead_beef;
  current_address = 0x1000;
  stride = 0;
  lru = 1023;
  index = 0;
}

abbrev steady : Entry
steady = record established {
  state = steady_state;
  stride = 64;
  prev_address = 0x1040;
  current_address = 0x1080;
}

abbrev waiting : Prefetch
waiting = record { address = 0x2000; cycle_generated = 7 }

abbrev recent : Prefetch
recent = record { address = 0x2fff; cycle_generated = 20 }

abbrev busy : Prefetcher
busy = record {
  rpt = steady ∷ [];
  queue = waiting ∷ recent ∷ [];
  stat_trainings = 3;
  stat_generated = 2;
  stat_issued = 0;
  stat_duplicate_pf_filtered = 0;
  stat_dropped_untimely_pf = 0;
  stat_put_back = 0;
  stat_stride_zero = 0;
}

-- An entry in its first state stands under the tag 0xdeadbeef.
unexpected_state : advance no_entry 0x1000 ≡ assert_failed
unfolding advance
unexpected_state = refl

two_strides_ahead :
    (lookahead busy 0x400 21).queue
    ≡ waiting ∷ recent ∷ record { address = 0x1100; cycle_generated = 21 } ∷ []
unfolding lookahead find_if generate sort insert
two_strides_ahead = refl

drops_the_old :
    issue busy waiting 22
    ≡ (true, recent, record busy { queue = []; stat_issued = 1; stat_dropped_untimely_pf = 1 })
unfolding issue drop_untimely issue_front
drops_the_old = refl

train_rpt-Trained_example : Trained init.rpt load
train_rpt-Trained_example = train_rpt-Trained init.rpt load init-IsTable (λ e. omega arith)

advance_twice-steady_example :
    advance_twice established (u64 (0x1000 + 64)) (u64 (0x1000 + 2 * 64)) ≡ done steady
advance_twice-steady_example =
    advance_twice-steady established 64 refl refl (omega arith) (omega arith) (omega arith)

load_found : find_if (λ (e : Entry). e.tag == 0x400) busy.rpt 0 ≡ some 0
unfolding find_if
load_found = refl

lookahead-Covers_example : Covers (line (u64 (0x1080 + 64 * 2))) (lookahead busy 0x400 21).queue
lookahead-Covers_example = lookahead-Covers busy 0x400 21 0 load_found refl (λ e. omega arith)

busy-Sorted : Sorted busy.queue
busy-Sorted = ((refl, tt), (tt, tt))

generate-IsQueue_example : IsQueue (generate busy steady 21).queue
generate-IsQueue_example =
    generate-IsQueue busy steady 21
      (record { sorted = busy-Sorted; distinct = ((λ e. omega arith, tt), (tt, tt)) })

issue-Issued_example :
    Issued busy 22 (issue busy waiting 22).0 (issue busy waiting 22).1 (issue busy waiting 22).2
issue-Issued_example = issue-Issued busy waiting 22
