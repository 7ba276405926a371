-- ===== src/Prefetcher.antt =====
-- lib/stride_prefetcher.h: the stride prefetcher. Its reference prediction table (`rpt`) follows the
-- addresses of each load; a load in a steady state puts a prefetch in the queue of those that wait
-- for a free load port. Addresses and cycles are uint64_t, and an int64_t stride is the word that
-- holds it, so that sums and products wrap. Printing and the debug log are left out.
pub mod Ranking
pub mod Table
pub mod Train
pub mod Steady
pub mod Queue
mod Tests
use ternary_geo_bp.Base.{
  ℕ, zero, suc, ◌+◌, ◌-◌, ◌*◌, ◌^◌, ◌≡◌, Bool, true, false, Option, none, some, List, [], ◌∷◌, ◌++◌,
  map, bit_and, ltb, leb, ◌==◌, if◌then◌else◌, length, get_or, set, u64, sub64, max_cycle,
  dead_beef, Run, done, assert_failed, ◌>>=◌,
}

-- PrefetcherState; the last constructor counts the others and is never assigned.
pub data State : Type 0 where
  invalid initial transient steady_state no_prediction num_prefetcher_states : State

-- PrefetchTrainingInfo
pub record TrainingInfo : Type 0 where
  pub pc : ℕ
  pub address : ℕ

-- NUM_RPT_ENTRIES
abbrev pub num_rpt_entries : ℕ
num_rpt_entries = 1024

-- PREFETCH_MULTIPLIER
abbrev pub prefetch_multiplier : ℕ
prefetch_multiplier = 2

-- CACHE_LINE_MASK
abbrev pub cache_line_mask : ℕ
cache_line_mask = 2 ^ 64 - 64

-- PF_MUST_ISSUE_BEFORE_CYCLES
abbrev pub pf_must_issue_before_cycles : ℕ
pf_must_issue_before_cycles = 8

-- RPTEntry
pub record Entry : Type 0 where
  pub state : State
  pub tag : ℕ
  pub prev_address : ℕ
  pub current_address : ℕ
  pub stride : ℕ
  pub lru : ℕ
  pub index : ℕ

-- RPTEntry()
abbrev pub no_entry : Entry
no_entry = record {
  state = invalid;
  tag = dead_beef;
  prev_address = dead_beef;
  current_address = dead_beef;
  stride = 2 ^ 64 - 1;
  lru = 0;
  index = 2 ^ 64 - 1;
}

pub record Prefetch : Type 0 where
  pub address : ℕ
  pub cycle_generated : ℕ

-- StridePrefetcher
pub record Prefetcher : Type 0 where
  pub rpt : List Entry
  pub queue : List Prefetch
  pub stat_trainings : ℕ
  pub stat_generated : ℕ
  pub stat_issued : ℕ
  pub stat_duplicate_pf_filtered : ℕ
  pub stat_dropped_untimely_pf : ℕ
  pub stat_put_back : ℕ
  pub stat_stride_zero : ℕ

-- The entries that the loop of `init` leaves, `n` of them from `i` on.
unfoldable pub fresh_entries : ℕ → ℕ → List Entry
fresh_entries zero i = []
fresh_entries (suc n) i = record no_entry { index = i; lru = i } ∷ fresh_entries n (i + 1)

-- StridePrefetcher()
unfoldable pub init : Prefetcher
init = record {
  rpt = fresh_entries num_rpt_entries 0;
  queue = [];
  stat_trainings = 0;
  stat_generated = 0;
  stat_issued = 0;
  stat_duplicate_pf_filtered = 0;
  stat_dropped_untimely_pf = 0;
  stat_put_back = 0;
  stat_stride_zero = 0;
}

-- std::find_if, as the position from `i` on.
unfoldable pub find_if {ℓ} : {A : Type ℓ} → (A → Bool) → List A → ℕ → Option ℕ
find_if p [] i = none
find_if p (a ∷ bs) i = if p a then some i else find_if p bs (i + 1)

-- `victim_way`
unfoldable pub victim_way : List Entry → Run ℕ
victim_way rpt = elim (find_if (λ (e : Entry). e.lru == 0) rpt 0) [
  | none ↦ assert_failed
  | some i ↦ done (get_or rpt i no_entry).index
]

-- if (e.lru > lru_way.lru) --e.lru
abbrev pub aged : ℕ → Entry → Entry
aged lru e = if ltb lru e.lru then record e { lru = e.lru - 1 } else e

-- `update_lru`
unfoldable pub update_lru : List Entry → ℕ → List Entry
update_lru rpt index =
    let rpt' = map (aged (get_or rpt index no_entry).lru) rpt in
    set rpt' index (record (get_or rpt' index no_entry) { lru = num_rpt_entries - 1 })

-- The move of both addresses, in every case of the switch.
abbrev pub move : Entry → State → ℕ → ℕ → Entry
move e state stride address = record e {
  state = state;
  stride = stride;
  prev_address = e.current_address;
  current_address = address;
}

-- The switch of `train` on the state of the entry.
unfoldable pub advance : Entry → ℕ → Run Entry
advance e address =
    let stride = sub64 address e.current_address in
    let same = stride == e.stride in
    elim e.state [
      | initial ↦
          done
            (if same then move e steady_state e.stride address else move e transient stride address)
      | transient ↦ done (
          if same
          then move e steady_state e.stride address
          else move e no_prediction stride address)
      | steady_state ↦
          done
            (if same then move e steady_state e.stride address else move e initial e.stride address)
      | no_prediction ↦
          done (
            if same then move e transient e.stride address else move e no_prediction stride address)
      | invalid ↦ assert_failed
      | num_prefetcher_states ↦ assert_failed
    ]

-- The new entry of `train`, in the victim way.
abbrev pub establish : Entry → TrainingInfo → Entry
establish e info = record e {
  state = initial;
  tag = info.pc;
  prev_address = dead_beef;
  current_address = info.address;
  stride = 0;
}

-- `train` on the table.
unfoldable pub train_rpt : List Entry → TrainingInfo → Run (List Entry)
train_rpt rpt info = elim (find_if (λ (e : Entry). e.tag == info.pc) rpt 0) [
  | none ↦ do
    way ← victim_way rpt
    done (update_lru (set rpt way (establish (get_or rpt way no_entry) info)) way)
  | some i ↦ do
    e ← advance (get_or rpt i no_entry) info.address
    done (if e.stride == 0 then set rpt i e else update_lru (set rpt i e) e.index)
]

-- `train`
unfoldable pub train : Prefetcher → TrainingInfo → Run Prefetcher
train p info = do
  rpt' ← train_rpt p.rpt info
  done (record p { rpt = rpt'; stat_trainings = u64 (p.stat_trainings + 1) })

-- The order of the queue.
abbrev pub before : Prefetch → Prefetch → Bool
before a b =
    if a.cycle_generated == b.cycle_generated
    then ltb a.address b.address
    else ltb a.cycle_generated b.cycle_generated

-- std::sort by that order. Two prefetches of which neither is before the other are the same.
unfoldable pub insert : Prefetch → List Prefetch → List Prefetch
insert a [] = a ∷ []
insert a (b ∷ bs) = if before b a then b ∷ insert a bs else a ∷ b ∷ bs

unfoldable pub sort : List Prefetch → List Prefetch
unfolding insert
sort [] = []
sort (a ∷ bs) = insert a (sort bs)

abbrev pub line : ℕ → ℕ
line address = bit_and address cache_line_mask

-- `generate`
unfoldable pub generate : Prefetcher → Entry → ℕ → Prefetcher
generate p e cycle =
    if e.stride == 0
    then record p { stat_stride_zero = u64 (p.stat_stride_zero + 1) }
    else (let address = u64 (e.current_address + e.stride * prefetch_multiplier) in
        elim (find_if (λ (q : Prefetch). line q.address == line address) p.queue 0) [
          | none ↦ record p {
            queue = sort (p.queue ++ (record { address = address; cycle_generated = cycle } ∷ []));
            stat_generated = u64 (p.stat_generated + 1);
          }
          | some i ↦ record p {
            stat_duplicate_pf_filtered = u64 (p.stat_duplicate_pf_filtered + 1);
          }
        ])

abbrev pub is_steady : State → Bool
is_steady steady_state = true
is_steady invalid = false
is_steady initial = false
is_steady transient = false
is_steady no_prediction = false
is_steady num_prefetcher_states = false

-- `lookahead`
unfoldable pub lookahead : Prefetcher → ℕ → ℕ → Prefetcher
lookahead p la_pc cycle = elim (find_if (λ (e : Entry). e.tag == la_pc) p.rpt 0) [
  | none ↦ p
  | some i ↦ let e = get_or p.rpt i no_entry in if is_steady e.state then generate p e cycle else p
]

-- The loop of `issue`: the queue that it leaves, and how many prefetches it drops.
unfoldable pub drop_untimely : List Prefetch → ℕ → List Prefetch × ℕ
drop_untimely [] cycle = ([], 0)
drop_untimely (q ∷ qs) cycle =
    let rest = drop_untimely qs cycle in
    if ltb (u64 (q.cycle_generated + pf_must_issue_before_cycles)) cycle
    then (rest.0, rest.1 + 1)
    else (q ∷ qs, 0)

-- The end of `issue`. The prefetch is written to `p` also where the result is false.
unfoldable pub issue_front :
    Prefetcher → List Prefetch → Prefetch → ℕ → Bool × Prefetch × Prefetcher
issue_front s [] p cycle = (false, p, s)
issue_front s (q ∷ qs) p cycle =
    if leb q.cycle_generated cycle
    then (true, q, record s { queue = qs; stat_issued = u64 (s.stat_issued + 1) })
    else (false, q, s)

-- `issue`
unfoldable pub issue : Prefetcher → Prefetch → ℕ → Bool × Prefetch × Prefetcher
issue s p cycle =
    let kept = drop_untimely s.queue cycle in
    issue_front
      (record s {
        queue = kept.0;
        stat_dropped_untimely_pf = u64 (s.stat_dropped_untimely_pf + kept.1);
      })
      kept.0 p cycle

-- `put_back`
unfoldable pub put_back : Prefetcher → Prefetch → Prefetcher
put_back s p = record s { queue = p ∷ s.queue; stat_put_back = u64 (s.stat_put_back + 1) }

-- `get_oldest_pf_cycle`
unfoldable pub get_oldest_pf_cycle : Prefetcher → ℕ
get_oldest_pf_cycle s = elim s.queue [ [] ↦ max_cycle | q ∷ qs ↦ q.cycle_generated ]
