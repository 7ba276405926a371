-- ===== src/Prefetcher/Train.antt =====
-- `train` (lib/stride_prefetcher.h) on a well-formed table.
use ternary_geo_bp.Base.{
  ℕ, ◌<◌, ◌≡◌, ◌≢◌, ◌⊎◌, inl, inr, true, false, refl, sym, ◌∙◌, ap, none, some, List, arith, ◌==◌,
  length, set, length-set, get_or-set_self, dead_beef, sub64, done, Bool-cases, Option-cases, ==→eq,
  ==_refl, true-false,
}
use ternary_geo_bp.Prefetcher.{
  State, invalid, initial, transient, steady_state, no_prediction, num_prefetcher_states,
  TrainingInfo, Entry, no_entry, num_rpt_entries, find_if, victim_way, update_lru, move, advance,
  establish, train_rpt,
}
use ternary_geo_bp.Prefetcher.Ranking.{find_if-some, find_if-none, rank, update_lru_fields}
use ternary_geo_bp.Prefetcher.Table.{Follows, entry, IsTable, set-IsTable, use-IsTable}

-- The switch of `train` moves the addresses of an entry that follows a load, which it goes on to
-- follow.
advance_from :
    (e : Entry) (s : State) (address : ℕ)
    → Follows s
    → (s' : State) × (stride : ℕ) × (advance (record e { state = s }) address
        ≡ done (move e s' stride address))
      × Follows s'
unfolding advance
advance_from e initial address f = elim (Bool-cases (sub64 address e.current_address == e.stride)) [
  | inl same ↦ (steady_state, e.stride, rw same, tt)
  | inr other ↦ (transient, sub64 address e.current_address, rw other, tt)
]
advance_from e transient address f =
    elim (Bool-cases (sub64 address e.current_address == e.stride)) [
      | inl same ↦ (steady_state, e.stride, rw same, tt)
      | inr other ↦ (no_prediction, sub64 address e.current_address, rw other, tt)
    ]
advance_from e steady_state address f =
    elim (Bool-cases (sub64 address e.current_address == e.stride)) [
      | inl same ↦ (steady_state, e.stride, rw same, tt)
      | inr other ↦ (initial, e.stride, rw other, tt)
    ]
advance_from e no_prediction address f =
    elim (Bool-cases (sub64 address e.current_address == e.stride)) [
      | inl same ↦ (transient, e.stride, rw same, tt)
      | inr other ↦ (no_prediction, sub64 address e.current_address, rw other, tt)
    ]
advance_from e invalid address f = absurd f
advance_from e num_prefetcher_states address f = absurd f

-- The entry that follows a load after `train`, and the table that it is in.
pub record Trained (rpt : List Entry) (info : TrainingInfo) : Type 0 where
  pub rpt' : List Entry
  pub returns : train_rpt rpt info ≡ done rpt'
  pub table : IsTable rpt'
  pub way : ℕ
  pub inside : way < num_rpt_entries
  pub follows : Follows (entry rpt' way).state
  pub tag : (entry rpt' way).tag ≡ info.pc
  pub current : (entry rpt' way).current_address ≡ info.address
  pub established :
      ((entry rpt way).tag ≡ info.pc)
      ⊎ ((rank rpt way ≡ 0)
          × ((entry rpt' way).state ≡ initial)
          × ((entry rpt' way).stride ≡ 0)
          × ((i : ℕ) → i < num_rpt_entries → (entry rpt i).tag ≢ info.pc))

-- The entry that is put in `way`, once `update_lru` has run or not.
abbrev Stored : List Entry → ℕ → Entry → Type 0
Stored rpt' way e = (l : ℕ) × (entry rpt' way ≡ record e { lru = l })

used-Stored :
    (rpt : List Entry) (way : ℕ) (e : Entry)
    → way < num_rpt_entries
    → length rpt ≡ num_rpt_entries
    → Stored (update_lru (set rpt way e) way) way e
used-Stored rpt way e inside size =
    let at : way < length (set rpt way e) = omega (arith, length-set rpt way e) in
    let (l, same) = update_lru_fields (set rpt way e) way at way at in
    (
      l,
      same
          ∙ ap (λ (b : Entry). record b { lru = l })
              (get_or-set_self rpt way e no_entry (omega arith)),
    )

victim_way-found :
    (rpt : List Entry) (i : ℕ)
    → find_if (λ (e : Entry). e.lru == 0) rpt 0 ≡ some i
    → (entry rpt i).index ≡ i
    → victim_way rpt ≡ done i
unfolding victim_way
victim_way-found rpt i found place = rw (found, victim_way) (ap (λ (k : ℕ). done k) place)

train-new :
    (rpt : List Entry) (info : TrainingInfo)
    → IsTable rpt
    → find_if (λ (e : Entry). e.tag == info.pc) rpt 0 ≡ none
    → Trained rpt info
unfolding train_rpt
train-new rpt info t fresh = elim (Option-cases (find_if (λ (e : Entry). e.lru == 0) rpt 0)) [
  | inl all_used ↦
      let (i, inside, oldest) = t.ranked.holder 0 (omega arith) in
      absurd (
        true-false (rw oldest (==_refl 0)) (
          find_if-none (λ (e : Entry). e.lru == 0) no_entry rpt 0 i all_used
            (omega (arith, t.ranked.size))))
  | inr (i, found) ↦
      from_victim i found (find_if-some (λ (e : Entry). e.lru == 0) no_entry rpt i found)
]
  where
    from_victim :
        (i : ℕ)
        → find_if (λ (e : Entry). e.lru == 0) rpt 0 ≡ some i
        → (i < length rpt) × (((entry rpt i).lru == 0) ≡ true)
        → Trained rpt info
    from_victim i found (inside, oldest) =
        let at : i < num_rpt_entries = omega (arith, t.ranked.size) in
        let e = establish (entry rpt i) info in
        let (l, same) = used-Stored rpt i e at t.ranked.size in
        record {
          rpt' = update_lru (set rpt i e) i;
          returns = rw (fresh, victim_way-found rpt i found (t.placed i at), train_rpt) refl;
          table = use-IsTable (set rpt i e) i at (set-IsTable rpt i e at t (t.placed i at) refl tt);
          way = i;
          inside = at;
          follows = rw same tt;
          tag = ap (λ (b : Entry). b.tag) same;
          current = ap (λ (b : Entry). b.current_address) same;
          established = inr (
            ==→eq (rank rpt i) 0 oldest,
            ap (λ (b : Entry). b.state) same,
            ap (λ (b : Entry). b.stride) same,
            λ j h p. true-false (rw p (==_refl info.pc)) (
                find_if-none (λ (b : Entry). b.tag == info.pc) no_entry rpt 0 j fresh
                  (omega (arith, t.ranked.size))),
          );
        }

train-old :
    (rpt : List Entry) (info : TrainingInfo) (i : ℕ)
    → IsTable rpt
    → info.pc ≢ dead_beef
    → find_if (λ (e : Entry). e.tag == info.pc) rpt 0 ≡ some i
    → Trained rpt info
unfolding train_rpt
train-old rpt info i t real found =
    let (inside, matching) = find_if-some (λ (e : Entry). e.tag == info.pc) no_entry rpt i found in
    let at : i < num_rpt_entries = omega (arith, t.ranked.size) in
    elim (t.marked i at) [
      | inl f ↦
          let (s, stride, moved, f') =
            advance_from (entry rpt i) (entry rpt i).state info.address f in
          stored at (==→eq (entry rpt i).tag info.pc matching) s stride moved f'
            (Bool-cases (stride == 0))
      | inr empty ↦ absurd (real (sym (==→eq (entry rpt i).tag info.pc matching) ∙ empty))
    ]
  where
    here :
        i < num_rpt_entries
        → (s : State) (stride : ℕ)
        → entry (set rpt i (move (entry rpt i) s stride info.address)) i
          ≡ move (entry rpt i) s stride info.address
    here at s stride = get_or-set_self rpt i _ no_entry (omega (arith, t.ranked.size))

    stored :
        i < num_rpt_entries
        → (entry rpt i).tag ≡ info.pc
        → (s : State) (stride : ℕ)
        → advance (entry rpt i) info.address ≡ done (move (entry rpt i) s stride info.address)
        → Follows s
        → ((stride == 0) ≡ true) ⊎ ((stride == 0) ≡ false)
        → Trained rpt info
    stored at tag s stride moved f (inl still) = record {
      rpt' = set rpt i (move (entry rpt i) s stride info.address);
      returns = rw (found, moved, still, train_rpt) refl;
      table =
          set-IsTable rpt i (move (entry rpt i) s stride info.address) at t (t.placed i at) refl f;
      way = i;
      inside = at;
      follows = rw (here at s stride) f;
      tag = ap (λ (b : Entry). b.tag) (here at s stride) ∙ tag;
      current = ap (λ (b : Entry). b.current_address) (here at s stride);
      established = inl tag;
    }
    stored at tag s stride moved f (inr moves) =
        let e = move (entry rpt i) s stride info.address in
        let (l, same) = used-Stored rpt i e at t.ranked.size in
        record {
          rpt' = update_lru (set rpt i e) i;
          returns =
              rw (found, moved, moves, train_rpt)
                (ap (λ (k : ℕ). done (update_lru (set rpt i e) k)) (t.placed i at));
          table = use-IsTable (set rpt i e) i at (set-IsTable rpt i e at t (t.placed i at) refl f);
          way = i;
          inside = at;
          follows = rw same f;
          tag = ap (λ (b : Entry). b.tag) same ∙ tag;
          current = ap (λ (b : Entry). b.current_address) same;
          established = inl tag;
        }

-- On a well-formed table, training on a load whose tag, its pc, is not 0xdeadbeef fails no assert and
-- leaves a well-formed table with an entry that follows the load and holds the new address: an
-- entry that had the load's tag before, or, where there was none, the least recently used one,
-- which starts again in the initial state with stride 0.
pub train_rpt-Trained :
    (rpt : List Entry) (info : TrainingInfo) → IsTable rpt → info.pc ≢ dead_beef → Trained rpt info
train_rpt-Trained rpt info t real =
    elim (Option-cases (find_if (λ (e : Entry). e.tag == info.pc) rpt 0)) [
      | inl fresh ↦ train-new rpt info t fresh
      | inr (i, found) ↦ train-old rpt info i t real found
    ]
