-- ===== src/Prefetcher/Queue.antt =====
-- The queue of prefetches (lib/stride_prefetcher.h): `generate`, `issue`, and the queries.
use ternary_geo_bp.Base.{
  ℕ, ◌+◌, ◌*◌, ◌≤◌, ◌<◌, ◌≡◌, ◌≢◌, ◌⊎◌, inl, inr, Bool, true, false, refl, sym, ◌∙◌, ap, none, some,
  List, [], ◌∷◌, ◌++◌, arith, ltb, leb, ◌==◌, length, u64, max_cycle, Bool-cases, Option-cases,
  ==_refl, true-false, leb→le, ltb→le,
}
use ternary_geo_bp.Prefetcher.{
  Entry, Prefetch, Prefetcher, prefetch_multiplier, pf_must_issue_before_cycles, find_if, before,
  insert, sort, line, generate, drop_untimely, issue_front, issue, put_back, get_oldest_pf_cycle,
}

-- A property of every prefetch of a list.
abbrev pub All : (Prefetch → Type 0) → List Prefetch → Type 0
All P [] = Unit
All P (q ∷ qs) = P q × All P qs

-- No prefetch comes after one that it is before.
abbrev pub Sorted : List Prefetch → Type 0
Sorted [] = Unit
Sorted (q ∷ qs) = All (λ r. before r q ≡ false) qs × Sorted qs

-- No two prefetches are to the same cache line.
abbrev pub Distinct : List Prefetch → Type 0
Distinct [] = Unit
Distinct (q ∷ qs) = All (λ r. line q.address ≢ line r.address) qs × Distinct qs

All-map :
    {P Q : Prefetch → Type 0} (qs : List Prefetch)
    → ((q : Prefetch) → P q → Q q)
    → All P qs
    → All Q qs
All-map [] f a = tt
All-map (q ∷ qs) f (p, a) = (f q p, All-map qs f a)

module _ (P : Prefetch → Type 0) where
  insert-All : (q : Prefetch) (qs : List Prefetch) → P q → All P qs → All P (insert q qs)
  unfolding insert
  insert-All q [] p a = (p, tt)
  insert-All q (r ∷ qs) p (pr, a) = elim (Bool-cases (before r q)) [
    | inl first ↦ rw first (pr, insert-All q qs p a)
    | inr later ↦ rw later (p, (pr, a))
  ]

  sort-All : (qs : List Prefetch) → All P qs → All P (sort qs)
  unfolding sort
  sort-All [] a = tt
  sort-All (q ∷ qs) (p, a) = insert-All q (sort qs) p (sort-All qs a)

  append-All : (qs : List Prefetch) (q : Prefetch) → All P qs → P q → All P (qs ++ (q ∷ []))
  append-All [] q a p = (p, tt)
  append-All (r ∷ qs) q (pr, a) p = (pr, append-All qs q a p)

before_asym : (a b : Prefetch) → before a b ≡ true → before b a ≡ false
before_asym a b h = ground arith

not_before_trans : (a b c : Prefetch) → before b a ≡ false → before c b ≡ false → before c a ≡ false
not_before_trans a b c p q = ground arith

insert-Sorted : (q : Prefetch) (qs : List Prefetch) → Sorted qs → Sorted (insert q qs)
unfolding insert
insert-Sorted q [] s = (tt, tt)
insert-Sorted q (r ∷ qs) (a, s) = elim (Bool-cases (before r q)) [
  | inl first ↦
      rw first
        (insert-All (λ x. before x r ≡ false) q qs (before_asym r q first) a, insert-Sorted q qs s)
  | inr later ↦ rw later ((later, All-map qs (λ x p. not_before_trans q r x later p) a), (a, s))
]

sort-Sorted : (qs : List Prefetch) → Sorted (sort qs)
unfolding sort
sort-Sorted [] = tt
sort-Sorted (q ∷ qs) = insert-Sorted q (sort qs) (sort-Sorted qs)

insert-Distinct :
    (q : Prefetch) (qs : List Prefetch)
    → All (λ r. line q.address ≢ line r.address) qs
    → Distinct qs
    → Distinct (insert q qs)
unfolding insert
insert-Distinct q [] a d = (tt, tt)
insert-Distinct q (r ∷ qs) (ne, a) (ar, d) = elim (Bool-cases (before r q)) [
  | inl first ↦ rw first (
    insert-All (λ x. line r.address ≢ line x.address) q qs (λ e. ne (sym e)) ar,
    insert-Distinct q qs a d,
  )
  | inr later ↦ rw later ((ne, a), (ar, d))
]

sort-Distinct : (qs : List Prefetch) → Distinct qs → Distinct (sort qs)
unfolding sort
sort-Distinct [] d = tt
sort-Distinct (q ∷ qs) (a, d) =
    insert-Distinct q (sort qs) (sort-All (λ x. line q.address ≢ line x.address) qs a)
      (sort-Distinct qs d)

append-Distinct :
    (qs : List Prefetch) (q : Prefetch)
    → All (λ r. line r.address ≢ line q.address) qs
    → Distinct qs
    → Distinct (qs ++ (q ∷ []))
append-Distinct [] q a d = (tt, tt)
append-Distinct (r ∷ qs) q (ne, a) (ar, d) =
    (append-All (λ x. line r.address ≢ line x.address) qs q ar ne, append-Distinct qs q a d)

find_if-none-All :
    (l : ℕ) (qs : List Prefetch) (i : ℕ)
    → find_if (λ (q : Prefetch). line q.address == l) qs i ≡ none
    → All (λ r. line r.address ≢ l) qs
unfolding find_if
find_if-none-All l [] i e = tt
find_if-none-All l (q ∷ qs) i e = elim (Bool-cases (line q.address == l)) [
  | inl same ↦ let found : some i ≡ none = rw same at e in absurd cc
  | inr other ↦
      let later : find_if (λ (r : Prefetch). line r.address == l) qs (i + 1) ≡ none =
        rw other at e in
      (λ p. true-false (rw p (==_refl l)) other, find_if-none-All l qs (i + 1) later)
]

-- The queue is in order, with one prefetch for each line.
pub record IsQueue (qs : List Prefetch) : Type 0 where
  pub sorted : Sorted qs
  pub distinct : Distinct qs

-- `generate` keeps the queue in the order of the cycles and of the addresses, and with at most one
-- prefetch for each cache line.
pub generate-IsQueue :
    (p : Prefetcher) (e : Entry) (cycle : ℕ) → IsQueue p.queue → IsQueue (generate p e cycle).queue
unfolding generate
generate-IsQueue p e cycle v = elim (Bool-cases (e.stride == 0)) [
  | inl still ↦ rw still v
  | inr moves ↦
      let address : ℕ = u64 (e.current_address + e.stride * prefetch_multiplier) in
      elim (Option-cases (find_if (λ (q : Prefetch). line q.address == line address) p.queue 0)) [
        | inl fresh ↦
            let pf : Prefetch = record { address = address; cycle_generated = cycle } in
            rw (moves, fresh)
              (record {
                sorted = sort-Sorted (p.queue ++ (pf ∷ []));
                distinct = sort-Distinct (p.queue ++ (pf ∷ [])) (
                    append-Distinct p.queue pf (find_if-none-All (line address) p.queue 0 fresh)
                      v.distinct);
              })
        | inr (i, found) ↦ rw (moves, found) v
      ]
]

-- A prefetch that `issue` drops at `cycle`.
abbrev pub IsUntimely : ℕ → Prefetch → Type 0
IsUntimely cycle q = u64 (q.cycle_generated + pf_must_issue_before_cycles) < cycle

-- What `issue` keeps: at the front is a prefetch that is timely, or it is empty.
abbrev pub FrontTimely : ℕ → List Prefetch → Type 0
FrontTimely cycle [] = Unit
FrontTimely cycle (q ∷ qs) = cycle ≤ u64 (q.cycle_generated + pf_must_issue_before_cycles)

drop_untimely_lem :
    (qs : List Prefetch) (cycle : ℕ)
    → (dropped : List Prefetch) × (qs ≡ dropped ++ (drop_untimely qs cycle).0)
      × (length dropped ≡ (drop_untimely qs cycle).1)
      × All (IsUntimely cycle) dropped
      × FrontTimely cycle (drop_untimely qs cycle).0
unfolding drop_untimely
drop_untimely_lem [] cycle = ([], refl, refl, tt, tt)
drop_untimely_lem (q ∷ qs) cycle =
    elim (Bool-cases (ltb (u64 (q.cycle_generated + pf_must_issue_before_cycles)) cycle)) [
      | inl old ↦
          let (dropped, split, count, all, front) = drop_untimely_lem qs cycle in
          rw old (
            q ∷ dropped,
            ap (λ (t : List Prefetch). q ∷ t) split,
            omega arith,
            (omega (arith, old_lt old), all),
            front,
          )
      | inr timely ↦ rw timely ([], refl, refl, tt, ltb→le _ cycle timely)
    ]
  where
    old_lt :
        ltb (u64 (q.cycle_generated + pf_must_issue_before_cycles)) cycle ≡ true
        → u64 (q.cycle_generated + pf_must_issue_before_cycles) < cycle
    old_lt h = ground arith

-- What `issue` does to the queue.
pub record Issued (s : Prefetcher) (cycle : ℕ) (issued : Bool) (q : Prefetch) (s' : Prefetcher)
    : Type 0 where
  pub dropped : List Prefetch
  pub untimely : All (IsUntimely cycle) dropped
  pub counted : s'.stat_dropped_untimely_pf ≡ u64 (s.stat_dropped_untimely_pf + length dropped)
  pub outcome :
      ((issued ≡ true)
        × (s.queue ≡ dropped ++ (put_back s' q).queue)
        × (q.cycle_generated ≤ cycle)
        × (cycle ≤ u64 (q.cycle_generated + pf_must_issue_before_cycles)))
      ⊎ ((issued ≡ false)
          × (s.queue ≡ dropped ++ s'.queue)
          × ((s'.queue ≡ []) ⊎ (cycle < get_oldest_pf_cycle s')))

issue_front-Issued :
    (s s1 : Prefetcher) (kept dropped : List Prefetch) (p : Prefetch) (cycle : ℕ)
    → s1.queue ≡ kept
    → s.queue ≡ dropped ++ kept
    → s1.stat_dropped_untimely_pf ≡ u64 (s.stat_dropped_untimely_pf + length dropped)
    → All (IsUntimely cycle) dropped
    → FrontTimely cycle kept
    → Issued s cycle
        (issue_front s1 kept p cycle).0
        (issue_front s1 kept p cycle).1
        (issue_front s1 kept p cycle).2
unfolding issue_front put_back get_oldest_pf_cycle
issue_front-Issued s s1 [] dropped p cycle same split count all front = record {
  dropped = dropped;
  untimely = all;
  counted = count;
  outcome = inr (refl, split ∙ ap (λ (t : List Prefetch). dropped ++ t) (sym same), inl same);
}
issue_front-Issued s s1 (q ∷ qs) dropped p cycle same split count all front =
    elim (Bool-cases (leb q.cycle_generated cycle)) [
      | inl generated ↦ rw generated (record {
        dropped = dropped;
        untimely = all;
        counted = count;
        outcome = inl (refl, split, leb→le q.cycle_generated cycle generated, front);
      })
      | inr later ↦ rw later (record {
        dropped = dropped;
        untimely = all;
        counted = count;
        outcome = inr (
          refl,
          split ∙ ap (λ (t : List Prefetch). dropped ++ t) (sym same),
          inr (rw (same, get_oldest_pf_cycle) (ground arith)),
        );
      })
    ]

-- `issue` drops prefetches from the front of the queue that are too old and counts them. Then it
-- returns the next one, which was generated by now and is not too old, and which `put_back` would
-- put in its old place; or it returns none, because the queue is empty or because its front is
-- generated later only, and leaves the rest of the queue.
pub issue-Issued :
    (s : Prefetcher) (p : Prefetch) (cycle : ℕ)
    → Issued s cycle (issue s p cycle).0 (issue s p cycle).1 (issue s p cycle).2
unfolding issue
issue-Issued s p cycle =
    let (dropped, split, count, all, front) = drop_untimely_lem s.queue cycle in
    issue_front-Issued s _ (drop_untimely s.queue cycle).0 dropped p cycle refl split
      (ap (λ n. u64 (s.stat_dropped_untimely_pf + n)) (sym count)) all front

-- On a queue in order, `get_oldest_pf_cycle` is the least of the cycles at which the prefetches of
-- the queue were generated.
pub get_oldest_pf_cycle-le :
    (s : Prefetcher) → Sorted s.queue → All (λ q. get_oldest_pf_cycle s ≤ q.cycle_generated) s.queue
unfolding get_oldest_pf_cycle
get_oldest_pf_cycle-le s v = oldest s.queue v
  where
    oldest :
        (qs : List Prefetch)
        → Sorted qs
        → All (λ q. elim qs [ [] ↦ max_cycle | r ∷ rs ↦ r.cycle_generated ] ≤ q.cycle_generated) qs
    oldest [] v = tt
    oldest (r ∷ rs) (a, v) = (omega arith, All-map rs (λ x p. ground arith) a)
