-- ===== src/Prefetcher/Steady.antt =====
-- What the prefetcher learns of a load with a constant stride (lib/stride_prefetcher.h).
use ternary_geo_bp.Base.{
  ℕ, ◌+◌, ◌*◌, ◌^◌, ◌<◌, ◌≡◌, ◌≢◌, ◌⊎◌, inl, inr, refl, some, List, [], ◌∷◌, ◌++◌, arith, ◌==◌,
  get_or, u64, sub64, Run, done, ◌>>=◌, Bool-cases, Option-cases, ==_refl, ==→eq, ne→==,
}
use ternary_geo_bp.Prefetcher.{
  Entry, no_entry, Prefetch, Prefetcher, initial, steady_state, prefetch_multiplier, find_if,
  before, insert, sort, line, advance, generate, lookahead,
}

-- Two trainings of an entry, one after the other.
abbrev pub advance_twice : Entry → ℕ → ℕ → Run Entry
advance_twice e first second = advance e first >>= λ e'. advance e' second

-- An entry in the initial state with stride 0 and the current address `a`, which is then trained at
-- `a + d` and `a + 2 * d` for a stride `d` that is not 0 (a negative one wraps), ends in the steady
-- state, with the stride `d` and these two addresses.
pub advance_twice-steady :
    (e : Entry) (d : ℕ)
    → e.state ≡ initial
    → e.stride ≡ 0
    → e.current_address < 2 ^ 64
    → 0 < d
    → d < 2 ^ 64
    → advance_twice e (u64 (e.current_address + d)) (u64 (e.current_address + 2 * d))
      ≡ done (record e {
        state = steady_state;
        stride = d;
        prev_address = u64 (e.current_address + d);
        current_address = u64 (e.current_address + 2 * d);
      })
unfolding advance
advance_twice-steady e d st z fits some_stride small =
    rw (st, z, step1, ne→== d 0 (λ e. omega arith), step2, ==_refl d) refl
  where
    step1 : sub64 (u64 (e.current_address + d)) e.current_address ≡ d
    step1 = omega arith

    step2 : sub64 (u64 (e.current_address + 2 * d)) (u64 (e.current_address + d)) ≡ d
    step2 = omega arith

-- A prefetch for the line `l` is in the queue.
abbrev pub Covers : ℕ → List Prefetch → Type 0
Covers l [] = ⊥
Covers l (q ∷ qs) = (line q.address ≡ l) ⊎ Covers l qs

find_if-Covers :
    (l : ℕ) (qs : List Prefetch) (k i : ℕ)
    → find_if (λ (q : Prefetch). line q.address == l) qs k ≡ some i
    → Covers l qs
unfolding find_if
find_if-Covers l [] k i e = absurd cc
find_if-Covers l (q ∷ qs) k i e = elim (Bool-cases (line q.address == l)) [
  | inl here ↦ inl (==→eq (line q.address) l here)
  | inr other ↦
      let later : find_if (λ (r : Prefetch). line r.address == l) qs (k + 1) ≡ some i =
        rw other at e in
      inr (find_if-Covers l qs (k + 1) i later)
]

insert-Covers :
    (l : ℕ) (q : Prefetch) (qs : List Prefetch)
    → (line q.address ≡ l) ⊎ Covers l qs
    → Covers l (insert q qs)
unfolding insert
insert-Covers l q [] c = c
insert-Covers l q (r ∷ qs) c = elim (Bool-cases (before r q)) [
  | inr later ↦ rw later c
  | inl first ↦ elim c [
    | inl new ↦ rw first (inr (insert-Covers l q qs (inl new)))
    | inr old ↦ elim old [
      | inl here ↦ rw first (inl here)
      | inr behind ↦ rw first (inr (insert-Covers l q qs (inr behind)))
    ]
  ]
]

sort-Covers : (l : ℕ) (qs : List Prefetch) → Covers l qs → Covers l (sort qs)
unfolding sort
sort-Covers l [] c = c
sort-Covers l (q ∷ qs) (inl here) = insert-Covers l q (sort qs) (inl here)
sort-Covers l (q ∷ qs) (inr behind) = insert-Covers l q (sort qs) (inr (sort-Covers l qs behind))

append-Covers :
    (l : ℕ) (qs : List Prefetch) (q : Prefetch) → line q.address ≡ l → Covers l (qs ++ (q ∷ []))
append-Covers l [] q here = inl here
append-Covers l (r ∷ qs) q here = inr (append-Covers l qs q here)

generate-Covers :
    (p : Prefetcher) (e : Entry) (cycle : ℕ)
    → e.stride ≢ 0
    → Covers
        (line (u64 (e.current_address + e.stride * prefetch_multiplier)))
        (generate p e cycle).queue
unfolding generate
generate-Covers p e cycle moves =
    elim (Option-cases (find_if (λ (q : Prefetch). line q.address == line address) p.queue 0)) [
      | inl fresh ↦
          rw (ne→== e.stride 0 moves, fresh)
            (sort-Covers (line address) (p.queue ++ (pf ∷ []))
              (append-Covers (line address) p.queue pf refl))
      | inr (i, found) ↦
          rw (ne→== e.stride 0 moves, found) (find_if-Covers (line address) p.queue 0 i found)
    ]
  where
    address : ℕ
    address = u64 (e.current_address + e.stride * prefetch_multiplier)

    pf : Prefetch
    pf = record { address = address; cycle_generated = cycle }

-- When a load is fetched whose entry is in the steady state with a stride that is not 0, the queue
-- afterwards has a prefetch for the cache line two strides past the last address of the load.
pub lookahead-Covers :
    (p : Prefetcher) (pc cycle i : ℕ)
    → find_if (λ (e : Entry). e.tag == pc) p.rpt 0 ≡ some i
    → (get_or p.rpt i no_entry).state ≡ steady_state
    → (get_or p.rpt i no_entry).stride ≢ 0
    → let e = get_or p.rpt i no_entry in
      Covers
        (line (u64 (e.current_address + e.stride * prefetch_multiplier)))
        (lookahead p pc cycle).queue
unfolding lookahead
lookahead-Covers p pc cycle i found steady moves =
    rw (found, steady, lookahead) (generate-Covers p (get_or p.rpt i no_entry) cycle moves)
