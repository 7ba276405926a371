-- ===== src/Prefetcher/Ranking.antt =====
-- `find_if` and `update_lru` (lib/stride_prefetcher.h), and the order of the entries by their
-- counters.
use mathlib.Core.Path.{subst}
use native.Mathlib.Decide.{ℕ_discrete, dec_lt}
use ternary_geo_bp.Base.{
  ℕ, zero, suc, ◌+◌, ◌-◌, ◌≤◌, ◌<◌, ◌≡◌, ◌≢◌, inl, inr, Bool, true, false, sym, ◌∙◌, ap, none, some,
  List, [], ◌∷◌, map, arith, ltb, length, get_or, length-set, length-map, get_or-set_self,
  get_or-set_ne, get_or-map, Bool-cases,
}
use ternary_geo_bp.Prefetcher.{Entry, no_entry, num_rpt_entries, find_if, aged, update_lru}

module _ {ℓ} {A : Type ℓ} (p : A → Bool) (d : A) where
  -- What is found is in the list and passes the test.
  pub find_if-at :
      (xs : List A) (k i : ℕ)
      → find_if p xs k ≡ some i
      → (j : ℕ) × (i ≡ k + j) × (j < length xs) × (p (get_or xs j d) ≡ true)
  unfolding find_if
  find_if-at [] k i e = cc
  find_if-at (x ∷ xs) k i e = elim (Bool-cases (p x)) [
    | inl here ↦ let at_k : some k ≡ some i = rw here at e in (0, grind arith, omega arith, here)
    | inr elsewhere ↦
        let later : find_if p xs (k + 1) ≡ some i = rw elsewhere at e in
        let (j, at, inside, passes) = find_if-at xs (k + 1) i later in
        (suc j, omega arith, omega arith, passes)
  ]

  pub find_if-some :
      (xs : List A) (i : ℕ) → find_if p xs 0 ≡ some i → (i < length xs) × (p (get_or xs i d) ≡ true)
  find_if-some xs i e =
      let (j, at, inside, passes) = find_if-at xs 0 i e in
      let same : j ≡ i = omega arith in
      subst (λ (t : ℕ). (t < length xs) × (p (get_or xs t d) ≡ true)) same (inside, passes)

  -- Where nothing is found, nothing passes the test.
  pub find_if-none :
      (xs : List A) (k i : ℕ) → find_if p xs k ≡ none → i < length xs → p (get_or xs i d) ≡ false
  unfolding find_if
  find_if-none [] k i e h = absurd (omega arith)
  find_if-none (x ∷ xs) k zero e h = elim (Bool-cases (p x)) [
    | inl here ↦ let found : some k ≡ none = rw here at e in absurd cc
    | inr elsewhere ↦ elsewhere
  ]
  find_if-none (x ∷ xs) k (suc i) e h = elim (Bool-cases (p x)) [
    | inl here ↦ let found : some k ≡ none = rw here at e in absurd cc
    | inr elsewhere ↦
        let later : find_if p xs (k + 1) ≡ none = rw elsewhere at e in
        find_if-none xs (k + 1) i later (omega arith)
  ]

abbrev pub rank : List Entry → ℕ → ℕ
rank es i = (get_or es i no_entry).lru

-- The counters of the table are the numbers below its size, each of them once.
pub record IsRanked (es : List Entry) : Type 0 where
  pub size : length es ≡ num_rpt_entries
  pub below : (i : ℕ) → i < num_rpt_entries → rank es i < num_rpt_entries
  pub distinct :
      (i j : ℕ) → i < num_rpt_entries → j < num_rpt_entries → rank es i ≡ rank es j → i ≡ j
  pub holder : (v : ℕ) → v < num_rpt_entries → (i : ℕ) × (i < num_rpt_entries) × (rank es i ≡ v)

aged_fields : (v : ℕ) (e : Entry) → (l : ℕ) × (aged v e ≡ record e { lru = l })
aged_fields v e = elim (Bool-cases (ltb v e.lru)) [
  | inl more ↦ (e.lru - 1, rw more)
  | inr no_more ↦ (e.lru, rw no_more)
]

module _ (es : List Entry) (w : ℕ) (inside : w < length es) where
  length-update_lru : length (update_lru es w) ≡ length es
  unfolding update_lru
  length-update_lru = length-set _ w _ ∙ length-map es _

  update_lru_self :
      get_or (update_lru es w) w no_entry
      ≡ record (aged (rank es w) (get_or es w no_entry)) { lru = num_rpt_entries - 1 }
  unfolding update_lru
  update_lru_self =
      get_or-set_self (map (aged (rank es w)) es) w _ no_entry
        (omega (arith, length-map es (aged (rank es w))))
      ∙ ap (λ (e : Entry). record e { lru = num_rpt_entries - 1 })
          (get_or-map (aged (rank es w)) es w no_entry no_entry inside)

  update_lru_ne :
      (i : ℕ)
      → i < length es
      → w ≢ i
      → get_or (update_lru es w) i no_entry ≡ aged (rank es w) (get_or es i no_entry)
  unfolding update_lru
  update_lru_ne i h ne =
      get_or-set_ne (map (aged (rank es w)) es) w i _ no_entry ne
      ∙ get_or-map (aged (rank es w)) es i no_entry no_entry h

  -- The update moves counters only.
  pub update_lru_fields :
      (i : ℕ)
      → i < length es
      → (l : ℕ) × (get_or (update_lru es w) i no_entry ≡ record (get_or es i no_entry) { lru = l })
  update_lru_fields i h = elim (ℕ_discrete w i) [
    | yes e ↦
        let (l, at_w) = aged_fields (rank es w) (get_or es w no_entry) in
        (
          num_rpt_entries - 1,
          rw (← e)
              (update_lru_self ∙ ap (λ (b : Entry). record b { lru = num_rpt_entries - 1 }) at_w),
        )
    | no ne ↦
        let (l, same) = aged_fields (rank es w) (get_or es i no_entry) in
        (l, update_lru_ne i h ne ∙ same)
  ]

-- The entry that is used gets the highest counter, and the ranking stays a ranking.
pub update_lru-IsRanked :
    (es : List Entry) (w : ℕ) → w < num_rpt_entries → IsRanked es → IsRanked (update_lru es w)
update_lru-IsRanked es w inside r = record {
  size = length-update_lru es w at ∙ r.size;
  below = λ i h. elim (ℕ_discrete w i) [
    | yes e ↦ rw (← e, self) (omega arith)
    | no ne ↦ rw (other i h ne) (ground (arith, r.below i h))
  ];
  distinct = λ i j h g e. elim (ℕ_discrete w i) [
    | yes p ↦ elim (ℕ_discrete w j) [
      | yes q ↦ omega arith
      | no q ↦ absurd (top_alone j g q (ap (rank (update_lru es w)) p ∙ e))
    ]
    | no p ↦ elim (ℕ_discrete w j) [
      | yes q ↦ absurd (top_alone i h p (ap (rank (update_lru es w)) q ∙ sym e))
      | no q ↦ r.distinct i j h g (kept i j h g p q e)
    ]
  ];
  holder = λ v h. elim (ℕ_discrete v (num_rpt_entries - 1)) [
    | yes top ↦ (w, inside, self ∙ sym top)
    | no lower ↦ elim (dec_lt v (rank es w)) [
      | yes under ↦ let (i, g, q) = r.holder v h in (i, g, unaged v i under g q)
      | no over ↦
          let (i, g, q) = r.holder (v + 1) (omega arith) in (i, g, was_aged v i (omega arith) g q)
    ]
  ];
}
  where
    at : w < length es
    at = omega (arith, r.size)

    self : rank (update_lru es w) w ≡ num_rpt_entries - 1
    self = ap (λ (e : Entry). e.lru) (update_lru_self es w at)

    other :
        (i : ℕ)
        → i < num_rpt_entries
        → w ≢ i
        → rank (update_lru es w) i ≡ (aged (rank es w) (get_or es i no_entry)).lru
    other i h ne = ap (λ (e : Entry). e.lru) (update_lru_ne es w at i (omega (arith, r.size)) ne)

    top_alone :
        (i : ℕ)
        → i < num_rpt_entries
        → w ≢ i
        → rank (update_lru es w) w ≡ rank (update_lru es w) i
        → ⊥
    top_alone i h ne e =
        ground
          (arith, self, other i h ne, r.below i h, r.below w inside, e, r.distinct w i inside h)

    kept :
        (i j : ℕ)
        → i < num_rpt_entries
        → j < num_rpt_entries
        → w ≢ i
        → w ≢ j
        → rank (update_lru es w) i ≡ rank (update_lru es w) j
        → rank es i ≡ rank es j
    kept i j h g p q e =
        ground
          (arith, other i h p, other j g q, e, r.distinct w i inside h, r.distinct w j inside g)

    unaged :
        (v i : ℕ)
        → v < rank es w
        → i < num_rpt_entries
        → rank es i ≡ v
        → rank (update_lru es w) i ≡ v
    unaged v i under g q =
        let ne : w ≢ i = λ e. absurd (omega (arith, ap (rank es) e)) in ground (arith, other i g ne)

    was_aged :
        (v i : ℕ)
        → rank es w ≤ v
        → i < num_rpt_entries
        → rank es i ≡ v + 1
        → rank (update_lru es w) i ≡ v
    was_aged v i over g q =
        let ne : w ≢ i = λ e. absurd (omega (arith, ap (rank es) e)) in ground (arith, other i g ne)
