-- ===== src/Prefetcher/Table.antt =====
-- The well-formed reference prediction table (lib/stride_prefetcher.h), and the writes that keep it.
use native.Mathlib.Decide.{ℕ_discrete}
use ternary_geo_bp.Base.{
  ℕ, zero, suc, ◌+◌, ◌<◌, ◌≡◌, ◌⊎◌, inl, inr, refl, sym, ◌∙◌, ap, List, arith, length, get_or, set,
  length-set, get_or-set_self, get_or-set_ne, dead_beef,
}
use ternary_geo_bp.Prefetcher.{
  State, invalid, initial, transient, steady_state, no_prediction, num_prefetcher_states, Entry,
  no_entry, num_rpt_entries, fresh_entries, init, update_lru,
}
use ternary_geo_bp.Prefetcher.Ranking.{rank, IsRanked, update_lru_fields, update_lru-IsRanked}

-- The states of an entry that follows a load.
abbrev pub Follows : State → Type 0
Follows initial = Unit
Follows transient = Unit
Follows steady_state = Unit
Follows no_prediction = Unit
Follows invalid = ⊥
Follows num_prefetcher_states = ⊥

abbrev pub entry : List Entry → ℕ → Entry
entry rpt i = get_or rpt i no_entry

-- A well-formed table: its counters rank the entries, each entry knows its place, and an entry that
-- follows no load has the tag that marks this.
pub record IsTable (rpt : List Entry) : Type 0 where
  pub ranked : IsRanked rpt
  pub placed : (i : ℕ) → i < num_rpt_entries → (entry rpt i).index ≡ i
  pub marked :
      (i : ℕ) → i < num_rpt_entries → Follows (entry rpt i).state ⊎ ((entry rpt i).tag ≡ dead_beef)

-- A table with one entry replaced by one in the same place of the ranking.
pub set-IsTable :
    (rpt : List Entry) (i : ℕ) (e : Entry)
    → i < num_rpt_entries
    → IsTable rpt
    → e.index ≡ i
    → e.lru ≡ rank rpt i
    → Follows e.state
    → IsTable (set rpt i e)
set-IsTable rpt i e inside t place same f = record {
  ranked = record {
    size = length-set rpt i e ∙ t.ranked.size;
    below = λ j h. rw (ranks j) (t.ranked.below j h);
    distinct = λ j k h g p. t.ranked.distinct j k h g (sym (ranks j) ∙ p ∙ ranks k);
    holder = λ v h. let (j, g, q) = t.ranked.holder v h in (j, g, ranks j ∙ q);
  };
  placed = λ j h. elim (ℕ_discrete i j) [
    | yes p ↦ rw (← p, here) place
    | no ne ↦ rw (get_or-set_ne rpt i j e no_entry ne) (t.placed j h)
  ];
  marked = λ j h. elim (ℕ_discrete i j) [
    | yes p ↦ inl (rw (← p, here) f)
    | no ne ↦ rw (get_or-set_ne rpt i j e no_entry ne) (t.marked j h)
  ];
}
  where
    here : entry (set rpt i e) i ≡ e
    here = get_or-set_self rpt i e no_entry (omega (arith, t.ranked.size))

    ranks : (j : ℕ) → rank (set rpt i e) j ≡ rank rpt j
    ranks j = elim (ℕ_discrete i j) [
      | yes p ↦ rw (← p) (ap (λ (b : Entry). b.lru) here ∙ same)
      | no ne ↦ ap (λ (b : Entry). b.lru) (get_or-set_ne rpt i j e no_entry ne)
    ]

-- A table after `update_lru`.
pub use-IsTable :
    (rpt : List Entry) (i : ℕ) → i < num_rpt_entries → IsTable rpt → IsTable (update_lru rpt i)
use-IsTable rpt i inside t = record {
  ranked = update_lru-IsRanked rpt i inside t.ranked;
  placed = λ j h.
      let (l, same) =
        update_lru_fields rpt i (omega (arith, t.ranked.size)) j (omega (arith, t.ranked.size)) in
      ap (λ (b : Entry). b.index) same ∙ t.placed j h;
  marked = λ j h.
      let (l, same) =
        update_lru_fields rpt i (omega (arith, t.ranked.size)) j (omega (arith, t.ranked.size)) in
      rw same (t.marked j h);
}

fresh_length : (n i : ℕ) → length (fresh_entries n i) ≡ n
unfolding fresh_entries
fresh_length zero i = refl
fresh_length (suc n) i = ap suc (fresh_length n (i + 1))

fresh_entry :
    (n i k : ℕ)
    → k < n
    → entry (fresh_entries n i) k ≡ record no_entry { index = i + k; lru = i + k }
unfolding fresh_entries
fresh_entry zero i k h = absurd (omega arith)
fresh_entry (suc n) i zero h = ap (λ (t : ℕ). record no_entry { index = t; lru = t }) (omega arith)
fresh_entry (suc n) i (suc k) h =
    let next : i + 1 + k ≡ i + suc k = omega arith in
    fresh_entry n (i + 1) k (omega arith)
    ∙ ap (λ (t : ℕ). record no_entry { index = t; lru = t }) next

-- The table that the constructor leaves is well formed.
pub init-IsTable : IsTable init.rpt
unfolding init
init-IsTable = record {
  ranked = record {
    size = fresh_length num_rpt_entries 0;
    below = λ i h. omega (arith, at i h);
    distinct = λ i j h g e. omega (arith, at i h, at j g);
    holder = λ v h. (v, h, at v h);
  };
  placed = λ i h. omega (arith, ap (λ (b : Entry). b.index) (fresh_entry num_rpt_entries 0 i h));
  marked = λ i h. inr (ap (λ (b : Entry). b.tag) (fresh_entry num_rpt_entries 0 i h));
}
  where
    at : (i : ℕ) → i < num_rpt_entries → rank (fresh_entries num_rpt_entries 0) i ≡ i
    at i h = omega (arith, ap (λ (b : Entry). b.lru) (fresh_entry num_rpt_entries 0 i h))
