-- ===== src/Cache/Served.antt =====
-- What one access (lib/cache.cc) leaves of the set of its address, on a hit and on a miss.
use ternary_geo_bp.Base.{
  ℕ, zero, suc, ◌+◌, ◌^◌, ◌≤◌, ◌<◌, ◌≡◌, ◌≢◌, refl, sym, ◌∙◌, ap, ap₂, ◌⊎◌, inl, inr, true, false,
  List, [], ◌∷◌, arith, length, get_or, length-set, get_or-set_self, get_or-set_ne, ==_refl, ==→eq,
  true-false, ◌>>>◌,
}
use ternary_geo_bp.Base.Bits.{bit_and-le_right}
use native.Mathlib.Decide.{ℕ_discrete}
use native.Mathlib.Decide.{ℕ_discrete}
use native.Mathlib.Nat.{le_refl, le_of_eq}
use ternary_geo_bp.Cache.{
  Block, Cache, no_block, index_of, ways_of, matches, available, refill, modify,
}
use ternary_geo_bp.Cache.Lru.{
  rank, IsRanked, aged, touched, rank-touched_self, matches-touched_self, timestamp-touched_self,
  touched_ne, touched-IsRanked,
}

-- A cache whose sets are all there and all ranked.
pub record IsValid (c : Cache) : Type 0 where
  pub some_way : 0 < c.assoc
  pub small : c.assoc < 2 ^ 64
  pub all_sets : c.index_mask < length c.sets
  pub ranked : (index : ℕ) → index ≤ c.index_mask → IsRanked c.assoc (get_or c.sets index [])

-- Every level of a hierarchy is valid.
abbrev pub AllValid : List Cache → Type 0
AllValid [] = Unit
AllValid (c ∷ cs) = IsValid c × AllValid cs

pub index_of-le : (c : Cache) (addr : ℕ) → index_of c addr ≤ c.index_mask
index_of-le c addr = bit_and-le_right (addr >>> c.num_offset_bits) _ _ (le_refl _)

pub ways_of-IsRanked : {c : Cache} (addr : ℕ) → IsValid c → IsRanked c.assoc (ways_of c addr)
ways_of-IsRanked {c} addr v = v.ranked (index_of c addr) (index_of-le c addr)

-- Putting a block in a way leaves the ranking alone.
pub refill-rank :
    (ways : List Block) (w tag avail i : ℕ)
    → rank (modify ways w (refill tag avail)) i ≡ rank ways i
refill-rank [] w tag avail i = refl
refill-rank (b ∷ ways) zero tag avail zero = refl
refill-rank (b ∷ ways) zero tag avail (suc i) = refl
refill-rank (b ∷ ways) (suc w) tag avail zero = refl
refill-rank (b ∷ ways) (suc w) tag avail (suc i) = refill-rank ways w tag avail i

-- A way that matches a tag afterwards is the refilled one, or matched it before.
refill-matches :
    (ways : List Block) (w tag avail t i : ℕ)
    → w < length ways
    → matches t (get_or (modify ways w (refill tag avail)) i no_block) ≡ true
    → ((i ≡ w) × (tag ≡ t)) ⊎ (matches t (get_or ways i no_block) ≡ true)
refill-matches ways w tag avail t i inside p = elim (ℕ_discrete i w) [
  | yes e ↦ inl (
    e,
    ==→eq tag t (
        ap (matches t)
          (sym (ap (λ k. get_or (modify ways w (refill tag avail)) k no_block) e ∙ here))
        ∙ p),
  )
  | no ne ↦ inr (ap (matches t) (sym (get_or-set_ne ways w i _ no_block (λ e. ne (sym e)))) ∙ p)
]
  where
    here :
        get_or (modify ways w (refill tag avail)) w no_block
        ≡ refill tag avail (get_or ways w no_block)
    here = get_or-set_self ways w _ no_block inside

-- Nor does it put a tag in two ways, where no way had it.
refill_unique :
    {assoc : ℕ} {ways : List Block} (w tag avail : ℕ)
    → IsRanked assoc ways
    → w < assoc
    → ((i : ℕ) → i < length ways → matches tag (get_or ways i no_block) ≡ false)
    → (t i j : ℕ) → i < assoc
    → j < assoc
    → let filled = modify ways w (refill tag avail) in
      matches t (get_or filled i no_block) ≡ true
      → matches t (get_or filled j no_block) ≡ true
      → i ≡ j
refill_unique {ways} w tag avail r at absent t i j h k p q =
    elim (refill-matches ways w tag avail t i (rw r.size at) p) [
      | inl (a, e) ↦ elim (refill-matches ways w tag avail t j (rw r.size at) q) [
        | inl (b, d) ↦ a ∙ sym b
        | inr old ↦ absurd (true-false (rw (← e) at old) (absent j (rw r.size k)))
      ]
      | inr old ↦ elim (refill-matches ways w tag avail t j (rw r.size at) q) [
        | inl (b, d) ↦ absurd (true-false (rw (← d) at old) (absent i (rw r.size h)))
        | inr old' ↦ r.unique t i j h k old old'
      ]
    ]

pub refill-IsRanked :
    {assoc : ℕ} {ways : List Block} (w tag avail : ℕ)
    → IsRanked assoc ways
    → w < assoc
    → ((i : ℕ) → i < length ways → matches tag (get_or ways i no_block) ≡ false)
    → IsRanked assoc (modify ways w (refill tag avail))
refill-IsRanked {ways} w tag avail r at absent = record {
  size = length-set ways w _ ∙ r.size;
  below = λ i h. rw (refill-rank ways w tag avail i) (r.below i h);
  holder = λ v h. let (i, at, q) = r.holder v h in (i, at, refill-rank ways w tag avail i ∙ q);
  distinct = λ i j h k e.
      r.distinct i j h k
        (sym (refill-rank ways w tag avail i) ∙ e ∙ refill-rank ways w tag avail j);
  unique = refill_unique w tag avail r at absent;
}

-- What one access leaves of the set of its address. `way` is the way of the requested block: the
-- one that held it already, or the least recently used one.
pub record Served (assoc tag avail : ℕ) (ways ways' : List Block) (way : ℕ) : Type 0 where
  pub inside : way < assoc
  pub found : matches tag (get_or ways' way no_block) ≡ true
  pub ready : (get_or ways' way no_block).timestamp ≤ avail
  pub newest : rank ways' way ≡ 0
  pub others :
      (i : ℕ)
      → i < assoc
      → i ≢ way
      → get_or ways' i no_block ≡ aged (rank ways way) (get_or ways i no_block)
  pub chosen :
      (matches tag (get_or ways way no_block) ≡ true)
      ⊎ ((rank ways way + 1 ≡ assoc)
          × ((i : ℕ) → i < assoc → matches tag (get_or ways i no_block) ≡ false))
  pub ranked : IsRanked assoc ways'

pub hit-Served :
    {assoc : ℕ} {ways : List Block} (tag start w : ℕ)
    → IsRanked assoc ways
    → w < assoc
    → matches tag (get_or ways w no_block) ≡ true
    → Served assoc tag (available (get_or ways w no_block) start) ways (touched ways w) w
hit-Served {assoc} {ways} tag start w r h m =
    let h' : w < length ways = rw r.size h in
    record {
      inside = h;
      found = matches-touched_self ways w h' tag ∙ m;
      ready = ground (arith, timestamp-touched_self ways w h');
      newest = rank-touched_self ways w h';
      others = λ i at ne. touched_ne ways w h' i ne (rw r.size at);
      chosen = inl m;
      ranked = touched-IsRanked ways w h' assoc r;
    }

pub miss-Served :
    {assoc : ℕ} {ways : List Block} (tag avail w : ℕ)
    → IsRanked assoc ways
    → w < assoc
    → rank ways w + 1 ≡ assoc
    → ((i : ℕ) → i < assoc → matches tag (get_or ways i no_block) ≡ false)
    → let filled = modify ways w (refill tag avail) in
      Served assoc tag avail ways (touched filled w) w
miss-Served {assoc} {ways} tag avail w r h last absent =
    let filled = modify ways w (refill tag avail) in
    let inside : w < length ways = rw r.size h in
    let h' : w < length filled = rw length-set inside in
    let at_way : get_or filled w no_block ≡ refill tag avail (get_or ways w no_block) =
      get_or-set_self ways w _ no_block inside in
    let r' = refill-IsRanked w tag avail r h (λ i at. absent i (rw (← r.size) at)) in
    record {
      inside = h;
      found = matches-touched_self filled w h' tag ∙ ap (matches tag) at_way ∙ ==_refl tag;
      ready =
          le_of_eq (timestamp-touched_self filled w h' ∙ ap (λ (b : Block). b.timestamp) at_way);
      newest = rank-touched_self filled w h';
      others = λ i at ne.
          touched_ne filled w h' i ne (rw r'.size at)
          ∙ ap₂ aged (refill-rank ways w tag avail w)
              (get_or-set_ne ways w i _ no_block (λ e. ne (sym e)));
      chosen = inr (last, absent);
      ranked = touched-IsRanked filled w h' assoc r';
    }
