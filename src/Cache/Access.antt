-- ===== src/Cache/Access.antt =====
-- `access` (lib/cache.cc) on a valid hierarchy.
use ternary_geo_bp.Base.{
  ℕ, ◌+◌, ◌-◌, ◌^◌, ◌≤◌, ◌<◌, ◌≡◌, refl, ◌∙◌, ap, ◌⊎◌, inl, inr, Bool, true, Option, none, some,
  List, [], ◌∷◌, arith, length, get_or, set, length-set, get_or-set_self, get_or-set_ne, done, u64,
}
use mathlib.Core.Path.{subst}
use native.Mathlib.Decide.{ℕ_discrete}
use native.Mathlib.Nat.{zero-add}
use ternary_geo_bp.Cache.{
  Block, Cache, no_block, tag_of, index_of, ways_of, matches, available, Found, hit, miss, search,
  count_access, count_miss, victim, refill, modify, access,
}
use ternary_geo_bp.Cache.Ways.{search-hit, search-miss, search-victim}
use ternary_geo_bp.Cache.Lru.{rank, IsRanked, touched, update_lru_lem}
use ternary_geo_bp.Cache.Served.{
  IsValid, AllValid, index_of-le, ways_of-IsRanked, Served, hit-Served, miss-Served,
  refill-IsRanked,
}

pub Found-cases :
    (f : Found) → ((w : ℕ) × (f ≡ hit w)) ⊎ ((m : ℕ) × (v : Option ℕ) × (f ≡ miss m v))
Found-cases (hit w) = inl (w, refl)
Found-cases (miss m v) = inr (m, v, refl)

-- A level whose set of `addr` has been replaced by a ranked one is valid, and keeps its geometry.
abbrev pub with_set : Cache → ℕ → List Block → List (List Block)
with_set c addr ways' = set c.sets (index_of c addr) ways'

with_set-IsRanked :
    {c : Cache} (addr : ℕ) (ways' : List Block)
    → IsValid c
    → IsRanked c.assoc ways'
    → (index : ℕ) → index ≤ c.index_mask
    → IsRanked c.assoc (get_or (with_set c addr ways') index [])
with_set-IsRanked {c} addr ways' v r index h =
    let in_range : index_of c addr < length c.sets =
      omega (arith, index_of-le c addr, v.all_sets) in
    elim (ℕ_discrete (index_of c addr) index) [
      | yes e ↦ rw (← e, get_or-set_self c.sets (index_of c addr) ways' [] in_range) r
      | no ne ↦ rw (get_or-set_ne c.sets (index_of c addr) index ways' [] ne) (v.ranked index h)
    ]

-- What one access does to the level that it reaches first. `way` is the way of the requested
-- block in the set of `addr`.
pub record Accessed (memory : ℕ) (c : Cache) (next : List Cache) (cycle : ℕ) (read : Bool)
    (addr : ℕ) (pf : Bool) : Type 0 where
  pub avail : ℕ
  pub after : Cache
  pub next' : List Cache
  pub ways' : List Block
  pub way : ℕ
  pub returns : access memory (c ∷ next) cycle read addr pf ≡ done (avail, after ∷ next')
  pub supplied :
      ((avail ≡ available (get_or (ways_of c addr) way no_block) (u64 (cycle + c.latency)))
        × (next' ≡ next))
      ⊎ (access memory next (u64 (cycle + c.latency)) read addr pf ≡ done (avail, next'))
  pub served : Served c.assoc (tag_of c addr) avail (ways_of c addr) ways' way
  pub sets : after.sets ≡ with_set c addr ways'
  pub valid : IsValid after
  pub next_valid : AllValid next'
  pub same_latency : after.latency ≡ c.latency
  pub same_geometry :
      (after.num_index_bits ≡ c.num_index_bits)
      × (after.num_offset_bits ≡ c.num_offset_bits)
      × (after.index_mask ≡ c.index_mask)
      × (after.assoc ≡ c.assoc)

-- A hit: the levels behind are left alone.
access-hit :
    (memory : ℕ) (c : Cache) (next : List Cache) (cycle : ℕ) (read : Bool) (addr : ℕ) (pf : Bool)
    (w : ℕ)
    → IsValid c
    → search (tag_of c addr) (ways_of c addr) 0 0 none ≡ hit w
    → let ways = ways_of c addr in
      access memory (c ∷ next) cycle read addr pf
      ≡ done (
        available (get_or ways w no_block) (u64 (cycle + c.latency)),
        record (count_access c pf) { sets = with_set c addr (touched ways w) } ∷ next,
      )
unfolding access
access-hit memory c next cycle read addr pf w v e =
    let (i, at, below, m) = search-hit (tag_of c addr) (ways_of c addr) 0 0 none w e in
    let r = ways_of-IsRanked addr v in
    let inside : w < c.assoc = omega (arith, r.size) in
    rw (e, access, update_lru_lem c.assoc (ways_of c addr) w v.small (r.below w inside))

-- Neither assert on the victim fails.
victim_lem :
    (assoc m w : ℕ)
    → 0 < assoc
    → assoc < 2 ^ 64
    → m ≡ assoc - 1
    → w < assoc
    → victim assoc m (some w) ≡ done w
unfolding victim
victim_lem assoc m w some_way small top inside = ground arith

-- A miss: the victim is refilled with what the next level supplies, and becomes the newest way.
access-miss :
    (memory : ℕ) (c : Cache) (next : List Cache) (cycle : ℕ) (read : Bool) (addr : ℕ) (pf : Bool)
    (m w : ℕ) (avail : ℕ) (next' : List Cache)
    → IsValid c
    → search (tag_of c addr) (ways_of c addr) 0 0 none ≡ miss m (some w)
    → m ≡ c.assoc - 1
    → w < c.assoc
    → access memory next (u64 (cycle + c.latency)) read addr pf ≡ done (avail, next')
    → let filled = modify (ways_of c addr) w (refill (tag_of c addr) avail) in
      access memory (c ∷ next) cycle read addr pf
      ≡ done (
        avail,
        record (count_miss (count_access c pf) pf) { sets = with_set c addr (touched filled w) }
            ∷ next',
      )
unfolding access
access-miss memory c next cycle read addr pf m w avail next' valid e top inside fetched =
    let ways = ways_of c addr in
    let r =
      refill-IsRanked w (tag_of c addr) avail (ways_of-IsRanked addr valid) inside
        (search-miss (tag_of c addr) ways 0 0 none m (some w) e) in
    rw (
      e,
      access,
      victim_lem c.assoc m w valid.some_way valid.small top inside,
      fetched,
      update_lru_lem c.assoc (modify ways w (refill (tag_of c addr) avail)) w valid.small
          (r.below w inside),
    )

-- After a miss there is a victim, and it is the least recently used way.
victim_way :
    {assoc : ℕ} (tag : ℕ) {ways : List Block} (m : ℕ) (v : Option ℕ)
    → 0 < assoc
    → IsRanked assoc ways
    → search tag ways 0 0 none ≡ miss m v
    → (m ≡ assoc - 1) × ((w : ℕ) × (v ≡ some w) × ((w < assoc) × (rank ways w + 1 ≡ assoc)))
victim_way {assoc} tag {ways} m v some_way r e =
    search-victim (λ w. (w < assoc) × (rank ways w + 1 ≡ assoc)) tag (assoc - 1) ways 0 0 none m v e
      (omega arith) (λ i h. omega (arith, r.below i (omega (arith, r.size)), r.size))
      (λ i h k. (omega (arith, r.size), rw (zero-add i) (omega arith)))
      (inr (let (i, at, q) = r.holder (assoc - 1) (omega arith) in (i, omega (arith, r.size), q)))

-- What an access to the levels behind does: no assert fails there, and they stay valid.
abbrev pub Returns : ℕ → List Cache → ℕ → Bool → ℕ → Bool → Type 0
Returns memory cs cycle read addr pf =
    (avail : ℕ) × (cs' : List Cache) × (access memory cs cycle read addr pf ≡ done (avail, cs'))
    × AllValid cs'

module _ (memory : ℕ) (c : Cache) (next : List Cache) (cycle : ℕ) (read : Bool) (addr : ℕ)
    (pf : Bool) (v : IsValid c) (vs : AllValid next) where
  Accessed-hit :
      (w : ℕ)
      → search (tag_of c addr) (ways_of c addr) 0 0 none ≡ hit w
      → Accessed memory c next cycle read addr pf
  unfolding count_access
  Accessed-hit w e =
      let ways = ways_of c addr in
      let (i, at, below, m) = search-hit (tag_of c addr) ways 0 0 none w e in
      let r = ways_of-IsRanked addr v in
      let at' : i ≡ w = omega arith in
      let served =
        hit-Served (tag_of c addr) (u64 (cycle + c.latency)) w r (omega (arith, r.size))
          (subst (λ (k : ℕ). matches (tag_of c addr) (get_or ways k no_block) ≡ true) at' m) in
      record {
        avail = available (get_or ways w no_block) (u64 (cycle + c.latency));
        after = record (count_access c pf) { sets = with_set c addr (touched ways w) };
        next' = next;
        ways' = touched ways w;
        way = w;
        returns = access-hit memory c next cycle read addr pf w v e;
        supplied = inl (refl, refl);
        served = served;
        sets = refl;
        valid = record {
          some_way = v.some_way;
          small = v.small;
          all_sets = rw length-set v.all_sets;
          ranked = with_set-IsRanked addr (touched ways w) v served.ranked;
        };
        next_valid = vs;
        same_latency = refl;
        same_geometry = (refl, refl, refl, refl);
      }

  Accessed-miss :
      (m w avail : ℕ) (next' : List Cache)
      → search (tag_of c addr) (ways_of c addr) 0 0 none ≡ miss m (some w)
      → m ≡ c.assoc - 1
      → w < c.assoc
      → rank (ways_of c addr) w + 1 ≡ c.assoc
      → access memory next (u64 (cycle + c.latency)) read addr pf ≡ done (avail, next')
      → AllValid next'
      → Accessed memory c next cycle read addr pf
  unfolding count_access count_miss
  Accessed-miss m w avail next' e top inside last fetched vs' =
      let ways = ways_of c addr in
      let r = ways_of-IsRanked addr v in
      let absent = search-miss (tag_of c addr) ways 0 0 none m (some w) e in
      let served =
        miss-Served (tag_of c addr) avail w r inside last (λ i h. absent i (rw r.size h)) in
      let ways' = touched (modify ways w (refill (tag_of c addr) avail)) w in
      record {
        avail = avail;
        after = record (count_miss (count_access c pf) pf) { sets = with_set c addr ways' };
        next' = next';
        ways' = ways';
        way = w;
        returns =
            access-miss memory c next cycle read addr pf m w avail next' v e top inside fetched;
        supplied = inr fetched;
        served = served;
        sets = refl;
        valid = record {
          some_way = v.some_way;
          small = v.small;
          all_sets = rw length-set v.all_sets;
          ranked = with_set-IsRanked addr ways' v served.ranked;
        };
        next_valid = vs';
        same_latency = refl;
        same_geometry = (refl, refl, refl, refl);
      }

  accessed :
      Returns memory next (u64 (cycle + c.latency)) read addr pf
      → Accessed memory c next cycle read addr pf
  accessed (avail, next', fetched, vs') =
      elim (Found-cases (search (tag_of c addr) (ways_of c addr) 0 0 none)) [
        | inl (w, e) ↦ Accessed-hit w e
        | inr (m, victim', e) ↦
            let (top, (w, q, (inside, last))) =
              victim_way (tag_of c addr) m victim' v.some_way (ways_of-IsRanked addr v) e in
            Accessed-miss m w avail next' (e ∙ ap (miss m) q) top inside last fetched vs'
      ]

-- On a valid hierarchy no assert of an access fails at any level, and every level stays valid.
pub access-Returns :
    (memory : ℕ) (cs : List Cache) (cycle : ℕ) (read : Bool) (addr : ℕ) (pf : Bool)
    → AllValid cs
    → Returns memory cs cycle read addr pf
unfolding access
access-Returns memory [] cycle read addr pf v = (u64 (cycle + memory), [], refl, tt)
access-Returns memory (c ∷ next) cycle read addr pf (v, vs) =
    let fetched = access-Returns memory next (u64 (cycle + c.latency)) read addr pf vs in
    let a = accessed memory c next cycle read addr pf v vs fetched in
    (a.avail, a.after ∷ a.next', a.returns, (a.valid, a.next_valid))

-- An access to a valid level puts the requested block in its set: in the way that held it, or
-- else in the least recently used way. No assert fails at any level, all levels stay valid, no
-- other set of the level changes, and the other ways of the set only age.
pub access-Accessed :
    (memory : ℕ) (c : Cache) (next : List Cache) (cycle : ℕ) (read : Bool) (addr : ℕ) (pf : Bool)
    → AllValid (c ∷ next)
    → Accessed memory c next cycle read addr pf
access-Accessed memory c next cycle read addr pf (v, vs) =
    accessed memory c next cycle read addr pf v vs
      (access-Returns memory next (u64 (cycle + c.latency)) read addr pf vs)
