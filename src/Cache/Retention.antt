-- ===== src/Cache/Retention.antt =====
-- What is in a level after an access (lib/cache.cc), and after further ones.
use mathlib.Core.Path.{subst}
use native.Mathlib.Decide.{ℕ_discrete}
use native.Mathlib.Nat.{le_of_eq}
use ternary_geo_bp.Base.{
  ℕ, zero, suc, ◌+◌, ◌^◌, ◌≤◌, ◌<◌, ◌≡◌, ◌≢◌, refl, sym, ◌∙◌, ap, ap₂, inl, inr, Bool, true, none,
  List, [], ◌∷◌, arith, length, get_or, get_or-set_self, get_or-set_ne, Run, done, ◌>>=◌, u64,
  Bool-cases, true-false, bit_and, ◌>>>◌,
}
use ternary_geo_bp.Cache.{
  Block, Cache, no_block, tag_of, index_of, ways_of, matches, hit_in, is_hit, hit, search, access,
}
use ternary_geo_bp.Cache.Ways.{search-miss}
use ternary_geo_bp.Cache.Lru.{rank}
use ternary_geo_bp.Cache.Served.{IsValid, AllValid, index_of-le, ways_of-IsRanked, Served}
use ternary_geo_bp.Cache.Access.{Accessed, Found-cases, access-Accessed}

-- The loop of `is_hit` finds a block that is there and available.
hit_in_lem :
    (tag start : ℕ) (bs : List Block) (w : ℕ)
    → w < length bs
    → matches tag (get_or bs w no_block) ≡ true
    → (get_or bs w no_block).timestamp ≤ start
    → ((i : ℕ) → i < length bs → matches tag (get_or bs i no_block) ≡ true → i ≡ w)
    → hit_in tag start bs ≡ true
unfolding hit_in
hit_in_lem tag start [] w at m ready only = absurd (omega arith)
hit_in_lem tag start (b ∷ bs) zero at m ready only = rw m (ground arith)
hit_in_lem tag start (b ∷ bs) (suc w) at m ready only = elim (Bool-cases (matches tag b)) [
  | inl here ↦ absurd (omega (arith, only 0 (omega arith) here))
  | inr other ↦ rw other (
      hit_in_lem tag start bs w (omega arith) m ready
        (λ i h p. omega (arith, only (suc i) (omega arith) p)))
]

module _ {memory : ℕ} {c : Cache} {next : List Cache} {cycle : ℕ} {read : Bool} {addr : ℕ}
    {pf : Bool} (v : IsValid c) (a : Accessed memory c next cycle read addr pf) where
  tag_of-after : (other : ℕ) → tag_of a.after other ≡ tag_of c other
  tag_of-after other = ap₂ (λ (i o : ℕ). other >>> (i + o)) a.same_geometry.0 a.same_geometry.1

  index_of-after : (other : ℕ) → index_of a.after other ≡ index_of c other
  index_of-after other =
      ap₂ (λ (o m : ℕ). bit_and (other >>> o) m) a.same_geometry.1 a.same_geometry.2

  -- The set of the address is the new one, and any other set is the old one.
  ways_of-after : ways_of a.after addr ≡ a.ways'
  ways_of-after =
      ap₂ (λ sets i. get_or sets i []) a.sets (index_of-after addr)
      ∙ get_or-set_self c.sets (index_of c addr) a.ways' []
          (omega (arith, index_of-le c addr, v.all_sets))

  ways_of-after_ne :
      (other : ℕ) → index_of c other ≢ index_of c addr → ways_of a.after other ≡ ways_of c other
  ways_of-after_ne other ne =
      ap₂ (λ sets i. get_or sets i []) a.sets (index_of-after other)
      ∙ get_or-set_ne c.sets (index_of c addr) (index_of c other) a.ways' [] (λ e. ne (sym e))

Accessed-is_hit :
    {memory : ℕ} {c : Cache} {next : List Cache} {cycle : ℕ} {read : Bool} {addr : ℕ} {pf : Bool}
    (v : IsValid c) (a : Accessed memory c next cycle read addr pf) (later : ℕ)
    → a.avail ≤ later
    → later + c.latency < 2 ^ 64
    → is_hit a.after later addr ≡ true
unfolding is_hit
Accessed-is_hit {c} {addr} v a later ready no_wrap =
    let s = a.served in
    let in_set : a.way < length a.ways' = omega (arith, s.inside, s.ranked.size) in
    rw (ways_of-after v a, tag_of-after v a addr)
      (hit_in_lem (tag_of c addr) (u64 (later + a.after.latency)) a.ways' a.way in_set s.found
        (omega (arith, s.ready, a.same_latency))
        (λ i h p.
          s.ranked.unique (tag_of c addr) i a.way (omega (arith, s.ranked.size)) s.inside p
            s.found))

-- Once an access to a valid hierarchy has returned the cycle at which its block is available,
-- `is_hit` finds that block in the first level at this cycle and at every later one, below the wrap
-- of the cycle counter.
pub access-is_hit :
    (memory : ℕ) (c after : Cache) (next next' : List Cache) (cycle : ℕ) (read : Bool) (addr : ℕ)
    (pf : Bool) (avail later : ℕ)
    → AllValid (c ∷ next)
    → access memory (c ∷ next) cycle read addr pf ≡ done (avail, after ∷ next')
    → avail ≤ later
    → later + c.latency < 2 ^ 64
    → is_hit after later addr ≡ true
access-is_hit memory c after next next' cycle read addr pf avail later (v, vs) e ready no_wrap =
    rw (← same.1) (Accessed-is_hit v a later (rw same.0 ready) no_wrap)
  where
    a : Accessed memory c next cycle read addr pf
    a = access-Accessed memory c next cycle read addr pf (v, vs)

    same : (a.avail ≡ avail) × (a.after ≡ after)
    same = (cc (e, a.returns), cc (e, a.returns))

-- A block with the tag is among the `k + 1` most recently used ways of the set.
pub record Held (assoc tag k : ℕ) (ways : List Block) : Type 0 where
  pub way : ℕ
  pub inside : way < assoc
  pub found : matches tag (get_or ways way no_block) ≡ true
  pub recent : rank ways way ≤ k

-- One access to the set makes the block at most one place older.
Held-later :
    {assoc k tag tag' avail way : ℕ} {ways ways' : List Block}
    → k + 1 < assoc
    → Held assoc tag k ways
    → Served assoc tag' avail ways ways' way
    → Held assoc tag (k + 1) ways'
Held-later {tag} {tag'} {way} {ways} {ways'} room b s = elim (ℕ_discrete b.way way) [
  | yes e ↦ elim s.chosen [
    | inl old ↦
        let same : tag ≡ tag' = ground (arith, b.found, old, e) in
        record {
          way = way;
          inside = s.inside;
          found = rw same s.found;
          recent = omega (arith, s.newest);
        }
    | inr (last, _) ↦ absurd (omega (arith, b.recent, ap (rank ways) e))
  ]
  | no ne ↦ record {
    way = b.way;
    inside = b.inside;
    found = ap (matches tag) (s.others b.way b.inside ne) ∙ ground (arith, b.found);
    recent = ground (arith, s.others b.way b.inside ne, b.recent);
  }
]

-- The arguments of a call of `access`.
pub record Request : Type 0 where
  pub cycle : ℕ
  pub read : Bool
  pub addr : ℕ
  pub pf : Bool

-- Calls one after another on the same level.
unfoldable pub access_all : ℕ → List Request → List Cache → Run (List Cache)
access_all memory [] cs = done cs
access_all memory (q ∷ qs) cs = do
  (_, cs') ← access memory cs q.cycle q.read q.addr q.pf
  access_all memory qs cs'

-- The block of `addr` is in its set, among the `k + 1` most recently used ways.
abbrev pub InLevel : ℕ → ℕ → List Cache → Type 0
InLevel addr k [] = ⊥
InLevel addr k (c ∷ next) = Held c.assoc (tag_of c addr) k (ways_of c addr)

-- After one access the requested block is the most recent one of its set.
Accessed-InLevel :
    {memory : ℕ} {c : Cache} {next : List Cache} {cycle : ℕ} {read : Bool} {addr : ℕ} {pf : Bool}
    (v : IsValid c) (a : Accessed memory c next cycle read addr pf)
    → InLevel addr 0 (a.after ∷ a.next')
Accessed-InLevel {addr} v a =
    let s = a.served in
    record {
      way = a.way;
      inside = rw a.same_geometry.3 s.inside;
      found = rw (tag_of-after v a addr, ways_of-after v a) s.found;
      recent = rw (ways_of-after v a) (le_of_eq s.newest);
    }

-- An access to any address makes a block at most one place older.
Accessed-later :
    {memory : ℕ} {c : Cache} {next : List Cache} {cycle : ℕ} {read : Bool} {addr : ℕ} {pf : Bool}
    (v : IsValid c) (a : Accessed memory c next cycle read addr pf) (other k : ℕ)
    → k + 1 < c.assoc
    → InLevel other k (c ∷ next)
    → InLevel other (k + 1) (a.after ∷ a.next')
Accessed-later {c} {addr} v a other k room b =
    elim (ℕ_discrete (index_of c other) (index_of c addr)) [
      | yes e ↦
          let same : ways_of c other ≡ ways_of c addr = ap (λ i. get_or c.sets i []) e in
          let here = Held-later room (subst (Held c.assoc (tag_of c other) k) same b) a.served in
          let there : ways_of a.after other ≡ a.ways' =
            ap (λ i. get_or a.after.sets i [])
              (index_of-after v a other ∙ e ∙ sym (index_of-after v a addr))
            ∙ ways_of-after v a in
          rw (a.same_geometry.3, tag_of-after v a other)
            (subst (Held c.assoc (tag_of c other) (k + 1)) (sym there) here)
      | no ne ↦ record {
        way = b.way;
        inside = rw a.same_geometry.3 b.inside;
        found = rw (tag_of-after v a other, ways_of-after_ne v a other ne) b.found;
        recent = rw (ways_of-after_ne v a other ne) (omega (arith, b.recent));
      }
    ]

-- A block that is in its set is found.
InLevel-hit :
    {c : Cache} (addr k : ℕ)
    → IsValid c
    → Held c.assoc (tag_of c addr) k (ways_of c addr)
    → (w : ℕ) × (search (tag_of c addr) (ways_of c addr) 0 0 none ≡ hit w)
InLevel-hit {c} addr k v b = elim (Found-cases (search (tag_of c addr) (ways_of c addr) 0 0 none)) [
  | inl found ↦ found
  | inr (m, victim, e) ↦
      let inside : b.way < length (ways_of c addr) =
        omega (arith, b.inside, (ways_of-IsRanked addr v).size) in
      absurd (
        true-false b.found
          (search-miss (tag_of c addr) (ways_of c addr) 0 0 none m victim e b.way inside))
]

-- What `access_all` ends with: the level, whose next search for `addr` hits.
abbrev pub Ends : Run (List Cache) → ℕ → Type 0
Ends r addr =
    (c' : Cache) × (next' : List Cache) × (r ≡ done (c' ∷ next'))
    × ((w : ℕ) × (search (tag_of c' addr) (ways_of c' addr) 0 0 none ≡ hit w))

retained_from :
    (memory : ℕ) (qs : List Request) (c : Cache) (next : List Cache) (addr k : ℕ)
    → AllValid (c ∷ next)
    → InLevel addr k (c ∷ next)
    → k + length qs < c.assoc
    → Ends (access_all memory qs (c ∷ next)) addr
unfolding access_all
retained_from memory [] c next addr k (v, vs) b room = (c, next, refl, InLevel-hit addr k v b)
retained_from memory (q ∷ qs) c next addr k (v, vs) b room =
    let a = access-Accessed memory c next q.cycle q.read q.addr q.pf (v, vs) in
    rw a.returns (
      retained_from memory qs a.after a.next' addr (k + 1) (a.valid, a.next_valid)
        (Accessed-later v a addr k (omega arith) b) (omega (arith, a.same_geometry.3)))

-- On a valid hierarchy, the block that an access brings in stays in its level through any sequence of further accesses
-- that is shorter than the associativity: no assert fails on the way, and the next search for the
-- address hits.
pub access-retained :
    (memory : ℕ) (q : Request) (qs : List Request) (c : Cache) (next : List Cache)
    → AllValid (c ∷ next)
    → length qs < c.assoc
    → Ends (access_all memory (q ∷ qs) (c ∷ next)) q.addr
unfolding access_all
access-retained memory q qs c next (v, vs) room =
    let a = access-Accessed memory c next q.cycle q.read q.addr q.pf (v, vs) in
    rw a.returns (
      retained_from memory qs a.after a.next' q.addr 0 (a.valid, a.next_valid)
        (Accessed-InLevel v a) (omega (arith, a.same_geometry.3)))
