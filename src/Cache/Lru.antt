-- ===== src/Cache/Lru.antt =====
-- `update_lru` (lib/cache.cc) and the order of the ways by their counters.
use native.Mathlib.Decide.{ℕ_discrete, dec_lt}
use ternary_geo_bp.Base.{
  ℕ, zero, suc, ◌+◌, ◌^◌, ◌<◌, ◌≡◌, ◌≢◌, ◌⊎◌, inl, inr, true, refl, sym, ◌∙◌, ap, List, [], ◌∷◌,
  map, arith, ltb, if◌then◌else◌, length, get_or, length-set, length-map, get_or-set_self,
  get_or-set_ne, get_or-map, done,
}
use ternary_geo_bp.Cache.{Block, no_block, matches, age_below, update_lru, modify}

abbrev pub rank : List Block → ℕ → ℕ
rank bs i = (get_or bs i no_block).lru

-- The counters of a set of `assoc` ways are the numbers below `assoc`, each of them once, and no
-- tag stands in two valid ways.
pub record IsRanked (assoc : ℕ) (bs : List Block) : Type 0 where
  pub size : length bs ≡ assoc
  pub below : (i : ℕ) → i < assoc → rank bs i < assoc
  pub holder : (v : ℕ) → v < assoc → (i : ℕ) × (i < assoc) × (rank bs i ≡ v)
  pub distinct : (i j : ℕ) → i < assoc → j < assoc → rank bs i ≡ rank bs j → i ≡ j
  pub unique :
      (t i j : ℕ)
      → i < assoc
      → j < assoc
      → matches t (get_or bs i no_block) ≡ true
      → matches t (get_or bs j no_block) ≡ true
      → i ≡ j

-- What the loop does to one block.
abbrev pub aged : ℕ → Block → Block
aged mru b = if ltb b.lru mru then record b { lru = b.lru + 1 } else b

-- What `update_lru` leaves of a set.
abbrev pub touched : List Block → ℕ → List Block
touched bs w = modify (map (aged (rank bs w)) bs) w (λ b. record b { lru = 0 })

age_below_lem :
    (assoc mru : ℕ) (bs : List Block)
    → assoc < 2 ^ 64
    → mru < assoc
    → age_below assoc mru bs ≡ done (map (aged mru) bs)
unfolding age_below
age_below_lem assoc mru [] small below = refl
age_below_lem assoc mru (b ∷ bs) small below =
    rw (age_below_lem assoc mru bs small below) (ground arith)

-- The assert in the loop holds, and the loop is `touched`.
pub update_lru_lem :
    (assoc : ℕ) (bs : List Block) (w : ℕ)
    → assoc < 2 ^ 64
    → rank bs w < assoc
    → update_lru assoc bs w ≡ done (touched bs w)
unfolding update_lru
update_lru_lem assoc bs w small below = rw (age_below_lem assoc (rank bs w) bs small below)

module _ (bs : List Block) (w : ℕ) (inside : w < length bs) where
  pub length-touched : length (touched bs w) ≡ length bs
  length-touched = length-set _ w _ ∙ length-map bs _

  pub touched_self :
      get_or (touched bs w) w no_block
      ≡ record (aged (rank bs w) (get_or bs w no_block)) { lru = 0 }
  touched_self =
      get_or-set_self _ w _ no_block (rw length-map inside)
      ∙ ap {A = Block} (λ b. record b { lru = 0 }) (get_or-map _ bs w no_block no_block inside)

  pub touched_ne :
      (i : ℕ)
      → i ≢ w
      → i < length bs
      → get_or (touched bs w) i no_block ≡ aged (rank bs w) (get_or bs i no_block)
  touched_ne i ne h =
      get_or-set_ne _ w i _ no_block (λ e. ne (sym e)) ∙ get_or-map _ bs i no_block no_block h

  pub rank-touched_self : rank (touched bs w) w ≡ 0
  rank-touched_self = ap (λ (b : Block). b.lru) touched_self

  pub matches-touched_self :
      (tag : ℕ)
      → matches tag (get_or (touched bs w) w no_block) ≡ matches tag (get_or bs w no_block)
  matches-touched_self tag = ap (matches tag) touched_self ∙ ground arith

  pub timestamp-touched_self :
      (get_or (touched bs w) w no_block).timestamp ≡ (get_or bs w no_block).timestamp
  timestamp-touched_self = ap (λ (b : Block). b.timestamp) touched_self ∙ ground arith

  rank-touched_ne :
      (i : ℕ)
      → i ≢ w
      → i < length bs
      → rank (touched bs w) i ≡ (if ltb (rank bs i) (rank bs w) then rank bs i + 1 else rank bs i)
  rank-touched_ne i ne h = ap (λ (b : Block). b.lru) (touched_ne i ne h) ∙ ground arith

  -- The contents of the ways stay.
  pub matches-touched :
      (t i : ℕ)
      → i < length bs
      → matches t (get_or (touched bs w) i no_block) ≡ matches t (get_or bs i no_block)
  matches-touched t i h = elim (ℕ_discrete i w) [
    | yes e ↦ rw e (matches-touched_self t)
    | no ne ↦ ap (matches t) (touched_ne i ne h) ∙ ground arith
  ]

  module _ (assoc : ℕ) (ranked : IsRanked assoc bs) where
    rank-touched :
        (i : ℕ)
        → i < assoc
        → ((i ≡ w) × (rank (touched bs w) i ≡ 0))
          ⊎ ((i ≢ w)
              × (rank (touched bs w) i
                  ≡ (if ltb (rank bs i) (rank bs w) then rank bs i + 1 else rank bs i)))
    rank-touched i h = elim (ℕ_discrete i w) [
      | yes e ↦ inl (e, rw e rank-touched_self)
      | no ne ↦ inr (ne, rank-touched_ne i ne (rw ranked.size h))
    ]

    -- The way that holds the counter `v` after the update.
    holder-touched : (v : ℕ) → v < assoc → (i : ℕ) × (i < assoc) × (rank (touched bs w) i ≡ v)
    holder-touched zero h = (w, rw (← ranked.size) inside, rank-touched_self)
    holder-touched (suc v) h = elim (dec_lt (rank bs w) (suc v)) [
      | yes above ↦
          let (i, at, q) = ranked.holder (suc v) h in (i, at, ground (arith, rank-touched i at))
      | no within ↦
          let (i, at, q) = ranked.holder v (omega arith) in
          (i, at, ground (arith, rank-touched i at))
    ]

    -- `update_lru` keeps the ranking.
    pub touched-IsRanked : IsRanked assoc (touched bs w)
    touched-IsRanked = record {
      size = length-touched ∙ ranked.size;
      below =
          λ i h. ground (arith, ranked.below i h, ranked.below w, rank-touched i h, ranked.size);
      holder = holder-touched;
      distinct = λ i j h k e. ground (
        arith,
        rank-touched i h,
        rank-touched j k,
        ranked.distinct i j h k,
        ranked.distinct i w h,
        ranked.distinct j w k,
        ranked.size,
      );
      unique = λ t i j h k p q.
          ranked.unique t i j h k (sym (matches-touched t i (rw ranked.size h)) ∙ p)
            (sym (matches-touched t j (rw ranked.size k)) ∙ q);
    }
