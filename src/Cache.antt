-- ===== src/Cache.antt =====
-- lib/cache.h and lib/cache.cc: a set-associative cache with least-recently-used replacement and
-- the time at which each block is available. The pointer to the next level is the tail of a list
-- of caches: an empty list is main memory. Block timestamps and cycles are uint64_t.
pub mod Ways
pub mod Lru
pub mod Served
pub mod Access
pub mod Retention
pub mod Init
pub mod Latency
mod Tests
use ternary_geo_bp.Base.{
  ℕ, zero, suc, ◌+◌, ◌-◌, ◌*◌, ◌/◌, ◌^◌, ◌≡◌, Bool, true, false, ◌&&◌, not, Option, none, some,
  List, [], ◌∷◌, map, bit_and, ltb, leb, ◌==◌, if◌then◌else◌, to_ℕ, get_or, set, replicate, u64,
  sub64, ◌>>>◌, Run, done, assert_failed, ◌>>=◌, ◌>>◌, assert,
}

-- block_t
pub record Block : Type 0 where
  pub valid : Bool
  pub tag : ℕ
  pub timestamp : ℕ
  pub lru : ℕ

-- cache_t, without the pointer to the next level. `sets` is the array C.
pub record Cache : Type 0 where
  pub sets : List (List Block)
  pub num_index_bits : ℕ
  pub num_offset_bits : ℕ
  pub index_mask : ℕ
  pub assoc : ℕ
  pub latency : ℕ
  pub accesses : ℕ
  pub pf_accesses : ℕ
  pub misses : ℕ
  pub pf_misses : ℕ

-- What a read past the arrays would give; no operation on a valid cache uses it.
abbrev pub no_block : Block
no_block = record { valid = false; tag = 0; timestamp = 0; lru = 0 }

-- IsPow2
unfoldable pub is_pow2 : ℕ → Bool
is_pow2 x = bit_and x (sub64 x 1) == 0

-- C[index][way], with the tag of the block and its timestamp as `new` leaves them.
unfoldable pub fresh_set : ℕ → ℕ → ℕ → ℕ → List Block
fresh_set zero way tag timestamp = []
fresh_set (suc n) way tag timestamp =
    record { valid = false; tag = tag; timestamp = timestamp; lru = way }
    ∷ fresh_set n (way + 1) tag timestamp

-- The fields that the constructor leaves, for `num_sets` sets. `log2` is the function of <math.h>.
unfoldable pub make : (ℕ → ℕ) → ℕ → ℕ → ℕ → ℕ → ℕ → ℕ → ℕ → ℕ → Cache
make log2 num_sets assoc blocksize latency old_tag old_timestamp pf_accesses pf_misses = record {
  sets = replicate num_sets (fresh_set assoc 0 old_tag old_timestamp);
  num_index_bits = log2 num_sets;
  num_offset_bits = log2 blocksize;
  index_mask = sub64 num_sets 1;
  assoc = assoc;
  latency = latency;
  accesses = 0;
  pf_accesses = pf_accesses;
  misses = 0;
  pf_misses = pf_misses;
}

-- The constructor. What `new` leaves in a block (`old_tag`, `old_timestamp`), and the two prefetch
-- counters that the constructor does not set, are arguments. A division by zero is a failed assert.
unfoldable pub init : (ℕ → ℕ) → ℕ → ℕ → ℕ → ℕ → ℕ → ℕ → ℕ → ℕ → Run Cache
init log2 size assoc blocksize latency old_tag old_timestamp pf_accesses pf_misses = do
  assert (is_pow2 blocksize)
  assert (ltb 0 (u64 (assoc * blocksize)))
  let num_sets = size / u64 (assoc * blocksize)
  assert (is_pow2 num_sets)
  done (make log2 num_sets assoc blocksize latency old_tag old_timestamp pf_accesses pf_misses)

-- TAG
abbrev pub tag_of : Cache → ℕ → ℕ
tag_of c addr = addr >>> (c.num_index_bits + c.num_offset_bits)

-- INDEX
abbrev pub index_of : Cache → ℕ → ℕ
index_of c addr = bit_and (addr >>> c.num_offset_bits) c.index_mask

-- The set of an address.
abbrev pub ways_of : Cache → ℕ → List Block
ways_of c addr = get_or c.sets (index_of c addr) []

-- `valid && tag == tag`
abbrev pub matches : ℕ → Block → Bool
matches tag b = b.valid && (b.tag == tag)

-- The cycle at which a block that is searched for until `start` is available.
abbrev pub available : Block → ℕ → ℕ
available b start = if ltb start b.timestamp then b.timestamp else start

-- The loop of `is_hit` over the ways, with `start` for `cycle + latency`.
unfoldable pub hit_in : ℕ → ℕ → List Block → Bool
hit_in tag start [] = false
hit_in tag start (b ∷ bs) =
    if matches tag b then leb (available b start) start else hit_in tag start bs

unfoldable pub is_hit : Cache → ℕ → ℕ → Bool
unfolding hit_in
is_hit c cycle addr = hit_in (tag_of c addr) (u64 (cycle + c.latency)) (ways_of c addr)

-- What the search of `access` ends with: the way of a hit, or `max_lru_ctr` and `victim_way`.
-- The victim is `none` while `victim_way` has not been written.
pub data Found : Type 0 where
  hit : ℕ → Found
  miss : ℕ → Option ℕ → Found

-- The loop of `access` over the ways from `way` on.
unfoldable pub search : ℕ → List Block → ℕ → ℕ → Option ℕ → Found
search tag [] way max_lru_ctr victim_way = miss max_lru_ctr victim_way
search tag (b ∷ bs) way max_lru_ctr victim_way =
    if matches tag b
    then hit way
    else search tag bs (way + 1) (if leb max_lru_ctr b.lru then b.lru else max_lru_ctr)
        (if leb max_lru_ctr b.lru then some way else victim_way)

-- The loop of `update_lru`, where `mru` is the counter of the way that becomes the most recent.
-- That counter is not below itself, so the loop leaves what it compares with alone.
unfoldable pub age_below : ℕ → ℕ → List Block → Run (List Block)
age_below assoc mru [] = done []
age_below assoc mru (b ∷ bs) = do
  b' ←
      (if ltb b.lru mru
        then (assert (ltb (u64 (b.lru + 1)) assoc) >> done (record b { lru = u64 (b.lru + 1) }))
        else done b)
  bs' ← age_below assoc mru bs
  done (b' ∷ bs')

-- C[index][way] = f (C[index][way])
abbrev pub modify : List Block → ℕ → (Block → Block) → List Block
modify bs way f = set bs way (f (get_or bs way no_block))

unfoldable pub update_lru : ℕ → List Block → ℕ → Run (List Block)
unfolding age_below
update_lru assoc bs mru_way = do
  bs' ← age_below assoc (get_or bs mru_way no_block).lru bs
  done (modify bs' mru_way (λ b. record b { lru = 0 }))

-- accesses += !pf; pf_accesses += pf
unfoldable pub count_access : Cache → Bool → Cache
count_access c pf = record c {
  accesses = u64 (c.accesses + to_ℕ (not pf));
  pf_accesses = u64 (c.pf_accesses + to_ℕ pf);
}

-- misses += !pf; pf_misses += pf
unfoldable pub count_miss : Cache → Bool → Cache
count_miss c pf = record c {
  misses = u64 (c.misses + to_ℕ (not pf));
  pf_misses = u64 (c.pf_misses + to_ℕ pf);
}

-- The two asserts on the victim, and its way.
unfoldable pub victim : ℕ → ℕ → Option ℕ → Run ℕ
victim assoc max_lru_ctr none = assert_failed
victim assoc max_lru_ctr (some way) = do
  assert (max_lru_ctr == sub64 assoc 1)
  assert (ltb way assoc)
  done way

-- The victim block with the requested block put in.
abbrev pub refill : ℕ → ℕ → Block → Block
refill tag avail b = record b { valid = true; tag = tag; timestamp = avail }

-- `access` on a level and those behind it: the cycle at which the block is available, and the
-- levels afterwards. `memory` is MAIN_MEMORY_LATENCY.
unfoldable pub access : ℕ → List Cache → ℕ → Bool → ℕ → Bool → Run (ℕ × List Cache)
access memory [] cycle read addr pf = done (u64 (cycle + memory), [])
access memory (c ∷ next_level) cycle read addr pf =
    let start = u64 (cycle + c.latency) in
    let tag = tag_of c addr in
    let index = index_of c addr in
    let ways = ways_of c addr in
    let counted = count_access c pf in
    let fetched = access memory next_level start read addr pf in
    elim (search tag ways 0 0 none) [
      | hit way ↦ do
        ways' ← update_lru c.assoc ways way
        done (
          available (get_or ways way no_block) start,
          record counted { sets = set c.sets index ways' } ∷ next_level,
        )
      | miss max_lru_ctr victim_way ↦ do
        way ← victim c.assoc max_lru_ctr victim_way
        (avail, next_level') ← fetched
        ways' ← update_lru c.assoc (modify ways way (refill tag avail)) way
        done (avail, record (count_miss counted pf) { sets = set c.sets index ways' } ∷ next_level')
    ]
