-- ===== src/Cache/Init.antt =====
-- The constructor of `cache_t` (lib/cache.cc) makes a valid level.
use mathlib.Core.Path.{subst}
use ternary_geo_bp.Base.{
  ℕ, zero, suc, ◌+◌, ◌*◌, ◌/◌, ◌^◌, ◌<◌, ◌≡◌, refl, ◌∙◌, ap, false, List, [], arith, length, get_or,
  replicate, length-replicate, done, true-false, u64,
}
use ternary_geo_bp.Cache.{Block, Cache, no_block, matches, fresh_set, make, init}
use ternary_geo_bp.Cache.Lru.{rank, IsRanked}
use ternary_geo_bp.Cache.Served.{IsValid}

length-fresh_set : (n way t ts : ℕ) → length (fresh_set n way t ts) ≡ n
unfolding fresh_set
length-fresh_set zero way t ts = refl
length-fresh_set (suc n) way t ts = ap suc (length-fresh_set n (way + 1) t ts)

get_or-fresh_set :
    (n way t ts i : ℕ)
    → i < n
    → get_or (fresh_set n way t ts) i no_block
      ≡ record { valid = false; tag = t; timestamp = ts; lru = way + i }
unfolding fresh_set
get_or-fresh_set zero way t ts i h = absurd (omega arith)
get_or-fresh_set (suc n) way t ts zero h = ground arith
get_or-fresh_set (suc n) way t ts (suc i) h =
    get_or-fresh_set n (way + 1) t ts i (omega arith) ∙ ground arith

fresh_set-IsRanked : (n t ts : ℕ) → IsRanked n (fresh_set n 0 t ts)
fresh_set-IsRanked n t ts = record {
  size = length-fresh_set n 0 t ts;
  below = λ i h. omega (arith, rank-fresh i h);
  holder = λ v h. (v, h, rank-fresh v h);
  distinct = λ i j h k e. omega (arith, rank-fresh i h, rank-fresh j k);
  unique = λ u i j h k p q. absurd (true-false p (ap (matches u) (get_or-fresh_set n 0 t ts i h)));
}
  where
    rank-fresh : (i : ℕ) → i < n → rank (fresh_set n 0 t ts) i ≡ i
    rank-fresh i h = ap (λ (b : Block). b.lru) (get_or-fresh_set n 0 t ts i h) ∙ omega arith

make-IsValid :
    (log2 : ℕ → ℕ) (num_sets assoc blocksize latency t ts pf_accesses pf_misses : ℕ)
    → 0 < assoc
    → assoc < 2 ^ 64
    → num_sets < 2 ^ 64
    → 0 < num_sets
    → IsValid (make log2 num_sets assoc blocksize latency t ts pf_accesses pf_misses)
unfolding make
make-IsValid log2 num_sets assoc blocksize latency t ts pf_accesses pf_misses ways small fits sets =
    record {
      some_way = ways;
      small = small;
      all_sets = omega (arith, length-replicate num_sets (fresh_set assoc 0 t ts));
      ranked = λ index h.
          rw (in_replicate num_sets index (fresh_set assoc 0 t ts) (omega arith))
            (fresh_set-IsRanked assoc t ts);
    }
  where
    in_replicate : (n i : ℕ) (bs : List Block) → i < n → get_or (replicate n bs) i [] ≡ bs
    in_replicate zero i bs h = absurd (omega arith)
    in_replicate (suc n) zero bs h = refl
    in_replicate (suc n) (suc i) bs h = in_replicate n i bs (omega arith)

-- What the constructor accepts with at least one way and one set is a valid level, whatever
-- `new` leaves in the blocks and in the two counters that it does not set.
pub init-IsValid :
    (log2 : ℕ → ℕ) (size assoc blocksize latency t ts pf_accesses pf_misses : ℕ) (c : Cache)
    → 0 < assoc
    → assoc < 2 ^ 64
    → size < 2 ^ 64
    → 0 < size / u64 (assoc * blocksize)
    → init log2 size assoc blocksize latency t ts pf_accesses pf_misses ≡ done c
    → IsValid c
init-IsValid log2 size assoc blocksize latency t ts pf_accesses pf_misses c ways small fits sets e =
    subst IsValid made (
      make-IsValid log2 (size / u64 (assoc * blocksize)) assoc blocksize latency t ts pf_accesses
        pf_misses ways small (omega arith) sets)
  where
    made :
        make log2
          (size / u64 (assoc * blocksize))
          assoc
          blocksize
          latency
          t
          ts
          pf_accesses
          pf_misses
        ≡ c
    made = unfold init in ground arith
