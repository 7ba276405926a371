-- ===== src/Cache/Tests.antt =====
-- A cache of two sets of two ways, with blocks of four bytes, over main memory.
use ternary_geo_bp.Base.{
  ℕ, ◌+◌, ◌≤◌, ◌≡◌, refl, true, false, List, [], ◌∷◌, arith, ◌==◌, if◌then◌else◌, done,
}
use ternary_geo_bp.Cache.{
  Block, Cache, is_pow2, fresh_set, make, init, is_hit, search, age_below, update_lru, count_access,
  count_miss, victim, access,
}
use ternary_geo_bp.Cache.Served.{IsValid}
use ternary_geo_bp.Cache.Access.{Accessed, access-Accessed}
use ternary_geo_bp.Cache.Retention.{access-is_hit, Request, access_all, Ends, access-retained}
use ternary_geo_bp.Cache.Init.{init-IsValid}
use ternary_geo_bp.Cache.Latency.{access-late}

abbrev log2 : ℕ → ℕ
log2 n = if n == 2 then 1 else 2

abbrev old_block : ℕ → Block
old_block way = record { valid = false; tag = 7; timestamp = 9; lru = way }

abbrev small : Cache
small = record {
  sets = (old_block 0 ∷ old_block 1 ∷ []) ∷ (old_block 0 ∷ old_block 1 ∷ []) ∷ [];
  num_index_bits = 1;
  num_offset_bits = 2;
  index_mask = 1;
  assoc = 2;
  latency = 3;
  accesses = 0;
  pf_accesses = 0;
  misses = 0;
  pf_misses = 0;
}

-- After a miss on address 8, at cycle 10.
abbrev after : Cache
after = record small {
  sets =
      (record { valid = false; tag = 7; timestamp = 9; lru = 1 }
        ∷ record { valid = true; tag = 1; timestamp = 113; lru = 0 }
        ∷ [])
      ∷ (old_block 0 ∷ old_block 1 ∷ [])
      ∷ [];
  accesses = 1;
  misses = 1;
}

small-init : init log2 16 2 4 3 7 9 0 0 ≡ done small
unfolding init is_pow2 make fresh_set
small-init = refl

small-IsValid : IsValid small
small-IsValid =
    init-IsValid log2 16 2 4 3 7 9 0 0 small (omega arith) (omega arith) (omega arith) (omega arith)
      small-init

-- A set of eight ways and no cache of half a block.
init_limits : (is_pow2 8 ≡ true) × (is_pow2 6 ≡ false) × (is_pow2 0 ≡ true)
unfolding is_pow2
init_limits = (refl, refl, refl)

-- A miss takes 3 cycles here and 100 in main memory.
first_miss : access 100 (small ∷ []) 10 true 8 false ≡ done (113, after ∷ [])
unfolding access search update_lru age_below count_access count_miss victim make fresh_set
first_miss = refl

-- An access during the miss waits for the block.
second_hit : (cs : List Cache) × (access 100 (after ∷ []) 11 true 8 false ≡ done (113, cs))
unfolding access search update_lru age_below count_access count_miss victim make fresh_set
second_hit = (_, refl)

-- The prefetcher's counters are others.
prefetch_counted :
    count_miss (count_access small true) true ≡ record small { pf_accesses = 1; pf_misses = 1 }
unfolding count_access count_miss make fresh_set
prefetch_counted = refl

access-Accessed_example : Accessed 100 small [] 10 true 8 false
access-Accessed_example = access-Accessed 100 small [] 10 true 8 false (small-IsValid, tt)

access-is_hit_example : is_hit after 113 8 ≡ true
access-is_hit_example =
    access-is_hit 100 small after [] [] 10 true 8 false 113 113 (small-IsValid, tt) first_miss
      (omega arith) (omega arith)

abbrev read_8 : Request
read_8 = record { cycle = 10; read = true; addr = 8; pf = false }

abbrev read_16 : Request
read_16 = record { cycle = 20; read = false; addr = 16; pf = false }

access-retained_example : Ends (access_all 100 (read_8 ∷ read_16 ∷ []) (small ∷ [])) 8
access-retained_example =
    access-retained 100 read_8 (read_16 ∷ []) small [] (small-IsValid, tt) (omega arith)

access-late_example : 10 + 3 ≤ 113
access-late_example =
    access-late 100 (small ∷ []) 10 true 8 false 113 (after ∷ []) (small-IsValid, tt) (omega arith)
      first_miss
