-- ===== src/Cache/Latency.antt =====
-- The time that an access takes (lib/cache.cc).
use ternary_geo_bp.Base.{
  ℕ, ◌+◌, ◌^◌, ◌≤◌, ◌<◌, ◌≡◌, inl, inr, Bool, List, [], ◌∷◌, arith, done, u64,
}
use ternary_geo_bp.Cache.{Cache, access}
use ternary_geo_bp.Cache.Served.{AllValid}
use ternary_geo_bp.Cache.Access.{access-Accessed, Accessed}

-- The latencies of the levels and of main memory, together.
abbrev pub all_latencies : ℕ → List Cache → ℕ
all_latencies memory [] = memory
all_latencies memory (c ∷ cs) = c.latency + all_latencies memory cs

-- What the first level alone takes.
abbrev pub first_latency : ℕ → List Cache → ℕ
first_latency memory [] = memory
first_latency memory (c ∷ cs) = c.latency

-- A block is never available before the first level has been searched: where the cycle counter
-- does not wrap, an access returns the cycle of the call plus that latency at the least.
pub access-late :
    (memory : ℕ) (cs : List Cache) (cycle : ℕ) (read : Bool) (addr : ℕ) (pf : Bool) (avail : ℕ)
    (cs' : List Cache)
    → AllValid cs
    → cycle + all_latencies memory cs < 2 ^ 64
    → access memory cs cycle read addr pf ≡ done (avail, cs')
    → cycle + first_latency memory cs ≤ avail
access-late memory [] cycle read addr pf avail cs' v no_wrap e = unfold access in ground arith
access-late memory (c ∷ next) cycle read addr pf avail cs' (v, vs) no_wrap e =
    rw at_first (elim a.supplied [
      | inl (own, _) ↦ ground arith
      | inr below ↦ omega (
        arith,
        access-late memory next (u64 (cycle + c.latency)) read addr pf a.avail a.next' vs
            (omega arith) below,
      )
    ])
  where
    a : Accessed memory c next cycle read addr pf
    a = access-Accessed memory c next cycle read addr pf (v, vs)

    at_first : avail ≡ a.avail
    at_first = cc (e, a.returns)
