-- ===== src/Tage/Allocate.antt =====
-- The allocation of entries after a misprediction (`update`, cbp2016_tage_sc_l.h).
pub mod Ends
use ternary_geo_bp.Base.{
  ℕ, zero, suc, ◌+◌, ◌-◌, ◌*◌, ◌/◌, ◌%◌, ◌^◌, ◌≡◌, Bool, true, false, not, ◌&&◌, ◌||◌, List, map,
  ltb, leb, ◌==◌, if◌then◌else◌, get_or, ◌&&&◌, ◌^^^◌, Run, done, out_of_fuel, ◌>>=◌,
}
use ternary_geo_bp.Base.Int.{ℤ, pos, negsuc, ◌+ℤ◌, ◌-ℤ◌, nonneg, leb_ℤ, ltb_ℤ}
use ternary_geo_bp.Tage.{
  History, Lookup, Tables, TaggedEntry, bank_entry, put_entry, noskip, nhist, nnn, borntick,
}
use ternary_geo_bp.Tage.Match.{strength}
use ternary_geo_bp.Tage.Random.{myrandom}

-- What one bank does for an allocation.
pub data Attempt : Type 0 where
  nothing allocated penalty : Attempt

-- if (ctr > 0) ctr--; else ctr++;
abbrev pub decayed : TaggedEntry → TaggedEntry
decayed e = record e { ctr = (if ltb_ℤ (pos 0) e.ctr then e.ctr -ℤ pos 1 else e.ctr +ℤ pos 1) }

-- The body of the loop for bank `i`.
unfoldable pub try_bank : Lookup → Bool → Tables → ℕ → Tables × Attempt
try_bank s resolve_dir t i =
    let e = bank_entry t s.gi i in
    if noskip i
    then (if e.u == 0
        then (if leb (strength e) 3
            then (
              put_entry t s.gi i (record e {
                tag = get_or s.gtag i 0;
                ctr = (if resolve_dir then pos 0 else negsuc 0);
              }),
              allocated,
            )
            else (put_entry t s.gi i (decayed e), nothing))
        else (t, penalty))
    else (t, nothing)

-- The variables of the loop: the tables, T, NA and Penalty.
pub record Progress : Type 0 where
  pub tables : Tables
  pub t : ℕ
  pub na : ℕ
  pub penalty : ℕ

-- What the loop does next: it is left, it goes on two banks further, or it goes on after an
-- allocation, four banks further.
pub data Next : Type 0 where
  leave go_on skip : Progress → Next

-- An attempt, and what follows it; `otherwise` is what follows where nothing has been allocated.
unfoldable pub settle : Progress → Tables × Attempt → (Progress → Next) → Next
settle p (tables, allocated) otherwise =
    let p' = record p { tables = tables; na = p.na + 1 } in
    if p.t == 0 then leave p' else skip (record p' { t = p.t - 1 })
settle p (tables, nothing) otherwise = otherwise (record p { tables = tables })
settle p (tables, penalty) otherwise =
    otherwise (record p { tables = tables; penalty = p.penalty + 1 })

-- One round of the loop, at the banks `i + 1` and `(i ^ 1) + 1`.
unfoldable pub round : Lookup → Bool → Progress → ℕ → Next
round s resolve_dir p i =
    settle p (try_bank s resolve_dir p.tables (i + 1))
      λ q. settle q (try_bank s resolve_dir q.tables ((i ^^^ 1) + 1)) go_on

-- The loop from `i` on.
unfoldable pub allocate_from : Lookup → Bool → ℕ → Progress → ℕ → Run Progress
allocate_from s resolve_dir zero p i = out_of_fuel
allocate_from s resolve_dir (suc fuel) p i = elim (ltb i nhist) [
  | false ↦ done p
  | true ↦ elim (round s resolve_dir p i) [
    | leave q ↦ done q
    | go_on q ↦ allocate_from s resolve_dir fuel q (i + 2)
    | skip q ↦ allocate_from s resolve_dir fuel q (i + 4)
  ]
]

-- DEP, by the two random numbers.
unfoldable pub first_bank : ℕ → ℕ → ℕ → ℕ
first_bank hit_bank random1 random2 =
    let a = if ltb (random1 % 128) 32 then 2 else 1 in
    ((hit_bank + 2 * a - 1) &&& 0xffe) ^^^ (random2 % 2)

-- u >>= 1
abbrev pub halved_u : TaggedEntry → TaggedEntry
halved_u e = record e { u = e.u / 2 }

-- TICK after an allocation, and the usefulness counters, which are halved when it is full.
unfoldable pub tick_over : Progress → Tables
tick_over p =
    let t = p.tables in
    let tick = t.tick +ℤ pos p.penalty -ℤ pos (2 * p.na) in
    if not (nonneg tick)
    then record t { tick = pos 0 }
    else if leb_ℤ (pos borntick) tick
    then record t { low = map halved_u t.low; high = map halved_u t.high; tick = pos 0 }
    else record t { tick = tick }

-- The allocation. Two more random numbers are drawn.
unfoldable pub allocate : ℕ → Lookup → Bool → History → Tables → Run Tables
allocate fuel s resolve_dir h t =
    let random1 = myrandom t.seed h.phist h.ptghist in
    let random2 = myrandom random1 h.phist h.ptghist in
    do
      p ←
          allocate_from s resolve_dir fuel
            (record { tables = record t { seed = random2 }; t = nnn; na = 0; penalty = 0 })
            (first_bank s.hit_bank random1 random2)
      done (tick_over p)
