-- ===== src/Tage/Loop.antt =====
-- The loop predictor (cbp2016_tage_sc_l.h): `getloop` finds the entry of a branch that ends a loop and
-- predicts its exit from the number of iterations; `loopupdate` counts them.
pub mod Entries
use ternary_geo_bp.Base.{
  ℕ, zero, suc, ◌+◌, ◌-◌, ◌*◌, ◌/◌, ◌%◌, ◌^◌, ◌≡◌, Bool, true, false, not, ◌&&◌, ◌||◌, Option, none,
  some, List, ltb, leb, ◌==◌, if◌then◌else◌, get_or, set, u16, ◌<<<◌, ◌>>>◌, ◌&&&◌, ◌^^^◌, low_mask,
  xor,
}
use ternary_geo_bp.Tage.{LoopEntry, Lookup, no_loop, logl, looptag, widthnbiterloop, confloop}
use ternary_geo_bp.Tage.Random.{myrandom}

-- `lindex`
unfoldable pub lindex : ℕ → ℕ
lindex pc = ((pc ^^^ (pc >>> 2)) &&& low_mask (logl - 2)) <<< 2

-- The index of way `i`.
abbrev pub way_index : ℕ → ℕ → ℕ → ℕ
way_index li lib i = (li ^^^ ((lib >>> i) <<< 2)) + i

-- LIB and LTAG
abbrev pub loop_bank : ℕ → ℕ
loop_bank pc = (pc >>> (logl - 2)) &&& low_mask (logl - 2)

unfoldable pub loop_tag : ℕ → ℕ
loop_tag pc =
    let tag = (pc >>> (logl - 2)) &&& low_mask (2 * looptag) in
    (tag ^^^ (tag >>> looptag)) &&& low_mask looptag

-- What the loop of `getloop` does with an entry that it hits.
unfoldable pub found_loop : LoopEntry → ℕ → Lookup → Bool × Lookup
found_loop e i s = (
  (if e.current_iter + 1 == e.nb_iter then not e.dir else e.dir),
  record s { lhit = some i; lvalid = (e.confid == confloop) || ltb 128 (e.confid * e.nb_iter) },
)

-- The loop of `getloop` over `n` ways from `i` on.
unfoldable pub find_loop : List LoopEntry → ℕ → ℕ → Lookup → Bool × Lookup
find_loop ltable zero i s = (false, record s { lvalid = false })
find_loop ltable (suc n) i s =
    let e = get_or ltable (way_index s.li s.lib i) no_loop in
    let rest = find_loop ltable n (i + 1) s in if e.tag == s.ltag then found_loop e i s else rest

-- `getloop`
unfoldable pub getloop : List LoopEntry → ℕ → Lookup → Bool × Lookup
getloop ltable pc s =
    find_loop ltable 4 0
      (record s { lhit = none; li = lindex pc; lib = loop_bank pc; ltag = loop_tag pc })

-- An entry that is freed.
abbrev pub freed : LoopEntry → LoopEntry
freed e = record e { nb_iter = 0; age = 0; confid = 0; current_iter = 0 }

abbrev pub older : LoopEntry → LoopEntry
older e = if ltb e.age confloop then record e { age = e.age + 1 } else e

-- One iteration more, and the end of the count where it passes the last one.
unfoldable pub iterate : LoopEntry → LoopEntry
iterate e =
    let n = u16 (e.current_iter + 1) &&& low_mask widthnbiterloop in
    if ltb e.nb_iter n
    then record e { current_iter = n; confid = 0; nb_iter = 0 }
    else record e { current_iter = n }

-- The exit of the loop after as many iterations as before.
unfoldable pub confirm : LoopEntry → Bool → LoopEntry
confirm e taken =
    let confid = if ltb e.confid confloop then e.confid + 1 else e.confid in
    if ltb e.nb_iter 3
    then record e { dir = taken; nb_iter = 0; age = 0; confid = 0 }
    else record e { confid = confid }

-- The exit after another number of iterations.
unfoldable pub relearn : LoopEntry → LoopEntry
relearn e =
    if e.nb_iter == 0
    then record e { confid = 0; nb_iter = e.current_iter }
    else record e { nb_iter = 0; confid = 0 }

-- What `loopupdate` does to an entry that is hit, after the part on its age.
unfoldable pub learn_loop : LoopEntry → Bool → LoopEntry
learn_loop e taken =
    let e' = iterate e in
    if xor taken e'.dir
    then record (if e'.current_iter == e'.nb_iter then confirm e' taken else relearn e') {
      current_iter = 0;
    }
    else e'

-- `loopupdate` on the entry that is hit, and the seed afterwards. `random` is the seed that MYRANDOM
-- would leave.
unfoldable pub update_hit : Lookup → ℕ → ℕ → LoopEntry → Bool → LoopEntry × ℕ
update_hit s seed random e taken =
    if s.lvalid
    then (if xor taken s.predloop
        then (freed e, seed)
        else if xor s.predloop s.tage_pred
        then (learn_loop (older e) taken, seed)
        else (learn_loop (if random % 8 == 0 then older e else e) taken, random))
    else (learn_loop e taken, seed)

-- The entry of a new loop, or an entry that is older by one.
unfoldable pub claim_loop : Lookup → LoopEntry → Bool → LoopEntry
claim_loop s e taken =
    if e.age == 0
    then record {
      dir = not taken;
      tag = s.ltag;
      nb_iter = 0;
      age = 7;
      confid = 0;
      current_iter = 0;
    }
    else record e { age = e.age - 1 }

-- `loopupdate`: the table and the seed afterwards. The loop of an allocation always stops after its
-- first way.
unfoldable pub loopupdate : Lookup → ℕ → ℕ → ℕ → Bool → Bool → List LoopEntry → List LoopEntry × ℕ
loopupdate s phist ptghist seed taken alloc ltable =
    let seed1 = myrandom seed phist ptghist in
    let seed2 = myrandom seed1 phist ptghist in
    elim s.lhit [
      | some way ↦
          let index = way_index s.li s.lib way in
          let (e, seed') = update_hit s seed seed1 (get_or ltable index no_loop) taken in
          (set ltable index e, seed')
      | none ↦
          if alloc
          then (let index = way_index s.li s.lib (seed1 % 4) in
              if seed2 % 4 == 0
              then (set ltable index (claim_loop s (get_or ltable index no_loop) taken), seed2)
              else (ltable, seed2))
          else (ltable, seed)
    ]
