-- ===== src/Tage/Loop/Entries.antt =====
-- The entries of the loop predictor (cbp2016_tage_sc_l.h): their places and the widths of their fields.
use native.Mathlib.Nat.{mod-lt, div-le_self}
use ternary_geo_bp.Base.{
  ℕ, zero, suc, ◌+◌, ◌*◌, ◌/◌, ◌%◌, ◌^◌, ◌≤◌, ◌<◌, ◌≡◌, inl, inr, Bool, true, false, List, [], ◌∷◌,
  arith, ltb, ◌==◌, if◌then◌else◌, get_or, set, Bool-cases, ◌>>>◌, ◌&&&◌, ◌^^^◌, low_mask, bit_and,
  bit_xor, u16, xor, Option-cases, ap₂, length, length-set, refl,
}
use ternary_geo_bp.Base.Bits.{bit_and-low_mask, bit_xor_step, bit_xor-lt}
use ternary_geo_bp.Tage.{LoopEntry, Lookup, no_loop, confloop}
use ternary_geo_bp.Tage.Random.{myrandom}
use ternary_geo_bp.Tage.Loop.{
  lindex, loop_bank, way_index, iterate, confirm, relearn, learn_loop, older, freed, update_hit,
  claim_loop, loopupdate,
}

-- The fields of an entry fit their widths: 10 bits for the iterations and the tag, 4 bits for the
-- confidence and the age.
pub record IsEntry (e : LoopEntry) : Type 0 where
  pub nb_iter : e.nb_iter < 1024
  pub confid : e.confid ≤ confloop
  pub current_iter : e.current_iter < 1024
  pub tag : e.tag < 1024
  pub age : e.age ≤ confloop

abbrev pub AllEntries : List LoopEntry → Type 0
AllEntries [] = Unit
AllEntries (e ∷ es) = IsEntry e × AllEntries es

set-AllEntries :
    (es : List LoopEntry) (i : ℕ) (e : LoopEntry)
    → IsEntry e
    → AllEntries es
    → AllEntries (set es i e)
set-AllEntries [] i e v a = tt
set-AllEntries (x ∷ es) zero e v (vx, a) = (v, a)
set-AllEntries (x ∷ es) (suc i) e v (vx, a) = (vx, set-AllEntries es i e v a)

get_or-IsEntry : (es : List LoopEntry) (i : ℕ) → AllEntries es → IsEntry (get_or es i no_loop)
get_or-IsEntry [] i a = record {
  nb_iter = omega arith;
  confid = omega arith;
  current_iter = omega arith;
  tag = omega arith;
  age = omega arith;
}
get_or-IsEntry (x ∷ es) zero (v, a) = v
get_or-IsEntry (x ∷ es) (suc i) (v, a) = get_or-IsEntry es i a

iterate-IsEntry : (e : LoopEntry) → IsEntry e → IsEntry (iterate e)
unfolding iterate
iterate-IsEntry e v =
    let small : (u16 (e.current_iter + 1) &&& low_mask 10) < 1024 =
      rw (bit_and-low_mask 10 (u16 (e.current_iter + 1))) (omega arith) in
    elim (Bool-cases (ltb e.nb_iter (u16 (e.current_iter + 1) &&& low_mask 10))) [
      | inl over ↦ rw over (record {
        nb_iter = omega arith;
        confid = omega arith;
        current_iter = small;
        tag = v.tag;
        age = v.age;
      })
      | inr on ↦ rw on (record {
        nb_iter = v.nb_iter;
        confid = v.confid;
        current_iter = small;
        tag = v.tag;
        age = v.age;
      })
    ]

confirm-IsEntry : (e : LoopEntry) (taken : Bool) → IsEntry e → IsEntry (confirm e taken)
unfolding confirm
confirm-IsEntry e taken v = ground (arith, v.nb_iter, v.confid, v.current_iter, v.tag, v.age)

relearn-IsEntry : (e : LoopEntry) → IsEntry e → IsEntry (relearn e)
unfolding relearn
relearn-IsEntry e v = ground (arith, v.nb_iter, v.confid, v.current_iter, v.tag, v.age)

learn_loop-IsEntry : (e : LoopEntry) (taken : Bool) → IsEntry e → IsEntry (learn_loop e taken)
unfolding learn_loop
learn_loop-IsEntry e taken v =
    let v' = iterate-IsEntry e v in
    let c = confirm-IsEntry (iterate e) taken v' in
    let r = relearn-IsEntry (iterate e) v' in
    elim (Bool-cases (xor taken (iterate e).dir)) [
      | inr inside ↦ rw inside v'
      | inl exit ↦ elim (Bool-cases ((iterate e).current_iter == (iterate e).nb_iter)) [
        | inl agrees ↦
            rw (exit, agrees)
              (record {
                nb_iter = c.nb_iter;
                confid = c.confid;
                current_iter = omega arith;
                tag = c.tag;
                age = c.age;
              })
        | inr differs ↦
            rw (exit, differs)
              (record {
                nb_iter = r.nb_iter;
                confid = r.confid;
                current_iter = omega arith;
                tag = r.tag;
                age = r.age;
              })
      ]
    ]

older-IsEntry : (e : LoopEntry) → IsEntry e → IsEntry (older e)
older-IsEntry e v = ground (arith, v.nb_iter, v.confid, v.current_iter, v.tag, v.age)

freed-IsEntry : (e : LoopEntry) → IsEntry e → IsEntry (freed e)
freed-IsEntry e v = ground (arith, v.nb_iter, v.confid, v.current_iter, v.tag, v.age)

if-IsEntry : (b : Bool) (x y : LoopEntry) → IsEntry x → IsEntry y → IsEntry (if b then x else y)
if-IsEntry true x y vx vy = vx
if-IsEntry false x y vx vy = vy

update_hit-IsEntry :
    (s : Lookup) (seed random : ℕ) (e : LoopEntry) (taken : Bool)
    → IsEntry e
    → IsEntry (update_hit s seed random e taken).0
unfolding update_hit
update_hit-IsEntry s seed random e taken v = elim (Bool-cases s.lvalid) [
  | inr invalid ↦ rw invalid (learn_loop-IsEntry e taken v)
  | inl valid ↦ elim (Bool-cases (xor taken s.predloop)) [
    | inl wrong ↦ rw (valid, wrong) (freed-IsEntry e v)
    | inr right ↦ elim (Bool-cases (xor s.predloop s.tage_pred)) [
      | inl useful ↦
          rw (valid, right, useful) (learn_loop-IsEntry (older e) taken (older-IsEntry e v))
      | inr agrees ↦
          rw (valid, right, agrees)
            (learn_loop-IsEntry _ taken
              (if-IsEntry (random % 8 == 0) (older e) e (older-IsEntry e v) v))
    ]
  ]
]

claim_loop-IsEntry :
    (s : Lookup) (e : LoopEntry) (taken : Bool)
    → s.ltag < 1024
    → IsEntry e
    → IsEntry (claim_loop s e taken)
unfolding claim_loop
claim_loop-IsEntry s e taken small v =
    ground (arith, v.nb_iter, v.confid, v.current_iter, v.tag, v.age)

-- `loopupdate` keeps every field of every entry of the loop table in its width: iteration counts and
-- tags below 1024, confidence and age at most 15.
pub loopupdate-AllEntries :
    (s : Lookup) (phist ptghist seed : ℕ) (taken alloc : Bool) (ltable : List LoopEntry)
    → s.ltag < 1024
    → AllEntries ltable
    → AllEntries (loopupdate s phist ptghist seed taken alloc ltable).0
unfolding loopupdate
loopupdate-AllEntries s phist ptghist seed taken alloc ltable small a = elim (Option-cases s.lhit) [
  | inr (way, hit) ↦
      let index = way_index s.li s.lib way in
      rw (hit, loopupdate)
        (set-AllEntries ltable index _
          (update_hit-IsEntry s seed seed1 (get_or ltable index no_loop) taken
            (get_or-IsEntry ltable index a))
          a)
  | inl missed ↦
      let index = way_index s.li s.lib (seed1 % 4) in
      elim (Bool-cases alloc) [
        | inr keep ↦ rw (missed, keep, loopupdate) a
        | inl wants ↦ elim (Bool-cases (seed2 % 4 == 0)) [
          | inl claims ↦
              rw (missed, wants, claims, loopupdate)
                (set-AllEntries ltable index _
                  (claim_loop-IsEntry s (get_or ltable index no_loop) taken small
                    (get_or-IsEntry ltable index a))
                  a)
          | inr not_now ↦ rw (missed, wants, not_now, loopupdate) a
        ]
      ]
]
  where
    seed1 : ℕ
    seed1 = myrandom seed phist ptghist

    seed2 : ℕ
    seed2 = myrandom seed1 phist ptghist

-- `loopupdate` keeps the size of the table.
pub length-loopupdate :
    (s : Lookup) (phist ptghist seed : ℕ) (taken alloc : Bool) (ltable : List LoopEntry)
    → length (loopupdate s phist ptghist seed taken alloc ltable).0 ≡ length ltable
unfolding loopupdate
length-loopupdate s phist ptghist seed taken alloc ltable = elim (Option-cases s.lhit) [
  | inr (way, hit) ↦ rw (hit, loopupdate) (length-set ltable (way_index s.li s.lib way) _)
  | inl missed ↦ elim (Bool-cases alloc) [
    | inr keep ↦ rw (missed, keep, loopupdate) refl
    | inl wants ↦
        elim (Bool-cases (myrandom (myrandom seed phist ptghist) phist ptghist % 4 == 0)) [
          | inl claims ↦
              rw (missed, wants, claims, loopupdate)
                (length-set ltable (way_index s.li s.lib (myrandom seed phist ptghist % 4)) _)
          | inr not_now ↦ rw (missed, wants, not_now, loopupdate) refl
        ]
  ]
]

xor_four : (a b : ℕ) → bit_xor (a * 4) (b * 4) ≡ bit_xor a b * 4
xor_four a b =
    let e1 : a * 4 / 2 ≡ a * 2 = omega arith in
    let e2 : b * 4 / 2 ≡ b * 2 = omega arith in
    let e3 : a * 2 / 2 ≡ a = omega arith in
    let e4 : b * 2 / 2 ≡ b = omega arith in
    omega (
      arith,
      bit_xor_step (a * 4) (b * 4),
      ap₂ bit_xor e1 e2,
      bit_xor_step (a * 2) (b * 2),
      ap₂ bit_xor e3 e4,
    )

-- The four ways that `getloop` looks at, and that `loopupdate` writes, are inside the table of 32
-- entries, whatever the address.
pub way_index-lt : (pc i : ℕ) → i < 4 → way_index (lindex pc) (loop_bank pc) i < 32
unfolding lindex
way_index-lt pc i small =
    let row : ℕ = bit_and (pc ^^^ (pc >>> 2)) 7 in
    let col : ℕ = loop_bank pc >>> i in
    let row_lt : row < 8 = rw (bit_and-low_mask 3 (pc ^^^ (pc >>> 2))) (mod-lt _ (omega arith)) in
    let bank_lt : loop_bank pc < 8 = rw (bit_and-low_mask 3 (pc >>> 3)) (mod-lt _ (omega arith)) in
    let col_lt : col < 8 = omega (arith, bank_lt, div-le_self (loop_bank pc) (2 ^ i)) in
    omega (arith, xor_four row col, bit_xor-lt 3 row col row_lt col_lt)
