-- ===== src/Tage/Allocate/Ends.antt =====
-- The loop that allocates entries (`update`, cbp2016_tage_sc_l.h).
use native.Mathlib.Nat.{le_refl}
use ternary_geo_bp.Base.{
  ℕ, zero, suc, ◌+◌, ◌*◌, ◌≤◌, ◌<◌, ◌≡◌, ◌^^^◌, refl, ◌⊎◌, inl, inr, Bool, arith, ltb, ◌==◌,
  Bool-cases, ltb→lt, done,
}
use ternary_geo_bp.Tage.{History, Lookup, Tables, nhist}
use ternary_geo_bp.Tage.Random.{myrandom}
use ternary_geo_bp.Tage.Allocate.{
  Attempt, nothing, allocated, penalty, Progress, Next, leave, go_on, skip, try_bank, settle, round,
  allocate_from, first_bank, tick_over, allocate,
}

-- The allocations that have been made and those that may follow are at most `n`.
abbrev Left : ℕ → Next → Type 0
Left n (leave p) = p.na ≤ n
Left n (go_on p) = p.na + p.t + 1 ≤ n
Left n (skip p) = p.na + p.t + 1 ≤ n

settle-Left :
    (n : ℕ) (p : Progress) (r : Tables × Attempt) (otherwise : Progress → Next)
    → p.na + p.t + 1 ≤ n
    → ((q : Progress) → q.na + q.t + 1 ≤ n → Left n (otherwise q))
    → Left n (settle p r otherwise)
unfolding settle
settle-Left n p (tables, nothing) otherwise h k = k _ h
settle-Left n p (tables, penalty) otherwise h k = k _ h
settle-Left n p (tables, allocated) otherwise h k = elim (Bool-cases (p.t == 0)) [
  | inl last ↦ rw last (omega arith)
  | inr more ↦ rw more (ground arith)
]

round-Left :
    (n : ℕ) (s : Lookup) (dir : Bool) (p : Progress) (i : ℕ)
    → p.na + p.t + 1 ≤ n
    → Left n (round s dir p i)
unfolding round
round-Left n s dir p i h =
    settle-Left n p (try_bank s dir p.tables (i + 1)) _ h
      λ q k. settle-Left n q (try_bank s dir q.tables ((i ^^^ 1) + 1)) go_on k λ r e. e

pub Next-cases :
    (x : Next)
    → ((q : Progress) × (x ≡ leave q))
      ⊎ (((q : Progress) × (x ≡ go_on q)) ⊎ ((q : Progress) × (x ≡ skip q)))
Next-cases (leave q) = inl (q, refl)
Next-cases (go_on q) = inr (inl (q, refl))
Next-cases (skip q) = inr (inr (q, refl))

allocate_from-done :
    (n : ℕ) (s : Lookup) (dir : Bool) (fuel : ℕ) (p : Progress) (i : ℕ)
    → 0 < fuel
    → nhist + 1 < i + 2 * fuel
    → p.na + p.t + 1 ≤ n
    → (q : Progress) × (allocate_from s dir fuel p i ≡ done q) × (q.na ≤ n)
unfolding allocate_from
allocate_from-done n s dir zero p i some_fuel enough h = absurd (omega arith)
allocate_from-done n s dir (suc fuel) p i some_fuel enough h = elim (Bool-cases (ltb i nhist)) [
  | inr over ↦ rw (over, allocate_from) (p, refl, omega arith)
  | inl inside ↦
      let below = ltb→lt i nhist inside in
      let left : Left n (round s dir p i) = round-Left n s dir p i h in
      elim (Next-cases (round s dir p i)) [
        | inl (q, e) ↦ rw (inside, e, allocate_from) (q, refl, (rw e at left))
        | inr (inl (q, e)) ↦
            rw (inside, e, allocate_from)
              (allocate_from-done n s dir fuel q (i + 2) (omega arith) (omega arith) (rw e at left))
        | inr (inr (q, e)) ↦
            rw (inside, e, allocate_from)
              (allocate_from-done n s dir fuel q (i + 4) (omega arith) (omega arith) (rw e at left))
      ]
]

-- With 19 rounds of fuel, for half of the 36 banks and one more, the allocation always ends.
pub allocate-done :
    (fuel : ℕ) (s : Lookup) (dir : Bool) (h : History) (t : Tables)
    → 19 ≤ fuel
    → (t' : Tables) × (allocate fuel s dir h t ≡ done t')
unfolding allocate
allocate-done fuel s dir h t enough =
    let random1 = myrandom t.seed h.phist h.ptghist in
    let random2 = myrandom random1 h.phist h.ptghist in
    let (q, e, few) =
      allocate_from-done 2 s dir fuel
        (record { tables = record t { seed = random2 }; t = 1; na = 0; penalty = 0 })
        (first_bank s.hit_bank random1 random2) (omega arith) (omega arith) (omega arith) in
    (tick_over q, rw e refl)

-- The loop that allocates ends with enough fuel, from whatever bank it starts, and takes at most T + 1
-- entries more: the two that a misprediction may take, when T is 1 at the start.
pub allocate_from-na :
    (s : Lookup) (dir : Bool) (fuel : ℕ) (p : Progress) (i : ℕ)
    → 0 < fuel
    → nhist + 1 < i + 2 * fuel
    → (q : Progress) × (allocate_from s dir fuel p i ≡ done q) × (q.na ≤ p.na + p.t + 1)
allocate_from-na s dir fuel p i some_fuel enough =
    allocate_from-done (p.na + p.t + 1) s dir fuel p i some_fuel enough (le_refl _)
