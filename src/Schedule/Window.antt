-- ===== src/Schedule/Window.antt =====
-- What the operations of a schedule (lib/resource_schedule.cc) keep of its counts, and the move of
-- its base.
use mathlib.Core.Path.{subst}
use native.Mathlib.Nat.{add-mod_right}
use native.Mathlib.Decide.{dec_lt, ℕ_discrete}
use ternary_geo_bp.Base.{
  ℕ, zero, suc, ◌+◌, ◌-◌, ◌%◌, ◌^◌, ◌≤◌, ◌<◌, ◌≡◌, inl, inr, refl, sym, ◌∙◌, ap, List, ◌++◌, arith,
  ltb, leb, if◌then◌else◌, length, get_or, set, replicate, u64, sub64, max_cycle, Run, done, assert,
  Bool-cases, ltb→lt, le→leb, >>=-eq-done, get_or-append, get_or-append_right, get_or-replicate,
  get_or-past, get_or-set_self, get_or-set_ne, length-set,
}
use ternary_geo_bp.Schedule.{
  Schedule, slot, put, mod_s, resize, grow, round_up, schedule_from, schedule, clear_from,
  advance_base_cycle,
}
use ternary_geo_bp.Schedule.Slots.{
  HasWindow, put-HasWindow, slot-put_self, slot-put_ne, mod_s-eq-mod,
}

done-injective :
    {c c' : ℕ} {s s' : Schedule}
    → ◌≡◌ {A = Run (ℕ × Schedule)} (done (c, s)) (done (c', s'))
    → s ≡ s'
done-injective e = cc

-- No slot counts more operations than the resource has lanes.
pub record IsBounded (width : ℕ) (s : Schedule) : Type 0 where
  pub same_width : s.width ≡ width
  pub bounded : (i : ℕ) → get_or s.sched i 0 ≤ width

get_or-set-le :
    (xs : List ℕ) (i j n w : ℕ)
    → n ≤ w
    → ((k : ℕ) → get_or xs k 0 ≤ w)
    → get_or (set xs i n) j 0 ≤ w
get_or-set-le xs i j n w small all = elim (ℕ_discrete i j) [
  | no ne ↦ rw (get_or-set_ne xs i j n 0 ne) (all j)
  | yes e ↦ elim (dec_lt i (length xs)) [
    | yes inside ↦ rw (← e, get_or-set_self xs i n 0 inside) small
    | no outside ↦ omega (arith, get_or-past (set xs i n) j 0 (omega (arith, length-set xs i n)))
  ]
]

grown-le :
    (xs : List ℕ) (m j w : ℕ) → ((k : ℕ) → get_or xs k 0 ≤ w) → get_or (xs ++ replicate m 0) j 0 ≤ w
grown-le xs m j w all = elim (dec_lt j (length xs)) [
  | yes old ↦ rw (get_or-append xs (replicate m 0) j 0 old) (all j)
  | no new ↦ omega (
    arith,
    get_or-append_right xs (replicate m 0) j 0 (omega arith),
    get_or-replicate {A = ℕ} m (j - length xs) 0,
  )
]

grow-IsBounded :
    (w : ℕ) (s s' : Schedule) (x : ℕ) → grow s x ≡ done s' → IsBounded w s → IsBounded w s'
unfolding grow resize
grow-IsBounded w s s' x e b = record {
  same_width = ground arith;
  bounded = λ i. ground (arith, b.bounded i, grown-le s.sched (room - s.depth) i w b.bounded);
}
  where
    room : ℕ
    room = round_up (u64 (sub64 x s.base_cycle + 1))

schedule_from-IsBounded :
    (w fuel : ℕ) (s s' : Schedule) (x limit c : ℕ)
    → w < 2 ^ 64
    → schedule_from fuel s x limit ≡ done (c, s')
    → IsBounded w s
    → IsBounded w s'
unfolding schedule_from
schedule_from-IsBounded w zero s s' x limit c fits e b = cc
schedule_from-IsBounded w (suc fuel) s s' x limit c fits e b =
    let (s1, grown, rest) = >>=-eq-done (grow s x) _ e in
    booked s1 (grow-IsBounded w s s1 x grown b) rest
      (schedule_from-IsBounded w fuel s1 s' (u64 (x + 1)) limit c fits)
  where
    booked :
        (s1 : Schedule)
        → IsBounded w s1
        → (if ltb (slot s1 x) s1.width
            then done (x, put s1 x (u64 (slot s1 x + 1)))
            else if ltb limit (u64 (x + 1))
            then done (max_cycle, s1)
            else schedule_from fuel s1 (u64 (x + 1)) limit)
          ≡ done (c, s')
        → (schedule_from fuel s1 (u64 (x + 1)) limit ≡ done (c, s')
            → IsBounded w s1
            → IsBounded w s')
        → IsBounded w s'
    booked s1 b1 e1 later = elim (Bool-cases (ltb (slot s1 x) s1.width)) [
      | inl free ↦ subst (IsBounded w) (done-injective (rw free at e1)) (record {
        same_width = b1.same_width;
        bounded = λ i.
            get_or-set-le s1.sched (mod_s x s1.depth) i (u64 (slot s1 x + 1)) w
              (omega (arith, ltb→lt (slot s1 x) s1.width free, b1.same_width)) b1.bounded;
      })
      | inr full ↦ elim (Bool-cases (ltb limit (u64 (x + 1)))) [
        | inl over ↦ subst (IsBounded w) (done-injective (rw (full, over) at e1)) b1
        | inr more ↦ later (rw (full, more) at e1) b1
      ]
    ]

-- Where no slot counts more operations than the resource has lanes (fewer than 2 ^ 64 of them), none
-- does after `schedule` has returned, whatever it books and however the array grows.
pub schedule-IsBounded :
    (w fuel : ℕ) (s s' : Schedule) (start max_delta c : ℕ)
    → w < 2 ^ 64
    → schedule fuel s start max_delta ≡ done (c, s')
    → IsBounded w s
    → IsBounded w s'
unfolding schedule
schedule-IsBounded w fuel s s' start max_delta c fits e b =
    let (_, _, rest) = >>=-eq-done (assert (leb s.base_cycle start)) _ e in
    schedule_from-IsBounded w fuel s s' start _ c fits rest b

-- Clearing keeps the array.
clear_from-HasWindow :
    (k n : ℕ) (s : Schedule) (i : ℕ) → HasWindow k s → HasWindow k (clear_from n s i)
unfolding clear_from
clear_from-HasWindow k zero s i h = h
clear_from-HasWindow k (suc n) s i h =
    clear_from-HasWindow k n (put s i 0) (i + 1) (put-HasWindow k s i 0 h)

-- Clearing leaves the other cycles of the window.
clear_from-slot_ne :
    (k n : ℕ) (s : Schedule) (i y : ℕ)
    → HasWindow k s
    → s.base_cycle ≤ i
    → i + n ≤ y
    → y < s.base_cycle + s.depth
    → slot (clear_from n s i) y ≡ slot s y
unfolding clear_from
clear_from-slot_ne k zero s i y h low le high = refl
clear_from-slot_ne k (suc n) s i y h low le high =
    clear_from-slot_ne k n (put s i 0) (i + 1) y (put-HasWindow k s i 0 h) (omega arith)
      (omega arith) high
    ∙ slot-put_ne k s i y 0 h (omega arith, omega arith) (omega arith, omega arith) (omega arith)

get_or-set-zero : (xs : List ℕ) (i j : ℕ) → get_or xs j 0 ≡ 0 → get_or (set xs i 0) j 0 ≡ 0
get_or-set-zero xs i j z = elim (ℕ_discrete i j) [
  | no ne ↦ get_or-set_ne xs i j 0 0 ne ∙ z
  | yes e ↦ elim (dec_lt i (length xs)) [
    | yes inside ↦ rw (← e) (get_or-set_self xs i 0 0 inside)
    | no outside ↦ get_or-past (set xs i 0) j 0 (omega (arith, length-set xs i 0))
  ]
]

-- A cleared slot is cleared.
clear_from-zero :
    (k n : ℕ) (s : Schedule) (i y : ℕ)
    → HasWindow k s
    → slot s y ≡ 0
    → slot (clear_from n s i) y ≡ 0
unfolding clear_from
clear_from-zero k zero s i y h z = z
clear_from-zero k (suc n) s i y h z =
    clear_from-zero k n (put s i 0) (i + 1) y (put-HasWindow k s i 0 h)
      (omega (arith, get_or-set-zero s.sched (mod_s i s.depth) (mod_s y s.depth) z))

clear_from-slot :
    (k n : ℕ) (s : Schedule) (i y : ℕ)
    → HasWindow k s
    → i ≤ y
    → y < i + n
    → slot (clear_from n s i) y ≡ 0
unfolding clear_from
clear_from-slot k zero s i y h le lt = absurd (omega arith)
clear_from-slot k (suc n) s i y h le lt = elim (ℕ_discrete i y) [
  | yes e ↦
      clear_from-zero k n (put s i 0) (i + 1) y (put-HasWindow k s i 0 h)
        (rw (← e) (slot-put_self k s i 0 h))
  | no ne ↦
      clear_from-slot k n (put s i 0) (i + 1) y (put-HasWindow k s i 0 h) (omega arith)
        (omega arith)
]

clear_from-base :
    (n : ℕ) (s : Schedule) (i : ℕ)
    → ((clear_from n s i).base_cycle ≡ s.base_cycle) × ((clear_from n s i).depth ≡ s.depth)
unfolding clear_from
clear_from-base zero s i = (refl, refl)
clear_from-base (suc n) s i = clear_from-base n (put s i 0) (i + 1)

-- The new cycle that shares its slot with a cycle that was left behind.
mod_s-next :
    (k : ℕ) (s : Schedule) (y : ℕ)
    → HasWindow k s
    → s.depth ≤ y
    → mod_s y s.depth ≡ mod_s (y - s.depth) s.depth
mod_s-next k s y h le =
    let split : y ≡ y - s.depth + s.depth = omega arith in
    mod_s-eq-mod k y s.depth h.small h.power
    ∙ ap (λ t. t % s.depth) split
    ∙ add-mod_right (y - s.depth) s.depth
    ∙ sym (mod_s-eq-mod k (y - s.depth) s.depth h.small h.power)

-- The window that `advance_base_cycle` leaves.
pub record Advanced (k : ℕ) (s : Schedule) (new_base_cycle : ℕ) (s' : Schedule) : Type 0 where
  pub window : HasWindow k s'
  pub base : s'.base_cycle ≡ new_base_cycle
  pub depth : s'.depth ≡ s.depth
  pub kept : (y : ℕ) → new_base_cycle ≤ y → y < s.base_cycle + s.depth → slot s' y ≡ slot s y
  pub fresh : (y : ℕ) → s.base_cycle + s.depth ≤ y → y < new_base_cycle + s.depth → slot s' y ≡ 0

-- On a schedule whose depth is a power of two, moving the base by at most the depth succeeds, keeps
-- every booking of the cycles that stay in the window, and gives each cycle that enters the window
-- an empty slot.
pub advance_base_cycle-Advanced :
    (k : ℕ) (s : Schedule) (new_base_cycle : ℕ)
    → HasWindow k s
    → s.base_cycle ≤ new_base_cycle
    → new_base_cycle ≤ s.base_cycle + s.depth
    → (s' : Schedule) × (advance_base_cycle s new_base_cycle ≡ done s')
      × Advanced k s new_base_cycle s'
unfolding advance_base_cycle
advance_base_cycle-Advanced k s new_base_cycle h le far = (
  record cleared { base_cycle = new_base_cycle },
  rw (le→leb s.base_cycle new_base_cycle le) refl,
  record {
    window =
        let w = clear_from-HasWindow k n s s.base_cycle h in
        record { power = w.power; small = w.small; array = w.array };
    base = refl;
    depth = same.1;
    kept =
        λ y from below. clear_from-slot_ne k n s s.base_cycle y h (omega arith) (omega arith) below;
    fresh = λ y from below.
        ap (λ t. get_or cleared.sched (mod_s y t) 0) same.1
        ∙ ap (λ t. get_or cleared.sched t 0) (mod_s-next k s y h (omega arith))
        ∙ sym (ap (λ t. get_or cleared.sched (mod_s (y - s.depth) t) 0) same.1)
        ∙ clear_from-slot k n s s.base_cycle (y - s.depth) h (omega arith) (omega arith);
  },
)
  where
    n : ℕ
    n = new_base_cycle - s.base_cycle

    cleared : Schedule
    cleared = clear_from n s s.base_cycle

    same : (cleared.base_cycle ≡ s.base_cycle) × (cleared.depth ≡ s.depth)
    same = clear_from-base n s s.base_cycle
