-- ===== src/Ittage/Train/Above.antt =====
-- The entries that an update allocates (lib/ittage.h).
use mathlib.Core.Path.{subst}
use ternary_geo_bp.Base.{
  ℕ, zero, suc, ◌+◌, ◌-◌, ◌≡◌, ◌≢◌, ◌≤◌, ◌<◌, ◌⊎◌, refl, sym, ◌∙◌, ap, Bool, true, false, Option,
  some, List, [], ◌∷◌, map, arith, ltb, ◌%◌, ◌==◌, if◌then◌else◌, get_or, get_or-set_ne, Bool-cases,
  inl, inr,
}
use ternary_geo_bp.Base.Int.{pos}
use ternary_geo_bp.Ittage.{Entry, Predictor, entry_at, myrandom, nhist, nnn, put_entry}
use ternary_geo_bp.Ittage.Train.{Progress, allocate, allocate_from, first_bank, halved_u, tick_over}

-- All banks but `b` and `b'`, which are not below `i`, are as before.
pub record Kept (i : ℕ) (before after : List (List Entry)) : Type 0 where
  pub b : ℕ
  pub b' : ℕ
  pub above : i ≤ b
  pub above' : i ≤ b'
  pub others : (j : ℕ) → j ≢ b → j ≢ b' → get_or after j [] ≡ get_or before j []

nothing-Kept : (i : ℕ) (before : List (List Entry)) → Kept i before before
nothing-Kept i before = record {
  b = i;
  b' = i;
  above = omega arith;
  above' = omega arith;
  others = λ j ne ne'. refl;
}

put_entry-Kept :
    (p : Predictor) (i : ℕ) (e : Entry) (before : List (List Entry))
    → Kept i before (put_entry before p.gi i e)
put_entry-Kept p i e before = record {
  b = i;
  b' = i;
  above = omega arith;
  above' = omega arith;
  others = λ j ne ne'. get_or-set_ne before i j _ [] (λ same. ne (sym same));
}

passed-Kept :
    (i : ℕ) (before after : List (List Entry)) → Kept (i + 1) before after → Kept i before after
passed-Kept i before after k = record {
  b = k.b;
  b' = k.b';
  above = omega (arith, k.above);
  above' = omega (arith, k.above');
  others = k.others;
}

-- Where T is 0 the loop takes one entry, of a bank from `i` on.
pub record KeptOne (i : ℕ) (before after : List (List Entry)) : Type 0 where
  pub b : ℕ
  pub above : i ≤ b
  pub others : (j : ℕ) → j ≢ b → get_or after j [] ≡ get_or before j []

put_entry-KeptOne :
    (p : Predictor) (i : ℕ) (e : Entry) (before : List (List Entry))
    → KeptOne i before (put_entry before p.gi i e)
put_entry-KeptOne p i e before = record {
  b = i;
  above = omega arith;
  others = λ j ne. get_or-set_ne before i j _ [] (λ same. ne (sym same));
}

nothing-KeptOne : (i : ℕ) (before : List (List Entry)) → KeptOne i before before
nothing-KeptOne i before = record { b = i; above = omega arith; others = λ j ne. refl }

passed-KeptOne :
    (i : ℕ) (before after : List (List Entry))
    → KeptOne (i + 1) before after
    → KeptOne i before after
passed-KeptOne i before after k = record {
  b = k.b;
  above = omega (arith, k.above);
  others = k.others;
}

allocate_from-KeptOne :
    (n : ℕ) (p : Predictor) (branch_target : ℕ) (g : Progress) (i : ℕ)
    → g.t ≡ 0
    → KeptOne i g.itable (allocate_from p branch_target n g i).itable
unfolding allocate_from
allocate_from-KeptOne zero p branch_target g i last = nothing-KeptOne i g.itable
allocate_from-KeptOne (suc zero) p branch_target g i last =
    elim (Bool-cases ((entry_at g.itable p.gi i).u == 0)) [
      | inl free ↦ rw free (put_entry-KeptOne p i _ g.itable)
      | inr used ↦ rw used (nothing-KeptOne i g.itable)
    ]
allocate_from-KeptOne (suc (suc n)) p branch_target g i last =
    let over : (g.t == 0) ≡ true = ap (λ (t : ℕ). t == 0) last in
    elim (Bool-cases ((entry_at g.itable p.gi i).u == 0)) [
      | inl free ↦ rw (free, over) (put_entry-KeptOne p i _ g.itable)
      | inr used ↦ rw used (
          passed-KeptOne i g.itable _ (
            allocate_from-KeptOne (suc n) p branch_target (record g { penalty = g.penalty + 1 })
              (i + 1) last))
    ]

allocate_from-Kept :
    (n : ℕ) (p : Predictor) (branch_target : ℕ) (g : Progress) (i : ℕ)
    → g.t ≤ 1
    → Kept i g.itable (allocate_from p branch_target n g i).itable
unfolding allocate_from
allocate_from-Kept zero p branch_target g i le = nothing-Kept i g.itable
allocate_from-Kept (suc zero) p branch_target g i le =
    elim (Bool-cases ((entry_at g.itable p.gi i).u == 0)) [
      | inl free ↦ rw free (put_entry-Kept p i _ g.itable)
      | inr used ↦ rw used (nothing-Kept i g.itable)
    ]
allocate_from-Kept (suc (suc n)) p branch_target g i le =
    elim (Bool-cases ((entry_at g.itable p.gi i).u == 0)) [
      | inr used ↦ rw used (
          passed-Kept i g.itable _ (
            allocate_from-Kept (suc n) p branch_target (record g { penalty = g.penalty + 1 })
              (i + 1) le))
      | inl free ↦ elim (Bool-cases (g.t == 0)) [
        | inl last ↦ rw (free, last) (put_entry-Kept p i _ g.itable)
        | inr more ↦
            let e : Entry = record (entry_at g.itable p.gi i) {
              tag = get_or p.gtag i 0;
              target = branch_target;
              ctr = pos 0;
            } in
            let next : Progress = record g {
              itable = put_entry g.itable p.gi i e;
              na = g.na + 1;
              t = g.t - 1;
            } in
            let rest = allocate_from-KeptOne n p branch_target next (i + 2) (omega (arith, le)) in
            rw (free, more)
              (record {
                b = i;
                b' = rest.b;
                above = omega arith;
                above' = omega (arith, rest.above);
                others = λ j ne ne'.
                    rest.others j ne' ∙ get_or-set_ne g.itable i j _ [] (λ same. ne (sym same));
              })
      ]
    ]

get_or-halved :
    (rows : List (List Entry)) (j : ℕ)
    → get_or (map (map halved_u) rows) j [] ≡ map halved_u (get_or rows j [])
get_or-halved [] j = refl
get_or-halved (r ∷ rows) zero = refl
get_or-halved (r ∷ rows) (suc j) = get_or-halved rows j

-- A bank is as before, or all its usefulness counters are halved.
abbrev pub IsAged : List Entry → List Entry → Type 0
IsAged before after = (after ≡ before) ⊎ (after ≡ map halved_u before)

if-IsAged :
    (b : Bool) (x y : Predictor) (row : List Entry) (j : ℕ)
    → IsAged row (get_or x.itable j [])
    → IsAged row (get_or y.itable j [])
    → IsAged row (get_or (if b then x else y).itable j [])
if-IsAged true x y row j vx vy = vx
if-IsAged false x y row j vx vy = vy

tick_over-IsAged :
    (p : Predictor) (g : Progress) (j : ℕ)
    → IsAged (get_or g.itable j []) (get_or (tick_over p g).itable j [])
unfolding tick_over
tick_over-IsAged p g j =
    if-IsAged _ _ _ (get_or g.itable j []) j (inr (get_or-halved g.itable j)) (inl refl)

first_bank-lt :
    (bank : Option ℕ) (hit : ℕ) (two : Bool)
    → bank ≡ some hit
    → hit < first_bank bank (if two then 2 else 1)
first_bank-lt bank hit true e = rw e (omega arith)
first_bank-lt bank hit false e = rw e (omega arith)

-- The allocation of an update after a hit writes at most two banks, and only banks above the one that
-- was hit. Every other bank keeps its entries, up to the halving of all usefulness counters.
pub allocate-IsAged :
    (p : Predictor) (branch_target hit : ℕ)
    → p.hit_bank ≡ some hit
    → (b : ℕ) × (b' : ℕ) × (hit < b)
      × (hit < b')
      × ((j : ℕ)
          → j ≢ b
          → j ≢ b'
          → IsAged (get_or p.itable j []) (get_or (allocate p branch_target).itable j []))
unfolding allocate
allocate-IsAged p branch_target hit e =
    let random = myrandom p.seed p.phist p.ptghist in
    let dep = first_bank p.hit_bank (if ltb (random % 128) 32 then 2 else 1) in
    let g : Progress = record { itable = p.itable; t = nnn; na = 0; penalty = 0 } in
    let lt : hit < dep = first_bank-lt p.hit_bank hit (ltb (random % 128) 32) e in
    let k = allocate_from-Kept (nhist + 1 - dep) p branch_target g dep (omega arith) in
    let left = allocate_from p branch_target (nhist + 1 - dep) g dep in
    (
      k.b,
      k.b',
      omega (arith, lt, k.above),
      omega (arith, lt, k.above'),
      λ j ne ne'.
          subst
            (λ (row : List Entry).
              IsAged row (get_or (tick_over (record p { seed = random }) left).itable j []))
            (k.others j ne ne') (tick_over-IsAged (record p { seed = random }) left j),
    )
