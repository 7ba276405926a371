-- ===== src/Ittage/Train.antt =====
-- `UpdatePredictor` (lib/ittage.h).
pub mod Hits
pub mod Above
use ternary_geo_bp.Base.{
  ℕ, zero, suc, ◌+◌, ◌-◌, ◌*◌, ◌/◌, ◌%◌, ◌^◌, Bool, true, false, not, ◌&&◌, ◌||◌, Option, none,
  some, List, [], ◌∷◌, map, ltb, ◌==◌, if◌then◌else◌, get_or, Run, done, assert_failed, ◌>>=◌,
}
use ternary_geo_bp.Base.Int.{ℤ, pos, ◌+ℤ◌, ◌-ℤ◌, nonneg, leb_ℤ, ltb_ℤ}
use ternary_geo_bp.Tage.Counter.{ctrupdate}
use ternary_geo_bp.Ittage.{
  Entry, Predictor, altwidth, borntick, cwidth, entry_at, myrandom, nhist, nnn, put_entry, uwidth,
}
use ternary_geo_bp.Ittage.Predict.{is_negative, is_positive}
use ternary_geo_bp.Ittage.Record.{history_update}

-- ctr <= 0
abbrev pub is_weak : Entry → Bool
is_weak e = leb_ℤ e.ctr (pos 0)

-- PseudoNewAlloc
abbrev pub pseudo_new : Predictor → Bool
pseudo_new p = elim p.hit_bank [
  | none ↦ false
  | some hit ↦ ltb 0 hit && not (is_negative p.alt_bank) && is_weak (entry_at p.itable p.gi hit)
]

-- HitBank < NHIST
abbrev pub is_extendable : Option ℕ → Bool
is_extendable none = true
is_extendable (some hit) = ltb hit nhist

-- ALLOC, and use_alt_on_na.
unfoldable pub wants_entry : Predictor → ℕ → Bool
wants_entry p branch_target =
    let misp = not (p.tage_target == branch_target) && is_extendable p.hit_bank in
    if pseudo_new p && p.longest_match_pred == branch_target then false else misp

unfoldable pub train_choice : Predictor → ℕ → Predictor
train_choice p branch_target =
    let alt_right = p.alt_target == branch_target in
    if pseudo_new p
      && not (p.longest_match_pred == p.alt_target)
      && (p.longest_match_pred == branch_target || alt_right)
    then record p { use_alt_on_na = ctrupdate p.use_alt_on_na alt_right altwidth }
    else p

-- The variables of the loop that allocates: the tables, T, NA and Penalty.
pub record Progress : Type 0 where
  pub itable : List (List Entry)
  pub t : ℕ
  pub na : ℕ
  pub penalty : ℕ

-- The loop over the `n` banks from `i` on. After an allocation it skips a bank.
unfoldable pub allocate_from : Predictor → ℕ → ℕ → Progress → ℕ → Progress
allocate_from p branch_target zero g i = g
allocate_from p branch_target (suc zero) g i =
    let e = entry_at g.itable p.gi i in
    if e.u == 0
    then record g {
      itable =
          put_entry g.itable p.gi i
            (record e { tag = get_or p.gtag i 0; target = branch_target; ctr = pos 0 });
      na = g.na + 1;
      t = g.t - 1;
    }
    else record g { penalty = g.penalty + 1 }
allocate_from p branch_target (suc (suc n)) g i =
    let e = entry_at g.itable p.gi i in
    let taken = record g {
      itable =
          put_entry g.itable p.gi i
            (record e { tag = get_or p.gtag i 0; target = branch_target; ctr = pos 0 });
      na = g.na + 1;
    } in
    let on = allocate_from p branch_target (suc n) (record g { penalty = g.penalty + 1 }) (i + 1) in
    let further = allocate_from p branch_target n (record taken { t = g.t - 1 }) (i + 2) in
    if e.u == 0 then (if g.t == 0 then taken else further) else on

-- DEP
abbrev pub first_bank : Option ℕ → ℕ → ℕ
first_bank none a = a - 1
first_bank (some hit) a = hit + a

-- u >>= 1
abbrev pub halved_u : Entry → Entry
halved_u e = record e { u = e.u / 2 }

-- TICK, and the usefulness counters, which are halved when it is full.
unfoldable pub tick_over : Predictor → Progress → Predictor
tick_over p g =
    let tick = p.tick +ℤ (pos g.penalty -ℤ pos (2 * g.na)) in
    let tick' = if nonneg tick then tick else pos 0 in
    if leb_ℤ (pos borntick) tick'
    then record p { itable = map (map halved_u) g.itable; tick = pos 0 }
    else record p { itable = g.itable; tick = tick' }

-- The allocation.
unfoldable pub allocate : Predictor → ℕ → Predictor
allocate p branch_target =
    let random = myrandom p.seed p.phist p.ptghist in
    let a = if ltb (random % 128) 32 then 2 else 1 in
    let dep = first_bank p.hit_bank a in
    let g =
      allocate_from p branch_target (nhist + 1 - dep)
        (record { itable = p.itable; t = nnn; na = 0; penalty = 0 }) dep in
    tick_over (record p { seed = random }) g

-- The counter of the alternate bank.
unfoldable pub train_alt : Predictor → ℕ → ℕ → Option ℕ → Predictor
train_alt p branch_target hit none = p
train_alt p branch_target hit (some alt) =
    let e = entry_at p.itable p.gi alt in
    if is_weak (entry_at p.itable p.gi hit)
      && not (p.longest_match_pred == branch_target)
      && p.alt_target == branch_target
    then record p {
      itable = put_entry p.itable p.gi alt (record e { ctr = ctrupdate e.ctr true cwidth });
    }
    else p

-- The counter and the target of the longest matching bank.
unfoldable pub train_hit : Predictor → ℕ → ℕ → Predictor
train_hit p branch_target hit =
    let right = p.longest_match_pred == branch_target in
    let e = entry_at p.itable p.gi hit in
    let ctr = ctrupdate e.ctr right cwidth in
    let target = if not right && not (nonneg ctr) then branch_target else e.target in
    record p { itable = put_entry p.itable p.gi hit (record e { ctr = ctr; target = target }) }

unfoldable pub train_banks : Predictor → ℕ → Option ℕ → Predictor
train_banks p branch_target none = p
train_banks p branch_target (some hit) =
    train_hit (train_alt p branch_target hit p.alt_bank) branch_target hit

-- The usefulness of the longest matching bank. A bank of -1 would be outside the table.
unfoldable pub praise : Predictor → Option ℕ → Run Predictor
praise p none = assert_failed
praise p (some hit) =
    let e = entry_at p.itable p.gi hit in
    done (
      if ltb e.u (2 ^ uwidth - 1)
      then record p { itable = put_entry p.itable p.gi hit (record e { u = e.u + 1 }) }
      else p)

unfoldable pub reward : Predictor → ℕ → Run Predictor
reward p branch_target =
    if not (p.longest_match_pred == p.alt_target) && p.longest_match_pred == branch_target
    then praise p p.hit_bank
    else done p

-- `UpdatePredictor`
unfoldable pub update_predictor : Predictor → ℕ → ℕ → Run Predictor
update_predictor p0 pc branch_target =
    let p1 = train_choice p0 branch_target in
    let p2 = if wants_entry p0 branch_target then allocate p1 branch_target else p1 in
    do
      p3 ← reward (train_banks p2 branch_target p2.hit_bank) branch_target
      done (history_update p3 pc branch_target)
