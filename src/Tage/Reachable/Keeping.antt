-- ===== src/Tage/Reachable/Keeping.antt =====
-- The allocation in `update` (cbp2016_tage_sc_l.h) and the tables that it leaves alone.
use ternary_geo_bp.Base.{
  ℕ, zero, suc, ◌+◌, ◌≡◌, refl, ◌∙◌, inl, inr, Bool, true, false, List, [], Bool-cases, ltb, leb,
  ◌==◌, if◌then◌else◌, length, set, length-set, length-map, get_or, ◌^^^◌, Run, done, assert_failed,
  out_of_fuel, ◌>>=◌,
}
use ternary_geo_bp.Base.Int.{pos}
use ternary_geo_bp.Tage.{
  History, Lookup, Tables, TaggedEntry, put_entry, bank_entry, noskip, born, nhist,
}
use ternary_geo_bp.Tage.Bimodal.{baseupdate}
use ternary_geo_bp.Tage.Match.{strength}
use ternary_geo_bp.Tage.Allocate.{
  Attempt, nothing, allocated, penalty, Progress, Next, leave, go_on, skip, try_bank, settle, round,
  allocate_from, tick_over, allocate,
}
use ternary_geo_bp.Tage.Allocate.Ends.{Next-cases}

-- The tables without those of TAGE.
abbrev pub corrector_of : Tables → Tables
corrector_of t = record t {
  btable = [];
  low = [];
  high = [];
  use_alt_on_na = [];
  tick = pos 0;
  seed = 0;
}

-- `t'` has the corrector of `t`, and as many entries of TAGE.
pub record Keeps (t t' : Tables) : Type 0 where
  pub part : corrector_of t' ≡ corrector_of t
  pub low : length t'.low ≡ length t.low
  pub high : length t'.high ≡ length t.high
  pub btable : length t'.btable ≡ length t.btable
  pub use_alt : length t'.use_alt_on_na ≡ length t.use_alt_on_na

pub Keeps-refl : (t : Tables) → Keeps t t
Keeps-refl t = record { part = refl; low = refl; high = refl; btable = refl; use_alt = refl }

pub Keeps-trans : {t t' t'' : Tables} → Keeps t t' → Keeps t' t'' → Keeps t t''
Keeps-trans k l = record {
  part = l.part ∙ k.part;
  low = l.low ∙ k.low;
  high = l.high ∙ k.high;
  btable = l.btable ∙ k.btable;
  use_alt = l.use_alt ∙ k.use_alt;
}

pub if-Keeps :
    (t : Tables) (b : Bool) (x y : Tables) → Keeps t x → Keeps t y → Keeps t (if b then x else y)
if-Keeps t true x y kx ky = kx
if-Keeps t false x y kx ky = ky

pub put_entry-Keeps :
    (t : Tables) (gi : List ℕ) (bank : ℕ) (e : TaggedEntry) → Keeps t (put_entry t gi bank e)
put_entry-Keeps t gi bank e = elim (Bool-cases (ltb bank born)) [
  | inl low ↦ rw low (record {
    part = refl;
    use_alt = refl;
    low = length-set t.low (get_or gi bank 0) e;
    high = refl;
    btable = refl;
  })
  | inr high ↦ rw high (record {
    part = refl;
    use_alt = refl;
    low = refl;
    high = length-set t.high (get_or gi bank 0) e;
    btable = refl;
  })
]

pub baseupdate-Keeps :
    (t : Tables) (s : Lookup) (dir : Bool)
    → Keeps t (record t { btable = baseupdate t.btable s dir })
unfolding baseupdate
baseupdate-Keeps t s dir = record {
  part = refl;
  use_alt = refl;
  low = refl;
  high = refl;
  btable = length-set (set t.btable s.bi _) _ _ ∙ length-set t.btable s.bi _;
}

try_bank-Keeps : (s : Lookup) (dir : Bool) (t : Tables) (i : ℕ) → Keeps t (try_bank s dir t i).0
unfolding try_bank
try_bank-Keeps s dir t i = elim (Bool-cases (noskip i)) [
  | inr skipped ↦ rw skipped (Keeps-refl t)
  | inl used ↦ elim (Bool-cases ((bank_entry t s.gi i).u == 0)) [
    | inr useful ↦ rw (used, useful) (Keeps-refl t)
    | inl free ↦ elim (Bool-cases (leb (strength (bank_entry t s.gi i)) 3)) [
      | inl weak ↦ rw (used, free, weak) (put_entry-Keeps t s.gi i _)
      | inr strong ↦ rw (used, free, strong) (put_entry-Keeps t s.gi i _)
    ]
  ]
]

-- The tables that a round leaves.
abbrev of_next : Next → Tables
of_next (leave p) = p.tables
of_next (go_on p) = p.tables
of_next (skip p) = p.tables

settle-Keeps :
    (t : Tables) (p : Progress) (r : Tables × Attempt) (otherwise : Progress → Next)
    → Keeps t r.0
    → ((q : Progress) → Keeps t q.tables → Keeps t (of_next (otherwise q)))
    → Keeps t (of_next (settle p r otherwise))
unfolding settle
settle-Keeps t p (tables, nothing) otherwise k f = f _ k
settle-Keeps t p (tables, penalty) otherwise k f = f _ k
settle-Keeps t p (tables, allocated) otherwise k f = elim (Bool-cases (p.t == 0)) [
  | inl last ↦ rw last k
  | inr more ↦ rw more k
]

round-Keeps :
    (t : Tables) (s : Lookup) (dir : Bool) (p : Progress) (i : ℕ)
    → Keeps t p.tables
    → Keeps t (of_next (round s dir p i))
unfolding round
round-Keeps t s dir p i k =
    settle-Keeps t p (try_bank s dir p.tables (i + 1)) _
      (Keeps-trans k (try_bank-Keeps s dir p.tables (i + 1)))
      (λ q l.
        settle-Keeps t q (try_bank s dir q.tables ((i ^^^ 1) + 1)) go_on
          (Keeps-trans l (try_bank-Keeps s dir q.tables ((i ^^^ 1) + 1))) (λ r e. e))

-- The outcome of a run keeps the tables, where there is one.
abbrev pub Kept : {A : Type 0} → Tables → (A → Tables) → Run A → Type 0
Kept t f (done a) = Keeps t (f a)
Kept t f assert_failed = Unit
Kept t f out_of_fuel = Unit

abbrev of_progress : Progress → Tables
of_progress p = p.tables

allocate_from-Kept :
    (t : Tables) (s : Lookup) (dir : Bool) (fuel : ℕ) (p : Progress) (i : ℕ)
    → Keeps t p.tables
    → Kept t of_progress (allocate_from s dir fuel p i)
unfolding allocate_from
allocate_from-Kept t s dir zero p i k = tt
allocate_from-Kept t s dir (suc fuel) p i k = elim (Bool-cases (ltb i nhist)) [
  | inr over ↦ rw (over, allocate_from) k
  | inl inside ↦
      let left = round-Keeps t s dir p i k in
      elim (Next-cases (round s dir p i)) [
        | inl (q, e) ↦ rw (inside, e, allocate_from) (rw e at left)
        | inr (inl (q, e)) ↦
            rw (inside, e, allocate_from) (allocate_from-Kept t s dir fuel q (i + 2) (rw e at left))
        | inr (inr (q, e)) ↦
            rw (inside, e, allocate_from) (allocate_from-Kept t s dir fuel q (i + 4) (rw e at left))
      ]
]

tick_over-Keeps : (p : Progress) → Keeps p.tables (tick_over p)
unfolding tick_over
tick_over-Keeps p =
    if-Keeps p.tables _ _ _
      (record { part = refl; low = refl; high = refl; btable = refl; use_alt = refl })
      (if-Keeps p.tables _ _ _
        (record {
          part = refl;
          use_alt = refl;
          low = length-map p.tables.low _;
          high = length-map p.tables.high _;
          btable = refl;
        })
        (record { part = refl; low = refl; high = refl; btable = refl; use_alt = refl }))

pub bind-Kept :
    {A : Type 0} (t : Tables) (f g : A → Tables) (m : Run A)
    → Kept t f m
    → ((a : A) → Keeps t (f a) → Keeps t (g a))
    → Kept t (λ x. x) (m >>= λ a. done (g a))
bind-Kept t f g (done a) k h = h a k
bind-Kept t f g assert_failed k h = tt
bind-Kept t f g out_of_fuel k h = tt

pub if-Kept :
    (t : Tables) (b : Bool) (m : Run Tables) (t1 : Tables)
    → Kept t (λ x. x) m
    → Keeps t t1
    → Kept t (λ x. x) (if b then m else done t1)
if-Kept t true m t1 km k = km
if-Kept t false m t1 km k = k

pub allocate-Kept :
    (t : Tables) (fuel : ℕ) (s : Lookup) (dir : Bool) (h : History) (t1 : Tables)
    → Keeps t t1
    → Kept t (λ x. x) (allocate fuel s dir h t1)
unfolding allocate
allocate-Kept t fuel s dir h t1 k =
    bind-Kept t of_progress tick_over _
      (allocate_from-Kept t s dir fuel _ _ (
        Keeps-trans k
          (record { part = refl; low = refl; high = refl; btable = refl; use_alt = refl })))
      (λ p l. Keeps-trans l (tick_over-Keeps p))
