-- ===== src/Tage/Reachable/Banks.antt =====
-- The training of the tables of TAGE in `update` (cbp2016_tage_sc_l.h) and the tables that it leaves alone.
use ternary_geo_bp.Base.{ℕ, ◌≡◌, refl, Bool, ◌==◌, ◌&&◌, not, length-set, ◌%◌, if◌then◌else◌, done}
use ternary_geo_bp.Tage.{Config, History, Lookup, Tables, same}
use ternary_geo_bp.Tage.Match.{indusealt}
use ternary_geo_bp.Tage.Random.{myrandom}
use ternary_geo_bp.Tage.Learn.{
  train_alt, train_alternate, train_longest, train_banks, wants_entry, reward, train_tage,
}
use ternary_geo_bp.Tage.Reachable.Keeping.{
  Keeps, Keeps-refl, Keeps-trans, if-Keeps, put_entry-Keeps, baseupdate-Keeps, Kept, bind-Kept,
  if-Kept, allocate-Kept,
}

train_alt-Keeps : (s : Lookup) (dir : Bool) (t : Tables) → Keeps t (train_alt s dir t)
unfolding train_alt
train_alt-Keeps s dir t =
    if-Keeps t _ _ _
      (record {
        part = refl;
        low = refl;
        high = refl;
        btable = refl;
        use_alt = length-set t.use_alt_on_na (indusealt s) _;
      })
      (Keeps-refl t)

train_alternate-Keeps : (s : Lookup) (dir : Bool) (t : Tables) → Keeps t (train_alternate s dir t)
unfolding train_alternate
train_alternate-Keeps s dir t =
    if-Keeps t _ _ _
      (if-Keeps t _ _ _ (put_entry-Keeps t s.gi s.alt_bank _) (baseupdate-Keeps t s dir))
      (Keeps-refl t)

train_longest-Keeps : (s : Lookup) (dir : Bool) (t : Tables) → Keeps t (train_longest s dir t)
unfolding train_longest
train_longest-Keeps s dir t =
    if-Keeps t _ _ _
      (Keeps-trans (put_entry-Keeps t s.gi s.hit_bank _) (put_entry-Keeps _ s.gi s.hit_bank _))
      (put_entry-Keeps t s.gi s.hit_bank _)

train_banks-Keeps : (s : Lookup) (dir : Bool) (t : Tables) → Keeps t (train_banks s dir t)
unfolding train_banks
train_banks-Keeps s dir t =
    if-Keeps t _ _ _
      (Keeps-trans (train_alternate-Keeps s dir t)
        (train_longest-Keeps s dir (train_alternate s dir t)))
      (baseupdate-Keeps t s dir)

reward-Keeps :
    (c : Config) (s : Lookup) (dir ld : Bool) (t : Tables) → Keeps t (reward c s dir ld t)
unfolding reward
reward-Keeps c s dir ld t = if-Keeps t _ _ _ (put_entry-Keeps t s.gi s.hit_bank _) (Keeps-refl t)

train_tage-Kept :
    (fuel : ℕ) (c : Config) (s : Lookup) (dir pred_taken ld : Bool) (h : History) (t : Tables)
    → Kept t (λ x. x) (train_tage fuel c s dir pred_taken ld h t)
unfolding train_tage
train_tage-Kept fuel c s dir pred_taken ld h t =
    bind-Kept t (λ x. x) (λ t3. reward c s dir ld (train_banks s dir t3)) _
      (if-Kept t alloc _ t2 (allocate-Kept t fuel s dir h t2 second) second)
      (λ t3 k.
        Keeps-trans (Keeps-trans k (train_banks-Keeps s dir t3))
          (reward-Keeps c s dir ld (train_banks s dir t3)))
  where
    t1 : Tables
    t1 = train_alt s dir t

    seeded : Tables
    seeded = record t1 { seed = myrandom t1.seed h.phist h.ptghist }

    alloc : Bool
    alloc =
        wants_entry s dir t
        && not (same pred_taken dir && not (myrandom t1.seed h.phist h.ptghist % 32 == 0))

    t2 : Tables
    t2 = if same pred_taken dir then seeded else t1

    second : Keeps t (if same pred_taken dir then seeded else t1)
    second = Keeps-trans (train_alt-Keeps s dir t) (
        if-Keeps t1 _ _ _
          (record { part = refl; low = refl; high = refl; btable = refl; use_alt = refl })
          (Keeps-refl t1))

pub train_tage-Keeps :
    (fuel : ℕ) (c : Config) (s : Lookup) (dir pred_taken ld : Bool) (h : History) (t t' : Tables)
    → train_tage fuel c s dir pred_taken ld h t ≡ done t'
    → Keeps t t'
train_tage-Keeps fuel c s dir pred_taken ld h t t' e =
    let k = train_tage-Kept fuel c s dir pred_taken ld h t in rw e at k
