-- ===== src/Tage/Reachable/Training.antt =====
-- What the training of a resolved branch (cbp2016_tage_sc_l.h) keeps of the tables and histories.
use mathlib.Core.Path.{subst}
use ternary_geo_bp.Base.{
  ℕ, ◌≡◌, ◌<◌, refl, sym, ◌∙◌, inl, inr, Bool, true, false, length, Bool-cases, if◌then◌else◌, xor,
  done, >>=-eq-done, done_injective,
}
use ternary_geo_bp.Tage.{sizeusealt, Config, History, Lookup, Tables}
use ternary_geo_bp.Tage.Record.Kept.{IsHistory}
use ternary_geo_bp.Tage.Learn.{
  repair_loop, train_choice, train_thresholds, train_sums, train_corrector, train_tage, learn,
}
use ternary_geo_bp.Tage.Learn.Threshold.{InRange, train_corrector-InRange}
use ternary_geo_bp.Tage.Learn.Sizes.{HasSizes, train_corrector-HasSizes}
use ternary_geo_bp.Tage.Loop.Entries.{loopupdate-AllEntries, length-loopupdate}
use ternary_geo_bp.Tage.Reachable.Banks.{train_tage-Keeps}
use ternary_geo_bp.Tage.Reachable.Keeping.{corrector_of, Keeps}

-- The tables of TAGE have their sizes, and so have the counters of the choice of the alternate prediction.
pub record IsSized (t : Tables) : Type 0 where
  pub low : length t.low ≡ 10240
  pub high : length t.high ≡ 20480
  pub btable : length t.btable ≡ 8192
  pub use_alt : length t.use_alt_on_na ≡ sizeusealt

-- All tables have their sizes, and the counters of the corrector are in range.
pub record IsTables (t : Tables) : Type 0 where
  pub range : InRange t
  pub sized : IsSized t
  pub corrector : HasSizes t

InRange-corrector_of : (t : Tables) → InRange t → InRange (corrector_of t)
InRange-corrector_of t v = record {
  bias = v.bias;
  biassk = v.biassk;
  biasbank = v.biasbank;
  wb = v.wb;
  g = v.g;
  p = v.p;
  l = v.l;
  s = v.s;
  t = v.t;
  im = v.im;
  i = v.i;
  first_h = v.first_h;
  second_h = v.second_h;
  threshold = v.threshold;
  thresholds = v.thresholds;
}

corrector_of-InRange : (t : Tables) → InRange (corrector_of t) → InRange t
corrector_of-InRange t v = record {
  bias = v.bias;
  biassk = v.biassk;
  biasbank = v.biasbank;
  wb = v.wb;
  g = v.g;
  p = v.p;
  l = v.l;
  s = v.s;
  t = v.t;
  im = v.im;
  i = v.i;
  first_h = v.first_h;
  second_h = v.second_h;
  threshold = v.threshold;
  thresholds = v.thresholds;
}

HasSizes-corrector_of : (t : Tables) → HasSizes t → HasSizes (corrector_of t)
HasSizes-corrector_of t v = record {
  bias = v.bias;
  biassk = v.biassk;
  biasbank = v.biasbank;
  wb = v.wb;
  g = v.g;
  p = v.p;
  l = v.l;
  s = v.s;
  t = v.t;
  im = v.im;
  i = v.i;
  thresholds = v.thresholds;
}

corrector_of-HasSizes : (t : Tables) → HasSizes (corrector_of t) → HasSizes t
corrector_of-HasSizes t v = record {
  bias = v.bias;
  biassk = v.biassk;
  biasbank = v.biasbank;
  wb = v.wb;
  g = v.g;
  p = v.p;
  l = v.l;
  s = v.s;
  t = v.t;
  im = v.im;
  i = v.i;
  thresholds = v.thresholds;
}

Keeps-IsTables : {t t' : Tables} → Keeps t t' → IsTables t → IsTables t'
Keeps-IsTables {t} {t'} k v = record {
  range = corrector_of-InRange t' (subst InRange (sym k.part) (InRange-corrector_of t v.range));
  sized = record {
    low = k.low ∙ v.sized.low;
    high = k.high ∙ v.sized.high;
    btable = k.btable ∙ v.sized.btable;
    use_alt = k.use_alt ∙ v.sized.use_alt;
  };
  corrector =
      corrector_of-HasSizes t' (subst HasSizes (sym k.part) (HasSizes-corrector_of t v.corrector));
}

if-IsSized : (b : Bool) (x y : Tables) → IsSized x → IsSized y → IsSized (if b then x else y)
if-IsSized true x y vx vy = vx
if-IsSized false x y vx vy = vy

train_choice-IsSized :
    (s : Lookup) (dir : Bool) (t : Tables) → IsSized t → IsSized (train_choice s dir t)
unfolding train_choice
train_choice-IsSized s dir t v =
    if-IsSized _ _ t (record { low = v.low; high = v.high; btable = v.btable; use_alt = v.use_alt })
      v

train_corrector-IsTables :
    (s : Lookup) (pc : ℕ) (dir : Bool) (h : History) (t : Tables)
    → IsTables t
    → IsTables (train_corrector s pc dir h t)
unfolding train_corrector train_sums train_thresholds
train_corrector-IsTables s pc dir h t v =
    let w = train_choice-IsSized s dir t v.sized in
    record {
      range = train_corrector-InRange s pc dir h t v.range;
      sized =
          if-IsSized _ _ (train_choice s dir t)
            (record { low = w.low; high = w.high; btable = w.btable; use_alt = w.use_alt }) w;
      corrector = train_corrector-HasSizes s pc dir h t v.corrector;
    }

repair_loop-IsHistory :
    (s : Lookup) (dir pred_taken : Bool) (old : History) (seed : ℕ) (h : History)
    → s.ltag < 1024
    → IsHistory old
    → IsHistory h
    → IsHistory (repair_loop s dir pred_taken old seed h).0
unfolding repair_loop
repair_loop-IsHistory s dir pred_taken old seed h small w v =
    elim (Bool-cases (xor pred_taken dir)) [
      | inr right ↦ rw right v
      | inl wrong ↦ rw wrong (record {
        ghist = v.ghist;
        imhist = v.imhist;
        imli = v.imli;
        loops = loopupdate-AllEntries s h.phist h.ptghist seed dir true old.ltable small w.loops;
        indices = v.indices;
        tags0 = v.tags0;
        tags1 = v.tags1;
        loop_size = length-loopupdate s h.phist h.ptghist seed dir true old.ltable ∙ w.loop_size;
        locals = v.locals;
        seconds = v.seconds;
        thirds = v.thirds;
      })
    ]

pub reseeded : (t : Tables) (seed : ℕ) → IsTables t → IsTables (record t { seed = seed })
reseeded t n v =
    Keeps-IsTables (record { part = refl; low = refl; high = refl; btable = refl; use_alt = refl })
      v

pub learn-IsTables :
    (fuel : ℕ) (c : Config) (s : Lookup) (pc : ℕ) (dir pred_taken : Bool) (old : History)
    (ld : Bool) (h : History) (t : Tables) (r : Tables × History)
    → s.ltag < 1024
    → IsHistory old
    → IsHistory h
    → IsTables t
    → learn fuel c s pc dir pred_taken old ld h t ≡ done r
    → IsTables r.0 × IsHistory r.1
unfolding learn
learn-IsTables fuel c s pc dir pred_taken old ld h t r small w v vt e =
    let (t3, e1, e2) = >>=-eq-done (train_tage fuel c s dir pred_taken ld h' trained) _ e in
    subst (λ (x : Tables × History). IsTables x.0 × IsHistory x.1) (done_injective (t3, h') r e2)
      (
        Keeps-IsTables (train_tage-Keeps fuel c s dir pred_taken ld h' trained t3 e1)
            (train_corrector-IsTables s pc dir old _ (reseeded t _ vt)),
        repair_loop-IsHistory s dir pred_taken old t.seed h small w v,
      )
  where
    h' : History
    h' = (repair_loop s dir pred_taken old t.seed h).0

    trained : Tables
    trained =
        train_corrector s pc dir old
          (record t { seed = (repair_loop s dir pred_taken old t.seed h).1 })
