-- ===== src/Tage/Learn/Threshold.antt =====
-- The counters of the statistical corrector (cbp2016_tage_sc_l.h) under training.
use native.Mathlib.Nat.{one-le-pow}
use ternary_geo_bp.Base.{
  ℕ, ◌+◌, ◌-◌, inl, inr, Bool, true, false, List, [], ◌∷◌, arith, if◌then◌else◌, get_or, xor,
  Bool-cases, length,
}
use ternary_geo_bp.Base.Int.{ℤ, pos, nonneg}
use ternary_geo_bp.Tage.{Gehl, History, Lookup, Tables, same}
use ternary_geo_bp.Tage.Counter.{
  Fits, AllFit, ctrupdate-Fits, set-AllFit, get_or-AllFit, bump-AllFit,
}
use ternary_geo_bp.Tage.Sums.{train_tables, train_weight, gupdate, selected}
use ternary_geo_bp.Tage.Hash.{indupd, indupds}
use ternary_geo_bp.Tage.Corrector.{bias_sum}
use ternary_geo_bp.Tage.Learn.{
  move_threshold, train_choice, train_thresholds, train_sums, train_corrector,
}

-- Every counter of every table is in the range of `nbits` bits.
abbrev pub AllTables : ℕ → List (List ℤ) → Type 0
AllTables nbits [] = Unit
AllTables nbits (t ∷ ts) = AllFit nbits t × AllTables nbits ts

-- A component whose counters and weights have six bits.
pub record IsGehl (g : Gehl) : Type 0 where
  pub tab : AllTables 6 g.tab
  pub w : AllFit 6 g.w

-- The corrector's counters in their ranges.
pub record InRange (r : Tables) : Type 0 where
  pub bias : AllFit 6 r.bias
  pub biassk : AllFit 6 r.biassk
  pub biasbank : AllFit 6 r.biasbank
  pub wb : AllFit 6 r.wb
  pub g : IsGehl r.g
  pub p : IsGehl r.p
  pub l : IsGehl r.l
  pub s : IsGehl r.s
  pub t : IsGehl r.t
  pub im : IsGehl r.im
  pub i : IsGehl r.i
  pub first_h : Fits 7 r.first_h
  pub second_h : Fits 7 r.second_h
  pub threshold : Fits 12 r.updatethreshold
  pub thresholds : AllFit 8 r.pupdatethreshold

if-Fits : (n : ℕ) (b : Bool) (x y : ℤ) → Fits n x → Fits n y → Fits n (if b then x else y)
if-Fits n true x y fx fy = fx
if-Fits n false x y fx fy = fy

move_threshold-Fits : (up : Bool) (n : ℕ) (x : ℤ) → Fits n x → Fits n (move_threshold up n x)
unfolding move_threshold
move_threshold-Fits true n x f = (
  ground (arith, one-le-pow (n - 1) 2 (omega arith)),
  ground (arith, one-le-pow (n - 1) 2 (omega arith)),
)
move_threshold-Fits false n x f = (
  ground (arith, one-le-pow (n - 1) 2 (omega arith)),
  ground (arith, one-le-pow (n - 1) 2 (omega arith)),
)

train_tables-AllTables :
    (pc : ℕ) (taken : Bool) (bhist : ℕ) (lengths : List ℕ) (logs nbr i : ℕ) (tab : List (List ℤ))
    → AllTables 6 tab
    → AllTables 6 (train_tables pc taken bhist lengths logs nbr i tab)
unfolding train_tables
train_tables-AllTables pc taken bhist lengths logs nbr i [] a = tt
train_tables-AllTables pc taken bhist lengths logs nbr i (t ∷ tab) (f, a) = (
  bump-AllFit 6 t (selected pc bhist lengths i nbr logs) taken f,
  train_tables-AllTables pc taken bhist lengths logs nbr (i + 1) tab a,
)

train_weight-AllFit :
    (w : List ℤ) (index : ℕ) (lsum sum : ℤ) (taken : Bool)
    → AllFit 6 w
    → AllFit 6 (train_weight w index lsum sum taken)
unfolding train_weight
train_weight-AllFit w index lsum sum taken a =
    if-AllFit _ _ _ (bump-AllFit 6 w index (same (nonneg sum) taken) a) a
  where
    if-AllFit : (b : Bool) (x y : List ℤ) → AllFit 6 x → AllFit 6 y → AllFit 6 (if b then x else y)
    if-AllFit true x y ax ay = ax
    if-AllFit false x y ax ay = ay

gupdate-IsGehl :
    (pc : ℕ) (taken : Bool) (bhist : ℕ) (lsum : ℤ) (g : Gehl)
    → IsGehl g
    → IsGehl (gupdate pc taken bhist lsum g)
unfolding gupdate
gupdate-IsGehl pc taken bhist lsum g v = record {
  tab = train_tables-AllTables pc taken bhist g.lengths g.logs (length g.tab) 0 g.tab v.tab;
  w = train_weight-AllFit g.w (indupds pc) lsum _ taken v.w;
}

train_sums-InRange :
    (s : Lookup) (pc : ℕ) (dir : Bool) (h : History) (t : Tables)
    → InRange t
    → InRange (train_sums s pc dir h t)
unfolding train_sums
train_sums-InRange s pc dir h t v = record {
  bias = bump-AllFit 6 t.bias _ dir v.bias;
  biassk = bump-AllFit 6 t.biassk _ dir v.biassk;
  biasbank = bump-AllFit 6 t.biasbank _ dir v.biasbank;
  wb = train_weight-AllFit t.wb (indupds pc) s.lsum (bias_sum t s pc) dir v.wb;
  g = gupdate-IsGehl _ dir _ s.lsum t.g v.g;
  p = gupdate-IsGehl _ dir _ s.lsum t.p v.p;
  l = gupdate-IsGehl _ dir _ s.lsum t.l v.l;
  s = gupdate-IsGehl _ dir _ s.lsum t.s v.s;
  t = gupdate-IsGehl _ dir _ s.lsum t.t v.t;
  im = gupdate-IsGehl _ dir _ s.lsum t.im v.im;
  i = gupdate-IsGehl _ dir _ s.lsum t.i v.i;
  first_h = v.first_h;
  second_h = v.second_h;
  threshold = v.threshold;
  thresholds = v.thresholds;
}

train_thresholds-InRange :
    (s : Lookup) (pc : ℕ) (dir : Bool) (t : Tables)
    → InRange t
    → InRange (train_thresholds s pc dir t)
unfolding train_thresholds
train_thresholds-InRange s pc dir t v = record {
  bias = v.bias;
  biassk = v.biassk;
  biasbank = v.biasbank;
  wb = v.wb;
  g = v.g;
  p = v.p;
  l = v.l;
  s = v.s;
  t = v.t;
  im = v.im;
  i = v.i;
  first_h = v.first_h;
  second_h = v.second_h;
  threshold = move_threshold-Fits _ 12 t.updatethreshold v.threshold;
  thresholds =
      set-AllFit 8 t.pupdatethreshold (indupd pc) _
        (move_threshold-Fits _ 8 (get_or t.pupdatethreshold (indupd pc) (pos 0))
          (get_or-AllFit 8 t.pupdatethreshold (indupd pc) v.thresholds))
        v.thresholds;
}

train_choice-InRange :
    (s : Lookup) (dir : Bool) (t : Tables) → InRange t → InRange (train_choice s dir t)
unfolding train_choice
train_choice-InRange s dir t v = elim (Bool-cases (xor s.pred_inter (nonneg s.lsum))) [
  | inr agree ↦ rw agree v
  | inl differ ↦ rw differ (record {
    bias = v.bias;
    biassk = v.biassk;
    biasbank = v.biasbank;
    wb = v.wb;
    g = v.g;
    p = v.p;
    l = v.l;
    s = v.s;
    t = v.t;
    im = v.im;
    i = v.i;
    first_h =
        if-Fits 7 _ _ t.first_h (ctrupdate-Fits 7 t.first_h (same s.pred_inter dir) v.first_h).0
          v.first_h;
    second_h =
        if-Fits 7 _ _ t.second_h (ctrupdate-Fits 7 t.second_h (same s.pred_inter dir) v.second_h).0
          v.second_h;
    threshold = v.threshold;
    thresholds = v.thresholds;
  })
]

if-InRange : (b : Bool) (x y : Tables) → InRange x → InRange y → InRange (if b then x else y)
if-InRange true x y vx vy = vx
if-InRange false x y vx vy = vy

-- The training of the statistical corrector keeps all its counters in the ranges of their widths: six
-- bits for the tables and the weights, seven for the two counters of the choice, twelve for the common
-- threshold and eight for those of the addresses.
pub train_corrector-InRange :
    (s : Lookup) (pc : ℕ) (dir : Bool) (h : History) (t : Tables)
    → InRange t
    → InRange (train_corrector s pc dir h t)
unfolding train_corrector
train_corrector-InRange s pc dir h t v =
    let c = train_choice-InRange s dir t v in
    if-InRange _ _ (train_choice s dir t)
      (train_sums-InRange s pc dir h _ (train_thresholds-InRange s pc dir _ c)) c
