-- ===== src/Tage/Learn/Sizes.antt =====
-- The sizes of the tables of the statistical corrector (cbp2016_tage_sc_l.h) under training.
use ternary_geo_bp.Base.{
  ℕ, ◌+◌, ◌≡◌, ◌∙◌, refl, ap₂, inl, inr, Bool, true, false, List, [], ◌∷◌, if◌then◌else◌, get_or,
  length, length-set, xor, Bool-cases,
}
use ternary_geo_bp.Base.Int.{ℤ, pos, nonneg}
use ternary_geo_bp.Tage.{Gehl, History, Lookup, Tables, same}
use ternary_geo_bp.Tage.Counter.{bump, ctrupdate}
use ternary_geo_bp.Tage.Sums.{train_tables, train_weight, gupdate, selected}
use ternary_geo_bp.Tage.Hash.{indupd, indupds}
use ternary_geo_bp.Tage.Learn.{train_choice, train_thresholds, train_sums, train_corrector}

abbrev pub lengths_of : List (List ℤ) → List ℕ
lengths_of [] = []
lengths_of (t ∷ ts) = length t ∷ lengths_of ts

-- The number of weights and the sizes of the tables of a component.
abbrev pub sizes : Gehl → List ℕ
sizes g = length g.w ∷ lengths_of g.tab

-- The tables of the corrector, and those of the thresholds and the weights, have their sizes.
pub record HasSizes (r : Tables) : Type 0 where
  pub bias : length r.bias ≡ 256
  pub biassk : length r.biassk ≡ 256
  pub biasbank : length r.biasbank ≡ 256
  pub wb : length r.wb ≡ 8
  pub g : sizes r.g ≡ 8 ∷ 1024 ∷ 1024 ∷ 1024 ∷ []
  pub p : sizes r.p ≡ 8 ∷ 512 ∷ 512 ∷ 512 ∷ []
  pub l : sizes r.l ≡ 8 ∷ 1024 ∷ 1024 ∷ 1024 ∷ []
  pub s : sizes r.s ≡ 8 ∷ 512 ∷ 512 ∷ 512 ∷ []
  pub t : sizes r.t ≡ 8 ∷ 1024 ∷ 1024 ∷ []
  pub im : sizes r.im ≡ 8 ∷ 512 ∷ 512 ∷ []
  pub i : sizes r.i ≡ 8 ∷ 256 ∷ []
  pub thresholds : length r.pupdatethreshold ≡ 64

length-bump :
    (cs : List ℤ) (i : ℕ) (taken : Bool) (nbits : ℕ) → length (bump cs i taken nbits) ≡ length cs
length-bump cs i taken nbits = length-set cs i (ctrupdate (get_or cs i (pos 0)) taken nbits)

length-train_weight :
    (w : List ℤ) (index : ℕ) (lsum sum : ℤ) (taken : Bool)
    → length (train_weight w index lsum sum taken) ≡ length w
unfolding train_weight
length-train_weight w index lsum sum taken =
    if-length _ _ (length-bump w index (same (nonneg sum) taken) 6)
  where
    if-length :
        (b : Bool) (x : List ℤ) → length x ≡ length w → length (if b then x else w) ≡ length w
    if-length true x e = e
    if-length false x e = refl

lengths_of-train_tables :
    (pc : ℕ) (taken : Bool) (bhist : ℕ) (lengths : List ℕ) (logs nbr i : ℕ) (tab : List (List ℤ))
    → lengths_of (train_tables pc taken bhist lengths logs nbr i tab) ≡ lengths_of tab
unfolding train_tables
lengths_of-train_tables pc taken bhist lengths logs nbr i [] = refl
lengths_of-train_tables pc taken bhist lengths logs nbr i (t ∷ tab) =
    ap₂ ◌∷◌ (length-bump t (selected pc bhist lengths i nbr logs) taken 6)
      (lengths_of-train_tables pc taken bhist lengths logs nbr (i + 1) tab)

sizes-gupdate :
    (pc : ℕ) (taken : Bool) (bhist : ℕ) (lsum : ℤ) (g : Gehl)
    → sizes (gupdate pc taken bhist lsum g) ≡ sizes g
unfolding gupdate
sizes-gupdate pc taken bhist lsum g =
    ap₂ ◌∷◌ (length-train_weight g.w (indupds pc) lsum _ taken)
      (lengths_of-train_tables pc taken bhist g.lengths g.logs (length g.tab) 0 g.tab)

train_sums-HasSizes :
    (s : Lookup) (pc : ℕ) (dir : Bool) (h : History) (t : Tables)
    → HasSizes t
    → HasSizes (train_sums s pc dir h t)
unfolding train_sums
train_sums-HasSizes s pc dir h t v = record {
  bias = length-bump t.bias _ dir 6 ∙ v.bias;
  biassk = length-bump t.biassk _ dir 6 ∙ v.biassk;
  biasbank = length-bump t.biasbank _ dir 6 ∙ v.biasbank;
  wb = length-train_weight t.wb (indupds pc) s.lsum _ dir ∙ v.wb;
  g = sizes-gupdate _ dir _ s.lsum t.g ∙ v.g;
  p = sizes-gupdate _ dir _ s.lsum t.p ∙ v.p;
  l = sizes-gupdate _ dir _ s.lsum t.l ∙ v.l;
  s = sizes-gupdate _ dir _ s.lsum t.s ∙ v.s;
  t = sizes-gupdate _ dir _ s.lsum t.t ∙ v.t;
  im = sizes-gupdate _ dir _ s.lsum t.im ∙ v.im;
  i = sizes-gupdate _ dir _ s.lsum t.i ∙ v.i;
  thresholds = v.thresholds;
}

if-HasSizes : (b : Bool) (x y : Tables) → HasSizes x → HasSizes y → HasSizes (if b then x else y)
if-HasSizes true x y vx vy = vx
if-HasSizes false x y vx vy = vy

train_thresholds-HasSizes :
    (s : Lookup) (pc : ℕ) (dir : Bool) (t : Tables)
    → HasSizes t
    → HasSizes (train_thresholds s pc dir t)
unfolding train_thresholds
train_thresholds-HasSizes s pc dir t v = record {
  bias = v.bias;
  biassk = v.biassk;
  biasbank = v.biasbank;
  wb = v.wb;
  g = v.g;
  p = v.p;
  l = v.l;
  s = v.s;
  t = v.t;
  im = v.im;
  i = v.i;
  thresholds = length-set t.pupdatethreshold (indupd pc) _ ∙ v.thresholds;
}

train_choice-HasSizes :
    (s : Lookup) (dir : Bool) (t : Tables) → HasSizes t → HasSizes (train_choice s dir t)
unfolding train_choice
train_choice-HasSizes s dir t v = elim (Bool-cases (xor s.pred_inter (nonneg s.lsum))) [
  | inr agree ↦ rw agree v
  | inl differ ↦ rw differ (record {
    bias = v.bias;
    biassk = v.biassk;
    biasbank = v.biasbank;
    wb = v.wb;
    g = v.g;
    p = v.p;
    l = v.l;
    s = v.s;
    t = v.t;
    im = v.im;
    i = v.i;
    thresholds = v.thresholds;
  })
]

pub train_corrector-HasSizes :
    (s : Lookup) (pc : ℕ) (dir : Bool) (h : History) (t : Tables)
    → HasSizes t
    → HasSizes (train_corrector s pc dir h t)
unfolding train_corrector
train_corrector-HasSizes s pc dir h t v =
    let c = train_choice-HasSizes s dir t v in
    if-HasSizes _ _ (train_choice s dir t)
      (train_sums-HasSizes s pc dir h _ (train_thresholds-HasSizes s pc dir _ c)) c
