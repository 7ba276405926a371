-- ===== src/Ittage.antt =====
-- IPREDICTOR (lib/ittage.h), the predictor of indirect targets: its state, and the hashes. The class
-- folded_history of that file is the one of cbp2016_tage_sc_l.h, so its model is Tage.Fold. Words are
-- as in Tage: int and unsigned are 32 bits; a bank of -1 is none. GHIST, pred_target and target_inter
-- are never read.
pub mod Predict
pub mod Record
pub mod Train
mod Tests
use ternary_geo_bp.Base.{
  ℕ, zero, suc, ◌+◌, ◌-◌, ◌^◌, Bool, true, false, Option, none, some, List, [], ◌∷◌, ltb, ◌==◌,
  if◌then◌else◌, replicate, get_or, set, u32, ◌<<<◌, ◌>>>◌, ◌&&&◌, ◌^^^◌, low_mask, dead_beef,
}
use ternary_geo_bp.Base.Int.{ℤ, pos}
use ternary_geo_bp.Tage.{Folded, no_fold, histbufferlength}
use ternary_geo_bp.Tage.Fold

-- NHIST, MINHIST, MAXHIST, LOGG, TBITS, NNN, PHISTWIDTH, UWIDTH, CWIDTH, ALTWIDTH, BORNTICK
abbrev pub nhist : ℕ
nhist = 8

abbrev pub minhist : ℕ
minhist = 2

abbrev pub maxhist : ℕ
maxhist = 300

abbrev pub logg : ℕ
logg = 10

abbrev pub tbits : ℕ
tbits = 11

abbrev pub nnn : ℕ
nnn = 1

abbrev pub phistwidth : ℕ
phistwidth = 27

abbrev pub uwidth : ℕ
uwidth = 2

abbrev pub cwidth : ℕ
cwidth = 3

abbrev pub altwidth : ℕ
altwidth = 5

abbrev pub borntick : ℕ
borntick = 1024

-- ientry
pub record Entry : Type 0 where
  pub target : ℕ
  pub ctr : ℤ
  pub tag : ℕ
  pub u : ℕ

abbrev pub no_entry : Entry
no_entry = record { target = dead_beef; ctr = pos 0; tag = 0; u = 0 }

-- IPREDICTOR
pub record Predictor : Type 0 where
  pub use_alt_on_na : ℤ
  pub tick : ℤ
  pub ghist : List ℕ
  pub ptghist : ℕ
  pub phist : ℕ
  pub ch_i : List Folded
  pub ch_t0 : List Folded
  pub ch_t1 : List Folded
  pub itable : List (List Entry)
  pub gi : List ℕ
  pub gtag : List ℕ
  pub alt_target : ℕ
  pub tage_target : ℕ
  pub longest_match_pred : ℕ
  pub hit_bank : Option ℕ
  pub alt_bank : Option ℕ
  pub seed : ℕ

-- m, where `rounded` gives the lengths between the first one and the last one.
abbrev pub history_length : (ℕ → ℕ) → ℕ → ℕ
history_length rounded bank =
    if bank == 0
    then 0
    else if bank == 1
    then minhist
    else if bank == nhist
    then maxhist
    else rounded bank

-- `init` of the `n` folded histories from bank `i` on.
unfoldable pub init_folds : (ℕ → ℕ) → ℕ → ℕ → ℕ → List Folded
init_folds rounded width zero i = []
init_folds rounded width (suc n) i =
    ternary_geo_bp.Tage.Fold.init (history_length rounded i) width
    ∷ init_folds rounded width n (i + 1)

-- `reinit`, with what `new` and the members leave in `ghist`: the loop clears its first element only.
unfoldable pub reinit : (ℕ → ℕ) → List ℕ → Predictor
reinit rounded garbage = record {
  use_alt_on_na = pos 0;
  tick = pos 0;
  ghist = set garbage 0 0;
  ptghist = 0;
  phist = 0;
  ch_i = init_folds rounded logg (nhist + 1) 0;
  ch_t0 = init_folds rounded tbits (nhist + 1) 0;
  ch_t1 = init_folds rounded (tbits - 1) (nhist + 1) 0;
  itable = replicate (nhist + 1) (replicate (2 ^ logg) no_entry);
  gi = replicate (nhist + 1) 0;
  gtag = replicate (nhist + 1) 0;
  alt_target = 0;
  tage_target = 0;
  longest_match_pred = 0;
  hit_bank = none;
  alt_bank = none;
  seed = 0;
}

-- The rotation of a word of `logg` bits by `bank`, where `bank` is below `logg`.
abbrev pub rotated : ℕ → ℕ → ℕ
rotated x bank =
    if ltb bank logg then ((x <<< bank) &&& low_mask logg) + (x >>> (logg - bank)) else x

-- `F`
unfoldable pub mix : ℕ → ℕ → ℕ → ℕ
mix a size bank =
    let a' = a &&& low_mask size in
    let a1 = a' &&& low_mask logg in let a2 = rotated (a' >>> logg) bank in rotated (a1 ^^^ a2) bank

-- `gindex`. The call converts the program counter to unsigned int.
unfoldable pub gindex : (ℕ → ℕ) → ℕ → ℕ → ℕ → List Folded → ℕ
gindex rounded pc bank hist ch_i =
    let m = history_length rounded bank in
    let size = if ltb phistwidth m then phistwidth else m in
    let distance = if ltb bank logg then logg - bank else bank - logg in
    (u32 pc
      ^^^ (u32 pc >>> (distance + 1))
      ^^^ (get_or ch_i bank no_fold).comp
      ^^^ mix hist size bank)
    &&& low_mask logg

-- `gtag`
unfoldable pub gtag : ℕ → ℕ → List Folded → List Folded → ℕ
gtag pc bank ch0 ch1 =
    (u32 pc ^^^ (get_or ch0 bank no_fold).comp ^^^ u32 ((get_or ch1 bank no_fold).comp <<< 1))
    &&& low_mask tbits

-- x >> k of an int
abbrev pub shift_right : ℕ → ℕ → ℕ
shift_right x k = (x >>> k) + (if ltb x (2 ^ 31) then 0 else 2 ^ 32 - 2 ^ (32 - k))

-- `MYRANDOM`, as the seed afterwards.
unfoldable pub myrandom : ℕ → ℕ → ℕ → ℕ
myrandom seed phist ptghist =
    let s1 = u32 (u32 (seed + 1) ^^^ phist) in
    let s2 = u32 (shift_right s1 21 + u32 (s1 <<< 11)) in
    let s3 = s2 ^^^ ptghist in u32 (shift_right s3 10 + u32 (s3 <<< 22))

-- itable[bank][GI[bank]]
abbrev pub entry_at : List (List Entry) → List ℕ → ℕ → Entry
entry_at itable gi bank = get_or (get_or itable bank []) (get_or gi bank 0) no_entry

abbrev pub put_entry : List (List Entry) → List ℕ → ℕ → Entry → List (List Entry)
put_entry itable gi bank e = set itable bank (set (get_or itable bank []) (get_or gi bank 0) e)
