-- ===== src/Tage.antt =====
-- cbp2016_tage_sc_l.h: the conditional predictor, of the build with SC, IMLI, LOCALH, LOOPPREDICTOR,
-- LOCALS and LOCALT. This file has its constants and its state: `Tables` are the global tables and
-- counters, `History` is `cbp_hist_t`, `Lookup` the members that a prediction sets and an update
-- reads. An int8_t counter and an int sum of counters are integers; the other int and the unsigned
-- values are the words that hold them.
pub mod Counter
pub mod Random
pub mod Fold
pub mod Hash
pub mod Bimodal
pub mod Match
pub mod Loop
pub mod Sums
pub mod Corrector
pub mod Record
pub mod Allocate
pub mod Learn
pub mod Checkpoint
pub mod Init
pub mod Reachable
mod Tests
use ternary_geo_bp.Base.{
  ℕ, ◌+◌, ◌-◌, ◌*◌, ◌/◌, ◌%◌, ◌^◌, Bool, true, false, not, ◌&&◌, ◌||◌, List, [], ◌∷◌, ltb, leb,
  ◌==◌, if◌then◌else◌, get_or, set, Option, xor,
}
use ternary_geo_bp.Base.Int.{ℤ, pos}

-- LOGL, WIDTHNBITERLOOP, LOOPTAG, CONFLOOP
abbrev pub logl : ℕ
logl = 5

abbrev pub widthnbiterloop : ℕ
widthnbiterloop = 10

abbrev pub looptag : ℕ
looptag = 10

abbrev pub confloop : ℕ
confloop = 15

-- BORNTICK
abbrev pub borntick : ℕ
borntick = 1024

-- PERCWIDTH, EWIDTH, CONFWIDTH, WIDTHRES, WIDTHRESP
abbrev pub percwidth : ℕ
percwidth = 6

abbrev pub ewidth : ℕ
ewidth = 6

abbrev pub confwidth : ℕ
confwidth = 7

abbrev pub widthres : ℕ
widthres = 12

abbrev pub widthresp : ℕ
widthresp = 8

-- LOGBIAS, LOGSIZEUP, LOGSIZEUPS
abbrev pub logbias : ℕ
logbias = 8

abbrev pub logsizeup : ℕ
logsizeup = 6

abbrev pub logsizeups : ℕ
logsizeups = 3

-- HISTBUFFERLENGTH, PHISTWIDTH
abbrev pub histbufferlength : ℕ
histbufferlength = 4096

abbrev pub phistwidth : ℕ
phistwidth = 27

-- NHIST, NBANKLOW, NBANKHIGH, BORN, BORNINFASSOC, BORNSUPASSOC
abbrev pub nhist : ℕ
nhist = 36

abbrev pub nbanklow : ℕ
nbanklow = 10

abbrev pub nbankhigh : ℕ
nbankhigh = 20

abbrev pub born : ℕ
born = 13

abbrev pub borninfassoc : ℕ
borninfassoc = 9

abbrev pub bornsupassoc : ℕ
bornsupassoc = 23

-- MINHIST, MAXHIST
abbrev pub minhist : ℕ
minhist = 6

abbrev pub maxhist : ℕ
maxhist = 3000

-- LOGG, which every logg[i] is, TBITS, HYSTSHIFT, LOGB, NNN
abbrev pub logg : ℕ
logg = 10

abbrev pub tbits : ℕ
tbits = 8

abbrev pub hystshift : ℕ
hystshift = 2

abbrev pub logb : ℕ
logb = 13

abbrev pub nnn : ℕ
nnn = 1

-- UWIDTH, CWIDTH, ALTWIDTH, SIZEUSEALT
abbrev pub uwidth : ℕ
uwidth = 1

abbrev pub cwidth : ℕ
cwidth = 3

abbrev pub altwidth : ℕ
altwidth = 5

abbrev pub sizeusealt : ℕ
sizeusealt = 16

-- NLOCAL, NSECLOCAL, NTLOCAL, LOGTNB
abbrev pub nlocal : ℕ
nlocal = 256

abbrev pub nseclocal : ℕ
nseclocal = 16

abbrev pub ntlocal : ℕ
ntlocal = 16

abbrev pub logtnb : ℕ
logtnb = 10

-- Im[0]
abbrev pub imli_width : ℕ
imli_width = 8

-- NOSKIP
abbrev pub noskip : ℕ → Bool
noskip i =
    (((i - 1) % 2 == 1) || (leb borninfassoc i && ltb i bornsupassoc))
    && not ((i == 4) || ((i == nhist - 2) || ((i == 8) || (i == nhist - 6))))

-- TB
abbrev pub tb : ℕ → ℕ
tb i = tbits + (if leb born i then 4 else 0)

-- m[i], where `rounded i` is the value of the expression with pow of <math.h>.
abbrev pub history_length : (ℕ → ℕ) → ℕ → ℕ
history_length rounded i = if ltb i 3 then minhist else rounded ((i + 1) / 2)

-- What the predictor is configured by: `rounded`, and U_incrment, which is from 0 to 126, so that an
-- int8_t holds the sum in which it is used.
pub record Config : Type 0 where
  pub rounded : ℕ → ℕ
  pub u_increment : ℕ

-- bentry
pub record BaseEntry : Type 0 where
  pub hyst : ℕ
  pub pred : ℕ

-- gentry
pub record TaggedEntry : Type 0 where
  pub ctr : ℤ
  pub tag : ℕ
  pub u : ℕ

-- lentry
pub record LoopEntry : Type 0 where
  pub nb_iter : ℕ
  pub confid : ℕ
  pub current_iter : ℕ
  pub tag : ℕ
  pub age : ℕ
  pub dir : Bool

-- folded_history
pub record Folded : Type 0 where
  pub comp : ℕ
  pub clength : ℕ
  pub olength : ℕ
  pub outpoint : ℕ

-- cbp_hist_t; `ghist_word` is GHIST.
pub record History : Type 0 where
  pub ghist_word : ℕ
  pub ghist : List ℕ
  pub phist : ℕ
  pub ptghist : ℕ
  pub ch_i : List Folded
  pub ch_t0 : List Folded
  pub ch_t1 : List Folded
  pub l_shist : List ℕ
  pub s_slhist : List ℕ
  pub t_slhist : List ℕ
  pub imhist : List ℕ
  pub imli_count : ℕ
  pub ltable : List LoopEntry
  pub withloop : ℤ

-- The tables of one GEHL component: the history lengths, the tables, the log of their sizes, and the
-- weights of the sum.
pub record Gehl : Type 0 where
  pub lengths : List ℕ
  pub tab : List (List ℤ)
  pub logs : ℕ
  pub w : List ℤ

-- The global tables and counters. `low` is gtable[1] and `high` is gtable[BORN].
pub record Tables : Type 0 where
  pub btable : List BaseEntry
  pub low : List TaggedEntry
  pub high : List TaggedEntry
  pub use_alt_on_na : List ℤ
  pub bias : List ℤ
  pub biassk : List ℤ
  pub biasbank : List ℤ
  pub wb : List ℤ
  pub g : Gehl
  pub p : Gehl
  pub l : Gehl
  pub s : Gehl
  pub t : Gehl
  pub im : Gehl
  pub i : Gehl
  pub updatethreshold : ℤ
  pub pupdatethreshold : List ℤ
  pub first_h : ℤ
  pub second_h : ℤ
  pub tick : ℤ
  pub seed : ℕ

-- What a prediction sets. `lhit` is none for LHIT -1.
pub record Lookup : Type 0 where
  pub gi : List ℕ
  pub gtag : List ℕ
  pub bi : ℕ
  pub bim : ℕ
  pub thres : ℤ
  pub predloop : Bool
  pub lib : ℕ
  pub li : ℕ
  pub lhit : Option ℕ
  pub ltag : ℕ
  pub lvalid : Bool
  pub tage_pred : Bool
  pub alttaken : Bool
  pub longest_match_pred : Bool
  pub hit_bank : ℕ
  pub alt_bank : ℕ
  pub pred_inter : Bool
  pub low_conf : Bool
  pub high_conf : Bool
  pub med_conf : Bool
  pub alt_conf : Bool
  pub lsum : ℤ

-- CBP2016_TAGE_SC_L, with pred_time_histories as a list of keys and values.
pub record Predictor : Type 0 where
  pub tables : Tables
  pub look : Lookup
  pub hist : History
  pub histories : List (ℕ × History)

-- What reads past the arrays would give; no operation on a well-formed state uses them.
abbrev pub no_entry : TaggedEntry
no_entry = record { ctr = pos 0; tag = 0; u = 0 }

abbrev pub no_base : BaseEntry
no_base = record { hyst = 1; pred = 0 }

abbrev pub no_loop : LoopEntry
no_loop = record { nb_iter = 0; confid = 0; current_iter = 0; tag = 0; age = 0; dir = false }

abbrev pub no_fold : Folded
no_fold = record { comp = 0; clength = 1; olength = 0; outpoint = 0 }

-- gtable[bank]
abbrev pub bank_table : Tables → ℕ → List TaggedEntry
bank_table t bank = if ltb bank born then t.low else t.high

-- gtable[bank][GI[bank]]
abbrev pub bank_entry : Tables → List ℕ → ℕ → TaggedEntry
bank_entry t gi bank = get_or (bank_table t bank) (get_or gi bank 0) no_entry

-- gtable[bank][GI[bank]] = e
abbrev pub put_entry : Tables → List ℕ → ℕ → TaggedEntry → Tables
put_entry t gi bank e =
    if ltb bank born
    then record t { low = set t.low (get_or gi bank 0) e }
    else record t { high = set t.high (get_or gi bank 0) e }

-- C a == b of two bool.
abbrev pub same : Bool → Bool → Bool
same a b = not (xor a b)
