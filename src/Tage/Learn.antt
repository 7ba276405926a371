-- ===== src/Tage/Learn.antt =====
-- `update` (cbp2016_tage_sc_l.h): the training of all tables when a branch is resolved.
pub mod Threshold
pub mod Sizes
use ternary_geo_bp.Base.{
  ℕ, ◌+◌, ◌-◌, ◌*◌, ◌/◌, ◌%◌, ◌^◌, ◌≡◌, Bool, true, false, not, ◌&&◌, ◌||◌, List, ltb, leb, ◌==◌,
  if◌then◌else◌, to_ℕ, get_or, set, xor, Run, done, ◌>>=◌,
}
use ternary_geo_bp.Base.Int.{ℤ, pos, neg, ◌+ℤ◌, ◌-ℤ◌, nonneg, leb_ℤ, ltb_ℤ, magnitude}
use ternary_geo_bp.Tage.{
  Config, History, Lookup, Tables, TaggedEntry, bank_entry, put_entry, same, nhist, cwidth, uwidth,
  altwidth, confwidth, percwidth, widthres, widthresp,
}
use ternary_geo_bp.Tage.Counter.{ctrupdate, bump}
use ternary_geo_bp.Tage.Random.{myrandom}
use ternary_geo_bp.Tage.Bimodal.{baseupdate}
use ternary_geo_bp.Tage.Hash.{
  get_bias_index, get_biassk_index, get_biasbank_index, get_local_index, get_second_local_index,
  get_third_local_index, indupd, indupds,
}
use ternary_geo_bp.Tage.Match.{strength, indusealt}
use ternary_geo_bp.Tage.Loop.{loopupdate}
use ternary_geo_bp.Tage.Sums.{train_weight, gupdate}
use ternary_geo_bp.Tage.Corrector.{bias_sum, with_inter, weaker, quotient}
use ternary_geo_bp.Tage.Allocate.{allocate}

-- The loop predictor of the running history, after a misprediction: it is put back to that of the
-- prediction, `old`, and trained again.
unfoldable pub repair_loop : Lookup → Bool → Bool → History → ℕ → History → History × ℕ
repair_loop s resolve_dir pred_taken old seed h =
    if xor pred_taken resolve_dir
    then (let withloop =
          if s.lvalid && xor pred_taken s.predloop
          then ctrupdate old.withloop (same s.predloop resolve_dir) 7
          else old.withloop in
        let (ltable, seed') = loopupdate s h.phist h.ptghist seed resolve_dir true old.ltable in
        (record h { ltable = ltable; withloop = withloop }, seed'))
    else (h, seed)

-- The counters of the choice between TAGE and the corrector.
unfoldable pub train_choice : Lookup → Bool → Tables → Tables
train_choice s resolve_dir t =
    let right = same s.pred_inter resolve_dir in
    let quarter = weaker s (quotient s.thres 4) in
    if xor s.pred_inter (nonneg s.lsum)
    then record t {
      second_h =
          (if weaker s s.thres && s.high_conf && weaker s (quotient s.thres 2) && not quarter
            then ctrupdate t.second_h right confwidth
            else t.second_h);
      first_h = (if s.med_conf && quarter then ctrupdate t.first_h right confwidth else t.first_h);
    }
    else t

-- A threshold, which is moved by one and kept in the range of `nbits` bits.
unfoldable pub move_threshold : Bool → ℕ → ℤ → ℤ
move_threshold up nbits x =
    let y = if up then x +ℤ pos 1 else x -ℤ pos 1 in
    let limit = 2 ^ (nbits - 1) in
    if leb_ℤ (pos limit) y then pos (limit - 1) else if ltb_ℤ y (neg limit) then neg limit else y

unfoldable pub train_thresholds : Lookup → ℕ → Bool → Tables → Tables
train_thresholds s pc resolve_dir t =
    let up = xor (nonneg s.lsum) resolve_dir in
    record t {
      pupdatethreshold =
          set t.pupdatethreshold (indupd pc)
            (move_threshold up widthresp (get_or t.pupdatethreshold (indupd pc) (pos 0)));
      updatethreshold = move_threshold up widthres t.updatethreshold;
    }

-- The tables of the corrector, with the history of the prediction.
unfoldable pub train_sums : Lookup → ℕ → Bool → History → Tables → Tables
train_sums s pc resolve_dir h t = record t {
  wb = train_weight t.wb (indupds pc) s.lsum (bias_sum t s pc) resolve_dir;
  bias = bump t.bias (get_bias_index s pc) resolve_dir percwidth;
  biassk = bump t.biassk (get_biassk_index s pc) resolve_dir percwidth;
  biasbank = bump t.biasbank (get_biasbank_index s pc) resolve_dir percwidth;
  g = gupdate (with_inter pc s) resolve_dir h.ghist_word s.lsum t.g;
  p = gupdate pc resolve_dir h.phist s.lsum t.p;
  l = gupdate pc resolve_dir (get_or h.l_shist (get_local_index pc) 0) s.lsum t.l;
  s = gupdate pc resolve_dir (get_or h.s_slhist (get_second_local_index pc) 0) s.lsum t.s;
  t = gupdate pc resolve_dir (get_or h.t_slhist (get_third_local_index pc) 0) s.lsum t.t;
  im = gupdate pc resolve_dir (get_or h.imhist h.imli_count 0) s.lsum t.im;
  i = gupdate pc resolve_dir h.imli_count s.lsum t.i;
}

-- The part of the statistical corrector.
unfoldable pub train_corrector : Lookup → ℕ → Bool → History → Tables → Tables
train_corrector s pc resolve_dir h t0 =
    let t = train_choice s resolve_dir t0 in
    if xor (nonneg s.lsum) resolve_dir || weaker s s.thres
    then train_sums s pc resolve_dir h (train_thresholds s pc resolve_dir t)
    else t

-- Whether the longest match is weak, as a new entry is.
abbrev pub pseudo_new : Lookup → Tables → Bool
pseudo_new s t = ltb 0 s.hit_bank && leb (strength (bank_entry t s.gi s.hit_bank)) 1

-- use_alt_on_na
unfoldable pub train_alt : Lookup → Bool → Tables → Tables
train_alt s resolve_dir t =
    if pseudo_new s t && xor s.longest_match_pred s.alttaken
    then record t {
      use_alt_on_na = bump t.use_alt_on_na (indusealt s) (same s.alttaken resolve_dir) altwidth;
    }
    else t

-- ALLOC, before the random number.
unfoldable pub wants_entry : Lookup → Bool → Tables → Bool
wants_entry s resolve_dir t =
    xor s.tage_pred resolve_dir
    && ltb s.hit_bank nhist
    && not (pseudo_new s t && same s.longest_match_pred resolve_dir)

-- The entry of a bank after ctrupdate.
abbrev pub trained : TaggedEntry → Bool → TaggedEntry
trained e resolve_dir = record e { ctr = ctrupdate e.ctr resolve_dir cwidth }

-- The alternate prediction is trained as well, where a weak longest match was wrong.
unfoldable pub train_alternate : Lookup → Bool → Tables → Tables
train_alternate s resolve_dir t =
    if (strength (bank_entry t s.gi s.hit_bank) == 1) && xor s.longest_match_pred resolve_dir
    then (if ltb 0 s.alt_bank
        then put_entry t s.gi s.alt_bank (trained (bank_entry t s.gi s.alt_bank) resolve_dir)
        else record t { btable = baseupdate t.btable s resolve_dir })
    else t

-- The longest match: its counter, and its u where it cannot have been useful.
unfoldable pub train_longest : Lookup → Bool → Tables → Tables
train_longest s resolve_dir t =
    let e = trained (bank_entry t s.gi s.hit_bank) resolve_dir in
    let e1 = if strength e == 1 then record e { u = 0 } else e in
    let t1 = put_entry t s.gi s.hit_bank e1 in
    let needless =
      same s.alttaken resolve_dir
      && ltb 0 s.alt_bank
      && (strength (bank_entry t1 s.gi s.alt_bank) == 7)
      && (e1.u == 1)
      && same s.longest_match_pred resolve_dir in
    if needless then put_entry t1 s.gi s.hit_bank (record e1 { u = 0 }) else t1

unfoldable pub train_banks : Lookup → Bool → Tables → Tables
train_banks s resolve_dir t =
    if ltb 0 s.hit_bank
    then train_longest s resolve_dir (train_alternate s resolve_dir t)
    else record t { btable = baseupdate t.btable s resolve_dir }

-- The usefulness of the longest match, where it was right and the alternate prediction was not.
unfoldable pub reward : Config → Lookup → Bool → Bool → Tables → Tables
reward c s resolve_dir is_ld_dependent t =
    let e = bank_entry t s.gi s.hit_bank in
    if xor s.longest_match_pred s.alttaken
      && same s.longest_match_pred resolve_dir
      && ltb e.u (2 ^ uwidth - 1)
    then put_entry t s.gi s.hit_bank
        (record e { u = e.u + 1 + (if is_ld_dependent then c.u_increment else 0) })
    else t

-- The part of TAGE. `h` is the running history, which MYRANDOM reads.
unfoldable pub train_tage : ℕ → Config → Lookup → Bool → Bool → Bool → History → Tables → Run Tables
train_tage fuel c s resolve_dir pred_taken is_ld_dependent h t =
    let t1 = train_alt s resolve_dir t in
    let random = myrandom t1.seed h.phist h.ptghist in
    let right = same pred_taken resolve_dir in
    let alloc = wants_entry s resolve_dir t && not (right && not (random % 32 == 0)) in
    let t2 = if right then record t1 { seed = random } else t1 in
    do
      t3 ← (if alloc then allocate fuel s resolve_dir h t2 else done t2)
      done (reward c s resolve_dir is_ld_dependent (train_banks s resolve_dir t3))

-- `update`, with the history of the prediction: the tables and the running history afterwards.
unfoldable pub learn :
    ℕ
    → Config
    → Lookup
    → ℕ
    → Bool
    → Bool
    → History
    → Bool
    → History
    → Tables
    → Run (Tables × History)
learn fuel c s pc resolve_dir pred_taken old is_ld_dependent h t =
    let (h', seed') = repair_loop s resolve_dir pred_taken old t.seed h in
    do
      t' ←
          train_tage fuel c s resolve_dir pred_taken is_ld_dependent h'
            (train_corrector s pc resolve_dir old (record t { seed = seed' }))
      done (t', h')
