-- ===== src/Tage/Match.antt =====
-- `Tagepred` (cbp2016_tage_sc_l.h): the indices and tags of an address, the longest matching bank,
-- the alternate bank, and the choice between their predictions.
pub mod Longest
pub mod Bounds
use ternary_geo_bp.Base.{
  ℕ, zero, suc, ◌+◌, ◌-◌, ◌*◌, ◌/◌, ◌%◌, ◌^◌, ◌≡◌, Bool, true, false, not, ◌&&◌, ◌||◌, List, [],
  ltb, leb, ◌==◌, if◌then◌else◌, to_ℕ, get_or, set, ◌<<<◌, ◌>>>◌, ◌&&&◌, ◌^^^◌, low_mask,
}
use ternary_geo_bp.Base.Int.{ℤ, pos, nonneg, magnitude, centred}
use ternary_geo_bp.Tage.{
  Config, History, Lookup, Tables, TaggedEntry, bank_entry, history_length, noskip, nhist, nbanklow,
  nbankhigh, born, logg, logb, cwidth, sizeusealt,
}
use ternary_geo_bp.Tage.Bimodal.{getbim}
use ternary_geo_bp.Tage.Hash.{gindex, gtag}

-- The loop that hashes, for `n` pairs of banks from the odd bank `i` on: GI and GTAG.
unfoldable pub hash_banks : Config → ℕ → History → ℕ → ℕ → List ℕ × List ℕ → List ℕ × List ℕ
hash_banks c pc h zero i (gi, tags) = (gi, tags)
hash_banks c pc h (suc n) i (gi, tags) =
    let index = gindex c pc i h.phist h.ch_i in
    let tag = gtag pc i h.ch_t0 h.ch_t1 in
    hash_banks c pc h n (i + 2) (
      set (set gi i index) (i + 1) (index ^^^ (tag &&& low_mask logg)),
      set (set tags i tag) (i + 1) tag,
    )

-- The loops that spread `n` banks from `i` on over the `nbank` interleaved banks, from bank `t` on.
unfoldable pub spread : ℕ → ℕ → ℕ → ℕ → List ℕ → List ℕ
spread nbank zero i t gi = gi
spread nbank (suc n) i t gi =
    spread nbank n (i + 1) (if noskip i then (t + 1) % nbank else t)
      (if noskip i then set gi i (get_or gi i 0 + (t <<< logg)) else gi)

-- GI and GTAG of an address.
unfoldable pub place : Config → ℕ → History → List ℕ × List ℕ → List ℕ × List ℕ
place c pc h old =
    let (gi, tags) = hash_banks c pc h (nhist / 2) 1 old in
    let t_high = (pc ^^^ (h.phist &&& low_mask (history_length c.rounded born))) % nbankhigh in
    let t_low = (pc ^^^ (h.phist &&& low_mask (history_length c.rounded 1))) % nbanklow in
    (spread nbanklow (born - 1) 1 t_low (spread nbankhigh (nhist + 1 - born) born t_high gi), tags)

-- The tag of the entry of a bank is the one that is looked for.
abbrev pub tag_matches : Tables → List ℕ → List ℕ → ℕ → Bool
tag_matches t gi tags bank = noskip bank && ((bank_entry t gi bank).tag == get_or tags bank 0)

-- The loops that look for a bank from `i` down; 0 where there is none.
unfoldable pub find_bank : Tables → List ℕ → List ℕ → ℕ → ℕ
find_bank t gi tags zero = 0
find_bank t gi tags (suc i) =
    let shorter = find_bank t gi tags i in if tag_matches t gi tags (suc i) then suc i else shorter

-- abs (2 * ctr + 1)
abbrev pub strength : TaggedEntry → ℕ
strength e = magnitude (centred e.ctr)

-- INDUSEALT, for a bank that matched.
abbrev pub indusealt : Lookup → ℕ
indusealt s = (((s.hit_bank - 1) / 8 <<< 1) + to_ℕ s.alt_conf) % (sizeusealt - 1)

-- The alternate prediction, where a bank matched.
unfoldable pub alternate : Tables → Lookup → Lookup
alternate t s =
    if ltb 0 s.alt_bank
    then record s {
      alttaken = nonneg (bank_entry t s.gi s.alt_bank).ctr;
      alt_conf = ltb 1 (strength (bank_entry t s.gi s.alt_bank));
    }
    else record (getbim t.btable s).1 { alttaken = (getbim t.btable s).0 }

-- The choice between the longest match and the alternate prediction, and the confidence in it.
unfoldable pub choose : Tables → Lookup → Lookup
choose t s =
    let strong = strength (bank_entry t s.gi s.hit_bank) in
    let huse_alt_on_na = nonneg (get_or t.use_alt_on_na (indusealt s) (pos 0)) in
    record s {
      tage_pred = (if not huse_alt_on_na || ltb 1 strong then s.longest_match_pred else s.alttaken);
      high_conf = leb (2 ^ cwidth - 1) strong;
      low_conf = strong == 1;
      med_conf = strong == 5;
    }

-- The lookup with all three predictions set to that of the bimodal table.
abbrev pub from_base : Bool × Lookup → Lookup
from_base (b, s) = record s { alttaken = b; tage_pred = b; longest_match_pred = b }

-- The end of `Tagepred`, once the banks have been found.
unfoldable pub predict_from : Tables → Lookup → Lookup
predict_from t s =
    if ltb 0 s.hit_bank
    then choose t
        (alternate t (record s { longest_match_pred = nonneg (bank_entry t s.gi s.hit_bank).ctr }))
    else s

-- `Tagepred`
unfoldable pub tagepred : Config → Tables → ℕ → History → Lookup → Lookup
tagepred c t pc h old =
    let (gi, tags) = place c pc h (old.gi, old.gtag) in
    let s = from_base (
      getbim t.btable
        (record old { gi = gi; gtag = tags; bi = (pc ^^^ (pc >>> 2)) &&& low_mask logb })) in
    let hit_bank = find_bank t gi tags nhist in
    predict_from t (record s { hit_bank = hit_bank; alt_bank = find_bank t gi tags (hit_bank - 1) })
