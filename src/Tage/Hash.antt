-- ===== src/Tage/Hash.antt =====
-- The indices and tags of the tables (cbp2016_tage_sc_l.h).
use ternary_geo_bp.Base.{
  ℕ, ◌+◌, ◌-◌, ◌/◌, List, ltb, ◌==◌, if◌then◌else◌, not, to_ℕ, ◌&&◌, get_or, u32, u64, ◌<<<◌, ◌>>>◌,
  ◌&&&◌, ◌^^^◌, low_mask, xor,
}
use ternary_geo_bp.Tage.{
  Folded, Config, Lookup, no_fold, history_length, logg, logb, tb, phistwidth, nlocal, nseclocal,
  ntlocal, logtnb, logbias, logsizeup, logsizeups,
}

-- `bindex`
unfoldable pub bindex : ℕ → ℕ
bindex pc = (pc ^^^ (pc >>> logb)) &&& low_mask logb

-- The rotation of a word of `logg` bits by `bank`, where `bank` is below `logg`.
abbrev pub rotated : ℕ → ℕ → ℕ
rotated x bank =
    if ltb bank logg then ((x <<< bank) &&& low_mask logg) + (x >>> (logg - bank)) else x

-- `F`
unfoldable pub mix : ℕ → ℕ → ℕ → ℕ
mix a size bank =
    let a' = a &&& low_mask size in
    let a1 = a' &&& low_mask logg in let a2 = rotated (a' >>> logg) bank in rotated (a1 ^^^ a2) bank

-- `gindex`. The call converts the program counter to unsigned int.
unfoldable pub gindex : Config → ℕ → ℕ → ℕ → List Folded → ℕ
gindex c pc bank hist ch_i =
    let m = history_length c.rounded bank in
    let size = if ltb phistwidth m then phistwidth else m in
    let distance = if ltb bank logg then logg - bank else bank - logg in
    (u32 pc
      ^^^ (u32 pc >>> (distance + 1))
      ^^^ (get_or ch_i bank no_fold).comp
      ^^^ mix hist size bank)
    &&& low_mask logg

-- `gtag`
unfoldable pub gtag : ℕ → ℕ → List Folded → List Folded → ℕ
gtag pc bank tags0 tags1 =
    (u32 pc ^^^ (get_or tags0 bank no_fold).comp ^^^ u32 ((get_or tags1 bank no_fold).comp <<< 1))
    &&& low_mask (tb bank)

-- INDUPD and INDUPDS
abbrev pub indupd : ℕ → ℕ
indupd pc = (pc ^^^ (pc >>> 2)) &&& low_mask logsizeup

abbrev pub indupds : ℕ → ℕ
indupds pc = (pc ^^^ (pc >>> 2)) &&& low_mask logsizeups

-- `get_local_index`, `get_second_local_index`, `get_third_local_index`
abbrev pub get_local_index : ℕ → ℕ
get_local_index pc = (pc ^^^ (pc >>> 2)) &&& (nlocal - 1)

abbrev pub get_second_local_index : ℕ → ℕ
get_second_local_index pc = (pc ^^^ (pc >>> 5)) &&& (nseclocal - 1)

abbrev pub get_third_local_index : ℕ → ℕ
get_third_local_index pc = (pc ^^^ (pc >>> logtnb)) &&& (ntlocal - 1)

-- `get_bias_index`
unfoldable pub get_bias_index : Lookup → ℕ → ℕ
get_bias_index s pc =
    u64 (
      u64 (
        (u64 ((pc ^^^ (pc >>> 2)) <<< 1)
          ^^^ to_ℕ (s.low_conf && xor s.longest_match_pred s.alttaken))
        <<< 1)
      + to_ℕ s.pred_inter)
    &&& low_mask logbias

-- `get_biassk_index`
unfoldable pub get_biassk_index : Lookup → ℕ → ℕ
get_biassk_index s pc =
    u64 (
      u64 ((u64 ((pc ^^^ (pc >>> (logbias - 2))) <<< 1) ^^^ to_ℕ s.high_conf) <<< 1)
      + to_ℕ s.pred_inter)
    &&& low_mask logbias

-- `get_biasbank_index`
unfoldable pub get_biasbank_index : Lookup → ℕ → ℕ
get_biasbank_index s pc =
    u64 (
      to_ℕ s.pred_inter
      + ((s.hit_bank + 1) / 4 <<< 4)
      + (to_ℕ s.high_conf <<< 1)
      + (to_ℕ s.low_conf <<< 2)
      + (to_ℕ (not (s.alt_bank == 0)) <<< 3)
      + u64 ((pc ^^^ (pc >>> 2)) <<< 7))
    &&& low_mask logbias
