-- ===== src/Ittage/Predict.antt =====
-- `GetPrediction` (lib/ittage.h).
pub mod Longest
use ternary_geo_bp.Base.{
  ℕ, zero, suc, ◌+◌, Bool, true, false, not, ◌&&◌, ◌||◌, Option, none, some, List, [], ◌∷◌, ltb,
  ◌==◌, if◌then◌else◌, get_or,
}
use ternary_geo_bp.Base.Int.{ℤ, pos, neg, nonneg, leb_ℤ, ltb_ℤ}
use ternary_geo_bp.Ittage.{Entry, Predictor, entry_at, gindex, gtag, nhist}

-- GI and GTAG of the `n` banks from `i` on.
unfoldable pub indices : (ℕ → ℕ) → Predictor → ℕ → ℕ → ℕ → List ℕ
indices rounded p pc zero i = []
indices rounded p pc (suc n) i = gindex rounded pc i p.phist p.ch_i ∷ indices rounded p pc n (i + 1)

unfoldable pub tags : Predictor → ℕ → ℕ → ℕ → List ℕ
tags p pc zero i = []
tags p pc (suc n) i = gtag pc i p.ch_t0 p.ch_t1 ∷ tags p pc n (i + 1)

-- The tag of the entry of a bank is the one that is looked for.
abbrev pub tag_matches : List (List Entry) → List ℕ → List ℕ → ℕ → Bool
tag_matches itable gi gtag bank = (entry_at itable gi bank).tag == get_or gtag bank 0

-- The loops that look for a bank below `n`, the longest history first.
unfoldable pub find_bank : List (List Entry) → List ℕ → List ℕ → ℕ → Option ℕ
find_bank itable gi gtag zero = none
find_bank itable gi gtag (suc i) =
    let shorter = find_bank itable gi gtag i in
    if tag_matches itable gi gtag i then some i else shorter

-- The alternate bank.
abbrev pub find_alt : List (List Entry) → List ℕ → List ℕ → Option ℕ → Option ℕ
find_alt itable gi gtag none = none
find_alt itable gi gtag (some hit) = find_bank itable gi gtag hit

-- The target and the confidence of a bank: 0 and -4 for no bank.
abbrev pub target_of : List (List Entry) → List ℕ → Option ℕ → ℕ
target_of itable gi none = 0
target_of itable gi (some bank) = (entry_at itable gi bank).target

abbrev pub confidence_of : List (List Entry) → List ℕ → Option ℕ → ℤ
confidence_of itable gi none = neg 4
confidence_of itable gi (some bank) = (entry_at itable gi bank).ctr

-- bank > 0
abbrev pub is_positive : Option ℕ → Bool
is_positive none = false
is_positive (some bank) = ltb 0 bank

-- bank < 0
abbrev pub is_negative : Option ℕ → Bool
is_negative none = true
is_negative (some bank) = false

-- tage_target
unfoldable pub choose : Predictor → ℕ
choose p =
    let hit_conf = confidence_of p.itable p.gi p.hit_bank in
    let alt_conf = confidence_of p.itable p.gi p.alt_bank in
    let chosen =
      if is_positive p.hit_bank
      then (if not (nonneg p.use_alt_on_na) || (ltb_ℤ (pos 0) hit_conf || leb_ℤ alt_conf hit_conf)
          then p.longest_match_pred
          else p.alt_target)
      else 0 in
    if is_negative p.alt_bank then p.longest_match_pred else chosen

-- The lookup of an address, before the choice.
unfoldable pub lookup : (ℕ → ℕ) → Predictor → ℕ → Predictor
lookup rounded p pc =
    let gi = indices rounded p pc (nhist + 1) 0 in
    let gtag = tags p pc (nhist + 1) 0 in
    let hit_bank = find_bank p.itable gi gtag (nhist + 1) in
    let alt_bank = find_alt p.itable gi gtag hit_bank in
    record p {
      gi = gi;
      gtag = gtag;
      hit_bank = hit_bank;
      alt_bank = alt_bank;
      longest_match_pred = target_of p.itable gi hit_bank;
      alt_target = target_of p.itable gi alt_bank;
    }

-- `GetPrediction`
unfoldable pub get_prediction : (ℕ → ℕ) → Predictor → ℕ → ℕ × Predictor
get_prediction rounded p pc =
    let looked = lookup rounded p pc in
    (choose looked, record looked { tage_target = choose looked })
