-- ===== src/Tage/Fold.antt =====
-- `folded_history` (cbp2016_tage_sc_l.h): the exclusive or of the pieces of the last bits of a
-- history, kept up as the history grows.
use ternary_geo_bp.Base.{ℕ, ◌+◌, ◌-◌, ◌%◌, List, get_or, u32, ◌<<<◌, ◌>>>◌, ◌&&&◌, ◌^^^◌, low_mask}
use ternary_geo_bp.Tage.{Folded, histbufferlength}

-- `init`
unfoldable pub init : ℕ → ℕ → Folded
init original_length compressed_length = record {
  comp = 0;
  olength = original_length;
  clength = compressed_length;
  outpoint = original_length % compressed_length;
}

-- h[i & (HISTBUFFERLENGTH - 1)]
abbrev pub history_bit : List ℕ → ℕ → ℕ
history_bit h i = get_or h (i &&& (histbufferlength - 1)) 0

-- `update`
unfoldable pub update : Folded → List ℕ → ℕ → Folded
update f h pt =
    let shifted = u32 (f.comp <<< 1) ^^^ history_bit h pt in
    let removed = shifted ^^^ u32 (history_bit h (u32 (pt + f.olength)) <<< f.outpoint) in
    let folded = removed ^^^ (removed >>> f.clength) in
    record f { comp = folded &&& low_mask f.clength }
