-- ===== src/Tage/Sums.antt =====
-- `Gpredict` and `Gupdate` (cbp2016_tage_sc_l.h): the sum of the counters that a history selects, and
-- its training.
use ternary_geo_bp.Base.{
  ℕ, ◌+◌, ◌-◌, ◌*◌, Bool, List, [], ◌∷◌, leb, if◌then◌else◌, to_ℕ, length, get_or, ◌>>>◌, ◌&&&◌,
  ◌^^^◌, low_mask, xor,
}
use ternary_geo_bp.Base.Int.{ℤ, pos, ◌+ℤ◌, ◌-ℤ◌, nonneg, centred, times}
use ternary_geo_bp.Tage.{Gehl, same, ewidth, percwidth}
use ternary_geo_bp.Tage.Counter.{bump}
use ternary_geo_bp.Tage.Hash.{indupds}

-- GINDEX, of table `i` of `nbr`.
unfoldable pub gehl_index : ℕ → ℕ → ℕ → ℕ → ℕ → ℕ
gehl_index pc bhist i nbr logs =
    (pc
      ^^^ bhist
      ^^^ (bhist >>> (8 - i))
      ^^^ (bhist >>> (16 - 2 * i))
      ^^^ (bhist >>> (24 - 3 * i))
      ^^^ (bhist >>> (32 - 3 * i))
      ^^^ (bhist >>> (40 - 4 * i)))
    &&& low_mask (logs - (if leb (nbr - 2) i then 1 else 0))

-- The counter of table `i` that is selected.
abbrev pub selected : ℕ → ℕ → List ℕ → ℕ → ℕ → ℕ → ℕ
selected pc bhist lengths i nbr logs =
    gehl_index pc (bhist &&& low_mask (get_or lengths i 0)) i nbr logs

-- The sum over the tables `tab` from table `i` on.
unfoldable pub percsum : ℕ → ℕ → List ℕ → ℕ → ℕ → ℕ → List (List ℤ) → ℤ
percsum pc bhist lengths logs nbr i [] = pos 0
percsum pc bhist lengths logs nbr i (table ∷ tab) =
    centred (get_or table (selected pc bhist lengths i nbr logs) (pos 0))
    +ℤ percsum pc bhist lengths logs nbr (i + 1) tab

-- 1 + (w >= 0)
abbrev pub weight : ℤ → ℕ
weight w = 1 + to_ℕ (nonneg w)

-- `Gpredict`
unfoldable pub gpredict : ℕ → ℕ → Gehl → ℤ
gpredict pc bhist g =
    times (weight (get_or g.w (indupds pc) (pos 0)))
      (percsum pc bhist g.lengths g.logs (length g.tab) 0 g.tab)

-- The loop of `Gupdate`.
unfoldable pub train_tables : ℕ → Bool → ℕ → List ℕ → ℕ → ℕ → ℕ → List (List ℤ) → List (List ℤ)
train_tables pc taken bhist lengths logs nbr i [] = []
train_tables pc taken bhist lengths logs nbr i (table ∷ tab) =
    bump table (selected pc bhist lengths i nbr logs) taken percwidth
    ∷ train_tables pc taken bhist lengths logs nbr (i + 1) tab

-- The weight of a component after `Gupdate`, where `sum` is its sum before the training.
unfoldable pub train_weight : List ℤ → ℕ → ℤ → ℤ → Bool → List ℤ
train_weight w index lsum sum taken =
    let xsum = lsum -ℤ times (to_ℕ (nonneg (get_or w index (pos 0)))) sum in
    if xor (nonneg (xsum +ℤ sum)) (nonneg xsum)
    then bump w index (same (nonneg sum) taken) ewidth
    else w

-- `Gupdate`
unfoldable pub gupdate : ℕ → Bool → ℕ → ℤ → Gehl → Gehl
gupdate pc taken bhist lsum g = record g {
  tab = train_tables pc taken bhist g.lengths g.logs (length g.tab) 0 g.tab;
  w =
      train_weight g.w (indupds pc) lsum (percsum pc bhist g.lengths g.logs (length g.tab) 0 g.tab)
        taken;
}
