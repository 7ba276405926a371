-- ===== src/Ittage/Tests.antt =====
-- A predictor as it is constructed: a lookup, an update after it, and an allocation in an empty table.
use ternary_geo_bp.Base.{ℕ, ◌*◌, ◌≡◌, ◌≢◌, ◌<◌, get_or, refl, none, some, [], replicate, done}
use ternary_geo_bp.Ittage.{Predictor, myrandom, reinit}
use ternary_geo_bp.Ittage.Predict.{get_prediction}
use ternary_geo_bp.Ittage.Predict.Longest.{Found, get_prediction-Found}
use ternary_geo_bp.Ittage.Train.{allocate, first_bank, update_predictor}
use ternary_geo_bp.Ittage.Train.Hits.{update_predictor-done}
use ternary_geo_bp.Ittage.Train.Above.{IsAged, allocate-IsAged}

abbrev rounded : ℕ → ℕ
rounded i = 8 * i

abbrev start : Predictor
start = reinit rounded (replicate 4096 0)

-- The random numbers after the first two.
random_words : (myrandom 0 0 0 ≡ 2) × (first_bank none 2 ≡ 1) × (first_bank (some 3) 1 ≡ 4)
unfolding myrandom
random_words = (refl, refl, refl)

get_prediction-Found_example :
    Found (get_prediction rounded start 0x4010).1 (get_prediction rounded start 0x4010).0
get_prediction-Found_example = get_prediction-Found rounded start 0x4010

update_predictor-done_example :
    (q : Predictor) × (update_predictor (get_prediction rounded start 0x4010).1 0x4010 0x5000
      ≡ done q)
update_predictor-done_example = update_predictor-done rounded start 0x4010 0x4010 0x5000

-- Bank 3 was hit.
abbrev hit_start : Predictor
hit_start = record start { hit_bank = some 3 }

allocate-IsAged_example :
    (b : ℕ) × (b' : ℕ) × (3 < b)
    × (3 < b')
    × ((j : ℕ)
        → j ≢ b
        → j ≢ b'
        → IsAged (get_or hit_start.itable j []) (get_or (allocate hit_start 0x5000).itable j []))
allocate-IsAged_example = allocate-IsAged hit_start 0x5000 3 refl
