-- ===== src/Tage/Reachable/Inside.antt =====
-- The accesses to the tagged tables in the runs of the predictor (cbp2016_tage_sc_l.h).
use ternary_geo_bp.Base.{ℕ, ◌≤◌, ◌<◌, Bool-cases, inl, inr, arith, ltb, length, get_or}
use ternary_geo_bp.Tage.{Config, History, Predictor, bank_table, born, nhist}
use ternary_geo_bp.Tage.Corrector.{predict_using_given_hist}
use ternary_geo_bp.Tage.Match.Bounds.{place-lt}
use ternary_geo_bp.Tage.Reachable.{Reachable}
use ternary_geo_bp.Tage.Reachable.Lookups.{predict_using_given_hist-gi}
use ternary_geo_bp.Tage.Reachable.Sound.{Reachable-IsPredictor}

-- In every run of the predictor, a prediction, at any address and with any history, leaves for each
-- bank an index that is inside the table of the bank.
pub Reachable-inside :
    {c : Config} {p : Predictor} (pc : ℕ) (h : History) (bank : ℕ)
    → Reachable c p
    → 1 ≤ bank
    → bank ≤ nhist
    → get_or (predict_using_given_hist c p.tables pc h p.look).1.gi bank 0
      < length (bank_table p.tables bank)
Reachable-inside {c} {p} pc h bank r one le =
    let w = Reachable-IsPredictor r in
    let inside = place-lt c pc h p.look.gi p.look.gtag bank w.look.gi one le in
    rw (predict_using_given_hist-gi c p.tables pc h p.look) (elim (Bool-cases (ltb bank born)) [
      | inl low ↦ let small = rw low at inside in rw low (omega (arith, small, w.tables.sized.low))
      | inr high ↦
          let small = rw high at inside in rw high (omega (arith, small, w.tables.sized.high))
    ])
