-- ===== src/Pipeline/Drain.antt =====
-- The part of `step` (lib/uarchsim.cc) that sends the prefetches of the queue to the L1 cache.
pub mod Calls
pub mod Ends
use ternary_geo_bp.Base.{
  ℕ, zero, suc, ◌+◌, ◌-◌, Bool, true, false, ◌==◌, if◌then◌else◌, length, u64, max_cycle, Run, done,
  out_of_fuel, ◌>>=◌,
}
use ternary_geo_bp.Schedule.{schedule}
use ternary_geo_bp.Prefetcher.{Prefetch, issue, put_back}
use ternary_geo_bp.Pipeline.{Machine, Options, max}
use ternary_geo_bp.Pipeline.Execute.{access_l1}

module _ {P I V : Type 0} (o : Options) where
  -- The inner loop over the `n` cycles from `now` on: whether the prefetch was sent.
  unfoldable pub send : ℕ → ℕ → Machine P I V → Prefetch → ℕ → Run (Bool × Machine P I V)
  send fuel zero m p now = done (false, m)
  send fuel (suc n) m p now = do
    (cycle_pf_exec, lanes) ← schedule fuel m.ldst_lanes now 0
    let m' = record m { ldst_lanes = lanes }
    elim (cycle_pf_exec == max_cycle) [
      | true ↦ send fuel n m' p (now + 1)
      | false ↦ do
        (available, sent) ← access_l1 o m' cycle_pf_exec p.address true
        done (true, record sent { stat_pfs_issued_to_mem = u64 (sent.stat_pfs_issued_to_mem + 1) })
    ]

  -- The outer loop. The second fuel is for `schedule`.
  unfoldable pub drain_from : ℕ → ℕ → Machine P I V → Prefetch → Run (Machine P I V)
  drain_from zero fuel m p = out_of_fuel
  drain_from (suc k) fuel m p =
      let (issued, q, prefetcher) = issue m.prefetcher p m.fetch_cycle in
      let m1 = record m { prefetcher = prefetcher } in
      elim issued [
        | false ↦ done m1
        | true ↦
            let from = max m1.previous_fetch_cycle q.cycle_generated in
            do
              (sent, m2) ← send fuel (m1.fetch_cycle + 1 - from) m1 q from
              elim sent [
                | true ↦ drain_from k fuel m2 q
                | false ↦ done (record m2 { prefetcher = put_back m2.prefetcher q })
              ]
      ]

  -- The drain, with a turn for each prefetch of the queue and one to find it empty.
  unfoldable pub drain : ℕ → Machine P I V → Run (Machine P I V)
  drain fuel m =
      if o.prefetcher_enable
      then drain_from (length m.prefetcher.queue + 1) fuel m
          (record { address = 0; cycle_generated = 0 })
      else done m
