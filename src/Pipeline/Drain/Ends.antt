-- ===== src/Pipeline/Drain/Ends.antt =====
-- The end of the drain of the prefetches (lib/uarchsim.cc): one turn for each prefetch of the queue,
-- and one more, are enough.
use mathlib.Core.Path.{subst}
use ternary_geo_bp.Base.{
  ◌^◌, ◌≢◌, ℕ, zero, suc, ◌+◌, ◌-◌, ◌≡◌, ◌≤◌, ◌<◌, refl, sym, ◌∙◌, ap, Bool, true, false, List, [],
  ◌∷◌, arith, length, leb, ◌==◌, max_cycle, Run, done, assert_failed, out_of_fuel, ◌>>=◌,
  >>=-eq-done, done_injective, Bool-cases, inl, inr, true-false, if◌then◌else◌,
}
use ternary_geo_bp.Cache.{Cache, access}
use ternary_geo_bp.Schedule.{schedule}
use ternary_geo_bp.Prefetcher.{Prefetch, Prefetcher, drop_untimely, issue, issue_front, put_back}
use ternary_geo_bp.Pipeline.{Machine, Options, max}
use ternary_geo_bp.Pipeline.Execute.{access_l1, with_l1}
use ternary_geo_bp.Pipeline.Drain.{drain, drain_from, send}
use ternary_geo_bp.Pipeline.Drain.Calls.{access-ends, schedule-ends}

drop_untimely-le : (qs : List Prefetch) (cycle : ℕ) → length (drop_untimely qs cycle).0 ≤ length qs
unfolding drop_untimely
drop_untimely-le [] cycle = omega arith
drop_untimely-le (q ∷ qs) cycle = ground (arith, drop_untimely-le qs cycle)

issue_front-shorter :
    (s : Prefetcher) (qs : List Prefetch) (p : Prefetch) (cycle : ℕ)
    → (issue_front s qs p cycle).0 ≡ true
    → length (issue_front s qs p cycle).2.queue < length qs
unfolding issue_front
issue_front-shorter s [] p cycle e = absurd (true-false refl (sym e))
issue_front-shorter s (q ∷ qs) p cycle e = elim (Bool-cases (leb q.cycle_generated cycle)) [
  | inl due ↦ rw due (omega arith)
  | inr early ↦ absurd (true-false (rw early at e) refl)
]

issue-shorter :
    (s : Prefetcher) (p : Prefetch) (cycle : ℕ)
    → (issue s p cycle).0 ≡ true
    → length (issue s p cycle).2.queue < length s.queue
unfolding issue
issue-shorter s p cycle e = omega (
  arith,
  drop_untimely-le s.queue cycle,
  issue_front-shorter _ (drop_untimely s.queue cycle).0 p cycle e,
)

bind-ends :
    {A B : Type 0} (m : Run A) (f : A → Run B)
    → m ≢ out_of_fuel
    → ((a : A) → f a ≢ out_of_fuel)
    → (m >>= f) ≢ out_of_fuel
bind-ends (done a) f e h = h a
bind-ends assert_failed f e h = ground arith
bind-ends out_of_fuel f e h = absurd (e refl)

-- A predicate on the result of a chain, by the results of its first part.
bind-cases :
    {A B : Type 0} (m : Run A) (f : A → Run B) (D : Run B → Type 0)
    → m ≢ out_of_fuel
    → (m ≡ assert_failed → D assert_failed)
    → ((a : A) → m ≡ done a → D (f a))
    → D (m >>= f)
bind-cases (done a) f D e h g = g a refl
bind-cases assert_failed f D e h g = h refl
bind-cases out_of_fuel f D e h g = absurd (e refl)

with_flag :
    {A : Type 0} (x : Run (Bool × A)) (a : Bool × A) (b : Bool)
    → a.0 ≡ b
    → x ≡ done a
    → x ≡ done (b, a.1)
with_flag x a b same e = subst (λ (c : Bool). x ≡ done (c, a.1)) same e

if_true : {A : Type 0} (b : Bool) (x y : A) → b ≡ true → (if b then x else y) ≡ x
if_true true x y e = refl
if_true false x y e = absurd (true-false e refl)

module _ {P I V : Type 0} (o : Options) where
  -- What `send` does not change.
  abbrev IsKept : Machine P I V → Machine P I V → Type 0
  IsKept m m' = (m'.prefetcher ≡ m.prefetcher) × (m'.fetch_cycle ≡ m.fetch_cycle)

  with_l1-IsKept : (m : Machine P I V) (levels : List Cache) → IsKept m (with_l1 o m levels)
  with_l1-IsKept m [] = (refl, refl)
  with_l1-IsKept m (c ∷ cs) = (refl, refl)

  access_l1-IsKept :
      (m m' : Machine P I V) (cycle addr available : ℕ) (pf : Bool)
      → access_l1 o m cycle addr pf ≡ done (available, m')
      → IsKept m m'
  unfolding access_l1
  access_l1-IsKept m m' cycle addr available pf e =
      let (r, er, e') =
        >>=-eq-done (access o.main_memory_latency (m.l1 ∷ m.shared) cycle true addr pf) _ e in
      let same = ap (λ (x : ℕ × Machine P I V). x.1) (sym (done_injective _ (available, m') e')) in
      let (p, c) = with_l1-IsKept m (r.1) in
      (
        ap (λ (x : Machine P I V). x.prefetcher) same ∙ p,
        ap (λ (x : Machine P I V). x.fetch_cycle) same ∙ c,
      )

  send-IsKept :
      (fuel n : ℕ) (m m' : Machine P I V) (p : Prefetch) (now : ℕ) (sent : Bool)
      → send o fuel n m p now ≡ done (sent, m')
      → IsKept m m'
  unfolding send
  send-IsKept fuel zero m m' p now sent e =
      let same =
        ap (λ (x : Bool × Machine P I V). x.1) (sym (done_injective (false, m) (sent, m') e)) in
      (
        ap (λ (x : Machine P I V). x.prefetcher) same,
        ap (λ (x : Machine P I V). x.fetch_cycle) same,
      )
  send-IsKept fuel (suc n) m m' p now sent e =
      let (r, er, e') = >>=-eq-done (schedule fuel m.ldst_lanes now 0) _ e in
      let m1 : Machine P I V = record m { ldst_lanes = r.1 } in
      elim (Bool-cases (r.0 == max_cycle)) [
        | inl full ↦ send-IsKept fuel n m1 m' p (now + 1) sent (rw full at e')
        | inr free ↦
            let (a, ea, e'') =
              >>=-eq-done (access_l1 o m1 (r.0) p.address true) _ (rw free at e') in
            let same =
              ap (λ (x : Bool × Machine P I V). x.1) (sym (done_injective _ (sent, m') e'')) in
            let (q, c) = access_l1-IsKept m1 (a.1) (r.0) p.address (a.0) true ea in
            (
              ap (λ (x : Machine P I V). x.prefetcher) same ∙ q,
              ap (λ (x : Machine P I V). x.fetch_cycle) same ∙ c,
            )
      ]

  access_l1-ends :
      (m : Machine P I V) (cycle addr : ℕ) (pf : Bool) → access_l1 o m cycle addr pf ≢ out_of_fuel
  unfolding access_l1
  access_l1-ends m cycle addr pf =
      ground (arith, access-ends o.main_memory_latency (m.l1 ∷ m.shared) cycle true addr pf)

  send-ends :
      (fuel n : ℕ) (m : Machine P I V) (p : Prefetch) (now : ℕ)
      → n ≤ 2 ^ 64 - 1 - now
      → send o (suc fuel) n m p now ≢ out_of_fuel
  unfolding send
  send-ends fuel zero m p now word = ground arith
  send-ends fuel (suc n) m p now word =
      bind-ends (schedule (suc fuel) m.ldst_lanes now 0) _
        (schedule-ends fuel m.ldst_lanes now (omega (arith, word)))
        (λ r. elim (Bool-cases (r.0 == max_cycle)) [
          | inl full ↦
              rw full
                (send-ends fuel n (record m { ldst_lanes = r.1 }) p (now + 1) (omega (arith, word)))
          | inr free ↦ rw free (
              bind-ends (access_l1 o (record m { ldst_lanes = r.1 }) (r.0) p.address true) _
                (access_l1-ends (record m { ldst_lanes = r.1 }) (r.0) p.address true)
                (λ a. ground arith))
        ])

  -- What becomes of the prefetch that is issued: the inner loop, from the later one of the previous fetch
  -- cycle and the cycle in which it was generated.
  abbrev pub turn : ℕ → Machine P I V → Prefetch → Run (Bool × Machine P I V)
  turn fuel m p =
      let r = issue m.prefetcher p m.fetch_cycle in
      let from = max m.previous_fetch_cycle r.1.cycle_generated in
      send o fuel (m.fetch_cycle + 1 - from) (record m { prefetcher = r.2 }) r.1 from

  -- A drain by its turns, one prefetch in each, up to the machine it leaves or a failed assert. No
  -- prefetch is issued; or the issued one finds no lane and goes back to the queue; or it is sent, and
  -- the drain goes on; or an assert of the schedule or of the caches fails.
  pub data Drains (fuel : ℕ) : Machine P I V → Prefetch → Run (Machine P I V) → Type 0 where
    none_issued :
        (m : Machine P I V) (p : Prefetch)
        → (issue m.prefetcher p m.fetch_cycle).0 ≡ false
        → Drains fuel m p (done (record m { prefetcher = (issue m.prefetcher p m.fetch_cycle).2 }))
    held :
        (m m' : Machine P I V) (p : Prefetch)
        → (issue m.prefetcher p m.fetch_cycle).0 ≡ true
        → turn fuel m p ≡ done (false, m')
        → Drains fuel m p (
            done (record m' {
              prefetcher = put_back m'.prefetcher (issue m.prefetcher p m.fetch_cycle).1;
            }))
    goes :
        (m m' : Machine P I V) (p : Prefetch) (r : Run (Machine P I V))
        → (issue m.prefetcher p m.fetch_cycle).0 ≡ true
        → turn fuel m p ≡ done (true, m')
        → Drains fuel m' (issue m.prefetcher p m.fetch_cycle).1 r
        → Drains fuel m p r
    stopped :
        (m : Machine P I V) (p : Prefetch)
        → (issue m.prefetcher p m.fetch_cycle).0 ≡ true
        → turn fuel m p ≡ assert_failed
        → Drains fuel m p assert_failed

  turn-ends :
      (fuel : ℕ) (m : Machine P I V) (p : Prefetch)
      → m.fetch_cycle + 1 < 2 ^ 64
      → turn (suc fuel) m p ≢ out_of_fuel
  turn-ends fuel m p word =
      let r = issue m.prefetcher p m.fetch_cycle in
      let from = max m.previous_fetch_cycle r.1.cycle_generated in
      send-ends fuel (m.fetch_cycle + 1 - from) (record m { prefetcher = r.2 }) r.1 from
        (omega (arith, word))

  drain_from-Drains :
      (k fuel : ℕ) (m : Machine P I V) (p : Prefetch)
      → length m.prefetcher.queue < k
      → m.fetch_cycle + 1 < 2 ^ 64
      → Drains (suc fuel) m p (drain_from o k (suc fuel) m p)
  unfolding drain_from
  drain_from-Drains zero fuel m p lt word = absurd (omega (arith, lt))
  drain_from-Drains (suc k) fuel m p lt word =
      let r = issue m.prefetcher p m.fetch_cycle in
      elim (Bool-cases r.0) [
        | inr none_left ↦ rw (none_left, drain_from) (none_issued m p none_left)
        | inl issued ↦
            rw (issued, drain_from)
              (bind-cases (turn (suc fuel) m p) _ (Drains (suc fuel) m p) (turn-ends fuel m p word)
                (stopped m p issued)
                (λ a e.
                  let (pf, cycle) =
                    send-IsKept (suc fuel) _ (record m { prefetcher = r.2 }) (a.1) r.1 _ (a.0) e in
                  elim (Bool-cases (a.0)) [
                    | inl went ↦ rw went (
                        goes m (a.1) p _ issued (with_flag (turn (suc fuel) m p) a true went e) (
                          drain_from-Drains k fuel (a.1) r.1
                            (omega (
                              arith,
                              lt,
                              issue-shorter m.prefetcher p m.fetch_cycle issued,
                              ap (λ (x : Prefetcher). length x.queue) pf,
                            ))
                            (omega (arith, cycle, word))))
                    | inr back ↦
                        rw back
                          (held m (a.1) p issued (with_flag (turn (suc fuel) m p) a false back e))
                  ]))
      ]

  -- While the fetch cycle is no last word, the drain ends with the turns it is given, one for each
  -- prefetch of the queue and one more: it returns the machine of its last turn or stops at a failed
  -- assert, and never runs out of fuel, the fuel of the schedule included.
  pub drain-Drains :
      (fuel : ℕ) (m : Machine P I V)
      → o.prefetcher_enable ≡ true
      → m.fetch_cycle + 1 < 2 ^ 64
      → Drains (suc fuel) m (record { address = 0; cycle_generated = 0 }) (drain o (suc fuel) m)
  unfolding drain
  drain-Drains fuel m on word =
      let first : Prefetch = record { address = 0; cycle_generated = 0 } in
      subst (Drains (suc fuel) m first) (sym (if_true o.prefetcher_enable _ _ on))
        (drain_from-Drains (length m.prefetcher.queue + 1) fuel m first (omega arith) word)
