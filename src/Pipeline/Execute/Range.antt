-- ===== src/Pipeline/Execute/Range.antt =====
-- The cycles that the execution of an instruction finds (lib/uarchsim.cc).
use ternary_geo_bp.Base.{
  ◌⊎◌, ℕ, zero, suc, ◌+◌, ◌^◌, ◌≡◌, ◌≤◌, ◌<◌, refl, ap, inl, inr, Bool, true, false, Bool-cases,
  List, [], ◌∷◌, arith, ltb, leb, if◌then◌else◌, get_or, set, u64, sub64, max_cycle, Run, done,
  ◌||◌, >>=-eq-done, done_injective, assert, ◌>>◌, leb→le,
}
use ternary_geo_bp.Insts.{is_mem}
use ternary_geo_bp.Schedule.{Schedule, slot, schedule, schedule_from, grow}
use ternary_geo_bp.Pipeline.{Inst, Machine, Operand, Options}
use ternary_geo_bp.Pipeline.Execute.{
  wait_for, wait_for_sources, schedule_lane, latency_of, search_sq, execute, execute_load, Executed,
  access_l1, train_prefetcher,
}

-- Every register is ready by the cycle `limit`.
abbrev pub AllBy : ℕ → List ℕ → Type 0
AllBy limit [] = Unit
AllBy limit (r ∷ rs) = (r ≤ limit) × AllBy limit rs

get_or-le : (limit : ℕ) (rf : List ℕ) (i : ℕ) → AllBy limit rf → get_or rf i 0 ≤ limit
get_or-le limit [] i a = omega arith
get_or-le limit (r ∷ rs) zero (le, a) = le
get_or-le limit (r ∷ rs) (suc i) (le, a) = get_or-le limit rs i a

pub set_by :
    (limit : ℕ) (rf : List ℕ) (i r : ℕ) → AllBy limit rf → r ≤ limit → AllBy limit (set rf i r)
set_by limit [] i r a le = tt
set_by limit (x ∷ rf) zero r (lx, a) le = (le, a)
set_by limit (x ∷ rf) (suc i) r (lx, a) le = (lx, set_by limit rf i r a le)

wait_for-range :
    (limit : ℕ) (rf : List ℕ) (first : ℕ) (op : Operand) (from ready : ℕ)
    → AllBy limit rf
    → from ≤ limit
    → wait_for rf first op from ≡ done ready
    → (from ≤ ready) × (ready ≤ limit)
unfolding wait_for
wait_for-range limit rf first op from ready a le e =
    let small = get_or-le limit rf op.log_reg a in ground (arith, small, e)

schedule_from-range :
    (fuel : ℕ) (s : Schedule) (start : ℕ) (r : ℕ × Schedule)
    → start + fuel < 2 ^ 64
    → schedule_from fuel s start max_cycle ≡ done r
    → (start ≤ r.0) × (r.0 < start + fuel)
unfolding schedule_from
schedule_from-range zero s start r word e = absurd cc
schedule_from-range (suc fuel) s start r word e =
    let (s', es, e') = >>=-eq-done (grow s start) _ e in
    let whole : u64 (start + 1) ≡ start + 1 = omega (arith, word) in
    let more : ltb max_cycle (u64 (start + 1)) ≡ false = ground arith in
    elim (Bool-cases (ltb (slot s' start) s'.width)) [
      | inl free ↦
          let same = ap (λ (x : ℕ × Schedule). x.0) (done_injective _ r (rw free at e')) in
          (omega (arith, same), omega (arith, same))
      | inr full ↦
          let (low, high) =
            schedule_from-range fuel s' (u64 (start + 1)) r (omega (arith, word, whole))
              (rw (full, more) at e') in
          (omega (arith, low, whole), omega (arith, high, whole))
    ]

asserted :
    {A : Type 0} (b : Bool) (y : Run A) (r : A)
    → (assert b >> y) ≡ done r
    → (b ≡ true) × (y ≡ done r)
asserted true y r e = (refl, e)
asserted false y r e = absurd cc

if-cases :
    {A : Type 0} (b : Bool) (y z : Run A) (r : A)
    → (if b then y else z) ≡ done r
    → (y ≡ done r) ⊎ (z ≡ done r)
if-cases true y z r e = inl e
if-cases false y z r e = inr e

agen_at : (b : Bool) (c agen : ℕ) → b ≡ true → (if b then c else max_cycle) ≡ agen → c ≡ agen
agen_at true c agen t e = e
agen_at false c agen t e = absurd cc

wait_for_sources-range :
    (limit : ℕ) (rf : List ℕ) (inst : Inst) (from ready : ℕ)
    → AllBy limit rf
    → from ≤ limit
    → wait_for_sources rf inst from ≡ done ready
    → (from ≤ ready) × (ready ≤ limit)
unfolding wait_for_sources
wait_for_sources-range limit rf inst from ready a le e =
    let (c1, e1, f1) = >>=-eq-done (wait_for rf inst.a.log_reg inst.a from) _ e in
    let (c2, e2, f2) = >>=-eq-done (wait_for rf inst.a.log_reg inst.b c1) _ f1 in
    let (l1, h1) = wait_for-range limit rf inst.a.log_reg inst.a from c1 a le e1 in
    let (l2, h2) = wait_for-range limit rf inst.a.log_reg inst.b c1 c2 a h1 e2 in
    let (l3, h3) = wait_for-range limit rf inst.a.log_reg inst.c c2 ready a h2 f2 in
    (omega (arith, l1, l2, l3), h3)

schedule-range :
    (fuel : ℕ) (s : Schedule) (start : ℕ) (r : ℕ × Schedule)
    → start + fuel < 2 ^ 64
    → schedule fuel s start max_cycle ≡ done r
    → (start ≤ r.0) × (r.0 < start + fuel)
unfolding schedule
schedule-range fuel s start r word e =
    let (t, et, e') = >>=-eq-done (assert (leb s.base_cycle start)) _ e in
    schedule_from-range fuel s start r word e'

module _ {P I V : Type 0} (o : Options) where
  schedule_lane-range :
      (fuel : ℕ) (m : Machine P I V) (inst : Inst) (ready : ℕ) (r : ℕ × Machine P I V)
      → ready + fuel < 2 ^ 64
      → schedule_lane o fuel m inst ready ≡ done r
      → (ready ≤ r.0) × (r.0 < ready + fuel)
  unfolding schedule_lane
  schedule_lane-range fuel m inst ready r word e =
      elim (Bool-cases (inst.is_load || inst.is_store)) [
        | inl memory ↦
            let (q, eq, e') =
              >>=-eq-done (schedule fuel m.ldst_lanes ready max_cycle) _ (rw memory at e) in
            let same = ap (λ (x : ℕ × Machine P I V). x.0) (done_injective _ r e') in
            let (low, high) = schedule-range fuel m.ldst_lanes ready q word eq in
            (omega (arith, same, low), omega (arith, same, high))
        | inr other ↦
            let (q, eq, e') =
              >>=-eq-done (schedule fuel m.alu_lanes ready max_cycle) _ (rw other at e) in
            let same = ap (λ (x : ℕ × Machine P I V). x.0) (done_injective _ r e') in
            let (low, high) = schedule-range fuel m.alu_lanes ready q word eq in
            (omega (arith, same, low), omega (arith, same, high))
      ]

  execute_load-after :
      (m : Machine P I V) (inst : Inst) (start : ℕ) (r : ℕ × ℕ × Machine P I V)
      → start + 2 < 2 ^ 64
      → execute_load o m inst start ≡ done r
      → start + 2 ≤ r.0
  unfolding execute_load
  execute_load-after m inst start r word e =
      let (m1, e1, f1) = >>=-eq-done (train_prefetcher o m inst) _ e in
      let (x, e2, f2) =
        >>=-eq-done
          (if o.perfect_cache
            then done (u64 (u64 (start + 1) + o.l1_latency), m1)
            else access_l1 o m1 (u64 (start + 1)) inst.addr false)
          _ f1 in
      let searched : ℕ = u64 (u64 (start + 1) + 1) in
      let found = search_sq x.1.sq inst.size inst.addr searched x.0 (0, false) in
      let (after, f3) = asserted (leb searched found.0) _ r f2 in
      let (wide, f4) = asserted (leb 2 (sub64 found.0 start)) _ r f3 in
      let same = ap (λ (y : ℕ × ℕ × Machine P I V). y.0) (done_injective _ r f4) in
      omega (arith, same, word, leb→le searched found.0 after)

  -- The execution ends after the fetch and the fill of the pipeline, and after the address is known.
  pub execute-range :
      (fuel limit : ℕ) (m : Machine P I V) (inst : Inst) (x : Executed (Machine P I V))
      → AllBy limit m.rf
      → m.fetch_cycle + o.pipeline_fill_latency ≤ limit
      → limit + fuel + latency_of o inst + 2 < 2 ^ 64
      → 1 ≤ latency_of o inst
      → execute o fuel m inst ≡ done x
      → (m.fetch_cycle + o.pipeline_fill_latency + 1 ≤ x.exec_cycle)
        × (is_mem inst.insn_class ≡ true
            → (m.fetch_cycle + o.pipeline_fill_latency + 1 ≤ x.agen_cycle)
              × (x.agen_cycle ≤ x.exec_cycle))
  unfolding execute
  execute-range fuel limit m inst x a le word some_time e =
      let (ready, e1, f1) =
        >>=-eq-done (wait_for_sources m.rf inst (u64 (m.fetch_cycle + o.pipeline_fill_latency))) _
          e in
      let (lane, e2, f2) = >>=-eq-done (schedule_lane o fuel m inst ready) _ f1 in
      let (low, high) = wait_for_sources-range limit m.rf inst _ ready a (omega (arith, le)) e1 in
      let (low', high') =
        schedule_lane-range fuel m inst ready lane (omega (arith, high, word)) e2 in
      elim (if-cases inst.is_load _ _ x f2) [
        | inl f ↦
            let (r, e3, f3) = >>=-eq-done (execute_load o (lane.1) inst (lane.0)) _ f in
            let same = done_injective _ x f3 in
            let late =
              execute_load-after (lane.1) inst (lane.0) r (omega (arith, word, high, high')) e3 in
            let exec = ap (λ (y : Executed (Machine P I V)). y.exec_cycle) same in
            (
              omega (arith, exec, late, low, low', le, word),
              λ mem.
                  let agen = ap (λ (y : Executed (Machine P I V)). y.agen_cycle) same in
                  let agen' =
                    agen_at (is_mem inst.insn_class) (u64 (lane.0 + 1)) x.agen_cycle mem agen in
                  (
                    omega (arith, agen', low, low', high, high', le, word),
                    omega (arith, exec, agen', late, low', high, high', word),
                  ),
            )
        | inr f ↦
            let same = done_injective _ x f in
            let exec = ap (λ (y : Executed (Machine P I V)). y.exec_cycle) same in
            (
              omega (arith, exec, low, low', high, high', le, word, some_time),
              λ mem.
                  let agen = ap (λ (y : Executed (Machine P I V)). y.agen_cycle) same in
                  let agen' =
                    agen_at (is_mem inst.insn_class) (u64 (lane.0 + 1)) x.agen_cycle mem agen in
                  (
                    omega (arith, agen', low, low', high, high', le, word),
                    omega (arith, exec, agen', low', high, high', word, some_time),
                  ),
            )
      ]
