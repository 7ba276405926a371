-- ===== src/Pipeline/Events/Cycles.antt =====
-- The loops of `step` over the cycles that are skipped (lib/uarchsim.cc).
use mathlib.Core.Path.{subst}
use ternary_geo_bp.Base.{ℕ, zero, suc, ◌+◌, ◌-◌, ◌≡◌, ◌<◌, refl, sym, List, arith, done, ne→==}
use ternary_geo_bp.Pipeline.{Hooks, Options, Pending, ValuePredictor, WindowEntry}
use ternary_geo_bp.Pipeline.Events.{
  eval_decode, eval_aq, eval_exec, eval_retire, retire_from, eval_cycle, eval_cycles, advance,
}
use ternary_geo_bp.Pipeline.Events.Retired.{
  staying, retire_from-staying, FrontAfter, staying-FrontAfter,
}
use ternary_geo_bp.Pipeline.Events.Queues.{
  Decodes, Agens, Execs, All, Rising, later, All-later, Rising-later, Decodes-staying,
  Agens-staying, Execs-staying, exec_from-done, agen_from-done, decode_from-done,
}

-- Every instruction in a queue is in the window, with the cycle that the queue has for it, and
-- nothing in the queues was due before `now`.
pub record IsPending {P V : Type 0} (now : ℕ) (s : Pending P V) : Type 0 where
  pub rising : Rising s.dq
  pub decodes : All (Decodes s.window now) s.dq
  pub agens : All (Agens s.window now) s.aq
  pub execs : All (Execs s.window now) s.eq

-- What a cycle leaves.
pub record Evaluated {P V : Type 0} (now : ℕ) (s t : Pending P V) : Type 0 where
  pub window : t.window ≡ staying now s.window
  pub dq : t.dq ≡ later now s.dq
  pub aq : t.aq ≡ later now s.aq
  pub eq : t.eq ≡ later now s.eq

IsPending-Evaluated :
    {P V : Type 0} (now : ℕ) (s t : Pending P V)
    → IsPending now s
    → Evaluated now s t
    → IsPending (suc now) t
IsPending-Evaluated now s t v e = record {
  rising = subst Rising (sym e.dq) (Rising-later now s.dq v.rising);
  decodes =
      subst (λ (w : List WindowEntry). All (Decodes w (suc now)) t.dq) (sym e.window)
        (subst (All (Decodes (staying now s.window) (suc now))) (sym e.dq) (
          All-later (Decodes s.window now) (Decodes (staying now s.window) (suc now)) now
            (Decodes-staying s.window now) s.dq v.decodes));
  agens =
      subst (λ (w : List WindowEntry). All (Agens w (suc now)) t.aq) (sym e.window)
        (subst (All (Agens (staying now s.window) (suc now))) (sym e.aq) (
          All-later (Agens s.window now) (Agens (staying now s.window) (suc now)) now
            (Agens-staying s.window now) s.aq v.agens));
  execs =
      subst (λ (w : List WindowEntry). All (Execs w (suc now)) t.eq) (sym e.window)
        (subst (All (Execs (staying now s.window) (suc now))) (sym e.eq) (
          All-later (Execs s.window now) (Execs (staying now s.window) (suc now)) now
            (Execs-staying s.window now) s.eq v.execs));
}

module _ {P V : Type 0} (hooks : Hooks P) (vpi : ValuePredictor V) (o : Options) where
  eval_cycle-Evaluated :
      (now : ℕ) (s : Pending P V)
      → IsPending now s
      → (t : Pending P V) × (eval_cycle hooks vpi o s now ≡ done t) × Evaluated now s t
  unfolding eval_cycle eval_decode eval_aq eval_exec eval_retire
  eval_cycle-Evaluated now s v =
      let (p1, e1) = decode_from-done hooks vpi o s.window now s.dq s.cond v.decodes v.rising in
      let (p2, e2) = agen_from-done hooks vpi o s.window now s.aq p1 v.agens in
      let (p3, e3) = exec_from-done hooks vpi o s.window now s.eq p2 v.execs in
      let r = retire_from hooks vpi o now s.window p3 s.vp in
      (
        record {
          window = r.0;
          dq = later now s.dq;
          aq = later now s.aq;
          eq = later now s.eq;
          cond = r.1;
          vp = r.2;
        },
        rw (e1, e2, e3) refl,
        record {
          window = retire_from-staying hooks vpi o now s.window p3 s.vp;
          dq = refl;
          aq = refl;
          eq = refl;
        },
      )

  -- A cycle of the pipeline in which every instruction in a queue is in the window and nothing is
  -- overdue: no assert fails; exactly the instructions due in the cycle leave the queues, and the
  -- instructions at the front of the window that retire up to it leave the window; and the same holds
  -- of what is left at the next cycle.
  pub eval_cycle-IsPending :
      (now : ℕ) (s : Pending P V)
      → IsPending now s
      → (t : Pending P V) × (eval_cycle hooks vpi o s now ≡ done t)
        × Evaluated now s t
        × IsPending (now + 1) t
  eval_cycle-IsPending now s v =
      let (t, e, w) = eval_cycle-Evaluated now s v in
      (t, e, w, subst (λ (k : ℕ). IsPending k t) (omega arith) (IsPending-Evaluated now s t v w))

  eval_cycles-IsPending :
      (n now : ℕ) (s : Pending P V)
      → IsPending now s
      → (t : Pending P V) × (eval_cycles hooks vpi o (suc n) s now ≡ done t)
        × IsPending (now + suc n) t
        × FrontAfter (now + n) t.window
  unfolding eval_cycles
  eval_cycles-IsPending zero now s v =
      let (t, e, w, v') = eval_cycle-IsPending now s v in
      (
        t,
        rw e refl,
        subst (λ (k : ℕ). IsPending k t) (omega arith) v',
        subst (λ (k : ℕ). FrontAfter k t.window) (omega arith)
            (subst (FrontAfter now) (sym w.window) (staying-FrontAfter now s.window)),
      )
  eval_cycles-IsPending (suc n) now s v =
      let (t, e, w, v') = eval_cycle-IsPending now s v in
      let (u, e', v'', f) = eval_cycles-IsPending n (now + 1) t v' in
      (
        u,
        rw e e',
        subst (λ (k : ℕ). IsPending k u) (omega arith) v'',
        subst (λ (k : ℕ). FrontAfter k u.window) (omega arith) f,
      )

  -- The cycles that `step` skips are run without a failing assert, from where the pipeline was left
  -- off: nothing in the queues is due up to the new fetch cycle afterwards, and the instruction at the
  -- front of the window retires after it, as `step` asserts.
  pub advance-IsPending :
      (from to : ℕ) (s : Pending P V)
      → from < to
      → IsPending from s
      → (t : Pending P V) × (advance hooks vpi o s from to ≡ done t)
        × IsPending (to + 1) t
        × FrontAfter to t.window
  unfolding advance
  advance-IsPending from to s lt v =
      let (t, e, v', f) = eval_cycles-IsPending (to - from) from s v in
      let count : to + 1 - from ≡ suc (to - from) = omega arith in
      (
        t,
        rw (ne→== from to (λ d. omega arith), count) e,
        subst (λ (k : ℕ). IsPending k t) (omega arith) v',
        subst (λ (k : ℕ). FrontAfter k t.window) (omega arith) f,
      )
