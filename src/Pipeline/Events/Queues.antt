-- ===== src/Pipeline/Events/Queues.antt =====
-- The queues of the instructions in flight (lib/uarchsim.cc): what the entries of a queue and the
-- window say of each other, and that no assert of the loops fails then.
use ternary_geo_bp.Base.{
  ℕ, suc, ◌≡◌, ◌≤◌, ◌<◌, refl, ap, true, false, some, List, [], ◌∷◌, arith, ◌==◌, if◌then◌else◌,
  done, Bool-cases, inl, inr, le→leb, ==→eq, lt→ltb, ne→==,
}
use ternary_geo_bp.Insts.{is_mem}
use ternary_geo_bp.Pipeline.{Event, Hooks, Options, ValuePredictor, WindowEntry}
use ternary_geo_bp.Pipeline.Events.{locate_entry_in_window, decode_from, agen_from, exec_from}
use ternary_geo_bp.Pipeline.Events.Retired.{staying, locate-staying}

-- An event of DQ that is due at `now` or later.
pub record Decodes (window : List WindowEntry) (now : ℕ) (e : Event) : Type 0 where
  pub w : WindowEntry
  pub located : locate_entry_in_window window e.seq_no e.piece ≡ done w
  pub due : now ≤ e.at_cycle
  pub cycle : e.at_cycle ≡ w.decode_cycle
  pub retires : e.at_cycle ≤ w.retire_cycle

-- One of AQ.
pub record Agens (window : List WindowEntry) (now : ℕ) (e : Event) : Type 0 where
  pub w : WindowEntry
  pub located : locate_entry_in_window window e.seq_no e.piece ≡ done w
  pub due : now ≤ e.at_cycle
  pub class : is_mem w.exec_info.dec_info.insn_class ≡ true
  pub decoded : w.decode_cycle < e.at_cycle
  pub executes : e.at_cycle ≤ w.exec_cycle
  pub va : ℕ
  pub mem_va : w.exec_info.mem_va ≡ some va
  pub sz : ℕ
  pub mem_sz : w.exec_info.mem_sz ≡ some sz
  pub retires : e.at_cycle ≤ w.retire_cycle

-- One of EQ.
pub record Execs (window : List WindowEntry) (now : ℕ) (e : Event) : Type 0 where
  pub w : WindowEntry
  pub located : locate_entry_in_window window e.seq_no e.piece ≡ done w
  pub due : now ≤ e.at_cycle
  pub cycle : w.exec_cycle ≡ e.at_cycle
  pub retires : e.at_cycle ≤ w.retire_cycle

abbrev pub All : (Event → Type 0) → List Event → Type 0
All Q [] = Unit
All Q (e ∷ es) = Q e × All Q es

-- No event is due before one in front of it.
abbrev pub Rising : List Event → Type 0
Rising [] = Unit
Rising (e ∷ es) = All (λ f. e.at_cycle ≤ f.at_cycle) es × Rising es

-- The events after `now`.
pub later : ℕ → List Event → List Event
later now [] = []
later now (e ∷ es) = if now == e.at_cycle then later now es else e ∷ later now es

pub All-later :
    (Q R : Event → Type 0) (now : ℕ)
    → ((e : Event) → Q e → (now == e.at_cycle) ≡ false → R e)
    → (es : List Event) → All Q es
    → All R (later now es)
unfolding later
All-later Q R now keep [] a = tt
All-later Q R now keep (e ∷ es) (q, a) = elim (Bool-cases (now == e.at_cycle)) [
  | inl here ↦ rw here (All-later Q R now keep es a)
  | inr after ↦ rw after (keep e q after, All-later Q R now keep es a)
]

All-map :
    (Q R : Event → Type 0) → ((e : Event) → Q e → R e) → (es : List Event) → All Q es → All R es
All-map Q R keep [] a = tt
All-map Q R keep (e ∷ es) (q, a) = (keep e q, All-map Q R keep es a)

pub Rising-later : (now : ℕ) (es : List Event) → Rising es → Rising (later now es)
unfolding later
Rising-later now [] r = tt
Rising-later now (e ∷ es) (a, r) = elim (Bool-cases (now == e.at_cycle)) [
  | inl here ↦ rw here (Rising-later now es r)
  | inr after ↦ rw after (
    All-later (λ f. e.at_cycle ≤ f.at_cycle) (λ f. e.at_cycle ≤ f.at_cycle) now (λ f q n. q) es a,
    Rising-later now es r,
  )
]

later-All : (now : ℕ) (es : List Event) → All (λ f. now < f.at_cycle) es → later now es ≡ es
unfolding later
later-All now [] a = refl
later-All now (e ∷ es) (lt, a) =
    rw (ne→== now e.at_cycle (λ d. omega arith))
      (ap (λ (t : List Event). e ∷ t) (later-All now es a))

after :
    (now : ℕ) (e : Event) → now ≤ e.at_cycle → (now == e.at_cycle) ≡ false → suc now ≤ e.at_cycle
after now e le ne = ground arith

pub Decodes-staying :
    (window : List WindowEntry) (now : ℕ) (e : Event)
    → Decodes window now e
    → (now == e.at_cycle) ≡ false
    → Decodes (staying now window) (suc now) e
Decodes-staying window now e d ne =
    let lt = after now e d.due ne in
    record {
      w = d.w;
      located =
          locate-staying now window e.seq_no e.piece d.w (omega (arith, lt, d.retires)) d.located;
      due = lt;
      cycle = d.cycle;
      retires = d.retires;
    }

pub Agens-staying :
    (window : List WindowEntry) (now : ℕ) (e : Event)
    → Agens window now e
    → (now == e.at_cycle) ≡ false
    → Agens (staying now window) (suc now) e
Agens-staying window now e d ne =
    let lt = after now e d.due ne in
    record {
      w = d.w;
      located =
          locate-staying now window e.seq_no e.piece d.w (omega (arith, lt, d.retires)) d.located;
      due = lt;
      class = d.class;
      decoded = d.decoded;
      executes = d.executes;
      va = d.va;
      mem_va = d.mem_va;
      sz = d.sz;
      mem_sz = d.mem_sz;
      retires = d.retires;
    }

pub Execs-staying :
    (window : List WindowEntry) (now : ℕ) (e : Event)
    → Execs window now e
    → (now == e.at_cycle) ≡ false
    → Execs (staying now window) (suc now) e
Execs-staying window now e d ne =
    let lt = after now e d.due ne in
    record {
      w = d.w;
      located =
          locate-staying now window e.seq_no e.piece d.w (omega (arith, lt, d.retires)) d.located;
      due = lt;
      cycle = d.cycle;
      retires = d.retires;
    }

eq→== : (a b : ℕ) → a ≡ b → (a == b) ≡ true
eq→== a b e = ground arith

module _ {P V : Type 0} (hooks : Hooks P) (vpi : ValuePredictor V) (o : Options) where
  pub exec_from-done :
      (window : List WindowEntry) (now : ℕ) (es : List Event) (p : P)
      → All (Execs window now) es
      → (p' : P) × (exec_from hooks vpi o window now es p ≡ done (later now es, p'))
  unfolding exec_from later
  exec_from-done window now [] p a = (p, refl)
  exec_from-done window now (e ∷ es) p (d, a) = elim (Bool-cases (now == e.at_cycle)) [
    | inl here ↦
        let w = d.w in
        let (p', eq) =
          exec_from-done window now es
            (hooks.notify_instr_execute_resolve p w.seq_no w.piece w.pc w.pred_taken w.exec_info
              now)
            a in
        (
          p',
          rw
              (
                le→leb now e.at_cycle d.due,
                here,
                d.located,
                eq→== w.exec_cycle e.at_cycle d.cycle,
                exec_from,
              )
              eq,
        )
    | inr after ↦
        let (p', eq) = exec_from-done window now es p a in
        (p', rw (le→leb now e.at_cycle d.due, after, eq, exec_from) refl)
  ]

  pub agen_from-done :
      (window : List WindowEntry) (now : ℕ) (es : List Event) (p : P)
      → All (Agens window now) es
      → (p' : P) × (agen_from hooks vpi o window now es p ≡ done (later now es, p'))
  unfolding agen_from later
  agen_from-done window now [] p a = (p, refl)
  agen_from-done window now (e ∷ es) p (d, a) = elim (Bool-cases (now == e.at_cycle)) [
    | inl here ↦
        let w = d.w in
        let same = ==→eq now e.at_cycle here in
        let (p', eq) =
          agen_from-done window now es
            (hooks.notify_agen_complete p w.seq_no w.piece w.pc w.exec_info.dec_info d.va d.sz now)
            a in
        (
          p',
          rw
              (
                le→leb now e.at_cycle d.due,
                here,
                d.located,
                d.class,
                lt→ltb w.decode_cycle now (omega (arith, same, d.decoded)),
                le→leb now w.exec_cycle (omega (arith, same, d.executes)),
                d.mem_va,
                d.mem_sz,
                agen_from,
              )
              eq,
        )
    | inr after ↦
        let (p', eq) = agen_from-done window now es p a in
        (p', rw (le→leb now e.at_cycle d.due, after, eq, agen_from) refl)
  ]

  pub decode_from-done :
      (window : List WindowEntry) (now : ℕ) (es : List Event) (p : P)
      → All (Decodes window now) es
      → Rising es
      → (p' : P) × (decode_from hooks vpi o window now es p ≡ done (later now es, p'))
  unfolding decode_from later
  decode_from-done window now [] p a r = (p, refl)
  decode_from-done window now (e ∷ es) p (d, a) (low, r) = elim (Bool-cases (now == e.at_cycle)) [
    | inl here ↦
        let w = d.w in
        let (p', eq) =
          decode_from-done window now es
            (hooks.notify_instr_decode p w.seq_no w.piece w.pc w.exec_info.dec_info now) a r in
        (
          p',
          rw
              (
                le→leb now e.at_cycle d.due,
                here,
                d.located,
                eq→== e.at_cycle w.decode_cycle d.cycle,
                decode_from,
              )
              eq,
        )
    | inr not_yet ↦
        let lt = after now e d.due not_yet in
        let all = later-All now es (
          All-map (λ f. e.at_cycle ≤ f.at_cycle) (λ f. now < f.at_cycle) (λ f le. omega arith) es
            low) in
        (p, rw (le→leb now e.at_cycle d.due, not_yet, all, decode_from) refl)
  ]
