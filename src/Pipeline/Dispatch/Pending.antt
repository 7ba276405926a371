-- ===== src/Pipeline/Dispatch/Pending.antt =====
-- Dispatch (lib/uarchsim.cc) and the invariant of the instructions in flight.
use ternary_geo_bp.Base.{
  ℕ, ◌+◌, ◌^◌, ◌≡◌, ◌≤◌, ◌<◌, refl, ◌∙◌, ap, Bool, true, false, not, ◌||◌, none, some, List, [],
  ◌∷◌, ◌++◌, arith, length, ltb, leb, if◌then◌else◌, done, Bool-cases, inl, inr, lt→ltb, le→leb,
  u64-small, ==_refl,
}
use ternary_geo_bp.Insts.{ExecuteInfo, is_mem}
use ternary_geo_bp.Pipeline.{Event, Hooks, Inst, Machine, Options, WindowEntry, pending_of, max}
use ternary_geo_bp.Pipeline.Execute.{Executed, execute, latency_of}
use ternary_geo_bp.Pipeline.Execute.Range.{AllBy, execute-range}
use ternary_geo_bp.Pipeline.Events.{checked, locate_entry_in_window}
use ternary_geo_bp.Pipeline.Events.Queues.{Decodes, Agens, Execs, All, Rising}
use ternary_geo_bp.Pipeline.Events.Cycles.{IsPending}
use ternary_geo_bp.Pipeline.Dispatch.{dispatch, entry_of, last_retire}
use ternary_geo_bp.Pipeline.Dispatch.Operands.{IsInst, Populated, populate_exec_info-done}

-- Every instruction of the window is older than `seq_no`.
abbrev pub Older : ℕ → List WindowEntry → Type 0
Older seq_no [] = Unit
Older seq_no (w ∷ ws) = w.seq_no < seq_no × Older seq_no ws

none_found : (w : WindowEntry) (seq_no piece : ℕ) → ¬ (checked none seq_no piece ≡ done w)
unfolding checked
none_found w seq_no piece e = cc

checked-here : (w : WindowEntry) → checked (some w) w.seq_no w.piece ≡ done w
unfolding checked
checked-here w = rw (==_refl w.seq_no, ==_refl w.piece) refl

not_below : (n : ℕ) → ltb n n ≡ false
not_below n = ground arith

locate-new :
    (ws : List WindowEntry) (w : WindowEntry)
    → Older w.seq_no ws
    → locate_entry_in_window (ws ++ (w ∷ [])) w.seq_no w.piece ≡ done w
unfolding locate_entry_in_window
locate-new [] w tt = rw (not_below w.seq_no) (checked-here w)
locate-new (v ∷ ws) w (lt, older) = rw (lt→ltb v.seq_no w.seq_no lt) (locate-new ws w older)

locate-append :
    (ws : List WindowEntry) (new w : WindowEntry) (seq_no piece : ℕ)
    → locate_entry_in_window ws seq_no piece ≡ done w
    → locate_entry_in_window (ws ++ (new ∷ [])) seq_no piece ≡ done w
unfolding locate_entry_in_window
locate-append [] new w seq_no piece e = absurd (none_found w seq_no piece e)
locate-append (v ∷ ws) new w seq_no piece e = elim (Bool-cases (ltb v.seq_no seq_no)) [
  | inl below ↦ rw below (locate-append ws new w seq_no piece (rw below at e))
  | inr found ↦ rw found (rw found at e)
]

Decodes-append :
    (ws : List WindowEntry) (new : WindowEntry) (now : ℕ) (e : Event)
    → Decodes ws now e
    → Decodes (ws ++ (new ∷ [])) now e
Decodes-append ws new now e d = record {
  w = d.w;
  located = locate-append ws new d.w e.seq_no e.piece d.located;
  due = d.due;
  cycle = d.cycle;
  retires = d.retires;
}

Agens-append :
    (ws : List WindowEntry) (new : WindowEntry) (now : ℕ) (e : Event)
    → Agens ws now e
    → Agens (ws ++ (new ∷ [])) now e
Agens-append ws new now e d = record {
  w = d.w;
  located = locate-append ws new d.w e.seq_no e.piece d.located;
  due = d.due;
  class = d.class;
  decoded = d.decoded;
  executes = d.executes;
  va = d.va;
  mem_va = d.mem_va;
  sz = d.sz;
  mem_sz = d.mem_sz;
  retires = d.retires;
}

Execs-append :
    (ws : List WindowEntry) (new : WindowEntry) (now : ℕ) (e : Event)
    → Execs ws now e
    → Execs (ws ++ (new ∷ [])) now e
Execs-append ws new now e d = record {
  w = d.w;
  located = locate-append ws new d.w e.seq_no e.piece d.located;
  due = d.due;
  cycle = d.cycle;
  retires = d.retires;
}

All-append :
    (Q R : Event → Type 0)
    → ((e : Event) → Q e → R e)
    → (es : List Event) (new : Event) → All Q es
    → R new
    → All R (es ++ (new ∷ []))
All-append Q R keep [] new tt r = (r, tt)
All-append Q R keep (e ∷ es) new (q, a) r = (keep e q, All-append Q R keep es new a r)

All-keep :
    (Q R : Event → Type 0) → ((e : Event) → Q e → R e) → (es : List Event) → All Q es → All R es
All-keep Q R keep [] tt = tt
All-keep Q R keep (e ∷ es) (q, a) = (keep e q, All-keep Q R keep es a)

Rising-append :
    (es : List Event) (new : Event)
    → Rising es
    → All (λ e. e.at_cycle ≤ new.at_cycle) es
    → Rising (es ++ (new ∷ []))
Rising-append [] new r a = (tt, tt)
Rising-append (e ∷ es) new (low, r) (le, a) = (
  All-append (λ f. e.at_cycle ≤ f.at_cycle) (λ f. e.at_cycle ≤ f.at_cycle) (λ f q. q) es new low le,
  Rising-append es new r a,
)

-- What holds of an instruction that has been executed when it is dispatched.
record IsReady {P I V : Type 0} (o : Options) (m : Machine P I V) (inst : Inst) (number : ℕ)
    (x : Executed (Machine P I V)) : Type 0 where
  pub operands : IsInst inst
  pub memory : is_mem inst.insn_class ≡ true → (inst.is_load || inst.is_store) ≡ true
  pub room : length m.window < m.window_capacity
  pub agen_room : length m.aq < m.window_capacity
  pub older : Older number m.window
  pub decoding : All (λ e. e.at_cycle ≤ m.fetch_cycle + o.dq_latency) m.dq
  pub word : m.fetch_cycle + o.dq_latency < 2 ^ 64
  pub after : m.fetch_cycle < x.exec_cycle
  pub decoded : m.fetch_cycle + o.dq_latency ≤ x.exec_cycle
  pub agen_after : is_mem inst.insn_class ≡ true → m.fetch_cycle + o.dq_latency < x.agen_cycle
  pub agen_before : is_mem inst.insn_class ≡ true → x.agen_cycle ≤ x.exec_cycle

-- An instruction of a well-formed trace, numbered above the window, and room in the window for it. AQ
-- has at most one event for each instruction of the window, and none that waits for its decoding waits
-- beyond the latency from the current cycle on.
pub record IsNext {P I V : Type 0} (o : Options) (m : Machine P I V) (inst : Inst) (number : ℕ)
    : Type 0 where
  pub operands : IsInst inst
  pub memory : is_mem inst.insn_class ≡ true → (inst.is_load || inst.is_store) ≡ true
  pub room : length m.window < m.window_capacity
  pub fewer : length m.aq ≤ length m.window
  pub older : Older number m.window
  pub decoding : All (λ e. e.at_cycle ≤ m.fetch_cycle + o.dq_latency) m.dq

at_least : (a b : ℕ) → a ≤ max a b
at_least a b = ground arith

fits : (mem : Bool) (n capacity : ℕ) → n < capacity → (not mem || leb (n + 1) capacity) ≡ true
fits true n capacity lt = le→leb (n + 1) capacity (omega (arith, lt))
fits false n capacity lt = refl

given : {b : Bool} → b ≡ true → (n : ℕ) → (if b then some n else none) ≡ some n
given e n = rw e refl

length-snoc : {A : Type 0} (xs : List A) (x : A) → length (xs ++ (x ∷ [])) ≡ length xs + 1
length-snoc [] x = omega arith
length-snoc (y ∷ xs) x = omega (arith, length-snoc xs x)

grows :
    (mem : Bool) (aq : List Event) (e : Event) (ws : List WindowEntry) (w : WindowEntry)
    → length aq ≤ length ws
    → length (if mem then aq ++ (e ∷ []) else aq) ≤ length (ws ++ (w ∷ []))
grows true aq e ws w le = omega (arith, le, length-snoc aq e, length-snoc ws w)
grows false aq e ws w le = omega (arith, le, length-snoc ws w)

module _ {P I V : Type 0} (hooks : Hooks P) (o : Options) where
  entry_of-Agens :
      (m : Machine P I V) (inst : Inst) (seq_no piece : ℕ) (x : Executed (Machine P I V))
      (info : ExecuteInfo)
      → IsPending m.fetch_cycle (pending_of m)
      → IsReady o m inst seq_no x
      → Populated inst info
      → All (Agens (m.window ++ (entry_of o m inst seq_no piece info x ∷ [])) m.fetch_cycle) (
          if is_mem inst.insn_class
          then m.aq ++ (record { seq_no = seq_no; piece = piece; at_cycle = x.agen_cycle } ∷ [])
          else m.aq)
  entry_of-Agens m inst seq_no piece x info v r p =
      let w = entry_of o m inst seq_no piece info x in
      let ws = m.window ++ (w ∷ []) in
      let keep = Agens-append m.window w m.fetch_cycle in
      elim (Bool-cases (is_mem inst.insn_class)) [
        | inr other ↦
            rw other
              (All-keep (Agens m.window m.fetch_cycle) (Agens ws m.fetch_cycle) keep m.aq v.agens)
        | inl mem ↦
            let whole = u64-small (m.fetch_cycle + o.dq_latency) r.word in
            let le = at_least x.exec_cycle (last_retire m.window) in
            rw mem (
              All-append (Agens m.window m.fetch_cycle) (Agens ws m.fetch_cycle) keep m.aq
                (record { seq_no = seq_no; piece = piece; at_cycle = x.agen_cycle }) v.agens
                (record {
                  w = w;
                  located = locate-new m.window w r.older;
                  due = omega (arith, r.agen_after mem);
                  class = ap is_mem p.class ∙ mem;
                  decoded = omega (arith, whole, r.agen_after mem);
                  executes = r.agen_before mem;
                  va = inst.addr;
                  mem_va = p.mem_va ∙ given (r.memory mem) inst.addr;
                  sz = inst.size;
                  mem_sz = p.mem_sz ∙ given (r.memory mem) inst.size;
                  retires = omega (arith, le, r.agen_before mem);
                }))
      ]

  dispatch-Ready :
      (m : Machine P I V) (inst : Inst) (seq_no piece : ℕ) (x : Executed (Machine P I V))
      → IsPending m.fetch_cycle (pending_of m)
      → IsReady o m inst seq_no x
      → (info : ExecuteInfo) × (m' : Machine P I V) × (dispatch o hooks m inst seq_no piece x
          ≡ done (info, m'))
        × (m'.window ≡ m.window ++ (entry_of o m inst seq_no piece info x ∷ []))
        × (length m.aq ≤ length m.window → length m'.aq ≤ length m'.window)
        × IsPending m'.fetch_cycle (pending_of m')
  unfolding dispatch
  dispatch-Ready m inst seq_no piece x v r =
      let (info, e, p) = populate_exec_info-done inst r.operands in
      let w = entry_of o m inst seq_no piece info x in
      let ws = m.window ++ (w ∷ []) in
      let located = locate-new m.window w r.older in
      let whole = u64-small (m.fetch_cycle + o.dq_latency) r.word in
      let le = at_least x.exec_cycle (last_retire m.window) in
      let mem = is_mem inst.insn_class in
      let event_at : ℕ → Event = λ c. record { seq_no = seq_no; piece = piece; at_cycle = c } in
      (
        info,
        record m {
          window = ws;
          dq = m.dq ++ (event_at w.decode_cycle ∷ []);
          aq = (if mem then m.aq ++ (event_at x.agen_cycle ∷ []) else m.aq);
          eq = m.eq ++ (event_at x.exec_cycle ∷ []);
          bp = record m.bp {
            cond = hooks.notify_instr_fetch m.bp.cond seq_no piece inst.pc m.fetch_cycle;
          };
        },
        rw
            (
              e,
              lt→ltb m.fetch_cycle x.exec_cycle r.after,
              le→leb (length m.window + 1) m.window_capacity (omega (arith, r.room)),
              fits mem (length m.aq) m.window_capacity r.agen_room,
            )
            refl,
        refl,
        λ fewer. grows mem m.aq (event_at x.agen_cycle) m.window w fewer,
        record {
          rising = Rising-append m.dq (event_at w.decode_cycle) v.rising (
              All-keep (λ f. f.at_cycle ≤ m.fetch_cycle + o.dq_latency)
                (λ f. f.at_cycle ≤ w.decode_cycle) (λ f q. omega (arith, whole, q)) m.dq
                r.decoding);
          decodes =
              All-append (Decodes m.window m.fetch_cycle) (Decodes ws m.fetch_cycle)
                (Decodes-append m.window w m.fetch_cycle) m.dq (event_at w.decode_cycle) v.decodes
                (record {
                  w = w;
                  located = located;
                  due = omega (arith, whole);
                  cycle = refl;
                  retires = omega (arith, whole, le, r.decoded);
                });
          agens = entry_of-Agens m inst seq_no piece x info v r p;
          execs =
              All-append (Execs m.window m.fetch_cycle) (Execs ws m.fetch_cycle)
                (Execs-append m.window w m.fetch_cycle) m.eq (event_at x.exec_cycle) v.execs
                (record {
                  w = w;
                  located = located;
                  due = omega (arith, r.after);
                  cycle = refl;
                  retires = le;
                });
        },
      )

  -- Execution and dispatch of an instruction of a well-formed trace: its operands are registers, an
  -- unconditional branch is taken, and one of a memory class is a load or a store. Where the window has
  -- room, AQ has no more events than the window instructions, every instruction in a queue is in the
  -- window and nothing is overdue, the latencies are positive and in order, and no cycle wraps, the
  -- dispatch of what `execute` returned fails no assert. The window ends with the new entry, and the
  -- same holds of the queues with the new instruction in them.
  pub dispatch-IsPending :
      (fuel limit : ℕ) (before m : Machine P I V) (inst : Inst) (seq_no piece : ℕ)
      (x : Executed (Machine P I V))
      → IsPending m.fetch_cycle (pending_of m)
      → IsNext o m inst seq_no
      → before.fetch_cycle ≡ m.fetch_cycle
      → execute o fuel before inst ≡ done x
      → AllBy limit before.rf
      → m.fetch_cycle + o.pipeline_fill_latency ≤ limit
      → limit + fuel + latency_of o inst + 2 < 2 ^ 64
      → 1 ≤ latency_of o inst
      → o.dq_latency ≤ o.pipeline_fill_latency
      → (info : ExecuteInfo) × (m' : Machine P I V) × (dispatch o hooks m inst seq_no piece x
          ≡ done (info, m'))
        × (m'.window ≡ m.window ++ (entry_of o m inst seq_no piece info x ∷ []))
        × (length m'.aq ≤ length m'.window)
        × IsPending m'.fetch_cycle (pending_of m')
  unfolding dispatch
  dispatch-IsPending fuel limit before m inst seq_no piece x v n now e a le word some_time order =
      let (exec, agen) =
        execute-range o fuel limit before inst x a (omega (arith, le, now)) word some_time e in
      let (info, m', done_it, window, aq, kept) = dispatch-Ready m inst seq_no piece x v (record {
        operands = n.operands;
        memory = n.memory;
        room = n.room;
        agen_room = omega (arith, n.room, n.fewer);
        older = n.older;
        decoding = n.decoding;
        word = omega (arith, le, word, order);
        after = omega (arith, exec, now);
        decoded = omega (arith, exec, now, order);
        agen_after = λ mem. omega (arith, (agen mem).0, now, order);
        agen_before = λ mem. (agen mem).1;
      }) in
      (info, m', done_it, window, aq n.fewer, kept)
