-- ===== src/Interface/Summary/Totals.antt =====
-- The rows of `compute_CyclWP_summary` (cond_branch_predictor_interface.cc).
use mathlib.Core.Path.{subst}
use ternary_geo_bp.Base.{
  ℕ, ◌+◌, ◌-◌, ◌≡◌, ◌≤◌, ◌<◌, ◌%◌, ◌^◌, ◌&&◌, not, refl, sym, ◌∙◌, ap, Bool, true, false, Option,
  none, some, List, [], ◌∷◌, arith, length, ltb, ◌==◌, if◌then◌else◌, Bool-cases, inl, inr, ==→eq,
  ==_refl, ltb→lt,
}
use ternary_geo_bp.Insts.{DebugLog, code}
use ternary_geo_bp.Interface.Hooks.{has_sources}
use ternary_geo_bp.Interface.Summary.{Row, is_miss, cycles_of, key_of, add_row, summary_of}

-- A branch without sources, or with the flags as its only one.
abbrev pub reads_nothing : List ℕ → Bool
reads_nothing [] = true
reads_nothing (r ∷ []) = r == 64
reads_nothing (r ∷ (q ∷ rs)) = false

-- An executed conditional branch whose direction was not the predicted one, and that is logged under
-- a key: 255, the int8_t -1, where it reads nothing, and its logged number of loads otherwise.
abbrev pub counted : ℕ → DebugLog → Bool
counted key l =
    ((code l.inst_class == 3) && l.executed && not (l.taken == l.pred_dir))
    && ((if reads_nothing l.src_regs then 255 else l.load_dependence) == key)

-- The cycles from the prediction to the later one of fetch and execution.
abbrev pub delay : DebugLog → ℕ
delay l =
    (if ltb l.fetch_cycle l.execute_cycle then l.execute_cycle else l.fetch_cycle) - l.pred_cycle

-- How many entries of the log count under a key, and the sum of their delays.
unfoldable pub occurrences : ℕ → List (ℕ × DebugLog) → ℕ
occurrences key [] = 0
occurrences key ((k, l) ∷ rest) = (if counted key l then 1 else 0) + occurrences key rest

unfoldable pub delays : ℕ → List (ℕ × DebugLog) → ℕ
delays key [] = 0
delays key ((k, l) ∷ rest) = (if counted key l then delay l else 0) + delays key rest

-- The cycles of the log are words, and no branch is fetched before it is predicted.
abbrev pub IsTimed : List (ℕ × DebugLog) → Type 0
IsTimed [] = Unit
IsTimed ((k, l) ∷ rest) =
    (l.pred_cycle ≤ l.fetch_cycle)
    × (l.fetch_cycle < 2 ^ 64)
    × (l.execute_cycle < 2 ^ 64)
    × IsTimed rest

-- The row of a key.
abbrev pub row_of : ℕ → List Row → Option Row
row_of key [] = none
row_of key (r ∷ rs) = if r.key == key then some r else row_of key rs

-- No key has two rows.
abbrev pub IsDistinct : List Row → Type 0
IsDistinct [] = Unit
IsDistinct (r ∷ rs) = (row_of r.key rs ≡ none) × IsDistinct rs

-- A row says `m` mispredictions and `c` cycles, and there is none for no misprediction.
pub Says : ℕ → ℕ → Option Row → Type 0
Says m c none = (m ≡ 0) × (c ≡ 0)
Says m c (some r) = (0 < m) × (r.misses ≡ m) × (r.cycles ≡ c % 2 ^ 64)

add_row-other :
    (key k cycles : ℕ) (rows : List Row)
    → (k == key) ≡ false
    → row_of key (add_row k cycles rows) ≡ row_of key rows
unfolding add_row
add_row-other key k cycles [] ne = rw ne refl
add_row-other key k cycles (r ∷ rs) ne = ground (arith, ne, add_row-other key k cycles rs ne)

add_row-Says :
    (k cycles m c : ℕ) (rows : List Row)
    → cycles < 2 ^ 64
    → m + 1 < 2 ^ 31
    → Says m c (row_of k rows)
    → Says (m + 1) (c + cycles) (row_of k (add_row k cycles rows))
unfolding add_row Says
add_row-Says k cycles m c [] word small (e, e') =
    rw (==_refl k) (omega arith, omega (arith, e), omega (arith, e', word))
add_row-Says k cycles m c (r ∷ rs) word small v = elim (Bool-cases (r.key == k)) [
  | inl here ↦
      let (some_one, e, e') = rw here at v in
      rw (here, here) (omega arith, omega (arith, e, small), omega (arith, e'))
  | inr other ↦ rw (other, other) (add_row-Says k cycles m c rs word small (rw other at v))
]

add_row-IsDistinct :
    (k cycles : ℕ) (rows : List Row) → IsDistinct rows → IsDistinct (add_row k cycles rows)
unfolding add_row
add_row-IsDistinct k cycles [] d = (refl, tt)
add_row-IsDistinct k cycles (r ∷ rs) (fresh, d) = elim (Bool-cases (r.key == k)) [
  | inl here ↦ rw here (fresh, d)
  | inr other ↦ rw other (
    add_row-other r.key k cycles rs (ground (arith, other)) ∙ fresh,
    add_row-IsDistinct k cycles rs d,
  )
]

logged_key :
    (srcs : List ℕ) (d : ℕ)
    → (if has_sources srcs then d else 255) ≡ (if reads_nothing srcs then 255 else d)
logged_key [] d = refl
logged_key (r ∷ []) d = elim (Bool-cases (r == 64)) [
  | inl flags ↦ rw flags refl
  | inr other ↦ rw other refl
]
logged_key (r ∷ (q ∷ rs)) d = refl

counted-is_miss : (key : ℕ) (l : DebugLog) → counted key l ≡ (is_miss l && (key_of l == key))
counted-is_miss key l =
    ap (λ (k : ℕ). is_miss l && (k == key)) (sym (logged_key l.src_regs l.load_dependence))

cycles_of-delay :
    (l : DebugLog)
    → l.pred_cycle ≤ l.fetch_cycle
    → l.fetch_cycle < 2 ^ 64
    → l.execute_cycle < 2 ^ 64
    → (cycles_of l ≡ delay l) × (cycles_of l < 2 ^ 64)
cycles_of-delay l le lt lt' = elim (Bool-cases (ltb l.fetch_cycle l.execute_cycle)) [
  | inl later ↦ rw later (omega (arith, ltb→lt l.fetch_cycle l.execute_cycle later), omega arith)
  | inr earlier ↦ rw earlier (omega arith, omega arith)
]

Says-same : (m m' c c' : ℕ) (r : Option Row) → m ≡ m' → c ≡ c' → Says m c r → Says m' c' r
Says-same m m' c c' r e e' v = subst (λ (x : ℕ). Says x c' r) e (subst (λ (x : ℕ). Says m x r) e' v)

summary_of-Says :
    (key : ℕ) (log : List (ℕ × DebugLog)) (rows : List Row) (m c : ℕ)
    → IsTimed log
    → m + occurrences key log < 2 ^ 31
    → Says m c (row_of key rows)
    → Says (m + occurrences key log) (c + delays key log) (row_of key (summary_of log rows))
unfolding summary_of occurrences delays
summary_of-Says key [] rows m c timed small v =
    Says-same m (m + 0) c (c + 0) (row_of key rows) (omega arith) (omega arith) v
summary_of-Says key ((k, l) ∷ log) rows m c (le, lt, lt', timed) small v =
    elim (Bool-cases (is_miss l)) [
      | inr right ↦
          let out : counted key l ≡ false = counted-is_miss key l ∙ rw right refl in
          let rest = summary_of-Says key log rows m c timed (omega (arith, small)) v in
          rw (out, right)
            (Says-same (m + occurrences key log) (m + (0 + occurrences key log))
              (c + delays key log) (c + (0 + delays key log)) (row_of key (summary_of log rows))
              (omega arith) (omega arith) rest)
      | inl miss ↦ elim (Bool-cases (key_of l == key)) [
        | inr other ↦
            let out : counted key l ≡ false = counted-is_miss key l ∙ rw (miss, other) refl in
            let v' =
              subst (Says m c) (sym (add_row-other key (key_of l) (cycles_of l) rows other)) v in
            let rows' = add_row (key_of l) (cycles_of l) rows in
            rw (out, miss)
              (Says-same (m + occurrences key log) (m + (0 + occurrences key log))
                (c + delays key log) (c + (0 + delays key log)) (row_of key (summary_of log rows'))
                (omega arith) (omega arith)
                (summary_of-Says key log rows' m c timed (omega (arith, small)) v'))
        | inl mine ↦
            let here : counted key l ≡ true = counted-is_miss key l ∙ rw (miss, mine) refl in
            let same = ==→eq (key_of l) key mine in
            let (known, word) = cycles_of-delay l le lt lt' in
            let small' : m + (1 + occurrences key log) < 2 ^ 31 = rw here at small in
            let rows' = add_row (key_of l) (cycles_of l) rows in
            let v' : Says (m + 1) (c + cycles_of l) (row_of key rows') =
              subst (λ (x : ℕ). Says (m + 1) (c + cycles_of l) (row_of x rows')) same
                (add_row-Says (key_of l) (cycles_of l) m c rows word (omega (arith, small'))
                  (subst (λ (x : ℕ). Says m c (row_of x rows)) (sym same) v)) in
            rw (here, miss)
              (Says-same (m + 1 + occurrences key log) (m + (1 + occurrences key log))
                (c + cycles_of l + delays key log) (c + (delay l + delays key log))
                (row_of key (summary_of log rows')) (omega arith) (omega (arith, known))
                (summary_of-Says key log rows' (m + 1) (c + cycles_of l) timed
                  (omega (arith, small')) v'))
      ]
    ]

occurrences-le : (key : ℕ) (log : List (ℕ × DebugLog)) → occurrences key log ≤ length log
unfolding occurrences
occurrences-le key [] = omega arith
occurrences-le key ((k, l) ∷ log) = elim (Bool-cases (counted key l)) [
  | inl here ↦ rw here (omega (arith, occurrences-le key log))
  | inr other ↦ rw other (omega (arith, occurrences-le key log))
]

summary_of-IsDistinct :
    (log : List (ℕ × DebugLog)) (rows : List Row)
    → IsDistinct rows
    → IsDistinct (summary_of log rows)
unfolding summary_of
summary_of-IsDistinct [] rows d = d
summary_of-IsDistinct ((k, l) ∷ log) rows d = elim (Bool-cases (is_miss l)) [
  | inl miss ↦
      rw miss (summary_of-IsDistinct log _ (add_row-IsDistinct (key_of l) (cycles_of l) rows d))
  | inr right ↦ rw right (summary_of-IsDistinct log rows d)
]

-- For a log of fewer than 2 ^ 31 entries whose cycles are in order, the summary has at most one row for
-- each key. The row of a key says exactly how many executed conditional branches logged under it were
-- mispredicted, and the sum of the cycles between their prediction and the later one of their fetch and
-- execution, as far as 64 bits hold it; where there is no such branch there is no row.
pub summary_of-totals :
    (log : List (ℕ × DebugLog))
    → IsTimed log
    → length log < 2 ^ 31
    → IsDistinct (summary_of log [])
      × ((key : ℕ) → Says (occurrences key log) (delays key log) (row_of key (summary_of log [])))
unfolding Says
summary_of-totals log timed small = (
  summary_of-IsDistinct log [] tt,
  λ key.
      Says-same (0 + occurrences key log) (occurrences key log) (0 + delays key log)
        (delays key log) (row_of key (summary_of log [])) (omega arith) (omega arith)
        (summary_of-Says key log [] 0 0 timed (omega (arith, small, occurrences-le key log))
          (refl, refl)),
)
