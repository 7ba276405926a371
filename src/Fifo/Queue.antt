-- ===== src/Fifo/Queue.antt =====
-- The circular array (lib/fifo.h) and the list of the elements that it holds.
use native.Mathlib.Decide.{dec_lt}
use ternary_geo_bp.Base.{
  ℕ, suc, ◌+◌, ◌-◌, ◌^◌, ◌≤◌, ◌<◌, ◌≡◌, ◌≢◌, refl, sym, ◌∙◌, ap, List, [], ◌∷◌, ◌++◌, arith, ltb,
  ◌==◌, if◌then◌else◌, length, get_or, set, length-set, length-append, get_or-set_self,
  get_or-set_ne, get_or-append, get_or-append_right, u64, sub64, done, lt→ltb,
}
use ternary_geo_bp.Fifo.{Fifo, init, empty, full, next, pop, push, peektail, peekhead}

-- The index of the `i`-th element, in an array that wraps.
abbrev wrapped : ℕ → ℕ → ℕ → ℕ
wrapped size head i = if ltb (head + i) size then head + i else head + i - size

wrapped-lt : (size head i : ℕ) → head < size → i < size → wrapped size head i < size
wrapped-lt size head i inside below = ground arith

wrapped_ne :
    (size head i j : ℕ) → head < size → i < j → j < size → wrapped size head j ≢ wrapped size head i
wrapped_ne size head i j inside less below e = ground arith

wrapped-zero : (size head : ℕ) → head < size → head ≡ wrapped size head 0
wrapped-zero size head inside = ground arith

-- One element more, and one element later.
next-wrapped :
    (size head i : ℕ)
    → size < 2 ^ 64
    → head < size
    → i < size
    → next size (wrapped size head i) ≡ wrapped size head (i + 1)
next-wrapped size head i small inside below = ground arith

wrapped-next :
    (size head i : ℕ)
    → size < 2 ^ 64
    → head < size
    → i < size
    → wrapped size (next size head) i ≡ wrapped size head (suc i)
wrapped-next size head i small inside below = ground arith

module _ {ℓ} {A : Type ℓ} (no_item : A) where
  -- The queue holds the elements of `xs`, the oldest first.
  pub record Represents (f : Fifo A) (xs : List A) : Type ℓ where
    pub array : length f.q ≡ f.size
    pub small : f.size < 2 ^ 64
    pub head_inside : f.head < f.size
    pub count : f.length ≡ length xs
    pub room : length xs ≤ f.size
    pub tail : f.tail ≡ wrapped f.size f.head (length xs)
    pub items :
        (i : ℕ) → i < length xs → get_or f.q (wrapped f.size f.head i) no_item ≡ get_or xs i no_item

  -- On a queue that is not full, `push` puts its value at the end.
  pub push-Represents :
      (f : Fifo A) (xs : List A) (v : A)
      → Represents f xs
      → length xs < f.size
      → (f' : Fifo A) × (push f v ≡ done f') × Represents f' (xs ++ (v ∷ []))
  unfolding push
  push-Represents f xs v r free = (
    f',
    rw (lt→ltb f.length f.size (omega (arith, r.count))) refl,
    record {
      array = length-set f.q f.tail v ∙ r.array;
      small = r.small;
      head_inside = r.head_inside;
      count = omega (arith, r.count, longer, r.small);
      room = omega (arith, longer);
      tail =
          ap (next f.size) r.tail
          ∙ next-wrapped f.size f.head (length xs) r.small r.head_inside free
          ∙ ap (wrapped f.size f.head) (sym longer);
      items = λ i h. elim (dec_lt i (length xs)) [
        | yes old ↦
            get_or-set_ne f.q f.tail (wrapped f.size f.head i) v no_item
              (λ e. apart i old (sym r.tail ∙ e))
            ∙ r.items i old
            ∙ sym (get_or-append xs (v ∷ []) i no_item old)
        | no new ↦ newest i (omega (arith, longer))
      ];
    },
  )
    where
      f' : Fifo A
      f' = record f { length = u64 (f.length + 1); q = set f.q f.tail v; tail = next f.size f.tail }

      longer : length (xs ++ (v ∷ [])) ≡ length xs + 1
      longer = omega (arith, length-append xs (v ∷ []))

      apart : (i : ℕ) → i < length xs → wrapped f.size f.head (length xs) ≢ wrapped f.size f.head i
      apart i old = wrapped_ne f.size f.head i (length xs) r.head_inside old free

      at_front : (i : ℕ) → i ≡ length xs → i - length xs ≡ 0
      at_front i e = omega arith

      newest :
          (i : ℕ)
          → i ≡ length xs
          → get_or (set f.q f.tail v) (wrapped f.size f.head i) no_item
            ≡ get_or (xs ++ (v ∷ [])) i no_item
      newest i e =
          ap (λ (k : ℕ). get_or (set f.q f.tail v) k no_item)
            (ap (wrapped f.size f.head) e ∙ sym r.tail)
          ∙ get_or-set_self f.q f.tail v no_item (
              omega
                (arith, r.array, r.tail, wrapped-lt f.size f.head (length xs) r.head_inside free))
          ∙ sym (
              get_or-append_right xs (v ∷ []) i no_item (omega arith)
              ∙ ap (λ (k : ℕ). get_or (v ∷ []) k no_item) (at_front i e))

  -- On a queue that is not empty, `pop` returns the oldest element and leaves the others.
  pub pop-Represents :
      (f : Fifo A) (x : A) (xs : List A)
      → Represents f (x ∷ xs)
      → (f' : Fifo A) × (pop no_item f ≡ done (x, f')) × Represents f' xs
  unfolding pop
  pop-Represents f x xs r = (
    f',
    rw (lt→ltb 0 f.length (omega (arith, r.count)), oldest) refl,
    record {
      array = r.array;
      small = r.small;
      head_inside = ground (arith, r.head_inside, r.small);
      count = omega (arith, r.count);
      room = omega (arith, r.room);
      tail =
          r.tail
          ∙ sym (
              wrapped-next f.size f.head (length xs) r.small r.head_inside (omega (arith, r.room)));
      items = λ i h.
          ap (λ (k : ℕ). get_or f.q k no_item)
            (wrapped-next f.size f.head i r.small r.head_inside (omega (arith, r.room)))
          ∙ r.items (suc i) (omega arith);
    },
  )
    where
      f' : Fifo A
      f' = record f { length = f.length - 1; head = next f.size f.head }

      oldest : get_or f.q f.head no_item ≡ x
      oldest =
          ap (λ (k : ℕ). get_or f.q k no_item) (wrapped-zero f.size f.head r.head_inside)
          ∙ r.items 0 (omega arith)

  -- The queue that the constructor makes for a size that is not 0 is empty.
  pub init-Represents :
      (size : ℕ) (old : List A)
      → length old ≡ size
      → 0 < size
      → size < 2 ^ 64
      → Represents (init size old) []
  unfolding init
  init-Represents size old same some_room small = record {
    array = same;
    small = small;
    head_inside = some_room;
    count = refl;
    room = omega arith;
    tail = ground arith;
    items = λ i h. absurd (omega arith);
  }

  -- The newest element is the one before the tail.
  before_tail :
      (size head n tail : ℕ)
      → size < 2 ^ 64
      → head < size
      → suc n ≤ size
      → tail ≡ wrapped size head (suc n)
      → (if ltb 0 tail then tail - 1 else sub64 size 1) ≡ wrapped size head n
  before_tail size head n tail small inside room e = ground arith

  -- `empty` tells that the queue holds no element, and `full` that it holds as many elements as the
  -- array has.
  pub full-Represents :
      (f : Fifo A) (xs : List A)
      → Represents f xs
      → (empty f ≡ (length xs == 0)) × (full f ≡ (length xs == f.size))
  unfolding empty full
  full-Represents f xs r = (ap (λ (k : ℕ). k == 0) r.count, ap (λ (k : ℕ). k == f.size) r.count)

  -- On a queue that is not empty, `peekhead` is the oldest element and `peektail` the newest.
  pub peektail-Represents :
      (f : Fifo A) (x : A) (xs : List A)
      → Represents f (x ∷ xs)
      → (peekhead no_item f ≡ x) × (peektail no_item f ≡ get_or (x ∷ xs) (length xs) no_item)
  unfolding peekhead peektail
  peektail-Represents f x xs r = (
    ap (λ (k : ℕ). get_or f.q k no_item) (wrapped-zero f.size f.head r.head_inside)
        ∙ r.items 0 (omega arith),
    ap (λ (k : ℕ). get_or f.q k no_item)
          (before_tail f.size f.head (length xs) f.tail r.small r.head_inside
            (omega (arith, r.room)) r.tail)
        ∙ r.items (length xs) (omega arith),
  )
