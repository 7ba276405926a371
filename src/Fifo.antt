-- ===== src/Fifo.antt =====
-- lib/fifo.h: a queue in a circular array. The elements that an array has before anything is pushed
-- are those of the list `old`; `no_item` is read at an index outside the array only.
pub mod Queue
mod Tests
use ternary_geo_bp.Base.{
  ℕ, ◌+◌, ◌-◌, Bool, List, ltb, ◌==◌, if◌then◌else◌, get_or, set, u64, sub64, Run, done, ◌>>=◌,
  ◌>>◌, assert,
}

-- fifo_t
pub record Fifo {ℓ} (A : Type ℓ) : Type ℓ where
  pub q : List A
  pub size : ℕ
  pub head : ℕ
  pub tail : ℕ
  pub length : ℕ

-- head++; if (head == size) head = 0
abbrev pub next : ℕ → ℕ → ℕ
next size i = if u64 (i + 1) == size then 0 else u64 (i + 1)

module _ {ℓ} {A : Type ℓ} where
  -- The constructor, with the `size` elements that `new` leaves.
  unfoldable pub init : ℕ → List A → Fifo A
  init size old = record { q = old; size = size; head = 0; tail = 0; length = 0 }

  -- `empty`
  unfoldable pub empty : Fifo A → Bool
  empty f = f.length == 0

  -- `full`
  unfoldable pub full : Fifo A → Bool
  full f = f.length == f.size

  -- `pop`
  unfoldable pub pop : A → Fifo A → Run (A × Fifo A)
  pop no_item f = do
    assert (ltb 0 f.length)
    done (get_or f.q f.head no_item, record f { length = f.length - 1; head = next f.size f.head })

  -- `push`
  unfoldable pub push : Fifo A → A → Run (Fifo A)
  push f value = do
    assert (ltb f.length f.size)
    done (record f {
      length = u64 (f.length + 1);
      q = set f.q f.tail value;
      tail = next f.size f.tail;
    })

  -- `peektail`
  unfoldable pub peektail : A → Fifo A → A
  peektail no_item f = get_or f.q (if ltb 0 f.tail then f.tail - 1 else sub64 f.size 1) no_item

  -- `peekhead`
  unfoldable pub peekhead : A → Fifo A → A
  peekhead no_item f = get_or f.q f.head no_item
