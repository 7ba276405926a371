-- ===== src/Cache/Ways.antt =====
-- The search of `access` over the ways of a set (lib/cache.cc): what a hit and a miss say of the
-- blocks, and which way is the victim.
use mathlib.Core.Path.{subst}
use native.Mathlib.Decide.{ℕ_discrete}
use ternary_geo_bp.Base.{
  ℕ, zero, suc, ◌+◌, ◌≤◌, ◌<◌, ◌≡◌, ◌≢◌, ◌⊎◌, inl, inr, true, false, Option, some, List, [], ◌∷◌,
  arith, leb, if◌then◌else◌, length, get_or, Bool-cases,
}
use ternary_geo_bp.Cache.{Block, no_block, matches, hit, miss, search}

-- A hit names the way of a block that matches.
pub search-hit :
    (tag : ℕ) (bs : List Block) (way m : ℕ) (v : Option ℕ) (w : ℕ)
    → search tag bs way m v ≡ hit w
    → (i : ℕ) × (w ≡ way + i) × (i < length bs) × (matches tag (get_or bs i no_block) ≡ true)
unfolding search
search-hit tag [] way m v w e = cc
search-hit tag (b ∷ bs) way m v w e = elim (Bool-cases (matches tag b)) [
  | inl yes' ↦ (0, ground arith, omega arith, yes')
  | inr no' ↦
      let (i, at, below, found) = search-hit tag bs (way + 1) _ _ w (rw no' at e) in
      (suc i, omega arith, omega arith, found)
]

-- After a miss no block matches.
pub search-miss :
    (tag : ℕ) (bs : List Block) (way m : ℕ) (v : Option ℕ) (m' : ℕ) (v' : Option ℕ)
    → search tag bs way m v ≡ miss m' v'
    → (i : ℕ) → i < length bs
    → matches tag (get_or bs i no_block) ≡ false
unfolding search
search-miss tag [] way m v m' v' e i h = absurd (omega arith)
search-miss tag (b ∷ bs) way m v m' v' e zero h = ground arith
search-miss tag (b ∷ bs) way m v m' v' e (suc i) h = elim (Bool-cases (matches tag b)) [
  | inl yes' ↦ ground arith
  | inr no' ↦ search-miss tag bs (way + 1) _ _ m' v' (rw no' at e) i (omega arith)
]

-- What the search has found so far: the greatest counter with a way that has it, or such a way is
-- still ahead.
abbrev Seen {κ} : (ℕ → Type κ) → ℕ → List Block → ℕ → Option ℕ → Type κ
Seen P top bs m v =
    ((m ≡ top) × ((w : ℕ) × (v ≡ some w) × P w))
    ⊎ ((i : ℕ) × (i < length bs) × ((get_or bs i no_block).lru ≡ top))

-- A way below `top` does not displace what has been found.
Seen-skip {κ} :
    (P : ℕ → Type κ) (top : ℕ) (b : Block) (bs : List Block) (way m : ℕ) (v : Option ℕ)
    → b.lru ≤ top
    → b.lru ≢ top
    → Seen P top (b ∷ bs) m v
    → Seen P top bs (if leb m b.lru then b.lru else m) (if leb m b.lru then some way else v)
Seen-skip P top b bs way m v le ne (inl (e, (w, q, p))) = inl (ground arith, (w, ground arith, p))
Seen-skip P top b bs way m v le ne (inr (zero, h, q)) = absurd (ne q)
Seen-skip P top b bs way m v le ne (inr (suc i, h, q)) = inr (i, omega arith, q)

Seen-cons {κ} :
    (P : ℕ → Type κ) (top : ℕ) (b : Block) (bs : List Block) (way m : ℕ) (v : Option ℕ)
    → m ≤ top
    → b.lru ≤ top
    → (b.lru ≡ top → P way)
    → Seen P top (b ∷ bs) m v
    → Seen P top bs (if leb m b.lru then b.lru else m) (if leb m b.lru then some way else v)
Seen-cons P top b bs way m v low le here seen = elim (ℕ_discrete b.lru top) [
  | yes e ↦ inl (ground arith, (way, ground arith, here e))
  | no ne ↦ Seen-skip P top b bs way m v le ne seen
]

-- The victim has the greatest counter: where the counters are at most `top`, and some way has
-- `top`, a miss ends with `top` and with such a way.
pub search-victim {κ} :
    (P : ℕ → Type κ) (tag top : ℕ) (bs : List Block) (way m : ℕ) (v : Option ℕ) (m' : ℕ)
    (v' : Option ℕ)
    → search tag bs way m v ≡ miss m' v'
    → m ≤ top
    → ((i : ℕ) → i < length bs → (get_or bs i no_block).lru ≤ top)
    → ((i : ℕ) → i < length bs → (get_or bs i no_block).lru ≡ top → P (way + i))
    → Seen P top bs m v
    → (m' ≡ top) × ((w : ℕ) × (v' ≡ some w) × P w)
unfolding search
search-victim P tag top [] way m v m' v' e low le holds (inl (a, (w, q, p))) =
    (ground arith, (w, ground arith, p))
search-victim P tag top [] way m v m' v' e low le holds (inr (i, h, _)) = absurd (omega arith)
search-victim P tag top (b ∷ bs) way m v m' v' e low le holds seen =
    elim (Bool-cases (matches tag b)) [
      | inl yes' ↦ ground arith
      | inr no' ↦
          search-victim P tag top bs (way + 1) _ _ m' v' (rw no' at e) (ground (arith, le 0))
            (λ i h. le (suc i) (omega arith))
            (λ i h q. subst P (omega arith) (holds (suc i) (omega arith) q))
            (Seen-cons P top b bs way m v low (le 0 (omega arith))
              (λ q. subst P (omega arith) (holds 0 (omega arith) q)) seen)
    ]
