-- ===== src/Tage/Match/Bounds.antt =====
-- The indices that `Tagepred` computes (cbp2016_tage_sc_l.h), and the sizes of the tables.
use native.Mathlib.Decide.{ℕ_discrete}
use native.Mathlib.Nat.{mod-lt, one-le-pow}
use ternary_geo_bp.Base.{
  ℕ, zero, suc, ◌+◌, ◌*◌, ◌%◌, ◌^◌, ◌≤◌, ◌<◌, ◌≡◌, ◌≢◌, inl, inr, refl, ◌∙◌, List, arith, ltb,
  if◌then◌else◌, length, get_or, set, ltb→lt, ltb→le, length-set, get_or-set_self, get_or-set_ne,
  Bool-cases, ◌<<<◌, ◌&&&◌, ◌^^^◌, low_mask,
}
use ternary_geo_bp.Base.Bits.{bit_and-low_mask, bit_xor-lt}
use ternary_geo_bp.Tage.{
  Config, Folded, History, history_length, noskip, nhist, nbanklow, nbankhigh, born, logg,
}
use ternary_geo_bp.Tage.Hash.{gindex, gtag}
use ternary_geo_bp.Tage.Match.{hash_banks, spread, place}

abbrev at_bank : List ℕ → ℕ → ℕ
at_bank gi i = get_or gi i 0

masked-lt : (x k : ℕ) → (x &&& low_mask k) < 2 ^ k
masked-lt x k = rw (bit_and-low_mask k x) (mod-lt x (one-le-pow k 2 (omega arith)))

gindex-lt : (c : Config) (pc bank hist : ℕ) (ch : List Folded) → gindex c pc bank hist ch < 1024
unfolding gindex
gindex-lt c pc bank hist ch = masked-lt _ 10

set-lt :
    (gi : List ℕ) (i j v limit : ℕ)
    → i < length gi
    → v < limit
    → (i ≢ j → at_bank gi j < limit)
    → at_bank (set gi i v) j < limit
set-lt gi i j v limit inside small other = elim (ℕ_discrete i j) [
  | yes e ↦ rw (← e, get_or-set_self gi i v 0 inside) small
  | no ne ↦ rw (get_or-set_ne gi i j v 0 ne) (other ne)
]

hash_banks-lt :
    (c : Config) (pc : ℕ) (h : History) (n i : ℕ) (gi tags : List ℕ) (j : ℕ)
    → i + 2 * n ≤ length gi
    → ((k : ℕ) → 1 ≤ k → k < i → at_bank gi k < 1024)
    → 1 ≤ j
    → j < i + 2 * n
    → at_bank (hash_banks c pc h n i (gi, tags)).0 j < 1024
unfolding hash_banks
hash_banks-lt c pc h zero i gi tags j room old pos_j lt = old j pos_j (omega arith)
hash_banks-lt c pc h (suc n) i gi tags j room old pos_j lt =
    hash_banks-lt c pc h n (i + 2) _ _ j
      (omega (arith, length-set gi i index, length-set (set gi i index) (i + 1) next))
      (λ k p q.
        set-lt (set gi i index) (i + 1) k next 1024 (omega (arith, length-set gi i index))
          (bit_xor-lt 10 index (tag &&& low_mask logg) (gindex-lt c pc i h.phist h.ch_i)
            (masked-lt tag 10))
          (λ ne.
            set-lt gi i k index 1024 (omega arith) (gindex-lt c pc i h.phist h.ch_i)
              (λ ne'. old k p (omega arith))))
      pos_j (omega arith)
  where
    index : ℕ
    index = gindex c pc i h.phist h.ch_i

    tag : ℕ
    tag = gtag pc i h.ch_t0 h.ch_t1

    next : ℕ
    next = index ^^^ (tag &&& low_mask logg)

hash_banks-length :
    (c : Config) (pc : ℕ) (h : History) (n i : ℕ) (gi tags : List ℕ)
    → length (hash_banks c pc h n i (gi, tags)).0 ≡ length gi
unfolding hash_banks
hash_banks-length c pc h zero i gi tags = refl
hash_banks-length c pc h (suc n) i gi tags =
    hash_banks-length c pc h n (i + 2) _ _ ∙ length-set (set gi i _) (i + 1) _ ∙ length-set gi i _

-- One step of `spread`.
abbrev spread_one : List ℕ → ℕ → ℕ → List ℕ
spread_one gi i t = if noskip i then set gi i (get_or gi i 0 + (t <<< logg)) else gi

spread_one_ne : (gi : List ℕ) (i t j : ℕ) → i ≢ j → at_bank (spread_one gi i t) j ≡ at_bank gi j
spread_one_ne gi i t j ne = elim (Bool-cases (noskip i)) [
  | inl used ↦ rw used (get_or-set_ne gi i j _ 0 ne)
  | inr skipped ↦ rw skipped refl
]

spread_one-length : (gi : List ℕ) (i t : ℕ) → length (spread_one gi i t) ≡ length gi
spread_one-length gi i t = elim (Bool-cases (noskip i)) [
  | inl used ↦ rw used (length-set gi i _)
  | inr skipped ↦ rw skipped refl
]

spread_one-lt :
    (gi : List ℕ) (i t nbank : ℕ)
    → i < length gi
    → at_bank gi i < 1024
    → t < nbank
    → at_bank (spread_one gi i t) i < nbank * 1024
spread_one-lt gi i t nbank inside small lt = elim (Bool-cases (noskip i)) [
  | inl used ↦ rw (used, get_or-set_self gi i (get_or gi i 0 + (t <<< logg)) 0 inside) (omega arith)
  | inr skipped ↦ rw skipped (omega arith)
]

-- `spread` leaves the banks before and behind its own.
spread-before :
    (nbank n i t : ℕ) (gi : List ℕ) (j : ℕ)
    → j < i
    → at_bank (spread nbank n i t gi) j ≡ at_bank gi j
unfolding spread
spread-before nbank zero i t gi j lt = refl
spread-before nbank (suc n) i t gi j lt =
    spread-before nbank n (i + 1) _ (spread_one gi i t) j (omega arith)
    ∙ spread_one_ne gi i t j (λ e. omega arith)

spread-behind :
    (nbank n i t : ℕ) (gi : List ℕ) (j : ℕ)
    → i + n ≤ j
    → at_bank (spread nbank n i t gi) j ≡ at_bank gi j
unfolding spread
spread-behind nbank zero i t gi j le = refl
spread-behind nbank (suc n) i t gi j le =
    spread-behind nbank n (i + 1) _ (spread_one gi i t) j (omega arith)
    ∙ spread_one_ne gi i t j (λ e. omega arith)

next_bank : ℕ → ℕ → ℕ → ℕ
next_bank nbank i t = if noskip i then (t + 1) % nbank else t

next_bank-lt : (nbank i t : ℕ) → t < nbank → next_bank nbank i t < nbank
unfolding next_bank
next_bank-lt nbank i t lt = elim (Bool-cases (noskip i)) [
  | inl used ↦ rw used (mod-lt (t + 1) (omega arith))
  | inr skipped ↦ rw skipped lt
]

spread-lt :
    (nbank n i t : ℕ) (gi : List ℕ) (j : ℕ)
    → i + n ≤ length gi
    → t < nbank
    → ((k : ℕ) → i ≤ k → k < i + n → at_bank gi k < 1024)
    → i ≤ j
    → j < i + n
    → at_bank (spread nbank n i t gi) j < nbank * 1024
unfolding spread next_bank
spread-lt nbank zero i t gi j room lt small le below = absurd (omega arith)
spread-lt nbank (suc n) i t gi j room lt small le below = elim (ℕ_discrete i j) [
  | yes e ↦
      rw
        (
          ← e,
          spread-before nbank n (i + 1) (next_bank nbank i t) (spread_one gi i t) i (omega arith),
        )
        (spread_one-lt gi i t nbank (omega arith) (small i (omega arith) (omega arith)) lt)
  | no ne ↦
      spread-lt nbank n (i + 1) (next_bank nbank i t) (spread_one gi i t) j
        (omega (arith, spread_one-length gi i t)) (next_bank-lt nbank i t lt)
        (λ k p q.
          rw (spread_one_ne gi i t k (λ e. omega arith)) (small k (omega arith) (omega arith)))
        (omega arith) (omega arith)
]

spread-length : (nbank n i t : ℕ) (gi : List ℕ) → length (spread nbank n i t gi) ≡ length gi
unfolding spread
spread-length nbank zero i t gi = refl
spread-length nbank (suc n) i t gi =
    spread-length nbank n (i + 1) _ (spread_one gi i t) ∙ spread_one-length gi i t

-- Every index that `Tagepred` computes is inside the table of its bank: gtable[1] has 10 * 1024
-- entries for the banks below 13, and gtable[13] has 20 * 1024 entries for those from 13 on.
pub place-lt :
    (c : Config) (pc : ℕ) (h : History) (gi tags : List ℕ) (bank : ℕ)
    → length gi ≡ nhist + 1
    → 1 ≤ bank
    → bank ≤ nhist
    → get_or (place c pc h (gi, tags)).0 bank 0
      < (if ltb bank born then nbanklow else nbankhigh) * 1024
unfolding place
place-lt c pc h gi tags bank size one le = elim (Bool-cases (ltb bank born)) [
  | inl low ↦
      let below = ltb→lt bank born low in
      rw low (
        spread-lt nbanklow 12 1 t_low spread_high bank (omega (arith, lengths))
          (mod-lt _ (omega arith))
          (λ k p q.
            rw (spread-before nbankhigh 24 born t_high hashed k (omega arith))
              (small k p (omega arith)))
          one (omega arith))
  | inr high ↦
      let above = ltb→le bank born high in
      rw (high, spread-behind nbanklow 12 1 t_low spread_high bank (omega arith))
        (spread-lt nbankhigh 24 born t_high hashed bank
          (omega (arith, hash_banks-length c pc h 18 1 gi tags)) (mod-lt _ (omega arith))
          (λ k p q. small k (omega arith) (omega arith)) above (omega arith))
]
  where
    hashed : List ℕ
    hashed = (hash_banks c pc h 18 1 (gi, tags)).0

    t_high : ℕ
    t_high = (pc ^^^ (h.phist &&& low_mask (history_length c.rounded born))) % nbankhigh

    t_low : ℕ
    t_low = (pc ^^^ (h.phist &&& low_mask (history_length c.rounded 1))) % nbanklow

    spread_high : List ℕ
    spread_high = spread nbankhigh 24 born t_high hashed

    lengths : length spread_high ≡ nhist + 1
    lengths =
        spread-length nbankhigh 24 born t_high hashed ∙ hash_banks-length c pc h 18 1 gi tags ∙ size

    small : (k : ℕ) → 1 ≤ k → k < 37 → at_bank hashed k < 1024
    small k p q =
        hash_banks-lt c pc h 18 1 gi tags k (omega arith) (λ k' p' q'. absurd (omega arith)) p
          (omega arith)

-- `place` keeps the number of indices.
pub place-length :
    (c : Config) (pc : ℕ) (h : History) (gi tags : List ℕ)
    → length (place c pc h (gi, tags)).0 ≡ length gi
unfolding place
place-length c pc h gi tags =
    spread-length nbanklow 12 1 _ _
    ∙ spread-length nbankhigh 24 born _ _
    ∙ hash_banks-length c pc h 18 1 gi tags
