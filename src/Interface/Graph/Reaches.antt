-- ===== src/Interface/Graph/Reaches.antt =====
-- What the search of DependencyGraph finds (cond_branch_predictor_interface.cc).
use mathlib.Core.Path.{subst}
use ternary_geo_bp.Base.{
  ℕ, zero, suc, ◌+◌, ◌≤◌, ◌<◌, ◌≡◌, ◌≢◌, ◌⊎◌, ◌↔◌, inl, inr, refl, sym, ◌∙◌, ap, Bool, true, false,
  not, List, [], ◌∷◌, arith, ◌==◌, if◌then◌else◌, to_ℕ, find_key, erase_key, find_key-erase_key,
  value_or, Run, done, Bool-cases, Option-cases, some, length, ==→eq, ==_refl, ne→==, true-false,
}
use ternary_geo_bp.Interface.Graph.{
  Graph, has, erase, without, delete_destination, sources, visit_all, dfs, get_all_dependencies,
}

-- A register that the address of `src` depends on, over any number of loads.
pub data Reach (g : Graph) (src : ℕ) : ℕ → Type 0 where
  here : Reach g src src
  step : {u v : ℕ} → Reach g src u → has v (sources g u) ≡ true → Reach g src v

prepend : {g : Graph} {n s x : ℕ} → has s (sources g n) ≡ true → Reach g s x → Reach g n x
prepend e here = step here e
prepend e (step r f) = step (prepend e r) f

abbrev Sub : List ℕ → List ℕ → Type 0
Sub v w = (x : ℕ) → has x v ≡ true → has x w ≡ true

-- The registers of the graph that have not been visited.
fresh : Graph → List ℕ → ℕ
fresh [] v = 0
fresh ((k, s) ∷ g) v = to_ℕ (not (has k v)) + fresh g v

fresh-Sub : (g : Graph) (v w : List ℕ) → Sub v w → fresh g w ≤ fresh g v
unfolding fresh
fresh-Sub [] v w sub = omega arith
fresh-Sub ((k, s) ∷ g) v w sub = ground (arith, fresh-Sub g v w sub, sub k)

has-cons : (x y : ℕ) (ys : List ℕ) → has x ys ≡ true → has x (y ∷ ys) ≡ true
has-cons x y ys h = ground arith

has-eq : (n s : ℕ) (w : List ℕ) → n ≡ s → has n w ≡ true → has s w ≡ true
has-eq n s w e h = ap (λ (x : ℕ). has x w) (sym e) ∙ h

fresh-visit :
    (g : Graph) (n : ℕ) (v s : List ℕ)
    → has n v ≡ false
    → find_key n g ≡ some s
    → fresh g (n ∷ v) < fresh g v
unfolding fresh
fresh-visit [] n v s new e = cc
fresh-visit ((k, t) ∷ g) n v s new e = elim (Bool-cases (k == n)) [
  | inl eq ↦
      let same : k ≡ n = ==→eq k n eq in
      ground (arith, same, fresh-Sub g v (n ∷ v) (λ x h. has-cons x n v h))
  | inr ne ↦ ground (arith, fresh-visit g n v s new (rw ne at e))
]

fresh-length : (g : Graph) (v : List ℕ) → fresh g v ≤ length g
unfolding fresh
fresh-length [] v = omega arith
fresh-length ((k, s) ∷ g) v = ground (arith, fresh-length g v)

-- What a search from the nodes of `From` leaves.
record Searched (g : Graph) (From : ℕ → Type 0) (v w : List ℕ) : Type 0 where
  keeps : Sub v w
  closed :
      (x y : ℕ) → has x w ≡ true → has x v ≡ false → has y (sources g x) ≡ true → has y w ≡ true
  sound : (x : ℕ) → has x w ≡ true → (has x v ≡ true) ⊎ From x

abbrev FromAll : Graph → List ℕ → ℕ → Type 0
FromAll g srcs x = (s : ℕ) × (has s srcs ≡ true) × Reach g s x

Searched-visit_all :
    (g : Graph) (visit : ℕ → List ℕ → Run (List ℕ)) (limit : ℕ)
    → ((n : ℕ) (v : List ℕ)
        → fresh g v < limit
        → (w : List ℕ) × (visit n v ≡ done w) × Searched g (Reach g n) v w × (has n w ≡ true))
    → (srcs v : List ℕ) → fresh g v < limit
    → (w : List ℕ) × (visit_all visit srcs v ≡ done w)
      × Searched g (FromAll g srcs) v w
      × ((s : ℕ) → has s srcs ≡ true → has s w ≡ true)
unfolding visit_all
Searched-visit_all g visit limit ok [] v enough = (
  v,
  refl,
  record { keeps = λ x h. h; closed = λ x y h n e. absurd cc; sound = λ x h. inl h },
  λ s h. absurd cc,
)
Searched-visit_all g visit limit ok (n ∷ srcs) v enough =
    let (v1, e1, s1, in1) = ok n v enough in
    let (w, e2, s2, in2) =
      Searched-visit_all g visit limit ok srcs v1 (omega (arith, fresh-Sub g v v1 s1.keeps)) in
    (
      w,
      rw e1 e2,
      record {
        keeps = λ x h. s2.keeps x (s1.keeps x h);
        closed = λ x y h out e. elim (Bool-cases (has x v1)) [
          | inl old ↦ s2.keeps y (s1.closed x y old out e)
          | inr new ↦ s2.closed x y h new e
        ];
        sound = λ x h. elim (s2.sound x h) [
          | inl old ↦ elim (s1.sound x old) [
            | inl before ↦ inl before
            | inr r ↦ inr (n, ground (arith, ==_refl n), r)
          ]
          | inr (s, m, r) ↦ inr (s, has-cons s n srcs m, r)
        ];
      },
      λ s h. elim (Bool-cases (n == s)) [
        | inl eq ↦ s2.keeps s (has-eq n s v1 (==→eq n s eq) in1)
        | inr ne ↦ in2 s (rw ne at h)
      ],
    )

has-nil : (x : ℕ) (w : List ℕ) → has x [] ≡ true → has x w ≡ true
has-nil x w h = cc

Searched-node :
    (g : Graph) (n : ℕ) (v w : List ℕ)
    → Searched g (FromAll g (sources g n)) (n ∷ v) w
    → ((s : ℕ) → has s (sources g n) ≡ true → has s w ≡ true)
    → Searched g (Reach g n) v w × (has n w ≡ true)
Searched-node g n v w found all = (
  record {
    keeps = λ x h. found.keeps x (has-cons x n v h);
    closed = λ x y h out e. elim (Bool-cases (n == x)) [
      | inl eq ↦ all y (ap (λ (z : ℕ). has y (sources g z)) (==→eq n x eq) ∙ e)
      | inr ne ↦ found.closed x y h (ground (arith, ne, out)) e
    ];
    sound = λ x h. elim (found.sound x h) [
      | inl old ↦ elim (Bool-cases (n == x)) [
        | inl eq ↦ inr (subst (Reach g n) (==→eq n x eq) here)
        | inr ne ↦ inl (rw ne at old)
      ]
      | inr (s, m, r) ↦ inr (prepend m r)
    ];
  },
  found.keeps n (ground (arith, ==_refl n)),
)

Searched-dfs :
    (g : Graph) (fuel n : ℕ) (v : List ℕ)
    → fresh g v < fuel
    → (w : List ℕ) × (dfs fuel g n v ≡ done w) × Searched g (Reach g n) v w × (has n w ≡ true)
unfolding dfs visit_all
Searched-dfs g zero n v enough = absurd (omega arith)
Searched-dfs g (suc fuel) n v enough = elim (Bool-cases (has n v)) [
  | inl old ↦
      rw (old, dfs)
        (
          v,
          refl,
          record { keeps = λ x h. h; closed = λ x y h o e. absurd cc; sound = λ x h. inl h },
          old,
        )
  | inr new ↦ elim (Option-cases (find_key n g)) [
    | inl missing ↦
        let none_left : sources g n ≡ [] = ap (value_or []) missing in
        let done_here : Searched g (FromAll g (sources g n)) (n ∷ v) (n ∷ v) = record {
          keeps = λ x h. h;
          closed = λ x y h o e. absurd cc;
          sound = λ x h. inl h;
        } in
        let (s, m) =
          Searched-node g n v (n ∷ v) done_here
            (λ s h. has-nil s (n ∷ v) (ap (has s) (sym none_left) ∙ h)) in
        rw (new, none_left, dfs) (n ∷ v, refl, s, m)
    | inr (srcs, found) ↦
        let (w, e, s, all) =
          Searched-visit_all g (dfs fuel g) fuel (λ m u p. Searched-dfs g fuel m u p) (sources g n)
            (n ∷ v) (omega (arith, fresh-visit g n v srcs new found)) in
        let (s', m) = Searched-node g n v w s all in rw (new, dfs) (w, e, s', m)
  ]
]

complete :
    (g : Graph) (n : ℕ) (w : List ℕ)
    → Searched g (Reach g n) [] w
    → has n w ≡ true
    → {x : ℕ} → Reach g n x
    → has x w ≡ true
complete g n w s m here = m
complete g n w s m (step {u} {v} r e) = s.closed u v (complete g n w s m r) refl e

has-erase : (x n : ℕ) (w : List ℕ) → has x (erase n w) ≡ (if n == x then false else has x w)
has-erase x n [] = ground arith
has-erase x n (y ∷ w) = ground (arith, has-erase x n w)

unless-true : (b c : Bool) → (if b then false else c) ≡ true → (b ≡ false) × (c ≡ true)
unless-true true c h = cc
unless-true false c h = (refl, h)

from_nothing : {A : Type 0} → (false ≡ true) ⊎ A → A
from_nothing (inl h) = absurd (true-false h refl)
from_nothing (inr a) = a

-- With more fuel than the graph has registers, `getAllDependencies` returns, and it returns exactly
-- the other registers that the address of a register depends on, over any number of loads.
pub get_all_dependencies-Reach :
    (fuel : ℕ) (g : Graph) (dest : ℕ)
    → length g < fuel
    → (r : List ℕ) × (get_all_dependencies fuel g dest ≡ done r)
      × ((x : ℕ) → (has x r ≡ true) ↔ (Reach g dest x × (x ≢ dest)))
unfolding get_all_dependencies
get_all_dependencies-Reach fuel g dest enough =
    let (w, e, s, m) = Searched-dfs g fuel dest [] (omega (arith, fresh-length g [])) in
    (
      erase dest w,
      rw e refl,
      λ x. (
        λ h.
            let (ne, in_w) = unless-true (dest == x) (has x w) (sym (has-erase x dest w) ∙ h) in
            (
              from_nothing (s.sound x in_w),
              λ e. true-false (ap (λ (z : ℕ). dest == z) e ∙ ==_refl dest) ne,
            ),
        λ (r, ne).
            has-erase x dest w ∙ rw (ne→== dest x (λ e. ne (sym e))) (complete g dest w s m r),
      ),
    )

find_key-without : (n dest : ℕ) (g : Graph) → sources (without dest g) n ≡ erase dest (sources g n)
find_key-without n dest [] = refl
find_key-without n dest ((k, s) ∷ g) = elim (Bool-cases (k == n)) [
  | inl eq ↦ rw eq refl
  | inr ne ↦ rw ne (find_key-without n dest g)
]

-- After `deleteDestination` of a register, it depends on no other register, and no other register
-- depends on it; the dependencies between the others are as before.
pub delete_destination-sources :
    (g : Graph) (dest n x : ℕ)
    → has x (sources (delete_destination g dest) n)
      ≡ (if dest == n then false else if dest == x then false else has x (sources g n))
unfolding delete_destination
delete_destination-sources g dest n x =
    ap (has x) (find_key-without n dest (erase_key dest g))
    ∙ has-erase x dest (sources (erase_key dest g) n)
    ∙ ground (arith, find_key-erase_key n dest g)
