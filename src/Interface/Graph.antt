-- ===== src/Interface/Graph.antt =====
-- DependencyGraph (cond_branch_predictor_interface.cc): for each register that a load in flight
-- writes, the registers that its address comes from. A set is a list.
pub mod Reaches
use ternary_geo_bp.Base.{
  ℕ, zero, suc, ◌≡◌, Bool, true, false, ◌||◌, List, [], ◌∷◌, map, ◌==◌, if◌then◌else◌, find_key,
  erase_key, assign_key, value_or, Run, done, out_of_fuel, ◌>>=◌,
}

-- graph
abbrev pub Graph : Type 0
Graph = List (ℕ × List ℕ)

-- count (x) of a set
abbrev pub has : ℕ → List ℕ → Bool
has x [] = false
has x (y ∷ ys) = (y == x) || has x ys

-- insert (x)
abbrev pub insert : ℕ → List ℕ → List ℕ
insert x s = if has x s then s else x ∷ s

-- erase (x)
abbrev pub erase : ℕ → List ℕ → List ℕ
erase x [] = []
erase x (y ∷ ys) = if y == x then erase x ys else y ∷ erase x ys

-- The set of a register; the empty one where it has none.
abbrev pub sources : Graph → ℕ → List ℕ
sources g node = value_or [] (find_key node g)

-- `addDependency`
unfoldable pub add_dependency : Graph → ℕ → ℕ → Graph
add_dependency g dest src = assign_key dest (insert src (sources g dest)) g

-- `dependencies.erase` for all registers
abbrev pub without : ℕ → Graph → Graph
without dest [] = []
without dest ((k, s) ∷ g) = (k, erase dest s) ∷ without dest g

-- `deleteDestination`
unfoldable pub delete_destination : Graph → ℕ → Graph
delete_destination g dest = without dest (erase_key dest g)

-- The loop over the sources of a node, where `visit` is the call of `dfs`.
unfoldable pub visit_all : (ℕ → List ℕ → Run (List ℕ)) → List ℕ → List ℕ → Run (List ℕ)
visit_all visit [] visited = done visited
visit_all visit (src ∷ srcs) visited = do
  visited' ← visit src visited
  visit_all visit srcs visited'

-- `dfs`. The fuel bounds the depth of the calls.
unfoldable pub dfs : ℕ → Graph → ℕ → List ℕ → Run (List ℕ)
dfs zero g node visited = out_of_fuel
dfs (suc fuel) g node visited = elim (has node visited) [
  | true ↦ done visited
  | false ↦ visit_all (dfs fuel g) (sources g node) (node ∷ visited)
]

-- `getAllDependencies`
unfoldable pub get_all_dependencies : ℕ → Graph → ℕ → Run (List ℕ)
get_all_dependencies fuel g dest = do visited ← dfs fuel g dest []; done (erase dest visited)
