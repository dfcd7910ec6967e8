-- ===== src/Engine/Graph.antt =====
-- The validation of a workflow in `submit_workflow` of src/engine/engine.cpp: the names of the
-- nodes, the edges, and Kahn's algorithm.
use distributed_job_engine.Prelude.{
  ℕ, suc, zero, ◌-◌, Bool, false, Option, none, some, List, [], ◌∷◌, ◌++◌, ◌==◌, if◌then◌else◌,
  Text, text_eq,
}

-- `index.find(name)`: the position of the node of that name, counted from `i`.
unfoldable pub find_from : ℕ → Text → List Text → Option ℕ
find_from i name [] = none
find_from i name (n ∷ ns) = if text_eq n name then some i else find_from (suc i) name ns

abbrev pub find_index : Text → List Text → Option ℕ
find_index name names = find_from 0 name names

pub data GraphError : Type 0 where
  unknown_node_ref self_edge cycle : GraphError

pub data Checked {ℓ} (A : Type ℓ) : Type ℓ where
  ok : A → Checked A
  err : GraphError → Checked A

infixl 5 ◌>>=◌
abbrev pub ◌>>=◌ {ℓ κ} : {A : Type ℓ} {B : Type κ} → Checked A → (A → Checked B) → Checked B
ok a >>= f = f a
err e >>= f = err e

abbrev pub or_unknown {ℓ} : {A : Type ℓ} → Option A → Checked A
or_unknown none = err unknown_node_ref
or_unknown (some a) = ok a

-- One edge, as a pair of node positions.
unfoldable pub check_edge : List Text → Text × Text → Checked (ℕ × ℕ)
check_edge names (a, b) = do
  from ← or_unknown (find_index a names)
  to ← or_unknown (find_index b names)
  if from == to then err self_edge else ok (from, to)

unfoldable pub check_edges : List Text → List (Text × Text) → Checked (List (ℕ × ℕ))
unfolding check_edge
check_edges names [] = ok []
check_edges names (e ∷ es) = do
  edge ← check_edge names e
  rest ← check_edges names es
  ok (edge ∷ rest)

-- `adj[n]`, in the order of the edges.
unfoldable pub targets : ℕ → List (ℕ × ℕ) → List ℕ
targets n [] = []
targets n ((a, b) ∷ es) = if a == n then b ∷ targets n es else targets n es

-- `indegree[n]`.
unfoldable pub indegree : ℕ → List (ℕ × ℕ) → ℕ
indegree n [] = 0
indegree n ((a, b) ∷ es) = if b == n then suc (indegree n es) else indegree n es

-- `deg`, over the nodes.
unfoldable pub degrees : ℕ → List (ℕ × ℕ) → List ℕ
unfolding indegree
degrees zero es = []
degrees (suc n) es = degrees n es ++ indegree n es ∷ []

-- `--deg[m]`, and whether it has become 0.
unfoldable pub lower : ℕ → List ℕ → List ℕ × Bool
lower m [] = ([], false)
lower zero (d ∷ ds) = ((d - 1) ∷ ds, (d - 1) == 0)
lower (suc m) (d ∷ ds) = let r = lower m ds in (d ∷ r.0, r.1)

-- The loop over `adj[n]`: the degrees, and the nodes that became ready.
unfoldable pub lower_all : List ℕ → List ℕ → List ℕ × List ℕ
unfolding lower
lower_all [] deg = (deg, [])
lower_all (m ∷ ms) deg =
    let one = lower m deg in
    let others = lower_all ms one.0 in (others.0, if one.1 then m ∷ others.1 else others.1)

-- The positions, counted from `i`, of the nodes with no edge into them.
unfoldable pub roots : ℕ → List ℕ → List ℕ
roots i [] = []
roots i (d ∷ ds) = if d == 0 then i ∷ roots (suc i) ds else roots (suc i) ds

-- The `while` loop of Kahn's algorithm; it visits a node at most once.
unfoldable pub kahn_loop : ℕ → List (ℕ × ℕ) → List ℕ → List ℕ → ℕ → ℕ
unfolding lower_all targets
kahn_loop zero es deg ready visited = visited
kahn_loop (suc fuel) es deg ready visited = elim ready [
  | [] ↦ visited
  | n ∷ rest ↦
      let r = lower_all (targets n es) deg in kahn_loop fuel es r.0 (rest ++ r.1) (suc visited)
]

unfoldable pub is_acyclic : ℕ → List (ℕ × ℕ) → Bool
unfolding kahn_loop roots degrees
is_acyclic n es = let deg = degrees n es in kahn_loop (suc n) es deg (roots 0 deg) 0 == n
