-- ===== src/Workflow/Graph.antt =====
-- WorkflowNode, WorkflowDefinition, and the validation of a definition's graph.
use dub_manga_studio.Common.{
  ℕ, zero, suc, String, Bool, true, false, ◌||◌, not, Option, none, some, List, [], ◌∷◌, ◌++◌, map,
  length, keep, sort_by, leb_str, str_eq, if◌then◌else◌, Json,
}
use dub_manga_studio.Common.Exec.{Result, ok, err}
use dub_manga_studio.Common.Dict.{Dict, put, remove}

pub record WorkflowNode : Type 0 where
  pub id : String
  pub handler : String
  pub dependencies : List String
  pub max_attempts : ℕ
  pub backoff : ℕ
  pub timeout : Option ℕ
  pub payload : Json

pub record WorkflowDefinition : Type 0 where
  pub id : String
  pub name : String
  pub nodes : List WorkflowNode
  pub max_concurrency : ℕ
  pub metadata : Json

pub data GraphError : Type 0 where
  duplicate_ids : GraphError
  unknown_dependencies : String → GraphError
  has_cycle loop_unfinished : GraphError

-- x in xs
unfoldable pub contains : String → List String → Bool
contains x [] = false
contains x (y ∷ ys) = let rest = contains x ys in if str_eq y x then true else rest

-- Whether some id stands twice.
unfoldable pub has_duplicates : List String → Bool
unfolding contains
has_duplicates [] = false
has_duplicates (x ∷ xs) = contains x xs || has_duplicates xs

abbrev pub ids : List WorkflowNode → List String
ids = map (λ (n : WorkflowNode). n.id)

-- The node id → the dependencies that are not placed yet; a set as a list.
abbrev pub Pending : Type 0
Pending = Dict (List String)

-- {node.id: set(node.dependencies) for node in self.nodes}
unfoldable pub pending_of : List WorkflowNode → Pending → Pending
pending_of [] acc = acc
pending_of (n ∷ ns) acc = pending_of ns (put n.id n.dependencies acc)

-- deps.discard(node_id)
unfoldable pub discard : String → List String → List String
discard id [] = []
discard id (d ∷ ds) = let rest = discard id ds in if str_eq d id then rest else d ∷ rest

unfoldable pub discard_all : String → Pending → Pending
discard_all id [] = []
discard_all id ((k, ds) ∷ ps) = (k, discard id ds) ∷ discard_all id ps

-- The ids of the nodes without a dependency that is not placed.
unfoldable pub free_ids : Pending → List String
free_ids [] = []
free_ids ((k, ds) ∷ ps) = elim ds [ [] ↦ k ∷ free_ids ps | _ ∷ _ ↦ free_ids ps ]

unfoldable pub ready_ids : Pending → List String
ready_ids pending = sort_by leb_str (free_ids pending)

-- The `for` loop over the ready nodes.
unfoldable pub place_each : List String → List String → Pending → List String × Pending
place_each [] order pending = (order, pending)
place_each (id ∷ ready) order pending =
    place_each ready (order ++ id ∷ []) (discard_all id (remove id pending))

-- The `while` loop, a bounded number of times.
unfoldable pub order_loop : ℕ → List String → Pending → Result GraphError (List String)
order_loop fuel order [] = ok order
order_loop zero order (p ∷ ps) = err loop_unfinished
order_loop (suc fuel) order (p ∷ ps) =
    let ready = ready_ids (p ∷ ps) in
    let (order', pending') = place_each ready order (p ∷ ps) in
    let rest = order_loop fuel order' pending' in elim ready [ [] ↦ err has_cycle | _ ∷ _ ↦ rest ]

-- _topological_order(): each round places a node, so that as many rounds as there are nodes are
-- enough.
unfoldable pub topological_order : List WorkflowNode → Result GraphError (List String)
topological_order nodes = order_loop (length (pending_of nodes [])) [] (pending_of nodes [])

-- The dependencies of the first node that names one that there is not.
unfoldable pub first_unknown : List String → List WorkflowNode → Option String
first_unknown known [] = none
first_unknown known (n ∷ ns) = elim (keep (λ d. not (contains d known)) n.dependencies) [
  | [] ↦ first_unknown known ns
  | _ ∷ _ ↦ some n.id
]

-- validate_graph()
unfoldable pub validate_graph : WorkflowDefinition → Result GraphError (List String)
validate_graph definition =
    let checked =
      (elim (first_unknown (ids definition.nodes) definition.nodes)
        as (λ _. Result GraphError (List String)) [
          | some id ↦ err (unknown_dependencies id)
          | none ↦ topological_order definition.nodes
        ]) in
    if has_duplicates (ids definition.nodes) then err duplicate_ids else checked
