-- ===== src/Workflow/Ready.antt =====
-- Which nodes `_ready_nodes` gives, and what a new run starts with.
use dub_manga_studio.Common.{
  String, ◌≡◌, refl, ◌∙◌, Bool, true, false, ◌&&◌, none, some, List, [], ◌∷◌, inl, inr, Bool-cases,
  All, keep,
}
use dub_manga_studio.Common.Exec.{ok}
use dub_manga_studio.Common.Dict.{Dict, lookup}
use dub_manga_studio.Workflow.Graph.{WorkflowNode}
use dub_manga_studio.Workflow.Engine.{
  NodeState, WorkflowRun, is_pending, is_completed, all_completed, ready_from, ready_nodes,
}

-- Whether the state under an id passes a test; `false` without a state.
abbrev pub status_is : (NodeState → Bool) → Dict NodeState → String → Bool
status_is test states id = elim (lookup id states) as (λ _. Bool) [ none ↦ false | some s ↦ test s ]

-- Every dependency is completed.
unfoldable pub done : Dict NodeState → List String → Bool
done states [] = true
done states (d ∷ ds) = status_is (λ s. is_completed s.status) states d && done states ds

-- A node is ready: it is pending, and all that it depends on is completed.
abbrev pub is_ready : Dict NodeState → WorkflowNode → Bool
is_ready states n = status_is (λ s. is_pending s.status) states n.id && done states n.dependencies

abbrev pub HasState : Dict NodeState → String → Type 0
HasState states id = (s : NodeState) × (lookup id states ≡ some s)

pub status_is_lem :
    (test : NodeState → Bool) (states : Dict NodeState) (id : String) (s : NodeState)
    → lookup id states ≡ some s
    → status_is test states id ≡ test s
status_is_lem test states id s e = rw (status_is, e) refl

all_completed_lem :
    (states : Dict NodeState) (ds : List String)
    → All (HasState states) ds
    → all_completed states ds ≡ ok (done states ds)
unfolding all_completed done
all_completed_lem states [] h = refl
all_completed_lem states (d ∷ ds) h =
    let (s, e) = h.0 in
    let rest = all_completed_lem states ds h.1 in
    let here = status_is_lem (λ x. is_completed x.status) states d s e in
    elim (Bool-cases (is_completed s.status)) [
      | inl t ↦ rw (all_completed, e) (rw t (rw (here ∙ t) rest))
      | inr t ↦ rw (all_completed, e) (rw t (rw (here ∙ t) refl))
    ]

ready_from_lem :
    (states : Dict NodeState) (ns : List WorkflowNode)
    → All (λ n. HasState states n.id × All (HasState states) n.dependencies) ns
    → ready_from states ns ≡ ok (keep (is_ready states) ns)
unfolding ready_from keep
ready_from_lem states [] h = refl
ready_from_lem states (n ∷ ns) h =
    let (s, e) = h.0.0 in
    let rest = ready_from_lem states ns h.1 in
    let here = status_is_lem (λ x. is_pending x.status) states n.id s e in
    let deps = all_completed_lem states n.dependencies h.0.1 in
    elim (Bool-cases (is_pending s.status)) [
      | inr t ↦ rw (ready_from, e) (rw t (rw (here ∙ t) rest))
      | inl t ↦ elim (Bool-cases (done states n.dependencies)) [
        | inl u ↦ rw (ready_from, e) (rw t (rw deps (rw u (rw rest (rw (here ∙ t) refl)))))
        | inr u ↦ rw (ready_from, e) (rw t (rw deps (rw u (rw rest (rw (here ∙ t) refl)))))
      ]
    ]

-- Where every node and every dependency of a run has a state, `_ready_nodes` gives exactly the
-- nodes that are pending and whose dependencies are all completed, in the order of the definition,
-- and does not raise.
pub ready_nodes_lem :
    (run : WorkflowRun)
    → All
        (λ n. HasState run.node_states n.id × All (HasState run.node_states) n.dependencies)
        run.definition.nodes
    → ready_nodes run ≡ ok (keep (is_ready run.node_states) run.definition.nodes)
unfolding ready_nodes
ready_nodes_lem run h = ready_from_lem run.node_states run.definition.nodes h
