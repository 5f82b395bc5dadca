-- ===== src/Workflow/Created.antt =====
-- A new run's nodes, and `execute`: a run that is created is taken to its end.
use dub_manga_studio.Common.{
  ℕ, suc, ◌+◌, ◌≤◌, length, String, ◌≡◌, refl, ap, subst, true, false, none, List, [], ◌∷◌, inl,
  inr, arith, All, All-of-Any, All-map, All-both, All-intro, Any-map-All, Bool-cases, Option-cases,
  Json,
}
use dub_manga_studio.Common.Exec.{ok, err}
use dub_manga_studio.Common.Dict.{Dict, put, lookup-put_self}
use dub_manga_studio.Common.Dict.Entries.{HasKeys, HasKeys-put, Every-put}
use dub_manga_studio.Workflow.Graph.{
  GraphError, WorkflowNode, WorkflowDefinition, has_duplicates, ids, first_unknown, validate_graph,
}
use dub_manga_studio.Workflow.Engine.{
  queued, NodeState, WorkflowRun, Engine, EngineError, Ambient, new_state, states_of, create_run,
  save_run,
}
use dub_manga_studio.Workflow.Execution.{Handler}
use dub_manga_studio.Workflow.Runs.{Gather, execute}
use dub_manga_studio.Workflow.Validation.{first_unknown-none}
use dub_manga_studio.Workflow.Batch.{IsGather}
use dub_manga_studio.Workflow.Ready.{HasState}
use dub_manga_studio.Workflow.Proper.{Calm, IsNode, Proper, HasState-put, count_pending}
use dub_manga_studio.Workflow.Resume.{HasHandler, Resumed, resume_workflow-Resumed}

states_of-HasKeys :
    (ns : List WorkflowNode) (acc : Dict NodeState) → HasKeys acc → HasKeys (states_of ns acc)
unfolding states_of
states_of-HasKeys [] acc h = h
states_of-HasKeys (n ∷ ns) acc h =
    states_of-HasKeys ns (put n.id (new_state n.id) acc) (HasKeys-put n.id (new_state n.id) acc h)

states_of-Every :
    (P : String × NodeState → Type 0) (ns : List WorkflowNode) (acc : Dict NodeState)
    → All (λ n. P (n.id, new_state n.id)) ns
    → All P acc
    → All P (states_of ns acc)
unfolding states_of
states_of-Every P [] acc h k = k
states_of-Every P (n ∷ ns) acc h k =
    states_of-Every P ns (put n.id (new_state n.id) acc) h.1
      (Every-put P n.id (new_state n.id) acc h.0 k)

module _ (nodes : List WorkflowNode) where
  states_of-kept :
      (ns : List WorkflowNode) (acc : Dict NodeState) (j : String)
      → HasState acc j
      → HasState (states_of ns acc) j
  unfolding states_of
  states_of-kept [] acc j h = h
  states_of-kept (n ∷ ns) acc j h =
      states_of-kept ns (put n.id (new_state n.id) acc) j
        (HasState-put nodes acc n.id j (new_state n.id) h)

  states_of-HasState :
      (ns : List WorkflowNode) (acc : Dict NodeState)
      → All (λ n. HasState (states_of ns acc) n.id) ns
  unfolding states_of
  states_of-HasState [] acc = tt
  states_of-HasState (n ∷ ns) acc = (
    states_of-kept ns (put n.id (new_state n.id) acc) n.id
        (new_state n.id, lookup-put_self n.id (new_state n.id) acc),
    states_of-HasState ns (put n.id (new_state n.id) acc),
  )

  HasState-node : (id : String) → IsNode nodes id → HasState (states_of nodes []) id
  HasState-node id a =
      let (n, h, e) = All-of-Any nodes (states_of-HasState nodes []) a in
      subst (λ j. HasState (states_of nodes []) j) e h

rejected : (g : GraphError) (order : List String) → err g ≡ ok order → ⊥
rejected g order e = cc

validated-known :
    (definition : WorkflowDefinition) (order : List String)
    → validate_graph definition ≡ ok order
    → All (λ n. All (λ d. IsNode definition.nodes d) n.dependencies) definition.nodes
unfolding validate_graph
validated-known definition order e =
    elim (Option-cases (first_unknown (ids definition.nodes) definition.nodes)) [
      | inl u ↦ first_unknown-none definition.nodes definition.nodes u
      | inr (id, u) ↦ elim (Bool-cases (has_duplicates (ids definition.nodes))) [
        | inl d ↦ absurd (rejected _ order (rw (validate_graph, d) at e))
        | inr d ↦ absurd (rejected _ order (rw (validate_graph, d, u) at e))
      ]
    ]

-- The nodes of a new run are as the turns want them.
pub created-Proper :
    (definition : WorkflowDefinition) (order : List String)
    → validate_graph definition ≡ ok order
    → Proper definition.nodes (states_of definition.nodes [])
created-Proper definition order e =
    let nodes : List WorkflowNode = definition.nodes in
    (
      states_of-HasKeys nodes [] tt,
      states_of-Every (λ x. Calm x.1.status × IsNode nodes x.0) nodes []
          (All-intro _ nodes (λ n a. (
            tt,
            Any-map-All (λ m _ q. ap (λ (x : WorkflowNode). x.id) q) nodes
                (All-intro (λ _. Unit {0}) nodes (λ _ _. tt)) a,
          )))
          tt,
      All-both _ _ nodes (states_of-HasState nodes nodes []) (
          All-map (λ n k. All-map (HasState-node nodes) n.dependencies k) nodes
            (validated-known definition order e)),
    )

count_pending-put :
    (id : String) (state : NodeState) (states : Dict NodeState)
    → count_pending (put id state states) ≤ suc (count_pending states)
unfolding count_pending put
count_pending-put id state [] = ground arith
count_pending-put id state ((j, x) ∷ xs) = ground (arith, count_pending-put id state xs)

count_pending-states_of :
    (ns : List WorkflowNode) (acc : Dict NodeState)
    → count_pending (states_of ns acc) ≤ count_pending acc + length ns
unfolding states_of
count_pending-states_of [] acc = omega arith
count_pending-states_of (n ∷ ns) acc = omega (
  arith,
  count_pending-put n.id (new_state n.id) acc,
  count_pending-states_of ns (put n.id (new_state n.id) acc),
)

pub created_count : (nodes : List WorkflowNode) → count_pending (states_of nodes []) ≤ length nodes
unfolding count_pending
created_count nodes = omega (arith, count_pending-states_of nodes [])

-- For a definition that is accepted, that runs one node at a time, as its `max_concurrency` is at
-- most 1, and whose nodes have handlers that leave the runs and the events alone, and where `gather`
-- of one coroutine is that coroutine. `execute` ends after at most as many turns as there are nodes
-- and one more. Where no subscriber of the bus raises, it returns the run as it is stored then:
-- completed, with all its nodes completed, or failed, with a node that failed, or cancelled.
pub execute-Resumed :
    (message_of : EngineError → String) (clock : ℕ → ℕ → Ambient) (handlers : Dict Handler)
    (gather : Gather) (a : Ambient) (s : Engine) (empty input metadata : Json)
    (definition : WorkflowDefinition) (order : List String)
    → IsGather gather
    → definition.max_concurrency ≤ 1
    → validate_graph definition ≡ ok order
    → All (HasHandler handlers) definition.nodes
    → let turns = suc (length definition.nodes) in
      let done =
        execute message_of clock handlers gather turns a empty definition input metadata s in
      Resumed a.new_id done.0 done.1
unfolding execute create_run save_run
execute-Resumed message_of clock handlers gather a s empty input metadata definition order single
      one_node accepted handled =
    let run : WorkflowRun = record {
      id = a.new_id;
      definition = definition;
      status = queued;
      input = input;
      output = empty;
      node_states = states_of definition.nodes [];
      progress = 0;
      created_at = a.now;
      updated_at = a.now;
      started_at = none;
      completed_at = none;
      error = none;
      metadata = metadata;
    } in
    resume_workflow-Resumed message_of clock handlers gather a
      (record s {
        runs = put a.new_id run s.runs;
        cancel_events = put a.new_id false s.cancel_events;
        pause_events = put a.new_id true s.pause_events;
      })
      run order (length definition.nodes) single one_node (lookup-put_self a.new_id run s.runs) refl
      accepted (created-Proper definition order accepted) handled (created_count definition.nodes)
