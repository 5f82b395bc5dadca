-- ===== src/Workflow/Batch.antt =====
-- One batch of `_execute_until_terminal`: its nodes are run, and fewer are pending afterwards.
use dub_manga_studio.Common.{
  ℕ, suc, ◌≤◌, String, ◌≡◌, refl, sym, ◌∙◌, ap, subst, Bool, true, false, some, List, [], ◌∷◌, ◌⊎◌,
  inl, inr, arith, str_eq, eq_iff, eq_refl, All, All-of-Any,
}
use dub_manga_studio.Common.Exec.{Result, ok, err}
use dub_manga_studio.Common.Dict.{Dict, lookup, put}
use dub_manga_studio.Workflow.Graph.{WorkflowNode, contains, has_duplicates, ids}
use dub_manga_studio.Workflow.Engine.{
  NodeStatus, node_completed, node_failed, NodeState, WorkflowRun, Engine, EngineError,
  cancelled_error, handler_error, EngineOp, Ambient, is_pending,
}
use dub_manga_studio.Workflow.Execution.{Handler, node_of, execute_node}
use dub_manga_studio.Workflow.Runs.{Gather, run_batch}
use dub_manga_studio.Workflow.Held.{Quiet}
use dub_manga_studio.Workflow.Nodes.{Executed, execute_node_lem}
use dub_manga_studio.Workflow.Proper.{
  Calm, IsNode, Proper, Proper-put, count_pending, count_pending-put_le,
}

-- A node is found by its id, where no id stands twice.
other_ids :
    (id : String) (ns : List WorkflowNode)
    → contains id (ids ns) ≡ false
    → All (λ (n : WorkflowNode). str_eq id n.id ≡ false) ns
unfolding contains
other_ids id [] h = tt
other_ids id (n ∷ ns) h =
    let rest : contains id (ids ns) ≡ false = ground (arith, h) in
    (ground (arith, h, eq_iff id n.id, eq_iff n.id id), other_ids id ns rest)

node_of-later :
    (x : WorkflowNode) (ms ns : List WorkflowNode)
    → All (λ (n : WorkflowNode). str_eq x.id n.id ≡ false) ns
    → All (λ (n : WorkflowNode). (t : Engine) → node_of n.id ms t ≡ (ok n, t)) ns
    → All (λ (n : WorkflowNode). (t : Engine) → node_of n.id (x ∷ ms) t ≡ (ok n, t)) ns
unfolding node_of
node_of-later x ms [] d h = tt
node_of-later x ms (n ∷ ns) d h = ((λ t. rw (d.0) (h.0 t)), node_of-later x ms ns d.1 h.1)

pub node_of-all :
    (ns : List WorkflowNode)
    → has_duplicates (ids ns) ≡ false
    → All (λ (n : WorkflowNode). (t : Engine) → node_of n.id ns t ≡ (ok n, t)) ns
unfolding node_of has_duplicates
node_of-all [] h = tt
node_of-all (n ∷ ns) h =
    let first : contains n.id (ids ns) ≡ false = ground (arith, h) in
    let rest : has_duplicates (ids ns) ≡ false = ground (arith, h) in
    (
      (λ t. rw (eq_refl n.id) refl),
      node_of-later n ns ns (other_ids n.id ns first) (node_of-all ns rest),
    )

settled-Calm :
    (status : NodeStatus)
    → (status ≡ node_completed) ⊎ (status ≡ node_failed)
    → Calm status × (is_pending status ≡ false)
settled-Calm status (inl e) = rw e (tt, refl)
settled-Calm status (inr e) = rw e (tt, refl)

-- One coroutine is run as it is.
abbrev pub IsGather : Gather → Type 0
IsGather gather = (m : EngineOp Unit) (t : Engine) → gather (m ∷ []) t ≡ m t

abbrev pub IsStored : String → Engine → Type 0
IsStored id t = (run : WorkflowRun) × (lookup id t.runs ≡ some run) × (run.id ≡ id)

-- An error that a batch can end with; the run is stored still.
abbrev pub Stops : String → EngineError → Engine → Type 0
Stops id e t = ((e ≡ cancelled_error) ⊎ (e ≡ handler_error)) × IsStored id t

module _ (message_of : EngineError → String) (clock : ℕ → ℕ → Ambient) (handlers : Dict Handler)
    (base : WorkflowRun) where
  -- A node that is found and has a handler that leaves the runs and the events alone.
  abbrev pub Runnable : WorkflowNode → Type 0
  Runnable n =
      ((t : Engine) → node_of n.id base.definition.nodes t ≡ (ok n, t))
      × ((handler : Handler) × (lookup n.handler handlers ≡ some handler) × Quiet handler)
      × IsNode base.definition.nodes n.id

  abbrev pub run_with : Dict NodeState → ℕ → WorkflowRun
  run_with states now = record base { node_states = states; updated_at = now }

  -- The run is stored with these states of its nodes, is not paused, and may be cancelled.
  abbrev pub Stored : Dict NodeState → ℕ → Engine → Type 0
  Stored states now t =
      (lookup base.id t.runs ≡ some (run_with states now))
      × Proper base.definition.nodes states
      × ((b : Bool) × (lookup base.id t.cancel_events ≡ some b))
      × (lookup base.id t.pause_events ≡ some true)

  abbrev pub Stage : ℕ → Engine → Type 0
  Stage most t =
      (states : Dict NodeState) × (now : ℕ) × Stored states now t × (count_pending states ≤ most)

  abbrev pub After : ℕ → Result EngineError Unit → Engine → Type 0
  After most (ok _) t = Stage most t
  After most (err e) t = Stops base.id e t

  -- Enough room for the pending nodes, once the node `id` has run.
  abbrev Room : Dict NodeState → String → ℕ → Type 0
  Room states id most =
      (count_pending states ≤ most)
      ⊎ ((old : NodeState) × (lookup id states ≡ some old)
          × (is_pending old.status ≡ true)
          × (count_pending states ≤ suc most))

  Executed-After :
      (n : WorkflowNode) (handler : Handler) (k most : ℕ) (states : Dict NodeState) (now : ℕ)
      (t t' : Engine) (old : NodeState) (r : Result EngineError Unit)
      → Stored states now t
      → IsNode base.definition.nodes n.id
      → lookup n.id states ≡ some old
      → Room states n.id most
      → Executed t (run_with states now) n handler k r t'
      → After most r t'
  Executed-After n handler k most states now t t' old (err e) s node known room h =
      (h.0, (run_with (put n.id h.1.0 states) h.1.1, h.1.2.0.0, refl))
  Executed-After n handler k most states now t t' old (ok _) s node known room
        (state, later, held, settled) =
      let calm = settled-Calm state.status (elim settled.1 [ inl c ↦ inl c.0 | inr f ↦ inr f.0 ]) in
      let less = count_pending-put_le n.id state old states known calm.1 in
      let (b, event) = s.2 in
      (
        put n.id state states,
        later,
        (
          held.0.0,
          Proper-put base.definition.nodes states n.id state s.1 node calm.0,
          (b, ap (lookup base.id) held.1 ∙ event),
          ap (lookup base.id) held.2 ∙ s.3,
        ),
        elim room [
          | inl e ↦ omega (arith, e, less.0)
          | inr (first, found, pending, e) ↦
              let same : old ≡ first = cc in
              let was : is_pending old.status ≡ true =
                ap (λ (x : NodeState). is_pending x.status) same ∙ pending in
              omega (arith, e, less.1 was)
        ],
      )

  node_step :
      (turn most : ℕ) (n : WorkflowNode) (states : Dict NodeState) (now : ℕ) (t : Engine)
      → Runnable n
      → (state : NodeState) × (lookup n.id states ≡ some state)
      → Stored states now t
      → Room states n.id most
      → let done = execute_node message_of (clock turn) handlers base.id n.id t in
        After most done.0 done.1
  node_step turn most n states now t (found, (handler, known, quiet), node) (old, has) s room =
      let done = execute_node message_of (clock turn) handlers base.id n.id t in
      let (b, event) = s.2 in
      Executed-After n handler (suc old.attempts) most states now t done.1 old done.0 s node has
        room
        (execute_node_lem message_of (clock turn) t (run_with states now) n handlers handler old b
          quiet s.0 found known has event)

  state_of-node :
      (states : Dict NodeState) (id : String)
      → Proper base.definition.nodes states
      → IsNode base.definition.nodes id
      → (state : NodeState) × (lookup id states ≡ some state)
  state_of-node states id proper node =
      let (n, facts, e) = All-of-Any base.definition.nodes proper.2 node in
      subst (λ j. (state : NodeState) × (lookup j states ≡ some state)) e facts.0

  -- The batch of one pending node leaves fewer pending nodes, or stops.
  pub run_batch_lem :
      (gather : Gather) (turn most : ℕ) (n : WorkflowNode) (states : Dict NodeState) (now : ℕ)
      (t : Engine) (old : NodeState)
      → IsGather gather
      → Runnable n
      → Stored states now t
      → lookup n.id states ≡ some old
      → is_pending old.status ≡ true
      → count_pending states ≤ suc most
      → let done = run_batch message_of clock handlers gather turn base.id (n ∷ []) t in
        After most done.0 done.1
  unfolding run_batch
  run_batch_lem gather turn most n states now t old single h stored known pending room =
      let one : EngineOp Unit = execute_node message_of (clock turn) handlers base.id n.id in
      let step : After most (one t).0 (one t).1 =
        node_step turn most n states now t h (old, known) stored
          (inr (old, known, pending, room)) in
      subst (λ (x : Result EngineError Unit × Engine). After most x.0 x.1) (sym (single one t)) step
