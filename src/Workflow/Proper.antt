-- ===== src/Workflow/Proper.antt =====
-- The states of a run's nodes between the turns of `_execute_until_terminal`: as long as none has
-- failed and some has not completed, some node is ready.
use dub_manga_studio.Common.{
  ℕ, ◌+◌, ◌≤◌, ◌<◌, String, ◌≡◌, refl, sym, ◌∙◌, ap, subst, true, false, some, List, [], ◌∷◌, ◌++◌,
  ◌⊎◌, inl, inr, if◌then◌else◌, arith, str_eq, All, Any, All-of-Any, All-both, Any-map-All,
  Bool-cases,
}
use dub_manga_studio.Common.Dict.{Dict, lookup, put, lookup-put}
use dub_manga_studio.Common.Dict.Entries.{HasKeys, HasKeys-put, Every-put, All-lookup}
use dub_manga_studio.Workflow.Graph.{WorkflowNode}
use dub_manga_studio.Workflow.Engine.{
  NodeStatus, node_pending, node_running, node_completed, node_failed, node_skipped, node_cancelled,
  NodeState, is_pending, is_completed,
}
use dub_manga_studio.Workflow.Runs.{is_failed}
use dub_manga_studio.Workflow.Order.{Member, Sound, nothing, after}
use dub_manga_studio.Workflow.Ready.{HasState, status_is_lem, done, is_ready}

-- What a node's status is between two turns.
abbrev pub Calm : NodeStatus → Type 0
Calm node_pending = Unit
Calm node_completed = Unit
Calm node_failed = Unit
Calm _ = ⊥

module _ (nodes : List WorkflowNode) where
  abbrev pub IsNode : String → Type 0
  IsNode id = Any (λ (n : WorkflowNode). n.id ≡ id) nodes

  -- Each key stands once and is a node, each node and each dependency has a state, and no node
  -- runs.
  abbrev pub Proper : Dict NodeState → Type 0
  Proper states =
      HasKeys states
      × All (λ (e : String × NodeState). Calm e.1.status × IsNode e.0) states
      × All (λ (n : WorkflowNode). HasState states n.id × All (HasState states) n.dependencies)
          nodes

  pub HasState-put :
      (states : Dict NodeState) (id j : String) (state : NodeState)
      → HasState states j
      → HasState (put id state states) j
  HasState-put states id j state (x, e) = elim (Bool-cases (str_eq id j)) [
    | inl t ↦ (state, lookup-put id j state states ∙ rw t refl)
    | inr t ↦ (x, lookup-put id j state states ∙ rw t e)
  ]

  HasState-all :
      (states : Dict NodeState) (id : String) (state : NodeState) (ds : List String)
      → All (HasState states) ds
      → All (HasState (put id state states)) ds
  HasState-all states id state [] h = tt
  HasState-all states id state (d ∷ ds) h =
      (HasState-put states id d state h.0, HasState-all states id state ds h.1)

  HasStates-put :
      (states : Dict NodeState) (id : String) (state : NodeState) (ns : List WorkflowNode)
      → All (λ (n : WorkflowNode). HasState states n.id × All (HasState states) n.dependencies) ns
      → All
          (λ (n : WorkflowNode).
            HasState (put id state states) n.id
            × All (HasState (put id state states)) n.dependencies)
          ns
  HasStates-put states id state [] h = tt
  HasStates-put states id state (n ∷ ns) h = (
    (HasState-put states id n.id state h.0.0, HasState-all states id state n.dependencies h.0.1),
    HasStates-put states id state ns h.1,
  )

  pub Proper-put :
      (states : Dict NodeState) (id : String) (state : NodeState)
      → Proper states
      → IsNode id
      → Calm state.status
      → Proper (put id state states)
  Proper-put states id state h node calm = (
    HasKeys-put id state states h.0,
    Every-put (λ (e : String × NodeState). Calm e.1.status × IsNode e.0) id state states
        (calm, node) h.1,
    HasStates-put states id state nodes h.2,
  )

-- How many nodes are pending.
unfoldable pub count_pending : Dict NodeState → ℕ
count_pending [] = 0
count_pending ((id, x) ∷ xs) = (if is_pending x.status then 1 else 0) + count_pending xs

pub count_pending-put_le :
    (id : String) (new old : NodeState) (states : Dict NodeState)
    → lookup id states ≡ some old
    → is_pending new.status ≡ false
    → (count_pending (put id new states) ≤ count_pending states)
      × (is_pending old.status ≡ true → count_pending (put id new states) < count_pending states)
unfolding count_pending put lookup
count_pending-put_le id new old [] e p = absurd (cc)
count_pending-put_le id new old ((j, x) ∷ xs) e p = elim (Bool-cases (str_eq j id)) [
  | inl t ↦
      let same : x ≡ old = ground (arith, e, t) in
      let status : is_pending x.status ≡ is_pending old.status =
        ap (λ (y : NodeState). is_pending y.status) same in
      rw t (ground (arith, p, status), (λ q. ground (arith, p, status, q)))
  | inr t ↦
      let rest : lookup id xs ≡ some old = ground (arith, e, t) in
      let less = count_pending-put_le id new old xs rest p in
      rw t (ground (arith, less.0), (λ q. ground (arith, less.1 q)))
]

Member-split :
    (id x : String) (xs : List String) → Member id (xs ++ x ∷ []) → Member id xs ⊎ (x ≡ id)
Member-split id x [] (inl e) = inr e
Member-split id x [] (inr a) = absurd a
Member-split id x (y ∷ ys) (inl e) = inl (inl e)
Member-split id x (y ∷ ys) (inr a) = elim (Member-split id x ys a) [
  | inl b ↦ inl (inr b)
  | inr e ↦ inr e
]

pub Calm-cases :
    (state : NodeStatus)
    → Calm state
    → is_failed state ≡ false
    → (is_completed state ≡ true) ⊎ (is_pending state ≡ true)
Calm-cases node_pending c f = inr refl
Calm-cases node_completed c f = inl refl
Calm-cases node_failed c f = absurd (cc)
Calm-cases node_running c f = absurd c
Calm-cases node_skipped c f = absurd c
Calm-cases node_cancelled c f = absurd c

-- A node that is pending while no node has failed leads to one that is ready.
module _ (nodes : List WorkflowNode) (deps : String → List String)
    (same_deps : All (λ (n : WorkflowNode). deps n.id ≡ n.dependencies) nodes)
    (states : Dict NodeState) (proper : Proper nodes states)
    (unfailed : All (λ (e : String × NodeState). is_failed e.1.status ≡ false) states) where
  abbrev Pending : String → Type 0
  Pending id =
      (state : NodeState) × (lookup id states ≡ some state) × (is_pending state.status ≡ true)

  abbrev SomeReady : Type 0
  SomeReady = Any (λ (n : WorkflowNode). is_ready states n ≡ true) nodes

  -- All the dependencies are completed, or one of them is pending.
  deps_cases :
      (ds : List String)
      → All (HasState states) ds
      → (done states ds ≡ true) ⊎ Any (λ d. Pending d) ds
  unfolding done
  deps_cases [] h = inl refl
  deps_cases (d ∷ ds) ((x, e), h) =
      let entry =
        All-lookup
          (λ (y : String × NodeState).
            (Calm y.1.status × IsNode nodes y.0) × (is_failed y.1.status ≡ false))
          d x states (All-both _ _ states proper.1 unfailed) e in
      elim (Calm-cases x.status entry.0.0 entry.1) [
        | inr p ↦ inr (inl (x, e, p))
        | inl c ↦ elim (deps_cases ds h) [
          | inr a ↦ inr (inr a)
          | inl r ↦ inl (rw (status_is_lem (λ y. is_completed y.status) states d x e ∙ c) r)
        ]
      ]

  ready_here :
      (id : String) → Pending id → IsNode nodes id → done states (deps id) ≡ true → SomeReady
  ready_here id (x, e, p) node finished =
      Any-map-All
        (λ (n : WorkflowNode) (d : deps n.id ≡ n.dependencies) (i : n.id ≡ id).
          let here : lookup n.id states ≡ some x =
            subst (λ j. lookup j states ≡ some x) (sym i) e in
          let all : done states n.dependencies ≡ true =
            subst (λ ds. done states ds ≡ true) (ap deps (sym i) ∙ d) finished in
          rw (status_is_lem (λ y. is_pending y.status) states n.id x here ∙ p) (rw all refl))
        nodes same_deps node

  deps_known : (id : String) → IsNode nodes id → All (HasState states) (deps id)
  deps_known id node =
      let (n, facts, i) = All-of-Any nodes (All-both _ _ nodes same_deps proper.2) node in
      subst (λ ds. All (HasState states) ds) (sym facts.0 ∙ ap deps i) facts.1.1

  Pending-IsNode : (id : String) → Pending id → IsNode nodes id
  Pending-IsNode id (x, e, p) =
      (All-lookup (λ (y : String × NodeState). Calm y.1.status × IsNode nodes y.0) id x states
        proper.1 e).1

  pub pending_ready :
      {order : List String}
      → Sound deps order
      → (id : String) → Member id order
      → Pending id
      → SomeReady
  pending_ready nothing id a p = absurd a
  pending_ready (after {xs} x before placed) id a p = elim (Member-split id x xs a) [
    | inl b ↦ pending_ready before id b p
    | inr same ↦
        let node : IsNode nodes id = Pending-IsNode id p in
        let earlier : All (λ d. Member d xs) (deps id) =
          subst (λ j. All (λ d. Member d xs) (deps j)) same placed in
        elim (deps_cases (deps id) (deps_known id node)) [
          | inl finished ↦ ready_here id p node finished
          | inr waits ↦
              let (d, b, q) = All-of-Any (deps id) earlier waits in pending_ready before d b q
        ]
  ]
