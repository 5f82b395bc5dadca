-- ===== src/Workflow/Validation.antt =====
-- `validate_graph` and the order that it checks.
use dub_manga_studio.Common.{
  String, ◌≡◌, refl, sym, ◌∙◌, false, none, some, List, [], ◌∷◌, length, inl, inr, ◌⊎◌, Bool-cases,
  Option-cases, arith, eq_iff, eq_refl, str_eq, All, All-map, All-of-Any, All-both, All-intro, Any,
  subst, true, not, keep, List-cases,
}
use dub_manga_studio.Common.Exec.{Result, ok, err}
use dub_manga_studio.Common.Dict.{lookup, put, lookup-put}
use dub_manga_studio.Common.Dict.Entries.{HasKeys, HasKeys-put, Every-put, lookup-each}
use dub_manga_studio.Workflow.Graph.{
  WorkflowNode, WorkflowDefinition, GraphError, has_cycle, loop_unfinished, duplicate_ids, Pending,
  contains, has_duplicates, ids, pending_of, topological_order, first_unknown, validate_graph,
  unknown_dependencies,
}
use dub_manga_studio.Workflow.Order.{
  Member, Sound, nothing, Waits, HasKey, Finished, order_loop-Sound, order_loop-Member,
  order_loop-Finished,
}
use dub_manga_studio.Workflow.Cycle.{
  Repeats, has_duplicates-Repeats, Repeats-has_duplicates, HasUnknown, first_unknown-some, Refs,
  order_loop-has_cycle,
}

pending_of-HasKeys :
    (ns : List WorkflowNode) (acc : Pending) → HasKeys acc → HasKeys (pending_of ns acc)
unfolding pending_of
pending_of-HasKeys [] acc h = h
pending_of-HasKeys (n ∷ ns) acc h =
    pending_of-HasKeys ns (put n.id n.dependencies acc) (HasKeys-put n.id n.dependencies acc h)

HasKey-put :
    (id k : String) (v : List String) (acc : Pending)
    → (k ≡ id) ⊎ HasKey id acc
    → HasKey id (put k v acc)
unfolding put
HasKey-put id k v [] (inl e) = inl e
HasKey-put id k v [] (inr a) = absurd a
HasKey-put id k v ((j, w) ∷ acc) h = elim (Bool-cases (str_eq j k)) [
  | inl t ↦ rw t (elim h [
    | inl e ↦ inl e
    | inr a ↦ elim a [ inl e ↦ inl (sym ((eq_iff j k).0 t) ∙ e) | inr b ↦ inr b ]
  ])
  | inr t ↦ rw t (elim h [
    | inl e ↦ inr (HasKey-put id k v acc (inl e))
    | inr a ↦ elim a [ inl e ↦ inl e | inr b ↦ inr (HasKey-put id k v acc (inr b)) ]
  ])
]

pending_of-HasKey :
    (id : String) (ns : List WorkflowNode) (acc : Pending)
    → HasKey id acc
    → HasKey id (pending_of ns acc)
unfolding pending_of
pending_of-HasKey id [] acc h = h
pending_of-HasKey id (n ∷ ns) acc h =
    pending_of-HasKey id ns (put n.id n.dependencies acc)
      (HasKey-put id n.id n.dependencies acc (inr h))

nodes-HasKey :
    (ns : List WorkflowNode) (acc : Pending) → All (λ n. HasKey n.id (pending_of ns acc)) ns
unfolding pending_of
nodes-HasKey [] acc = tt
nodes-HasKey (n ∷ ns) acc = (
  pending_of-HasKey n.id ns (put n.id n.dependencies acc)
      (HasKey-put n.id n.id n.dependencies acc (inl refl)),
  nodes-HasKey ns (put n.id n.dependencies acc),
)

-- The dependencies under an id, as the graph reads them.
pub deps_of : List WorkflowNode → String → List String
deps_of ns id = elim (lookup id (pending_of ns [])) as (λ _. List String) [
  | none ↦ []
  | some ds ↦ ds
]

lookup-pending_of :
    (id : String) (ns : List WorkflowNode) (acc : Pending)
    → contains id (ids ns) ≡ false
    → lookup id (pending_of ns acc) ≡ lookup id acc
unfolding pending_of contains
lookup-pending_of id [] acc h = refl
lookup-pending_of id (n ∷ ns) acc h = elim (Bool-cases (str_eq n.id id)) [
  | inl t ↦ absurd (ground (arith, h, t))
  | inr t ↦
      lookup-pending_of id ns (put n.id n.dependencies acc) (rw t at h)
      ∙ (lookup-put n.id id n.dependencies acc ∙ rw t refl)
]

nodes_found :
    (ns : List WorkflowNode) (acc : Pending)
    → has_duplicates (ids ns) ≡ false
    → All (λ n. lookup n.id (pending_of ns acc) ≡ some n.dependencies) ns
unfolding pending_of has_duplicates
nodes_found [] acc h = tt
nodes_found (n ∷ ns) acc h =
    let first : contains n.id (ids ns) ≡ false = ground (arith, h) in
    let rest : has_duplicates (ids ns) ≡ false = ground (arith, h) in
    (
      lookup-pending_of n.id ns (put n.id n.dependencies acc) first
          ∙ (lookup-put n.id n.id n.dependencies acc ∙ rw (eq_refl n.id) refl),
      nodes_found ns (put n.id n.dependencies acc) rest,
    )

deps_found :
    (ns : List WorkflowNode) (n : WorkflowNode)
    → lookup n.id (pending_of ns []) ≡ some n.dependencies
    → deps_of ns n.id ≡ n.dependencies
unfolding deps_of
deps_found ns n h = rw (deps_of, h) refl

all_wait :
    (ds es : List String)
    → ((d : String) → Member d ds → Member d es)
    → All (λ d. Member d [] ⊎ Member d es) ds
all_wait [] es f = tt
all_wait (d ∷ ds) es f = (inr (f d (inl refl)), all_wait ds es (λ x a. f x (inr a)))

pending-Waits : (ns : List WorkflowNode) → All (Waits (deps_of ns) []) (pending_of ns [])
unfolding deps_of
pending-Waits ns =
    let wait : (e : String × List String)
        → lookup e.0 (pending_of ns []) ≡ some e.1
        → Waits (deps_of ns) [] e =
      λ e h. rw (deps_of, h) (all_wait e.1 e.1 (λ d a. a)) in
    All-map wait (pending_of ns []) (lookup-each (pending_of ns []) (pending_of-HasKeys ns [] tt))

-- Ordering the nodes ends with an order or with the error for a cycle, and never for want of
-- rounds.
topological_order-Finished : (ns : List WorkflowNode) → Finished (topological_order ns)
unfolding topological_order
topological_order-Finished ns =
    order_loop-Finished (length (pending_of ns [])) [] (pending_of ns []) (omega arith)

result-Finished :
    (r : Result GraphError (List String))
    → Finished r
    → ((order : List String) × (r ≡ ok order)) ⊎ (r ≡ err has_cycle)
result-Finished (ok order) h = inl (order, refl)
result-Finished (err has_cycle) h = inr refl
result-Finished (err duplicate_ids) h = absurd h
result-Finished (err (unknown_dependencies id)) h = absurd h
result-Finished (err loop_unfinished) h = absurd h

contains-IsNode :
    (id : String) (ns : List WorkflowNode)
    → contains id (ids ns) ≡ true
    → Any (λ (n : WorkflowNode). n.id ≡ id) ns
unfolding contains
contains-IsNode id [] h = absurd (cc)
contains-IsNode id (n ∷ ns) h = elim (Bool-cases (str_eq n.id id)) [
  | inl t ↦ inl ((eq_iff n.id id).0 t)
  | inr t ↦ inr (contains-IsNode id ns (rw t at h))
]

-- No dependency is unknown.
known_all :
    (nodes : List WorkflowNode) (ds : List String)
    → keep (λ d. not (contains d (ids nodes))) ds ≡ []
    → All (λ d. Any (λ (n : WorkflowNode). n.id ≡ d) nodes) ds
unfolding keep
known_all nodes [] h = tt
known_all nodes (d ∷ ds) h = elim (Bool-cases (contains d (ids nodes))) [
  | inl t ↦ (contains-IsNode d nodes t, known_all nodes ds (rw t at h))
  | inr t ↦ absurd (ground (arith, h, t))
]

pub first_unknown-none :
    (nodes ns : List WorkflowNode)
    → first_unknown (ids nodes) ns ≡ none
    → All (λ n. All (λ d. Any (λ (n : WorkflowNode). n.id ≡ d) nodes) n.dependencies) ns
unfolding first_unknown
first_unknown-none nodes [] h = tt
first_unknown-none nodes (n ∷ ns) h =
    elim (List-cases (keep (λ d. not (contains d (ids nodes))) n.dependencies)) [
      | inl e ↦ (
        known_all nodes n.dependencies e,
        first_unknown-none nodes ns (rw (first_unknown, e) at h),
      )
      | inr (x, xs, e) ↦ let h' : some n.id ≡ none = rw (first_unknown, e) at h in absurd (cc)
    ]

pending_of-Every :
    (P : String × List String → Type 0) (ns : List WorkflowNode) (acc : Pending)
    → All (λ (n : WorkflowNode). P (n.id, n.dependencies)) ns
    → All P acc
    → All P (pending_of ns acc)
unfolding pending_of
pending_of-Every P [] acc h k = k
pending_of-Every P (n ∷ ns) acc h k =
    pending_of-Every P ns (put n.id n.dependencies acc) h.1
      (Every-put P n.id n.dependencies acc h.0 k)

-- Where no dependency is unknown, each node waits at first for all its dependencies, which are nodes.
pending-Refs :
    (ns : List WorkflowNode)
    → first_unknown (ids ns) ns ≡ none
    → All (Refs (deps_of ns) (pending_of ns [])) (pending_of ns [])
unfolding deps_of
pending-Refs ns u =
    let ps : Pending = pending_of ns [] in
    let there : (d : String) → Any (λ (n : WorkflowNode). n.id ≡ d) ns → HasKey d ps =
      λ d a. let (n, k, e) = All-of-Any ns (nodes-HasKey ns []) a in subst (λ j. HasKey j ps) e k in
    let keys =
      pending_of-Every (λ e. All (λ d. HasKey d ps) e.1) ns []
        (All-map (λ n k. All-map there n.dependencies k) ns (first_unknown-none ns ns u)) tt in
    All-map
      (λ e h.
        All-both _ _ e.1 (rw (deps_of, h.0) (All-intro (λ d. Member d e.1) e.1 (λ d a. a))) h.1)
      ps (All-both _ _ ps (lookup-each ps (pending_of-HasKeys ns [] tt)) keys)

-- No order has all the nodes in it, each after those that it depends on.
abbrev pub HasNoOrder : List WorkflowNode → Type 0
HasNoOrder ns =
    (order : List String)
    → Sound (deps_of ns) order
    → All (λ (n : WorkflowNode). Member n.id order) ns
    → ⊥

topological_order-HasNoOrder :
    (ns : List WorkflowNode)
    → first_unknown (ids ns) ns ≡ none
    → topological_order ns ≡ err has_cycle
    → HasNoOrder ns
unfolding topological_order
topological_order-HasNoOrder ns u e order sound members =
    order_loop-has_cycle (deps_of ns) order sound (length (pending_of ns [])) [] (pending_of ns [])
      (pending-Refs ns u, pending_of-Every (λ p. Member p.0 order) ns [] members tt) e

-- A definition that is accepted has no id twice, and its nodes have an order: each node stands in
-- it, and each comes after all the nodes that it depends on. A definition is rejected for an id that
-- stands twice, for a node with a dependency that is no node's id, where the error names the node, or
-- for a cycle, where there is no such order. The rounds are always enough.
pub validate_graph_lem :
    (definition : WorkflowDefinition)
    → ((order : List String) × (validate_graph definition ≡ ok order)
        × (Repeats (ids definition.nodes) → ⊥)
        × Sound (deps_of definition.nodes) order
        × All (λ n. Member n.id order) definition.nodes
        × All (λ n. deps_of definition.nodes n.id ≡ n.dependencies) definition.nodes)
      ⊎ (((validate_graph definition ≡ err duplicate_ids) × Repeats (ids definition.nodes))
          ⊎ ((id : String) × (validate_graph definition ≡ err (unknown_dependencies id))
              × Any
                  (λ n. (n.id ≡ id) × HasUnknown (ids definition.nodes) n.dependencies)
                  definition.nodes)
          ⊎ ((validate_graph definition ≡ err has_cycle)
              × (Repeats (ids definition.nodes) → ⊥)
              × All (λ n. deps_of definition.nodes n.id ≡ n.dependencies) definition.nodes
              × HasNoOrder definition.nodes))
unfolding validate_graph topological_order
validate_graph_lem definition =
    let ns : List WorkflowNode = definition.nodes in
    elim (Bool-cases (has_duplicates (ids ns))) [
      | inl d ↦ inr (inl (rw (validate_graph, d) refl, has_duplicates-Repeats (ids ns) d))
      | inr d ↦
          let once : Repeats (ids ns) → ⊥ =
            λ a. let twice = Repeats-has_duplicates (ids ns) a in absurd (cc) in
          let deps = All-map (deps_found ns) ns (nodes_found ns [] d) in
          elim (Option-cases (first_unknown (ids ns) ns)) [
            | inr (id, u) ↦ inr (
                inr (
                  inl
                    (id, rw (validate_graph, d) (rw u refl), first_unknown-some (ids ns) ns id u)))
            | inl u ↦
                elim (result-Finished (topological_order ns) (topological_order-Finished ns)) [
                  | inr c ↦ inr (
                      inr (
                        inr (
                          rw (validate_graph, d) (rw u c),
                          once,
                          deps,
                          topological_order-HasNoOrder ns u c,
                        )))
                  | inl (order, c) ↦ inl (
                    order,
                    rw (validate_graph, d) (rw u c),
                    once,
                    order_loop-Sound (deps_of ns) (length (pending_of ns [])) [] (pending_of ns [])
                        order nothing (pending-Waits ns) c,
                    All-map
                        (λ n k.
                          order_loop-Member n.id (length (pending_of ns [])) [] (pending_of ns [])
                            order (inr k) c)
                        ns (nodes-HasKey ns []),
                    deps,
                  )
                ]
          ]
    ]
