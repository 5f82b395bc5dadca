-- ===== src/Workflow/Pending.antt =====
-- The nodes that a turn of `_execute_until_terminal` finds failed, pending or ready.
use dub_manga_studio.Common.{
  ℕ, ◌≤◌, max, String, ◌≡◌, refl, Bool, true, false, none, List, [], ◌∷◌, inl, inr, arith, All, Any,
  Bool-cases, keep, take,
}
use dub_manga_studio.Common.Dict.{Dict, values}
use dub_manga_studio.Workflow.Graph.{WorkflowNode}
use dub_manga_studio.Workflow.Engine.{NodeState, is_pending}
use dub_manga_studio.Workflow.Runs.{is_failed, first_failed, all_done}
use dub_manga_studio.Workflow.Proper.{Calm, Calm-cases}

pub first_failed-none :
    (states : Dict NodeState)
    → first_failed (values states) ≡ none
    → All (λ (e : String × NodeState). is_failed e.1.status ≡ false) states
unfolding first_failed values
first_failed-none [] h = tt
first_failed-none ((id, x) ∷ xs) h = elim (Bool-cases (is_failed x.status)) [
  | inl e ↦ absurd (ground (arith, e, h))
  | inr e ↦ (e, first_failed-none xs (ground (arith, e, h)))
]

-- Where no node has failed and some has not completed, some is pending.
pub some_pending :
    (states : Dict NodeState)
    → All (λ (e : String × NodeState). Calm e.1.status × (is_failed e.1.status ≡ false)) states
    → all_done (values states) ≡ false
    → Any (λ (e : String × NodeState). is_pending e.1.status ≡ true) states
unfolding all_done values
some_pending [] h e = absurd (cc)
some_pending ((id, x) ∷ xs) h e = elim (Calm-cases x.status h.0.0 h.0.1) [
  | inr p ↦ inl p
  | inl c ↦ inr (some_pending xs h.1 (rw c at e))
]

-- Where one node runs at a time, a batch is one node.
pub take-batch :
    (n : WorkflowNode) (ns : List WorkflowNode) (most : ℕ)
    → most ≤ 1
    → take (max 1 most) (n ∷ ns) ≡ n ∷ []
take-batch n ns most few = let one : max 1 most ≡ 1 = omega (arith, few) in rw one refl

pub keep-some :
    (p : WorkflowNode → Bool) (ns : List WorkflowNode)
    → Any (λ n. p n ≡ true) ns
    → (n : WorkflowNode) × (rest : List WorkflowNode) × (keep p ns ≡ n ∷ rest)
unfolding keep
keep-some p [] a = absurd a
keep-some p (n ∷ ns) a = elim (Bool-cases (p n)) [
  | inl e ↦ (n, keep p ns, rw e refl)
  | inr e ↦ elim a [
    | inl t ↦ absurd (cc)
    | inr b ↦ let (m, rest, q) = keep-some p ns b in (m, rest, rw e q)
  ]
]
