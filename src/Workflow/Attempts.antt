-- ===== src/Workflow/Attempts.antt =====
-- One attempt of a node in `_execute_node`.
use dub_manga_studio.Common.{ℕ, ◌≤◌, max, String, ◌≡◌, refl, some, ◌⊎◌, Json}
use dub_manga_studio.Common.Exec.{Result, ok, err, and_then_rule}
use dub_manga_studio.Events
use dub_manga_studio.Workflow.Graph.{WorkflowNode}
use dub_manga_studio.Workflow.Engine.{
  node_completed, node_failed, NodeState, WorkflowRun, Engine, EngineError, Ambient, publish,
  save_run,
}
use dub_manga_studio.Workflow.Execution.{
  WorkflowContext, Raised, raises_cancelled, raises, Handler, whole, met, call, raise_if_cancelled,
  attempt,
}
use dub_manga_studio.Workflow.Held.{
  Held, node_run, Quiet, handler-Held, require_run-Held, node_state-put, save_run-node_run,
}

met-ok : (r : Result Raised Json) (v : Json) → met r ≡ ok v → r ≡ ok v
met-ok (ok w) v e = let same : w ≡ v = cc in rw same refl
met-ok (err raises_cancelled) v e = absurd (cc)
met-ok (err (raises text)) v e = absurd (cc)

-- A result that the handler gave.
abbrev pub FromHandler : Handler → Json → Type 0
FromHandler handler v = (c : WorkflowContext) × (t : Engine) × ((handler c t).0 ≡ ok v)

abbrev pub Completed : Handler → NodeState → Type 0
Completed handler state =
    (state.status ≡ node_completed) × (state.progress ≡ whole) × FromHandler handler state.result

-- How many attempts a node has had that had `k0` when it started.
abbrev pub Tries : WorkflowNode → ℕ → NodeState → Type 0
Tries node k0 state = (k0 ≤ state.attempts) × (state.attempts ≤ max k0 node.max_attempts)

-- The node is completed or failed.
abbrev pub Settled : Handler → WorkflowNode → ℕ → NodeState → Type 0
Settled handler node k0 state =
    Tries node k0 state
    × (Completed handler state
        ⊎ ((state.status ≡ node_failed)
            × (node.max_attempts ≤ state.attempts)
            × ((text : String) × (state.error ≡ some text))))

module _ (s : Engine) (run : WorkflowRun) (id : String) where
  -- The node's state is the one thing of the engine's runs that changed, but for the time of
  -- the write, and satisfies `P`.
  abbrev pub At : (NodeState → Type 0) → Engine → Type 0
  At P t = (state : NodeState) × (now : ℕ) × Held s (node_run run id state now) t × P state

  pub At-map :
      {P Q : NodeState → Type 0} (t : Engine)
      → ((state : NodeState) → P state → Q state)
      → At P t
      → At Q t
  At-map t f (state, now, h, p) = (state, now, h, f state p)

module _ (message_of : EngineError → String) (at : ℕ → Ambient) (s : Engine) (run : WorkflowRun)
    (node : WorkflowNode) (handler : Handler) (quiet : Quiet handler) where
  abbrev pub Here : (NodeState → Type 0) → Engine → Type 0
  Here P t = At s run node.id P t

  abbrev pub Done : ℕ → NodeState → Type 0
  Done k state = (state.attempts ≡ k) × Completed handler state

  -- What one attempt gives: it completes the node, or raises and leaves the number of attempts.
  abbrev pub Tried : ℕ → Result EngineError Unit → Engine → Type 0
  Tried k (ok _) t = Here (Done k) t
  Tried k (err e) t = Here (λ state. state.attempts ≡ k) t

  Tried-intro : (k : ℕ) (r : Result EngineError Unit) (t : Engine) → Here (Done k) t → Tried k r t
  Tried-intro k (ok tt) t h = h
  Tried-intro k (err e) t h = At-map s run node.id t (λ state p. p.0) h

  publish-Tried :
      (k : ℕ) (a : Ambient) (type : Events.EventType) (payload : Json) (t : Engine)
      → Here (Done k) t
      → Tried k (publish a type payload run.id t).0 (publish a type payload run.id t).1
  unfolding publish
  publish-Tried k a type payload t h = Tried-intro k _ _ h

  pub attempt_lem :
      (n k : ℕ) (t : Engine)
      → Here (λ state. state.attempts ≡ k) t
      → Tried k
          (attempt message_of at n handler run node t).0
          (attempt message_of at n handler run node t).1
  unfolding attempt raise_if_cancelled call save_run
  attempt_lem n k t (state, now, h, e) =
      let c : WorkflowContext = record {
        run_id = run.id;
        workflow_input = run.input;
        node = node;
      } in
      let here : WorkflowRun = node_run run node.id state now in
      let t' : Engine = (handler c t).1 in
      let held : Held s here t' = handler-Held s here handler c t quiet h in
      let completed_state : Json → NodeState = λ v. record state {
        status = node_completed;
        progress = whole;
        completed_at = some (at n).now;
        result = v;
      } in
      and_then_rule (Tried k) (raise_if_cancelled run.id t).0 _ t
        (λ _ _.
          and_then_rule (Tried k) (met (handler c t).0) _ t'
            (λ v given. rw (require_run-Held s here t' held) (
              rw (node_state-put run node.id state now t') (
                publish-Tried k (at n) Events.node_completed _ _ (
                  completed_state v,
                  (at n).now,
                  save_run-node_run s t' run node.id state (completed_state v) state now now (at n)
                      held,
                  (e, (refl, refl, (c, t, met-ok (handler c t).0 v given))),
                ))))
            (λ _ _. (state, now, held, e)))
        (λ _ _. (state, now, h, e))
