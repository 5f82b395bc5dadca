-- ===== src/Workflow/Nodes.antt =====
-- What running one node with `_execute_node` leaves behind.
use dub_manga_studio.Common.{
  ℕ, suc, String, ◌⊎◌, int, pos, ◌≡◌, refl, sym, subst, Bool, none, some, inr, arith, Json,
}
use dub_manga_studio.Common.Exec.{Result, ok, err, and_then_rule}
use dub_manga_studio.Common.Dict.{Dict, lookup, put-put}
use dub_manga_studio.Events
use dub_manga_studio.Workflow.Graph.{WorkflowNode}
use dub_manga_studio.Workflow.Engine.{
  node_running, NodeState, WorkflowRun, Engine, EngineError, cancelled_error, handler_error,
  Ambient, publish, save_run,
}
use dub_manga_studio.Workflow.Execution.{
  Handler, node_state, with_state, node_of, handler_of, execute_node, payload_of,
}
use dub_manga_studio.Workflow.Control.{require_run-some}
use dub_manga_studio.Workflow.Held.{
  Held, node_run, Quiet, publish-Held, publish-error, save_run-Held,
}
use dub_manga_studio.Workflow.Attempts.{At, Tries, Settled}
use dub_manga_studio.Workflow.Retries.{Ended, attempts_loop_lem}

-- The state of a node that starts.
abbrev pub started_state : Ambient → NodeState → NodeState
started_state a old = record old {
  status = node_running;
  attempts = suc old.attempts;
  started_at = some (elim old.started_at [ none ↦ a.now | some t ↦ t ]);
  error = none;
}

pub node_state-some :
    (run : WorkflowRun) (id : String) (state : NodeState) (t : Engine)
    → lookup id run.node_states ≡ some state
    → node_state run id t ≡ (ok state, t)
unfolding node_state
node_state-some run id state t e = rw e refl

handler_of-some :
    (handlers : Dict Handler) (name : String) (handler : Handler) (t : Engine)
    → lookup name handlers ≡ some handler
    → handler_of handlers name t ≡ (ok handler, t)
unfolding handler_of
handler_of-some handlers name handler t e = rw (handler_of, e) refl

-- What `_execute_node` leaves: where it returns, the node is completed with a result of its
-- handler, or failed after all its attempts; where it raises, that is a cancellation or an error of
-- a subscriber.
abbrev pub Executed :
    Engine → WorkflowRun → WorkflowNode → Handler → ℕ → Result EngineError Unit → Engine → Type 0
Executed s run node handler k0 (ok _) t = At s run node.id (Settled handler node k0) t
Executed s run node handler k0 (err e) t =
    ((e ≡ cancelled_error) ⊎ (e ≡ handler_error)) × At s run node.id (Tries node k0) t

module _ (s : Engine) (run : WorkflowRun) (node : WorkflowNode) where
  At-started :
      (P : NodeState → Type 0) (state : NodeState) (t : Engine)
      → At s (with_state run node.id state) node.id P t
      → At s run node.id P t
  At-started P state t (last, now, h, p) = (
    last,
    now,
    subst (λ (d : Dict NodeState). Held s (record run { node_states = d; updated_at = now }) t)
        (put-put node.id last state run.node_states) h,
    p,
  )

  Ended-started :
      (message_of : EngineError → String) (at : ℕ → Ambient) (handler : Handler)
      (quiet : Quiet handler) (k0 : ℕ) (state : NodeState) (r : Result EngineError Unit)
      (t : Engine)
      → Ended message_of at s (with_state run node.id state) node handler quiet k0 r t
      → Executed s run node handler k0 r t
  Ended-started message_of at handler quiet k0 state (ok _) t h = At-started _ state t h
  Ended-started message_of at handler quiet k0 state (err e) t h = (h.0, At-started _ state t h.1)

-- For a stored run, one of its nodes with a state and with a handler that leaves the runs and the
-- events alone, where the run's cancel event is there. `_execute_node` ends. Where it returns, the
-- node is completed, at full progress and with a result that the handler gave, or it is failed,
-- with a text for the error and after no fewer attempts than its maximum. Where it raises, that is
-- a cancellation or an error of a subscriber of the bus. In each case the node has at least one
-- attempt more than before and no more than its maximum, or that one where the maximum is lower,
-- and no state of another node, no other run, and no event that cancels or pauses changes.
pub execute_node_lem :
    (message_of : EngineError → String) (at : ℕ → Ambient) (s : Engine) (run : WorkflowRun)
    (node : WorkflowNode) (handlers : Dict Handler) (handler : Handler) (old : NodeState) (b : Bool)
    → Quiet handler
    → lookup run.id s.runs ≡ some run
    → ((t : Engine) → node_of node.id run.definition.nodes t ≡ (ok node, t))
    → lookup node.handler handlers ≡ some handler
    → lookup node.id run.node_states ≡ some old
    → lookup run.id s.cancel_events ≡ some b
    → let done = execute_node message_of at handlers run.id node.id s in
      Executed s run node handler (suc old.attempts) done.0 done.1
unfolding execute_node save_run
execute_node_lem message_of at s run node handlers handler old b quiet stored found handled known
      event =
    let state : NodeState = started_state (at 0) old in
    let started : WorkflowRun = with_state run node.id state in
    let t : Engine = (save_run (at 0) started s).1 in
    let payload : Json = payload_of run.id node.id "attempt" (int (pos state.attempts)) in
    let told : Result EngineError Unit × Engine =
      publish (at 0) Events.node_started payload run.id t in
    let Q : Result EngineError Unit → Engine → Type 0 =
      Executed s run node handler (suc old.attempts) in
    let initial : Held s (record started { updated_at = (at 0).now }) t =
      save_run-Held s run s (at 0) started refl ((stored, (λ j other. refl)), refl, refl) in
    let held : Held s (node_run started node.id state (at 0).now) told.1 =
      publish-Held s (node_run started node.id state (at 0).now) t (at 0) Events.node_started
        payload run.id
        (subst
          (λ (d : Dict NodeState).
            Held s (record started { node_states = d; updated_at = (at 0).now }) t)
          (sym (put-put node.id state state run.node_states)) initial) in
    rw (execute_node, require_run-some run.id run s stored)
      (rw (found s) (
        rw (handler_of-some handlers node.handler handler s handled) (
          rw (node_state-some run node.id old s known) (
            and_then_rule Q told.0 _ told.1
              (λ u p.
                Ended-started s run node message_of at handler quiet (suc old.attempts) state _ _ (
                  attempts_loop_lem message_of at s started node handler quiet
                    (suc node.max_attempts) 0 (suc old.attempts) (suc old.attempts) told.1 b event
                    (state, (at 0).now, held, refl) (omega arith) (omega arith) (omega arith)
                    (omega arith)))
              (λ e p. (
                inr (publish-error (at 0) Events.node_started payload run.id t e p),
                At-started s run node (Tries node (suc old.attempts)) state told.1
                    (state, (at 0).now, held, (omega arith, omega arith)),
              ))))))
