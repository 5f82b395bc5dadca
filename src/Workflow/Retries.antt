-- ===== src/Workflow/Retries.antt =====
-- The loop over the attempts of a node in `_execute_node`.
use dub_manga_studio.Common.{
  ℕ, zero, suc, ◌+◌, ◌≤◌, ◌<◌, max, String, ◌≡◌, refl, ap, subst, ◌∙◌, Bool, true, false, some, ◌⊎◌,
  inl, inr, arith, ltb, if◌then◌else◌, Bool-cases, Json,
}
use dub_manga_studio.Common.Exec.{Result, ok, err, and_then_rule, or_else_rule}
use dub_manga_studio.Common.Dict.{lookup}
use dub_manga_studio.Events
use dub_manga_studio.Workflow.Graph.{WorkflowNode}
use dub_manga_studio.Workflow.Engine.{
  node_failed, node_cancelled, NodeState, WorkflowRun, Engine, EngineError, key_error,
  handler_error, cancelled_error, stop_iteration, handler_raised, blocked, loop_unfinished,
  EngineOp, Ambient, publish, save_run,
}
use dub_manga_studio.Workflow.Execution.{
  Handler, with_state, attempt, note_cancelled, note_failure, on_exception, retry_payload,
  attempts_loop,
}
use dub_manga_studio.Workflow.Held.{
  Held, node_run, Quiet, publish-Held, publish-error, require_run-Held, node_state-put,
  context_of-some, save_run-node_run,
}
use dub_manga_studio.Workflow.Attempts.{Tries, Settled, At, At-map, attempt_lem}
use dub_manga_studio.Workflow.Attempts

module _ (message_of : EngineError → String) (at : ℕ → Ambient) (s : Engine) (run : WorkflowRun)
    (node : WorkflowNode) (handler : Handler) (quiet : Quiet handler) where
  abbrev Here : (NodeState → Type 0) → Engine → Type 0
  Here P t = At s run node.id P t

  abbrev Done : ℕ → NodeState → Type 0
  Done = Attempts.Done message_of at s run node handler quiet

  abbrev Tried : ℕ → Result EngineError Unit → Engine → Type 0
  Tried = Attempts.Tried message_of at s run node handler quiet

  abbrev Within : ℕ → NodeState → Type 0
  Within = Tries node

  abbrev Finished : ℕ → NodeState → Type 0
  Finished = Settled handler node

  -- What the loop gives: the node is completed or failed, or the loop raised.
  abbrev pub Ended : ℕ → Result EngineError Unit → Engine → Type 0
  Ended k0 (ok _) t = Here (Finished k0) t
  Ended k0 (err e) t = ((e ≡ cancelled_error) ⊎ (e ≡ handler_error)) × Here (Within k0) t

  Ended-intro :
      (k0 : ℕ) (b : Bool) (t : Engine)
      → Here (Finished k0) t
      → Ended k0 (if b then err handler_error else ok tt) t
  Ended-intro k0 true t h = (inr refl, At-map s run node.id t (λ state p. p.0) h)
  Ended-intro k0 false t h = h

  pub publish-Ended :
      (k0 : ℕ) (a : Ambient) (type : Events.EventType) (payload : Json) (t : Engine)
      → Here (Finished k0) t
      → Ended k0 (publish a type payload run.id t).0 (publish a type payload run.id t).1
  unfolding publish
  publish-Ended k0 a type payload t h = Ended-intro k0 _ _ h

  on_exception_rule :
      (Q : Result EngineError Unit → Engine → Type 0) (n : ℕ) (e : EngineError) (t : Engine)
      (again : EngineOp Unit)
      → Q
          (note_cancelled message_of at n run.id node t).0
          (note_cancelled message_of at n run.id node t).1
      → Q
          (note_failure message_of at n run.id node e again t).0
          (note_failure message_of at n run.id node e again t).1
      → Q
          (on_exception message_of at n run.id node again e t).0
          (on_exception message_of at n run.id node again e t).1
  on_exception_rule Q n cancelled_error t again c f = c
  on_exception_rule Q n key_error t again c f = f
  on_exception_rule Q n handler_error t again c f = f
  on_exception_rule Q n stop_iteration t again c f = f
  on_exception_rule Q n (handler_raised text) t again c f = f
  on_exception_rule Q n blocked t again c f = f
  on_exception_rule Q n loop_unfinished t again c f = f

  note_cancelled_lem :
      (n k0 k : ℕ) (t : Engine)
      → Here (λ state. state.attempts ≡ k) t
      → k0 ≤ k
      → k ≤ max k0 node.max_attempts
      → Ended k0
          (note_cancelled message_of at n run.id node t).0
          (note_cancelled message_of at n run.id node t).1
  unfolding note_cancelled save_run
  note_cancelled_lem n k0 k t (state, now, h, e) low high =
      let stopped : NodeState = record state {
        status = node_cancelled;
        error = some "cancelled";
      } in
      rw (require_run-Held s (node_run run node.id state now) t h) (
        rw (node_state-put run node.id state now t) (
          inl refl,
          (
            stopped,
            (at n).now,
            save_run-node_run s t run node.id state stopped state now now (at n) h,
            (omega (arith, e, low), omega (arith, e, high)),
          ),
        ))

  note_failure_lem :
      (n k0 k : ℕ) (t : Engine) (exc : EngineError) (again : EngineOp Unit)
      → Here (λ state. state.attempts ≡ k) t
      → k0 ≤ k
      → k ≤ max k0 node.max_attempts
      → ((t' : Engine)
          → k < node.max_attempts
          → Here (λ state. state.attempts ≡ suc k) t'
          → Ended k0 (again t').0 (again t').1)
      → Ended k0
          (note_failure message_of at n run.id node exc again t).0
          (note_failure message_of at n run.id node exc again t).1
  unfolding note_failure save_run
  note_failure_lem n k0 k t exc again (state, now, h, e) low high next =
      let noted : NodeState = record state { error = some (message_of exc) } in
      let tried : NodeState = record noted { attempts = suc state.attempts } in
      let stopped : NodeState = record noted {
        status = node_failed;
        completed_at = some (at n).now;
      } in
      let here : WorkflowRun = node_run run node.id state now in
      let payload : Json = retry_payload run.id node.id (message_of exc) state.attempts in
      let told : Result EngineError Unit × Engine =
        publish (at n) Events.node_retrying payload run.id t in
      let held : Held s here told.1 =
        publish-Held s here t (at n) Events.node_retrying payload run.id h in
      let once : Engine = (save_run (at n) (with_state here node.id noted) told.1).1 in
      let saved_twice : Held s (node_run run node.id tried (at n).now)
          (save_run (at n) (with_state here node.id tried) once).1 =
        save_run-node_run s once run node.id state tried noted now (at n).now (at n)
          (save_run-node_run s told.1 run node.id state noted state now now (at n) held) in
      rw (require_run-Held s here t h) (
        rw (node_state-put run node.id state now t)
          (elim (Bool-cases (ltb state.attempts node.max_attempts)) [
            | inl less ↦ rw less (
                and_then_rule (Ended k0) told.0 _ told.1
                  (λ _ _.
                    next _ (ground (arith, less, e)) (tried, (at n).now, saved_twice, ap suc e))
                  (λ x p. (
                    inr (publish-error (at n) Events.node_retrying payload run.id t x p),
                    (state, now, held, (omega (arith, e, low), omega (arith, e, high))),
                  )))
            | inr more ↦ rw more (
                publish-Ended k0 (at n) Events.node_failed _ _ (
                  stopped,
                  (at n).now,
                  save_run-node_run s t run node.id state stopped state now now (at n) h,
                  (
                    (omega (arith, e, low), omega (arith, e, high)),
                    inr (refl, ground (arith, more), (message_of exc, refl)),
                  ),
                ))
          ]))

  -- The loop ends: it completes the node or marks it failed, or raises because of a cancellation
  -- or of a subscriber.
  pub attempts_loop_lem :
      (fuel n k0 k : ℕ) (t : Engine) (b : Bool)
      → lookup run.id s.cancel_events ≡ some b
      → Here (λ state. state.attempts ≡ k) t
      → k0 ≤ k
      → k ≤ max k0 node.max_attempts
      → node.max_attempts < k + fuel
      → 1 ≤ fuel
      → Ended k0
          (attempts_loop message_of at fuel n handler run node t).0
          (attempts_loop message_of at fuel n handler run node t).1
  unfolding attempts_loop
  attempts_loop_lem zero n k0 k t b event h low high enough some_fuel =
      absurd (omega (arith, some_fuel))
  attempts_loop_lem (suc fuel) n k0 k t b event (state, now, h, e) low high enough some_fuel =
      let found : lookup run.id t.cancel_events ≡ some b = ap (lookup run.id) h.1 ∙ event in
      let again : EngineOp Unit = attempts_loop message_of at fuel (suc n) handler run node in
      let tried : Result EngineError Unit × Engine = attempt message_of at n handler run node t in
      let here : Tried k tried.0 tried.1 =
        attempt_lem message_of at s run node handler quiet n k t (state, now, h, e) in
      rw (attempts_loop, context_of-some run.id b t found)
        (or_else_rule (Ended k0) tried.0 (on_exception message_of at n run.id node again) tried.1
          (λ u p.
            let done : Here (Done k) tried.1 = subst (λ r. Tried k r tried.1) p here in
            At-map s run node.id tried.1
              (λ x d. ((omega (arith, d.0, low), omega (arith, d.0, high)), inl d.1)) done)
          (λ x p.
            let left : Here (λ state. state.attempts ≡ k) tried.1 =
              subst (λ r. Tried k r tried.1) p here in
            on_exception_rule (Ended k0) n x tried.1 again
              (note_cancelled_lem n k0 k tried.1 left low high)
              (note_failure_lem n k0 k tried.1 x again left low high (λ t' less at_next.
                attempts_loop_lem fuel (suc n) k0 (suc k) t' b event at_next (omega (arith, low))
                  (omega (arith, less, high)) (omega (arith, enough))
                  (omega (arith, enough, less))))))
