-- ===== src/Workflow/Resume.antt =====
-- `resume_workflow` takes a run to its end.
use dub_manga_studio.Common.{
  ℕ, suc, ◌≤◌, String, ◌≡◌, refl, ap, subst, ◌∙◌, sym, Bool, true, false, none, some, List, ◌⊎◌,
  inl, inr, All, if◌then◌else◌, Json, str, All-map, All-both, All-intro, Any-map-All,
}
use dub_manga_studio.Common.Exec.{Result, ok, err, and_then, and_then_rule, or_else}
use dub_manga_studio.Common.Dict.{Dict, lookup, put, values, lookup-put_self}
use dub_manga_studio.Events
use dub_manga_studio.Workflow.Graph.{WorkflowNode, has_duplicates, ids, validate_graph}
use dub_manga_studio.Workflow.Engine.{
  running, completed, failed, cancelled, NodeState, WorkflowRun, Engine, EngineError, handler_error,
  Ambient, publish, save_run, require_run,
}
use dub_manga_studio.Workflow.Runs.{
  Gather, first_failed, all_done, is_terminal, execute_until_terminal, end_cancelled, end_failed,
  on_error, run_payload, resume_workflow,
}
use dub_manga_studio.Workflow.Control.{require_run-some}
use dub_manga_studio.Workflow.Held.{publish-error, Quiet}
use dub_manga_studio.Workflow.Batch.{IsGather, IsStored, Runnable, node_of-all}
use dub_manga_studio.Workflow.Ending.{Ends, execute_until_terminal-Ends}
use dub_manga_studio.Workflow.Cycle.{Repeats-none}
use dub_manga_studio.Workflow.Validation.{validate_graph_lem, deps_of}
use dub_manga_studio.Workflow.Proper.{IsNode, Proper, count_pending}
use dub_manga_studio.Workflow.Execution.{Handler}

-- A node has a handler that leaves the runs and the events alone.
abbrev pub HasHandler : Dict Handler → WorkflowNode → Type 0
HasHandler handlers n =
    (handler : Handler) × (lookup n.handler handlers ≡ some handler) × Quiet handler

-- What a run that was resumed is in the end, where no error of a subscriber goes on.
abbrev pub EndedRun : WorkflowRun → Type 0
EndedRun run =
    ((run.status ≡ completed) × (all_done (values run.node_states) ≡ true))
    ⊎ ((run.status ≡ failed)
        × ((state : NodeState) × (first_failed (values run.node_states) ≡ some state)))
    ⊎ (run.status ≡ cancelled)

abbrev pub Resumed : String → Result EngineError WorkflowRun → Engine → Type 0
Resumed id (ok run) t = (lookup id t.runs ≡ some run) × EndedRun run
Resumed id (err e) t = e ≡ handler_error

-- The same, of the run that is stored.
abbrev Caught : String → Result EngineError Unit → Engine → Type 0
Caught id (ok _) t = (run : WorkflowRun) × (lookup id t.runs ≡ some run) × EndedRun run
Caught id (err e) t = e ≡ handler_error

publish-Caught :
    (id : String) (a : Ambient) (type : Events.EventType) (p : Json) (c : String) (t : Engine)
    → (run : WorkflowRun) × (lookup id t.runs ≡ some run) × EndedRun run
    → Caught id (publish a type p c t).0 (publish a type p c t).1
unfolding publish
publish-Caught id a type p c t h = caught_either _ _ h
  where
    caught_either :
        (b : Bool) (u : Engine)
        → (run : WorkflowRun) × (lookup id u.runs ≡ some run) × EndedRun run
        → Caught id (if b then err handler_error else ok tt) u
    caught_either true u k = refl
    caught_either false u k = k

module _ (message_of : EngineError → String) where
  end_cancelled-Caught :
      (a : Ambient) (id : String) (t : Engine)
      → IsStored id t
      → Caught id (end_cancelled a id t).0 (end_cancelled a id t).1
  unfolding end_cancelled save_run
  end_cancelled-Caught a id t (run, found, same) =
      let ended : WorkflowRun = record run {
        status = cancelled;
        updated_at = a.now;
        completed_at = some a.now;
      } in
      rw (require_run-some id run t found) (
        publish-Caught id a Events.workflow_cancelled _ _ _ (
          ended,
          subst (λ k. lookup k (put run.id ended t.runs) ≡ some ended) same
              (lookup-put_self run.id ended t.runs),
          inr (inr refl),
        ))

  end_failed-Caught :
      (a : Ambient) (id : String) (t : Engine)
      → IsStored id t
      → Caught id
          (end_failed message_of a id handler_error t).0
          (end_failed message_of a id handler_error t).1
  unfolding end_failed save_run
  end_failed-Caught a id t (run, found, same) =
      let text : String = message_of handler_error in
      let saved : Engine =
        (save_run a (record run { status = failed; error = some text; completed_at = some a.now })
          t).1 in
      let payload : Json = run_payload run.id "error" (str text) in
      let told : Result EngineError Unit × Engine =
        publish a Events.workflow_failed payload run.id saved in
      rw (require_run-some id run t found) (
        and_then_rule (Caught id) told.0 _ told.1 (λ u p. refl)
          (λ e p. publish-error a Events.workflow_failed payload run.id saved e p))

  -- The `except` clauses, after turns that ended.
  on_error-Caught :
      (a : Ambient) (id : String) (r : Result EngineError Unit) (t : Engine)
      → Ends id r t
      → Caught id
          (or_else r (on_error message_of a id) t).0
          (or_else r (on_error message_of a id) t).1
  on_error-Caught a id (ok _) t (run, found, same, inl c) = (run, found, inl c)
  on_error-Caught a id (ok _) t (run, found, same, inr f) = (run, found, inr (inl f))
  on_error-Caught a id (err e) t (inl c, stored) =
      subst (λ x. Caught id (on_error message_of a id x t).0 (on_error message_of a id x t).1)
        (sym c) (end_cancelled-Caught a id t stored)
  on_error-Caught a id (err e) t (inr c, stored) =
      subst (λ x. Caught id (on_error message_of a id x t).0 (on_error message_of a id x t).1)
        (sym c) (end_failed-Caught a id t stored)

require_run-Resumed :
    (id : String) (r : Result EngineError Unit) (t : Engine)
    → Caught id r t
    → Resumed id (and_then r (λ _. require_run id) t).0 (and_then r (λ _. require_run id) t).1
require_run-Resumed id (ok _) t (run, found, ended) =
    rw (require_run-some id run t found) (found, ended)
require_run-Resumed id (err e) t h = h

publish-runs :
    (a : Ambient) (type : Events.EventType) (p : Json) (c : String) (t : Engine)
    → (publish a type p c t).1.runs ≡ t.runs
unfolding publish
publish-runs a type p c t = refl

-- Each node of a definition without an id twice can be run.
nodes-Runnable :
    (message_of : EngineError → String) (clock : ℕ → ℕ → Ambient) (handlers : Dict Handler)
    (run : WorkflowRun)
    → has_duplicates (ids run.definition.nodes) ≡ false
    → All (HasHandler handlers) run.definition.nodes
    → All (Runnable message_of clock handlers run) run.definition.nodes
nodes-Runnable message_of clock handlers run once handled =
    let nodes : List WorkflowNode = run.definition.nodes in
    All-map (λ n h. (h.0.0, h.0.1, h.1)) nodes
      (All-both _ _ nodes (All-both _ _ nodes (node_of-all nodes once) handled) (
        All-intro (λ n. IsNode nodes n.id) nodes
          (λ n a.
            Any-map-All (λ m _ e. ap (λ (x : WorkflowNode). x.id) e) nodes
              (All-intro (λ _. Unit {0}) nodes (λ _ _. tt)) a)))

-- For a definition that runs one node at a time, as its `max_concurrency` is at most 1, and where
-- `gather` of one coroutine is that coroutine. For a stored run that is not at its end, whose
-- definition is accepted, whose nodes are pending, completed or failed and have handlers that leave
-- the runs and the events alone. `resume_workflow` ends after at most as many turns as there are
-- pending nodes and one more. Where no subscriber of the bus raises, it returns the run as it is
-- stored then: completed, with all its nodes completed, or failed, with a node that failed, or
-- cancelled.
pub resume_workflow-Resumed :
    (message_of : EngineError → String) (clock : ℕ → ℕ → Ambient) (handlers : Dict Handler)
    (gather : Gather) (a : Ambient) (s : Engine) (run : WorkflowRun) (order : List String)
    (most : ℕ)
    → IsGather gather
    → run.definition.max_concurrency ≤ 1
    → lookup run.id s.runs ≡ some run
    → is_terminal run.status ≡ false
    → validate_graph run.definition ≡ ok order
    → Proper run.definition.nodes run.node_states
    → All (HasHandler handlers) run.definition.nodes
    → count_pending run.node_states ≤ most
    → let done = resume_workflow message_of clock handlers gather (suc most) a run.id s in
      Resumed run.id done.0 done.1
unfolding resume_workflow save_run
resume_workflow-Resumed message_of clock handlers gather a s run order most single one_node stored
      live accepted proper handled room =
    elim (validate_graph_lem run.definition) [
      | inr (inl (e, twice)) ↦ absurd (cc)
      | inr (inr (inl (id, e, unknown))) ↦ absurd (cc)
      | inr (inr (inr (e, once, deps, none_found))) ↦ absurd (cc)
      | inl (order', e, once, sound, members, deps) ↦
          let base : WorkflowRun = record run {
            status = running;
            updated_at = a.now;
            started_at = some (elim run.started_at [ none ↦ a.now | some t ↦ t ]);
          } in
          let payload : Json = run_payload run.id "definition_id" (str run.definition.id) in
          let t : Engine = record s { runs = put run.id base s.runs } in
          let told : Result EngineError Unit × Engine =
            publish a Events.workflow_started payload run.id t in
          let event : Bool = elim (lookup run.id told.1.cancel_events) [
            | none ↦ false
            | some b ↦ b
          ] in
          let u : Engine = record told.1 {
            cancel_events = put run.id event told.1.cancel_events;
            pause_events = put run.id true told.1.pause_events;
          } in
          let turns : ℕ = suc most in
          let ran : Result EngineError Unit × Engine =
            execute_until_terminal message_of clock handlers gather turns 0 run.id u in
          let known : lookup run.id u.runs ≡ some base =
            ap (lookup run.id) (publish-runs a Events.workflow_started payload run.id t)
            ∙ lookup-put_self run.id base s.runs in
          let ended : Ends run.id ran.0 ran.1 =
            execute_until_terminal-Ends message_of clock handlers gather single base order'
              (deps_of run.definition.nodes) sound members deps
              (nodes-Runnable message_of clock handlers base
                (Repeats-none (ids run.definition.nodes) once) handled)
              refl one_node most 0 u
              (
                run.node_states,
                a.now,
                (
                  known,
                  proper,
                  (event, lookup-put_self run.id event told.1.cancel_events),
                  lookup-put_self run.id true told.1.pause_events,
                ),
                room,
              ) in
          rw (resume_workflow, require_run-some run.id run s stored)
            (rw live (
              and_then_rule (Resumed run.id) told.0 _ told.1
                (λ _ _.
                  require_run-Resumed run.id _ _
                    (on_error-Caught message_of a run.id ran.0 ran.1 ended))
                (λ x p. publish-error a Events.workflow_started payload run.id t x p)))
    ]
