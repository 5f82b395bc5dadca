-- ===== src/Workflow/Runs.antt =====
-- Running a workflow: `_wait_if_paused`, `_execute_until_terminal`, `resume_workflow`, `execute` and
-- `update_node_progress`. What the coroutines of one batch do, which run at the same
-- time, is `gather`, an argument: of one coroutine it is that coroutine, and of several, which
-- interleave their reads and writes of the run, nothing is said. What a turn
-- reads from outside is a function of its number and of the attempt's.
use dub_manga_studio.Common.{
  ℕ, zero, suc, ◌+◌, ◌*◌, ◌/◌, min, max, String, Bool, true, false, ◌&&◌, Option, none, some, List,
  [], ◌∷◌, if◌then◌else◌, Json, int, pos, ℤ, pos_part, str, object, Fields, no_fields, field, take,
  length, map,
}
use dub_manga_studio.Common.Exec.{Result, ok, err, pure, raise, catch, ◌>>=◌, ◌>>◌}
use dub_manga_studio.Common.Dict.{Dict, lookup, put, values}
use dub_manga_studio.Events
use dub_manga_studio.Workflow.Graph.{WorkflowNode, WorkflowDefinition}
use dub_manga_studio.Workflow.Engine.{
  WorkflowStatus, running, paused, completed, failed, cancelled, NodeStatus, node_running,
  node_failed, NodeState, WorkflowRun, Engine, EngineError, key_error, cancelled_error, blocked,
  loop_unfinished, EngineOp, Ambient, publish, save_run, require_run, create_run, of_run,
  is_completed, ready_nodes,
}
use dub_manga_studio.Workflow.Execution.{Handler, whole, execute_node, node_state}

-- _wait_if_paused(run_id): an event that is made here is not set.
unfoldable pub wait_if_paused : String → EngineOp Unit
wait_if_paused id s = elim (lookup id s.pause_events) as (λ _. Result EngineError Unit × Engine) [
  | none ↦ (err blocked, record s { pause_events = put id false s.pause_events })
  | some set ↦ ((if set then ok tt else err blocked), s)
]

-- if self._cancel_events[run_id].is_set(): raise asyncio.CancelledError
unfoldable pub stop_if_cancelled : String → EngineOp Unit
stop_if_cancelled id s = (
  elim (lookup id s.cancel_events) as (λ _. Result EngineError Unit) [
    | none ↦ err key_error
    | some set ↦ if set then err cancelled_error else ok tt
  ],
  s,
)

abbrev pub is_failed : NodeStatus → Bool
is_failed node_failed = true
is_failed _ = false

-- next((state for state in states if state.status == FAILED), None)
unfoldable pub first_failed : List NodeState → Option NodeState
first_failed [] = none
first_failed (x ∷ xs) = let rest = first_failed xs in if is_failed x.status then some x else rest

-- all(state.status == COMPLETED for state in states)
unfoldable pub all_done : List NodeState → Bool
all_done [] = true
all_done (x ∷ xs) = is_completed x.status && all_done xs

-- {node_id: state.result for node_id, state in states.items()}
unfoldable pub results_of : Dict NodeState → Fields
results_of [] = no_fields
results_of ((id, x) ∷ xs) = field id x.result (results_of xs)

abbrev pub is_paused : WorkflowStatus → Bool
is_paused paused = true
is_paused _ = false

abbrev pub is_terminal : WorkflowStatus → Bool
is_terminal completed = true
is_terminal cancelled = true
is_terminal failed = true
is_terminal _ = false

-- {"run_id": run.id, key: value}
abbrev pub run_payload : String → String → Json → Json
run_payload id key value = object (field "run_id" (str id) (field key value no_fields))

-- The run of a failed node.
abbrev pub failed_run : Ambient → WorkflowRun → NodeState → WorkflowRun
failed_run a run state = record run {
  status = failed;
  error = state.error;
  completed_at = some a.now;
}

-- The run whose nodes are all completed.
abbrev pub completed_run : Ambient → WorkflowRun → WorkflowRun
completed_run a run = record run {
  status = completed;
  completed_at = some a.now;
  output = object (results_of run.node_states);
  progress = whole;
}

-- The `except` clauses of `resume_workflow`; a coroutine that waits or runs raises nothing.
unfoldable pub end_cancelled : Ambient → String → EngineOp Unit
end_cancelled a id = do
  run ← require_run id
  saved ← save_run a (record run { status = cancelled; completed_at = some a.now })
  publish a Events.workflow_cancelled (of_run run.id) run.id

module _ (message_of : EngineError → String) where
  unfoldable pub end_failed : Ambient → String → EngineError → EngineOp Unit
  end_failed a id exc = do
    run ← require_run id
    let text = message_of exc
    saved ←
        save_run a (record run { status = failed; error = some text; completed_at = some a.now })
    publish a Events.workflow_failed (run_payload run.id "error" (str text)) run.id
    raise exc

  abbrev pub on_error : Ambient → String → EngineError → EngineOp Unit
  on_error a id cancelled_error = end_cancelled a id
  on_error a id blocked = raise blocked
  on_error a id loop_unfinished = raise loop_unfinished
  on_error a id e = end_failed a id e

-- asyncio.gather(*coroutines)
abbrev pub Gather : Type 0
Gather = List (EngineOp Unit) → EngineOp Unit

module _ (message_of : EngineError → String) (clock : ℕ → ℕ → Ambient) (handlers : Dict Handler)
    (gather : Gather) where
  -- The nodes of a batch.
  unfoldable pub run_batch : ℕ → String → List WorkflowNode → EngineOp Unit
  run_batch turn id nodes =
      gather
        (map (λ (n : WorkflowNode). execute_node message_of (clock turn) handlers id n.id) nodes)

  -- What follows the tests of a turn, where some node has not completed and none has failed.
  unfoldable pub run_ready :
      ℕ → String → WorkflowRun → EngineOp Unit → List WorkflowNode → EngineOp Unit
  run_ready turn id run again [] = again
  run_ready turn id run again (n ∷ ns) =
      (run_batch turn id (take (max 1 run.definition.max_concurrency) (n ∷ ns)) >> again)

  unfoldable pub finish_completed : ℕ → WorkflowRun → EngineOp Unit
  finish_completed turn run = do
    let done = completed_run (clock turn 0) run
    saved ← save_run (clock turn 0) done
    publish (clock turn 0) Events.pipeline_completed (run_payload run.id "output" done.output)
        run.id

  -- One turn of the `while` loop.
  unfoldable pub turn_of : ℕ → String → EngineOp Unit → EngineOp Unit
  turn_of turn id again = do
    run ← require_run id
    wait_if_paused id
    stop_if_cancelled id
    let go = (do ready ← λ s. (ready_nodes run, s); run_ready turn id run again ready)
    if is_paused run.status then pure tt else elim (first_failed (values run.node_states)) [
      | some state ↦ save_run (clock turn 0) (failed_run (clock turn 0) run state) >> pure tt
      | none ↦ if all_done (values run.node_states) then finish_completed turn run else go
    ]

  -- _execute_until_terminal(run_id), a bounded number of turns.
  unfoldable pub execute_until_terminal : ℕ → ℕ → String → EngineOp Unit
  execute_until_terminal zero turn id = raise loop_unfinished
  execute_until_terminal (suc fuel) turn id =
      let again = execute_until_terminal fuel (suc turn) id in turn_of turn id again

  -- resume_workflow(run_id), where `a` is what it reads from outside itself.
  unfoldable pub resume_workflow : ℕ → Ambient → String → EngineOp WorkflowRun
  resume_workflow fuel a id = do
    run ← require_run id
    let go = (do
      saved ← save_run a (record run {
        status = running;
        started_at = some (elim run.started_at [ none ↦ a.now | some t ↦ t ]);
      })
      publish a Events.workflow_started (run_payload run.id "definition_id" (str run.definition.id))
          run.id
      (λ s. (
        ok tt,
        record s {
          cancel_events =
              put run.id (elim (lookup run.id s.cancel_events) [ none ↦ false | some b ↦ b ])
                s.cancel_events;
          pause_events = put run.id true s.pause_events;
        },
      ))
      catch (execute_until_terminal fuel 0 run.id) (on_error message_of a run.id)
      require_run run.id)
    if is_terminal run.status then pure run else go

  -- execute(definition, workflow_input, metadata=)
  unfoldable pub execute :
      ℕ → Ambient → Json → WorkflowDefinition → Json → Json → EngineOp WorkflowRun
  execute fuel a empty definition input metadata = do
    run ← create_run a empty definition input metadata
    resume_workflow fuel a run.id

-- min(1.0, max(0.0, progress))
abbrev pub clamp : ℤ → ℕ
clamp progress = min whole (pos_part progress)

unfoldable pub count_completed : List NodeState → ℕ
count_completed [] = 0
count_completed (x ∷ xs) = (if is_completed x.status then 1 else 0) + count_completed xs

abbrev pub is_node_running : NodeStatus → Bool
is_node_running node_running = true
is_node_running _ = false

unfoldable pub current_progress : List NodeState → ℕ
current_progress [] = 0
current_progress (x ∷ xs) =
    (if is_node_running x.status then x.progress else 0) + current_progress xs

-- update_node_progress(run_id, node_id, progress, message=)
unfoldable pub update_node_progress : Ambient → String → String → ℤ → Json → EngineOp Unit
update_node_progress a run_id node_id progress message = do
  run ← require_run run_id
  old ← node_state run node_id
  let state : NodeState = record old { progress = clamp progress }
  let states = put node_id state run.node_states
  let total = count_completed (values states) * whole + current_progress (values states)
  saved ←
      save_run a
        (record run { node_states = states; progress = min whole (total / max 1 (length states)) })
  publish a Events.node_started
      (object (
        field "run_id" (str run_id) (
          field "node_id" (str node_id)
            (field "progress" (int (pos state.progress)) (field "message" message no_fields)))))
      run_id
