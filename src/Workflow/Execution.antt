-- ===== src/Workflow/Execution.antt =====
-- WorkflowContext, and the running of one node: `register_handler`, `unregister_handler` and
-- `_execute_node`. A handler is a parameter: it is called with its context, may use the engine, and
-- answers or raises; running out of a node's timeout is raising. Progress is in millionths. What
-- one attempt reads from outside is a function of its number.
use dub_manga_studio.Common.{
  ℕ, zero, suc, String, none, some, List, [], ◌∷◌, if◌then◌else◌, Json, int, pos, str, str_eq,
  object, no_fields, field, ltb,
}
use dub_manga_studio.Common.Exec.{Result, ok, err, Exec, pure, raise, catch, ◌>>=◌, ◌>>◌}
use dub_manga_studio.Common.Dict.{Dict, lookup, put, remove}
use dub_manga_studio.Events
use dub_manga_studio.Workflow.Graph.{WorkflowNode}
use dub_manga_studio.Workflow.Engine.{
  NodeState, WorkflowRun, Engine, EngineError, key_error, cancelled_error, handler_raised,
  stop_iteration, loop_unfinished, EngineOp, Ambient, publish, save_run, require_run, node_running,
  node_completed, node_failed, node_cancelled,
}

abbrev pub whole : ℕ
whole = 1000000

pub record WorkflowContext : Type 0 where
  pub run_id : String
  pub workflow_input : Json
  pub node : WorkflowNode

pub data Raised : Type 0 where
  raises_cancelled : Raised
  raises : String → Raised

abbrev pub Handler : Type 0
Handler = WorkflowContext → Exec Engine Raised Json

-- register_handler(name, handler), unregister_handler(name)
unfoldable pub register_handler : String → Handler → Dict Handler → Dict Handler
register_handler name handler handlers = put name handler handlers

unfoldable pub unregister_handler : String → Dict Handler → Dict Handler
unregister_handler name handlers = remove name handlers

-- The exception that a handler raises, as the engine meets it.
abbrev pub met : Result Raised Json → Result EngineError Json
met (ok result) = ok result
met (err raises_cancelled) = err cancelled_error
met (err (raises text)) = err (handler_raised text)

unfoldable pub call : Handler → WorkflowContext → EngineOp Json
call handler context s = let (answer, s') = handler context s in (met answer, s')

-- context.raise_if_cancelled(), with the look up of the cancel event
unfoldable pub raise_if_cancelled : String → EngineOp Unit
raise_if_cancelled run_id s = (
  elim (lookup run_id s.cancel_events) as (λ _. Result EngineError Unit) [
    | none ↦ err key_error
    | some set ↦ if set then err cancelled_error else ok tt
  ],
  s,
)

-- run.node_states[node_id]
unfoldable pub node_state : WorkflowRun → String → EngineOp NodeState
node_state run node_id s = (
  elim (lookup node_id run.node_states) as (λ _. Result EngineError NodeState) [
    | none ↦ err key_error
    | some state ↦ ok state
  ],
  s,
)

-- `state` is an object of `run`: what is written to it is saved with the run.
abbrev pub with_state : WorkflowRun → String → NodeState → WorkflowRun
with_state run node_id state = record run { node_states = put node_id state run.node_states }

-- Building the context looks up the cancel event outside the `try`.
unfoldable pub context_of : String → EngineOp Unit
context_of run_id s = (
  elim (lookup run_id s.cancel_events) as (λ _. Result EngineError Unit) [
    | none ↦ err key_error
    | some _ ↦ ok tt
  ],
  s,
)

-- next(node for node in run.definition.nodes if node.id == node_id)
unfoldable pub node_of : String → List WorkflowNode → EngineOp WorkflowNode
node_of node_id [] = raise stop_iteration
node_of node_id (n ∷ ns) =
    let rest = node_of node_id ns in if str_eq n.id node_id then pure n else rest

unfoldable pub handler_of : Dict Handler → String → EngineOp Handler
handler_of handlers name = elim (lookup name handlers) [
  | none ↦ raise key_error
  | some handler ↦ pure handler
]

-- {"run_id": run.id, "node_id": node.id, key: value}
abbrev pub payload_of : String → String → String → Json → Json
payload_of run_id node_id key value =
    object (field "run_id" (str run_id) (field "node_id" (str node_id) (field key value no_fields)))

abbrev pub retry_payload : String → String → String → ℕ → Json
retry_payload run_id node_id text attempt = object (
    field "run_id" (str run_id) (
      field "node_id" (str node_id)
        (field "error" (str text) (field "attempt" (int (pos attempt)) no_fields))))

module _ (message_of : EngineError → String) (at : ℕ → Ambient) where
  -- The body of `try`, for a context whose cancel event is there.
  unfoldable pub attempt : ℕ → Handler → WorkflowRun → WorkflowNode → EngineOp Unit
  attempt n handler run node = do
    raise_if_cancelled run.id
    result ← call handler (record { run_id = run.id; workflow_input = run.input; node = node })
    found ← require_run run.id
    state ← node_state found node.id
    saved ← save_run (at n) (
        with_state found node.id (record state {
          status = node_completed;
          progress = whole;
          result = result;
          completed_at = some (at n).now;
        }))
    publish (at n) Events.node_completed (payload_of run.id node.id "result" result) run.id

  -- except asyncio.CancelledError
  unfoldable pub note_cancelled : ℕ → String → WorkflowNode → EngineOp Unit
  note_cancelled n run_id node = do
    found ← require_run run_id
    state ← node_state found node.id
    saved ← save_run (at n) (
        with_state found node.id
          (record state { status = node_cancelled; error = some "cancelled" }))
    raise cancelled_error

  -- except Exception as exc, up to `continue` or `return`: the pause of `backoff_seconds` passes
  -- time only.
  unfoldable pub note_failure :
      ℕ → String → WorkflowNode → EngineError → EngineOp Unit → EngineOp Unit
  note_failure n run_id node exc again = do
    found ← require_run run_id
    old ← node_state found node.id
    let text = message_of exc
    let state : NodeState = record old { error = some text }
    if ltb state.attempts node.max_attempts
        then (do
          publish (at n) Events.node_retrying (retry_payload run_id node.id text state.attempts)
              run_id
          saved ← save_run (at n) (with_state found node.id state)
          saved ←
              save_run (at n)
                (with_state found node.id (record state { attempts = suc state.attempts }))
          again)
        else (do
          saved ← save_run (at n) (
              with_state found node.id
                (record state { status = node_failed; completed_at = some (at n).now }))
          publish (at n) Events.node_failed (payload_of run_id node.id "error" (str text)) run_id)

  abbrev pub on_exception : ℕ → String → WorkflowNode → EngineOp Unit → EngineError → EngineOp Unit
  on_exception n run_id node again cancelled_error = note_cancelled n run_id node
  on_exception n run_id node again e = note_failure n run_id node e again

  -- The `while` loop, a bounded number of times.
  unfoldable pub attempts_loop : ℕ → ℕ → Handler → WorkflowRun → WorkflowNode → EngineOp Unit
  attempts_loop zero n handler run node = raise loop_unfinished
  attempts_loop (suc fuel) n handler run node =
      let again = attempts_loop fuel (suc n) handler run node in
      (context_of run.id >> catch (attempt n handler run node) (on_exception n run.id node again))

  -- _execute_node(run_id, node_id): each turn of the loop but the last adds an attempt, so that
  -- one turn more than `max_attempts` is enough.
  unfoldable pub execute_node : Dict Handler → String → String → EngineOp Unit
  execute_node handlers run_id node_id = do
    run ← require_run run_id
    node ← node_of node_id run.definition.nodes
    handler ← handler_of handlers node.handler
    old ← node_state run node.id
    let state : NodeState = record old {
      status = node_running;
      attempts = suc old.attempts;
      started_at = some (elim old.started_at [ none ↦ (at 0).now | some t ↦ t ]);
      error = none;
    }
    let started = with_state run node.id state
    saved ← save_run (at 0) started
    publish (at 0) Events.node_started
        (payload_of run.id node.id "attempt" (int (pos state.attempts))) run.id
    attempts_loop (suc node.max_attempts) 0 handler started node
