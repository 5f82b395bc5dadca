-- ===== src/Workflow/Engine.antt =====
-- WorkflowRun and the operations of WorkflowEngine on a stored run. The key-value store is a
-- dictionary of runs by their id and one of checkpoints by their key; neither expires.
use dub_manga_studio.Common.{
  ℕ, String, Bool, true, false, Option, none, some, List, [], ◌∷◌, if◌then◌else◌, prefixed, Json,
  null, str, object, no_fields, field,
}
use dub_manga_studio.Common.Exec.{Result, ok, err, Exec, pure, raise, ◌>>=◌, ◌>>◌}
use dub_manga_studio.Common.Dict.{Dict, lookup, put}
use dub_manga_studio.Events.{
  EventType, workflow_paused, workflow_cancelled, Event, EventBus, publish_event,
}
use dub_manga_studio.Workflow.Graph.{WorkflowNode, WorkflowDefinition}

pub data WorkflowStatus : Type 0 where
  queued running paused completed failed cancelled : WorkflowStatus

pub data NodeStatus : Type 0 where
  node_pending node_running node_completed node_failed node_skipped node_cancelled : NodeStatus

pub record NodeState : Type 0 where
  pub id : String
  pub status : NodeStatus
  pub attempts : ℕ
  pub progress : ℕ
  pub started_at : Option ℕ
  pub completed_at : Option ℕ
  pub error : Option String
  pub result : Json

pub record WorkflowRun : Type 0 where
  pub id : String
  pub definition : WorkflowDefinition
  pub status : WorkflowStatus
  pub input : Json
  pub output : Json
  pub node_states : Dict NodeState
  pub progress : ℕ
  pub created_at : ℕ
  pub updated_at : ℕ
  pub started_at : Option ℕ
  pub completed_at : Option ℕ
  pub error : Option String
  pub metadata : Json

-- An asyncio.Event is whether it is set.
pub record Engine : Type 0 where
  pub bus : EventBus
  pub runs : Dict WorkflowRun
  pub checkpoints : Dict Json
  pub cancel_events : Dict Bool
  pub pause_events : Dict Bool

pub data EngineError : Type 0 where
  key_error handler_error stop_iteration cancelled_error : EngineError
  handler_raised : String → EngineError
  blocked loop_unfinished : EngineError

-- `blocked` is a coroutine that waits for another one, `loop_unfinished` one that still runs.
abbrev pub EngineOp : Type 0 → Type 0
EngineOp A = Exec Engine EngineError A

-- What one call reads from outside.
pub record Ambient : Type 0 where
  pub now : ℕ
  pub new_id : String
  pub event_id : String

-- event_bus.publish(type, source="WorkflowEngine", payload=..., correlation_id=...)
unfoldable pub publish : Ambient → EventType → Json → String → EngineOp Unit
publish a type payload correlation_id s =
    let event : Event = record {
      id = a.event_id;
      type = type;
      source = "WorkflowEngine";
      payload = payload;
      correlation_id = some correlation_id;
      created_at = a.now;
    } in
    let (bus', raised) = publish_event event s.bus in
    (if raised then err handler_error else ok tt, record s { bus = bus' })

-- NodeState(id=node.id)
abbrev pub new_state : String → NodeState
new_state id = record {
  id = id;
  status = node_pending;
  attempts = 0;
  progress = 0;
  started_at = none;
  completed_at = none;
  error = none;
  result = null;
}

-- {node.id: NodeState(id=node.id) for node in definition.nodes}
unfoldable pub states_of : List WorkflowNode → Dict NodeState → Dict NodeState
states_of [] acc = acc
states_of (n ∷ ns) acc = states_of ns (put n.id (new_state n.id) acc)

-- _save_run(run), with `touch`
unfoldable pub save_run : Ambient → WorkflowRun → EngineOp WorkflowRun
save_run a run s =
    let touched : WorkflowRun = record run { updated_at = a.now } in
    (ok touched, record s { runs = put run.id touched s.runs })

-- get_run(run_id)
unfoldable pub get_run : String → EngineOp (Option WorkflowRun)
get_run id s = (ok (lookup id s.runs), s)

-- require_run(run_id)
unfoldable pub require_run : String → EngineOp WorkflowRun
require_run id = do found ← get_run id; elim found [ none ↦ raise key_error | some run ↦ pure run ]

-- create_run(definition, workflow_input, metadata=), where `empty` is the default of `output`
unfoldable pub create_run : Ambient → Json → WorkflowDefinition → Json → Json → EngineOp WorkflowRun
create_run a empty definition input metadata = do
  let run : WorkflowRun = record {
    id = a.new_id;
    definition = definition;
    status = queued;
    input = input;
    output = empty;
    node_states = states_of definition.nodes [];
    progress = 0;
    created_at = a.now;
    updated_at = a.now;
    started_at = none;
    completed_at = none;
    error = none;
    metadata = metadata;
  }
  saved ← save_run a run
  λ s. (
    ok saved,
    record s {
      cancel_events = put saved.id false s.cancel_events;
      pause_events = put saved.id true s.pause_events;
    },
  )

abbrev pub is_running : WorkflowStatus → Bool
is_running running = true
is_running _ = false

abbrev pub of_run : String → Json
of_run id = object (field "run_id" (str id) no_fields)

-- pause_workflow(run_id)
unfoldable pub pause_workflow : Ambient → String → EngineOp WorkflowRun
pause_workflow a id = do
  run ← require_run id
  if is_running run.status
      then (do
        (λ s. (ok tt, record s { pause_events = put id false s.pause_events }))
        saved ← save_run a (record run { status = paused })
        publish a workflow_paused (of_run id) id
        pure saved)
      else pure run

-- cancel_workflow(run_id)
unfoldable pub cancel_workflow : Ambient → String → EngineOp WorkflowRun
cancel_workflow a id = do
  run ← require_run id
  (λ s. (ok tt, record s { cancel_events = put id true s.cancel_events }))
  saved ← save_run a (record run { status = cancelled; completed_at = some a.now })
  publish a workflow_cancelled (of_run id) id
  pure saved

-- _checkpoint_key(run_id, node_id)
unfoldable pub checkpoint_key : String → String → String
checkpoint_key run_id node_id =
    prefixed "workflow:checkpoints:" (prefixed run_id (prefixed ":" node_id))

-- save_checkpoint(run_id, node_id, data)
unfoldable pub save_checkpoint : String → String → Json → EngineOp Unit
save_checkpoint run_id node_id value s =
    (ok tt, record s { checkpoints = put (checkpoint_key run_id node_id) value s.checkpoints })

-- load_checkpoint(run_id, node_id)
unfoldable pub load_checkpoint : String → String → EngineOp (Option Json)
load_checkpoint run_id node_id s = (ok (lookup (checkpoint_key run_id node_id) s.checkpoints), s)

abbrev pub is_pending : NodeStatus → Bool
is_pending node_pending = true
is_pending _ = false

abbrev pub is_completed : NodeStatus → Bool
is_completed node_completed = true
is_completed _ = false

-- all(run.node_states[dep].status == COMPLETED for dep in dependencies), which stops at the first
-- that is not; a state that is not there raises.
unfoldable pub all_completed : Dict NodeState → List String → Result EngineError Bool
all_completed states [] = ok true
all_completed states (d ∷ ds) =
    let rest = all_completed states ds in
    elim (lookup d states) as (λ _. Result EngineError Bool) [
      | none ↦ err key_error
      | some state ↦ if is_completed state.status then rest else ok false
    ]

abbrev pub add_ready :
    WorkflowNode
    → Bool
    → Result EngineError (List WorkflowNode)
    → Result EngineError (List WorkflowNode)
add_ready n true (ok ready) = ok (n ∷ ready)
add_ready n false (ok ready) = ok ready
add_ready n _ (err e) = err e

-- The loop of `_ready_nodes`. The node that is looked up by its id is the node itself, as no id
-- stands twice.
unfoldable pub ready_from :
    Dict NodeState → List WorkflowNode → Result EngineError (List WorkflowNode)
ready_from states [] = ok []
ready_from states (n ∷ ns) =
    let rest = ready_from states ns in
    elim (lookup n.id states) as (λ _. Result EngineError (List WorkflowNode)) [
      | none ↦ err key_error
      | some state ↦
          if is_pending state.status
          then elim (all_completed states n.dependencies)
              as (λ _. Result EngineError (List WorkflowNode)) [
                | err e ↦ err e
                | ok ready ↦ add_ready n ready rest
              ]
          else rest
    ]

-- _ready_nodes(run)
unfoldable pub ready_nodes : WorkflowRun → Result EngineError (List WorkflowNode)
ready_nodes run = ready_from run.node_states run.definition.nodes
