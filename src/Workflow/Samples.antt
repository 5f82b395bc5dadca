-- ===== src/Workflow/Samples.antt =====
-- Small inputs, tests, and the properties at them.
use dub_manga_studio.Common.{
  ℕ, String, ◌≡◌, refl, true, false, none, some, [], ◌∷◌, List, null, str, keep, sort_by, leb_str,
  prefixed, All, ◌⊎◌, Any,
}
use dub_manga_studio.Common.Exec.{Result, ok, err}
use dub_manga_studio.Common.Dict.{lookup, put, remove}
use dub_manga_studio.Workflow.Graph.{
  WorkflowNode, WorkflowDefinition, duplicate_ids, unknown_dependencies, has_cycle, contains,
  has_duplicates, ids, pending_of, discard, discard_all, free_ids, ready_ids, place_each,
  order_loop, topological_order, first_unknown, validate_graph,
}
use dub_manga_studio.Events.{EventBus, publish_event, deliver, bounded}
use dub_manga_studio.Workflow.Engine.{
  running, paused, cancelled, WorkflowRun, Engine, EngineError, key_error, Ambient, publish,
  new_state, states_of, save_run, get_run, require_run, create_run, is_running, pause_workflow,
  cancel_workflow, checkpoint_key, save_checkpoint, load_checkpoint, all_completed, ready_from,
  ready_nodes,
}
use dub_manga_studio.Workflow.Ready.{HasState, is_ready, ready_nodes_lem}
use dub_manga_studio.Workflow.Control.{OnlyRun, control_lem}
use dub_manga_studio.Workflow.Order.{Member, Sound}
use dub_manga_studio.Workflow.Cycle.{Repeats, HasUnknown}
use dub_manga_studio.Workflow.Validation.{deps_of, HasNoOrder, validate_graph_lem}

unfoldable pub program : Unit {0}
unfolding keep sort_by leb_str lookup put remove contains has_duplicates pending_of discard
    discard_all free_ids ready_ids place_each order_loop topological_order first_unknown
    validate_graph
program = tt

abbrev pub node : String → List String → WorkflowNode
node id dependencies = record {
  id = id;
  handler = "h";
  dependencies = dependencies;
  max_attempts = 1;
  backoff = 0;
  timeout = none;
  payload = null;
}

abbrev workflow : List WorkflowNode → WorkflowDefinition
workflow nodes = record {
  id = "w";
  name = "dub";
  nodes = nodes;
  max_concurrency = 1;
  metadata = null;
}

abbrev pub pipeline : WorkflowDefinition
pipeline = workflow (
    node "mix" ("tts" ∷ "clean" ∷ [])
    ∷ node "tts" ("adapt" ∷ [])
    ∷ node "clean" []
    ∷ node "adapt" []
    ∷ [])

order_test :
    (validate_graph pipeline ≡ ok ("adapt" ∷ "clean" ∷ "tts" ∷ "mix" ∷ []))
    × (validate_graph (workflow (node "a" ("b" ∷ []) ∷ node "b" ("a" ∷ []) ∷ [])) ≡ err has_cycle)
    × (validate_graph (workflow (node "a" ("c" ∷ []) ∷ [])) ≡ err (unknown_dependencies "a"))
    × (validate_graph (workflow (node "a" [] ∷ node "a" [] ∷ [])) ≡ err duplicate_ids)
unfolding program
order_test = (refl, refl, refl, refl)

validate_graph_lem_example :
    ((order : List String) × (validate_graph pipeline ≡ ok order)
      × (Repeats (ids pipeline.nodes) → ⊥)
      × Sound (deps_of pipeline.nodes) order
      × All (λ n. Member n.id order) pipeline.nodes
      × All (λ n. deps_of pipeline.nodes n.id ≡ n.dependencies) pipeline.nodes)
    ⊎ (((validate_graph pipeline ≡ err duplicate_ids) × Repeats (ids pipeline.nodes))
        ⊎ ((id : String) × (validate_graph pipeline ≡ err (unknown_dependencies id))
            × Any
                (λ n. (n.id ≡ id) × HasUnknown (ids pipeline.nodes) n.dependencies)
                pipeline.nodes)
        ⊎ ((validate_graph pipeline ≡ err has_cycle)
            × (Repeats (ids pipeline.nodes) → ⊥)
            × All (λ n. deps_of pipeline.nodes n.id ≡ n.dependencies) pipeline.nodes
            × HasNoOrder pipeline.nodes))
validate_graph_lem_example = validate_graph_lem pipeline

abbrev bus : EventBus
bus = record {
  handlers = λ _. [];
  history = [];
  max_history = 100;
  raise_handler_errors = false;
  calls = [];
}

abbrev pub at_time : ℕ → String → Ambient
at_time now id = record { now = now; new_id = id; event_id = "e" }

abbrev fresh : Engine
fresh =
    (create_run (at_time 1 "r") null pipeline null null
      (record { bus = bus; runs = []; checkpoints = []; cancel_events = []; pause_events = [] })).1

abbrev pub new_run : WorkflowRun
new_run = record {
  id = "r";
  definition = pipeline;
  status = running;
  input = null;
  output = null;
  node_states = states_of pipeline.nodes [];
  progress = 0;
  created_at = 1;
  updated_at = 1;
  started_at = some 1;
  completed_at = none;
  error = none;
  metadata = null;
}

abbrev pub started : Engine
started = (save_run (at_time 1 "") new_run fresh).1

unfoldable pub engine_program : Unit {0}
unfolding program create_run save_run states_of get_run require_run publish publish_event deliver
    bounded all_completed ready_from ready_nodes pause_workflow cancel_workflow checkpoint_key
    save_checkpoint load_checkpoint prefixed
engine_program = tt

abbrev names : Result EngineError (List WorkflowNode) → List String
names (ok ns) = ids ns
names (err _) = []

ready_test : names (ready_nodes new_run) ≡ "clean" ∷ "adapt" ∷ []
unfolding engine_program
ready_test = refl

checkpoint_test :
    (load_checkpoint "r" "tts" (save_checkpoint "r" "tts" (str "half") started).1).0
    ≡ ok (some (str "half"))
unfolding engine_program
checkpoint_test = refl

new_run-HasState :
    All
      (λ n. HasState new_run.node_states n.id × All (HasState new_run.node_states) n.dependencies)
      new_run.definition.nodes
unfolding engine_program
new_run-HasState = (
  ((new_state "mix", refl), ((new_state "tts", refl), ((new_state "clean", refl), tt))),
  (
    ((new_state "tts", refl), ((new_state "adapt", refl), tt)),
    (((new_state "clean", refl), tt), (((new_state "adapt", refl), tt), tt)),
  ),
)

ready_nodes_lem_example :
    ready_nodes new_run ≡ ok (keep (is_ready new_run.node_states) new_run.definition.nodes)
ready_nodes_lem_example = ready_nodes_lem new_run new_run-HasState

started_found : (lookup "r" started.runs ≡ some new_run) × (lookup "q" started.runs ≡ none)
unfolding engine_program
started_found = (refl, refl)

control_lem_example :
    OnlyRun started "r"
      (record new_run { status = cancelled; completed_at = some 2; updated_at = 2 })
      (cancel_workflow (at_time 2 "") "r" started).1
    × (lookup "r" (cancel_workflow (at_time 2 "") "r" started).1.cancel_events ≡ some true)
    × (is_running new_run.status ≡ true
        → OnlyRun started "r"
            (record new_run { status = paused; updated_at = 2 })
            (pause_workflow (at_time 2 "") "r" started).1)
    × (is_running new_run.status ≡ false
        → pause_workflow (at_time 2 "") "r" started ≡ (ok new_run, started))
    × (cancel_workflow (at_time 2 "") "q" started ≡ (err key_error, started))
    × (pause_workflow (at_time 2 "") "q" started ≡ (err key_error, started))
control_lem_example =
    control_lem (at_time 2 "") started "r" "q" new_run refl started_found.0 started_found.1
