-- ===== src/Workflow/RunSamples.antt =====
-- Small runs, tests, and the properties of running at them.
use dub_manga_studio.Common.{
  ℕ, String, ◌≡◌, ◌≤◌, refl, arith, false, true, Bool, none, some, Option, [], ◌∷◌, null, str, All,
}
use dub_manga_studio.Common.Exec.{ok, err, ◌>>◌}
use dub_manga_studio.Workflow.Batch.{IsGather}
use dub_manga_studio.Common.Dict.{Dict, lookup, values}
use dub_manga_studio.Workflow.Graph.{validate_graph}
use dub_manga_studio.Workflow.Engine.{
  WorkflowStatus, completed, failed, node_completed, WorkflowRun, Engine, EngineError,
  handler_raised, Ambient, new_state, is_completed, save_run,
}
use dub_manga_studio.Workflow.Execution.{
  Handler, raises, execute_node, attempts_loop, attempt, note_failure, note_cancelled, context_of,
  raise_if_cancelled, call, node_state, node_of, handler_of, with_state, register_handler,
}
use dub_manga_studio.Workflow.Runs.{
  Gather, resume_workflow, execute, execute_until_terminal, turn_of, run_ready, run_batch,
  finish_completed, first_failed, all_done, results_of, wait_if_paused, stop_if_cancelled,
  end_failed, end_cancelled, update_node_progress, count_completed, current_progress,
}
use dub_manga_studio.Workflow.Held.{Quiet}
use dub_manga_studio.Workflow.Nodes.{Executed, execute_node_lem}
use dub_manga_studio.Workflow.Proper.{count_pending}
use dub_manga_studio.Workflow.Resume.{HasHandler, Resumed, resume_workflow-Resumed}
use dub_manga_studio.Workflow.Created.{created-Proper, created_count, execute-Resumed}
use dub_manga_studio.Workflow.Samples.{at_time, node, pipeline, new_run, started, engine_program}

run_program : Unit {0}
unfolding engine_program values execute_node attempts_loop attempt note_failure note_cancelled
    context_of raise_if_cancelled call node_state node_of handler_of register_handler
    resume_workflow execute_until_terminal turn_of run_ready run_batch finish_completed first_failed
    all_done results_of wait_if_paused stop_if_cancelled end_failed end_cancelled
    update_node_progress count_completed current_progress count_pending
run_program = tt

abbrev text_of : EngineError → String
text_of (handler_raised text) = text
text_of _ = "engine"

abbrev clock : ℕ → ℕ → Ambient
clock turn n = at_time turn ""

abbrev answers : Handler
answers c t = (ok (str "done"), t)

abbrev breaks : Handler
breaks c t = (err (raises "no model"), t)

abbrev working : Dict Handler
working = ("h", answers) ∷ []

abbrev broken : Dict Handler
broken = ("h", breaks) ∷ []

-- One coroutine after another.
abbrev gather_all : Gather
gather_all [] s = (ok tt, s)
gather_all (m ∷ []) s = m s
gather_all (m ∷ n ∷ ms) s = (m >> gather_all (n ∷ ms)) s

gather_all-IsGather : IsGather gather_all
gather_all-IsGather m s = refl

few : pipeline.max_concurrency ≤ 1
few = omega arith

abbrev status_after : Dict Handler → Option WorkflowStatus
status_after handlers =
    elim (lookup "r"
        (resume_workflow text_of clock handlers gather_all 5 (at_time 2 "") "r" started).1.runs)
      as (λ _. Option WorkflowStatus) [ none ↦ none | some run ↦ some run.status ]

abbrev error_after : Dict Handler → Option String
error_after handlers =
    elim (lookup "r"
        (resume_workflow text_of clock handlers gather_all 5 (at_time 2 "") "r" started).1.runs)
      as (λ _. Option String) [ none ↦ none | some run ↦ run.error ]

resume_test :
    (status_after working ≡ some completed)
    × (status_after broken ≡ some failed)
    × (error_after broken ≡ some "no model")
    × (error_after [] ≡ some "engine")
unfolding run_program
resume_test = (refl, refl, refl, refl)

-- Two nodes of a batch that read the run before either writes it: the second write takes back what
-- the first one wrote.
abbrev finished : String → WorkflowRun
finished id = with_state new_run id (record (new_state id) { status = node_completed })

abbrev completed_after : Engine → String → Option Bool
completed_after t id = elim (lookup "r" t.runs) as (λ _. Option Bool) [
  | none ↦ none
  | some run ↦ elim (lookup id run.node_states) as (λ _. Option Bool) [
    | none ↦ none
    | some state ↦ some (is_completed state.status)
  ]
]

both_written : Engine
both_written =
    (save_run (at_time 3 "") (finished "adapt")
      (save_run (at_time 3 "") (finished "clean") started).1).1

lost_update_test :
    (completed_after both_written "clean" ≡ some false)
    × (completed_after both_written "adapt" ≡ some true)
unfolding run_program both_written
lost_update_test = (refl, refl)

answers-Quiet : Quiet answers
answers-Quiet c t = (refl, refl, refl)

started_known :
    (lookup "r" started.runs ≡ some new_run)
    × (lookup "h" working ≡ some answers)
    × (lookup "clean" new_run.node_states ≡ some (new_state "clean"))
    × (lookup "r" started.cancel_events ≡ some false)
    × ((order : _) × (validate_graph pipeline ≡ ok order))
unfolding run_program
started_known = (refl, refl, refl, refl, ("adapt" ∷ "clean" ∷ "tts" ∷ "mix" ∷ [], refl))

clean_found : (t : Engine) → node_of "clean" pipeline.nodes t ≡ (ok (node "clean" []), t)
unfolding run_program
clean_found t = refl

execute_node_lem_example :
    let done = execute_node text_of (clock 2) working "r" "clean" started in
    Executed started new_run (node "clean" []) answers 1 done.0 done.1
execute_node_lem_example =
    execute_node_lem text_of (clock 2) started new_run (node "clean" []) working answers
      (new_state "clean") false answers-Quiet started_known.0 clean_found started_known.1
      started_known.2 started_known.3

all_handled : All (HasHandler working) pipeline.nodes
all_handled =
    let handled : HasHandler working (node "" []) = (answers, started_known.1, answers-Quiet) in
    (handled, (handled, (handled, (handled, tt))))

execute-Resumed_example :
    let done =
      execute text_of clock working gather_all 5 (at_time 1 "r2") null pipeline null null started in
    Resumed "r2" done.0 done.1
execute-Resumed_example =
    execute-Resumed text_of clock working gather_all (at_time 1 "r2") started null null null
      pipeline started_known.4.0 gather_all-IsGather few started_known.4.1 all_handled

resume_workflow-Resumed_example :
    let done = resume_workflow text_of clock working gather_all 5 (at_time 2 "") "r" started in
    Resumed "r" done.0 done.1
resume_workflow-Resumed_example =
    resume_workflow-Resumed text_of clock working gather_all (at_time 2 "") started new_run
      started_known.4.0 4 gather_all-IsGather few started_known.0 refl started_known.4.1
      (created-Proper pipeline started_known.4.0 started_known.4.1) all_handled
      (created_count pipeline.nodes)
