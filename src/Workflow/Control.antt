-- ===== src/Workflow/Control.antt =====
-- Pausing and cancelling a run, and its checkpoints.
use dub_manga_studio.Common.{
  String, ◌≡◌, refl, sym, ◌∙◌, Bool, true, false, none, some, Json, str_eq, subst,
}
use dub_manga_studio.Common.Exec.{ok, err, and_then_keeps}
use dub_manga_studio.Common.Dict.{Dict, lookup, put, lookup-put, lookup-put_self}
use dub_manga_studio.Events.{EventType, workflow_paused, workflow_cancelled}
use dub_manga_studio.Workflow.Engine.{
  paused, cancelled, WorkflowRun, Engine, key_error, Ambient, publish, save_run, get_run,
  require_run, is_running, of_run, pause_workflow, cancel_workflow,
}

-- The run under `id` is `run`, and every other run is as it was in `s`.
abbrev pub OnlyRun : Engine → String → WorkflowRun → Engine → Type 0
OnlyRun s id run t =
    (lookup id t.runs ≡ some run)
    × ((j : String) → str_eq id j ≡ false → lookup j t.runs ≡ lookup j s.runs)

pub require_run-some :
    (id : String) (run : WorkflowRun) (s : Engine)
    → lookup id s.runs ≡ some run
    → require_run id s ≡ (ok run, s)
unfolding require_run get_run
require_run-some id run s e = rw e refl

require_run-none :
    (id : String) (s : Engine) → lookup id s.runs ≡ none → require_run id s ≡ (err key_error, s)
unfolding require_run get_run
require_run-none id s e = rw e refl

pub put-OnlyRun :
    (s : Engine) (id : String) (run : WorkflowRun) (cancels pauses : Dict Bool)
    → run.id ≡ id
    → OnlyRun s id run
        (record s { runs = put run.id run s.runs; cancel_events = cancels; pause_events = pauses })
put-OnlyRun s id run cancels pauses e = (
  subst (λ k. lookup k (put run.id run s.runs) ≡ some run) e (lookup-put_self run.id run s.runs),
  λ j t.
      let other : str_eq run.id j ≡ false = subst (λ k. str_eq k j ≡ false) (sym e) t in
      lookup-put run.id j run s.runs ∙ rw other refl,
)

pub publish-OnlyRun :
    (s t : Engine) (id : String) (run : WorkflowRun) (a : Ambient) (type : EventType)
    (payload : Json)
    → OnlyRun s id run t
    → OnlyRun s id run (publish a type payload id t).1
unfolding publish
publish-OnlyRun s t id run a type payload h = h

publish-cancel_events :
    (t : Engine) (id : String) (a : Ambient) (type : EventType) (payload : Json)
    → (publish a type payload id t).1.cancel_events ≡ t.cancel_events
unfolding publish
publish-cancel_events t id a type payload = refl

-- A run that is stored under its id. Cancelling marks it cancelled, with the time, and sets its
-- cancel event, whatever its status. Pausing it while it runs marks it paused, and otherwise
-- changes nothing. No other run changes. For an id under which no run is stored both raise and
-- change nothing.
pub control_lem :
    (a : Ambient) (s : Engine) (id other : String) (run : WorkflowRun)
    → run.id ≡ id
    → lookup id s.runs ≡ some run
    → lookup other s.runs ≡ none
    → OnlyRun s id
        (record run { status = cancelled; completed_at = some a.now; updated_at = a.now })
        (cancel_workflow a id s).1
      × (lookup id (cancel_workflow a id s).1.cancel_events ≡ some true)
      × (is_running run.status ≡ true
          → OnlyRun s id
              (record run { status = paused; updated_at = a.now })
              (pause_workflow a id s).1)
      × (is_running run.status ≡ false → pause_workflow a id s ≡ (ok run, s))
      × (cancel_workflow a other s ≡ (err key_error, s))
      × (pause_workflow a other s ≡ (err key_error, s))
unfolding cancel_workflow pause_workflow save_run
control_lem a s id other run named found missing =
    let P : Engine → Type 0 = λ t.
      OnlyRun s id
        (record run { status = cancelled; completed_at = some a.now; updated_at = a.now }) t
      × (lookup id t.cancel_events ≡ some true) in
    let cancelled_run : WorkflowRun = record run {
      status = cancelled;
      completed_at = some a.now;
      updated_at = a.now;
    } in
    let paused_run : WorkflowRun = record run { status = paused; updated_at = a.now } in
    let t : Engine = record s {
      runs = put run.id cancelled_run s.runs;
      cancel_events = put id true s.cancel_events;
    } in
    let u : Engine = record s {
      runs = put run.id paused_run s.runs;
      pause_events = put id false s.pause_events;
    } in
    let told : P (publish a workflow_cancelled (of_run id) id t).1 = (
      publish-OnlyRun s t id cancelled_run a workflow_cancelled (of_run id)
          (put-OnlyRun s id cancelled_run (put id true s.cancel_events) s.pause_events named),
      (rw (publish-cancel_events t id a workflow_cancelled (of_run id))
          (lookup-put_self id true s.cancel_events)),
    ) in
    let held =
      publish-OnlyRun s u id paused_run a workflow_paused (of_run id)
        (put-OnlyRun s id paused_run s.cancel_events (put id false s.pause_events) named) in
    let cancelled_state : P (cancel_workflow a id s).1 =
      rw (cancel_workflow, require_run-some id run s found)
        (and_then_keeps P (publish a workflow_cancelled (of_run id) id t).0 _ _ told (λ _. told)) in
    (
      cancelled_state.0,
      cancelled_state.1,
      (λ e.
          rw (pause_workflow, require_run-some id run s found)
            (rw e (
              and_then_keeps (OnlyRun s id paused_run)
                (publish a workflow_paused (of_run id) id u).0 _ _ held (λ _. held)))),
      (λ e. rw (pause_workflow, require_run-some id run s found) (rw e refl)),
      rw (cancel_workflow, require_run-none other s missing) refl,
      rw (pause_workflow, require_run-none other s missing) refl,
    )
