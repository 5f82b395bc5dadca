-- ===== src/Workflow/Held.antt =====
-- One stored run among the others, through the writes that a node's execution makes.
use dub_manga_studio.Common.{
  ℕ, String, ◌≡◌, refl, ◌∙◌, ap, Bool, true, false, if◌then◌else◌, some, Json, str_eq, subst,
}
use dub_manga_studio.Common.Exec.{Result, ok, err}
use dub_manga_studio.Common.Dict.{Dict, lookup, put, lookup-put, lookup-put_self, put-put}
use dub_manga_studio.Events.{EventType}
use dub_manga_studio.Workflow.Engine.{
  NodeState, WorkflowRun, Engine, EngineError, handler_error, Ambient, publish, save_run,
  require_run,
}
use dub_manga_studio.Workflow.Execution.{Handler, context_of, node_state, with_state}
use dub_manga_studio.Workflow.Control.{OnlyRun, require_run-some}

-- The run is stored under its id, every other run is as in `s`, and so are the events that cancel
-- and pause.
abbrev pub Held : Engine → WorkflowRun → Engine → Type 0
Held s run t =
    OnlyRun s run.id run t × (t.cancel_events ≡ s.cancel_events) × (t.pause_events ≡ s.pause_events)

-- A run whose state of one node is `state`.
abbrev pub node_run : WorkflowRun → String → NodeState → ℕ → WorkflowRun
node_run run id state now = record run {
  node_states = put id state run.node_states;
  updated_at = now;
}

-- A handler that leaves the runs and the events that cancel and pause alone. It may use the
-- checkpoints and the bus.
abbrev pub Quiet : Handler → Type 0
Quiet handler =
    (c : _) (t : Engine)
    → ((handler c t).1.runs ≡ t.runs)
      × ((handler c t).1.cancel_events ≡ t.cancel_events)
      × ((handler c t).1.pause_events ≡ t.pause_events)

module _ (s : Engine) (run : WorkflowRun) where
  pub publish-Held :
      (t : Engine) (a : Ambient) (type : EventType) (payload : Json) (id : String)
      → Held s run t
      → Held s run (publish a type payload id t).1
  unfolding publish
  publish-Held t a type payload id h = h

  pub save_run-Held :
      (t : Engine) (a : Ambient) (run' : WorkflowRun)
      → run'.id ≡ run.id
      → Held s run t
      → Held s (record run' { updated_at = a.now }) (save_run a run' t).1
  unfolding save_run
  save_run-Held t a run' same h = (
    (
      lookup-put_self run'.id (record run' { updated_at = a.now }) t.runs,
      (λ j other.
          lookup-put run'.id j (record run' { updated_at = a.now }) t.runs
          ∙ (rw other (h.0.1 j (subst (λ k. str_eq k j ≡ false) same other)))),
    ),
    h.1,
    h.2,
  )

  pub handler-Held :
      (handler : Handler) (c : _) (t : Engine)
      → Quiet handler
      → Held s run t
      → Held s run (handler c t).1
  handler-Held handler c t quiet h =
      let q = quiet c t in
      (
        (ap (lookup run.id) q.0 ∙ h.0.0, (λ j other. ap (lookup j) q.0 ∙ h.0.1 j other)),
        q.1 ∙ h.1,
        q.2 ∙ h.2,
      )

  -- A run that is held is found.
  pub require_run-Held : (t : Engine) → Held s run t → require_run run.id t ≡ (ok run, t)
  require_run-Held t h = require_run-some run.id run t h.0.0

-- The state that was put is found.
pub node_state-put :
    (run : WorkflowRun) (id : String) (state : NodeState) (now : ℕ) (t : Engine)
    → node_state (node_run run id state now) id t ≡ (ok state, t)
unfolding node_state
node_state-put run id state now t = rw (lookup-put_self id state run.node_states) refl

-- Writing the state of the node again, into a run that was read earlier.
pub save_run-node_run :
    (s t : Engine) (run : WorkflowRun) (id : String) (old new last : NodeState) (now stored : ℕ)
    (a : Ambient)
    → Held s (node_run run id last stored) t
    → Held s
        (node_run run id new a.now)
        (save_run a (with_state (node_run run id old now) id new) t).1
save_run-node_run s t run id old new last now stored a h =
    subst
      (λ (states : Dict NodeState).
        Held s (record run { node_states = states; updated_at = a.now })
          (save_run a (with_state (node_run run id old now) id new) t).1)
      (put-put id new old run.node_states)
      (save_run-Held s (node_run run id last stored) t a
        (with_state (node_run run id old now) id new) refl h)

-- The cancel event of a run is there.
pub context_of-some :
    (id : String) (b : Bool) (t : Engine)
    → lookup id t.cancel_events ≡ some b
    → context_of id t ≡ (ok tt, t)
unfolding context_of
context_of-some id b t e = rw e refl

error_of :
    (b : Bool) (r : Result EngineError Unit) (e : EngineError)
    → r ≡ (if b then err handler_error else ok tt)
    → r ≡ err e
    → e ≡ handler_error
error_of true r e q p = cc
error_of false r e q p = absurd (cc)

-- Publishing raises what a subscriber raised.
pub publish-error :
    (a : Ambient) (type : EventType) (payload : Json) (id : String) (t : Engine) (e : EngineError)
    → (publish a type payload id t).0 ≡ err e
    → e ≡ handler_error
unfolding publish
publish-error a type payload id t e p = error_of _ _ e refl p
