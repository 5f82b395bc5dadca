-- ===== src/Workflow/Ending.antt =====
-- The turns of `_execute_until_terminal` end.
use dub_manga_studio.Common.{
  [], ℕ, zero, suc, ◌≤◌, String, ◌≡◌, refl, sym, ◌∙◌, ap, subst, Bool, true, false, ◌&&◌, none,
  some, List, ◌∷◌, ◌⊎◌, inl, inr, if◌then◌else◌, arith, All, All-of-Any, All-both, All-map,
  All-keep, Bool-cases, Option-cases,
}
use dub_manga_studio.Common.Exec.{Result, ok, err, and_then_rule}
use dub_manga_studio.Common.Dict.{Dict, lookup, values, lookup-put_self}
use dub_manga_studio.Common.Dict.Entries.{lookup-each}
use dub_manga_studio.Events
use dub_manga_studio.Workflow.Graph.{WorkflowNode}
use dub_manga_studio.Workflow.Engine.{
  completed, failed, node_completed as completed_node, NodeState, WorkflowRun, Engine, EngineError,
  cancelled_error, handler_error, Ambient, is_pending, ready_nodes, save_run, publish,
}
use dub_manga_studio.Workflow.Execution.{Handler}
use dub_manga_studio.Workflow.Runs.{
  Gather, wait_if_paused, stop_if_cancelled, first_failed, all_done, is_paused, failed_run,
  completed_run, run_batch, run_ready, finish_completed, turn_of, execute_until_terminal,
}
use dub_manga_studio.Workflow.Control.{require_run-some}
use dub_manga_studio.Workflow.Order.{Member, Sound}
use dub_manga_studio.Workflow.Ready.{HasState, status_is_lem, is_ready, ready_nodes_lem}
use dub_manga_studio.Workflow.Proper.{Proper, count_pending, count_pending-put_le, pending_ready}
use dub_manga_studio.Workflow.Batch.{IsGather, Stops, Runnable, Stored, Stage, After, run_batch_lem}
use dub_manga_studio.Workflow.Pending.{first_failed-none, some_pending, take-batch, keep-some}

wait-set :
    (id : String) (t : Engine)
    → lookup id t.pause_events ≡ some true
    → wait_if_paused id t ≡ (ok tt, t)
unfolding wait_if_paused
wait-set id t e = rw (wait_if_paused, e) refl

stop-set :
    (id : String) (t : Engine)
    → lookup id t.cancel_events ≡ some true
    → stop_if_cancelled id t ≡ (err cancelled_error, t)
unfolding stop_if_cancelled
stop-set id t e = rw e refl

stop-clear :
    (id : String) (t : Engine)
    → lookup id t.cancel_events ≡ some false
    → stop_if_cancelled id t ≡ (ok tt, t)
unfolding stop_if_cancelled
stop-clear id t e = rw e refl

and_left : (a b : Bool) → (a && b) ≡ true → a ≡ true
and_left a b e = ground (arith, e)

-- A stored run that has ended: all nodes are completed, or some node has failed.
abbrev pub HasEnded : String → Engine → Type 0
HasEnded id t =
    (run : WorkflowRun) × (lookup id t.runs ≡ some run)
    × (run.id ≡ id)
    × (((run.status ≡ completed) × (all_done (values run.node_states) ≡ true))
        ⊎ ((run.status ≡ failed)
            × ((state : NodeState) × (first_failed (values run.node_states) ≡ some state))))

-- How running a run to its end ends.
abbrev pub Ends : String → Result EngineError Unit → Engine → Type 0
Ends id (ok _) t = HasEnded id t
Ends id (err e) t = Stops id e t

Ends-publish :
    (id : String) (a : Ambient) (type : Events.EventType) (t : Engine) (p : _) (c : String)
    → HasEnded id t
    → Ends id (publish a type p c t).0 (publish a type p c t).1
unfolding publish
Ends-publish id a type t p c h = ends_either _ _ h
  where
    ends_either :
        (b : Bool) (u : Engine) → HasEnded id u → Ends id (if b then err handler_error else ok tt) u
    ends_either true u k = (inr refl, (k.0, k.1, k.2))
    ends_either false u k = k

module _ (message_of : EngineError → String) (clock : ℕ → ℕ → Ambient) (handlers : Dict Handler)
    (gather : Gather) (single : IsGather gather) (base : WorkflowRun) (order : List String)
    (deps : String → List String) (sound : Sound deps order)
    (members : All (λ (n : WorkflowNode). Member n.id order) base.definition.nodes)
    (same_deps : All (λ (n : WorkflowNode). deps n.id ≡ n.dependencies) base.definition.nodes)
    (runnable : All (Runnable message_of clock handlers base) base.definition.nodes)
    (going : is_paused base.status ≡ false) (one_node : base.definition.max_concurrency ≤ 1) where
  abbrev HasStates : Dict NodeState → WorkflowNode → Type 0
  HasStates states n = HasState states n.id × All (HasState states) n.dependencies

  abbrev KeptNode : Dict NodeState → WorkflowNode → Type 0
  KeptNode states n =
      (Runnable message_of clock handlers base n × HasStates states n) × (is_ready states n ≡ true)

  abbrev run_at : Dict NodeState → ℕ → WorkflowRun
  run_at states now = record base { node_states = states; updated_at = now }

  -- The ready nodes: the first of them is pending.
  abbrev FoundReady : Dict NodeState → ℕ → Type 0
  FoundReady states now =
      (n : WorkflowNode) × (rest : List WorkflowNode) × (ready_nodes (run_at states now)
        ≡ ok (n ∷ rest))
      × All (Runnable message_of clock handlers base) (n ∷ rest)
      × ((old : NodeState) × (lookup n.id states ≡ some old) × (is_pending old.status ≡ true))

  found_ready :
      (states : Dict NodeState) (now : ℕ)
      → Proper base.definition.nodes states
      → first_failed (values states) ≡ none
      → all_done (values states) ≡ false
      → FoundReady states now
  found_ready states now proper no_failed not_all =
      let nodes : List WorkflowNode = base.definition.nodes in
      let unfailed = first_failed-none states no_failed in
      let (e, facts, p) =
        All-of-Any states (All-both _ _ states proper.1 (lookup-each states proper.0)) (
          some_pending states
            (All-map (λ x h. (h.0.0, h.1)) states (All-both _ _ states proper.1 unfailed))
            not_all) in
      let (m, member, i) = All-of-Any nodes members facts.0.1 in
      let some_ready =
        pending_ready nodes deps same_deps states proper unfailed sound e.0
          (subst (λ j. Member j order) i member) (e.1, facts.1, p) in
      let (n, rest, kept) = keep-some (is_ready states) nodes some_ready in
      let all_kept =
        subst (λ (ns : List WorkflowNode). All (KeptNode states) ns) kept
          (All-keep (λ n. Runnable message_of clock handlers base n × HasStates states n)
            (is_ready states) nodes (All-both _ _ nodes runnable proper.2)) in
      let (old, known) = all_kept.0.0.1.0 in
      let pending : is_pending old.status ≡ true =
        sym (status_is_lem (λ x. is_pending x.status) states n.id old known)
        ∙ and_left _ _ all_kept.0.1 in
      (
        n,
        rest,
        ready_nodes_lem (run_at states now) proper.2 ∙ ap ok kept,
        All-map (λ x h. h.0.0) (n ∷ rest) all_kept,
        (old, known, pending),
      )

  -- A batch, and the turns after it, of which there are as many as nodes may be pending then.
  batch_Ends :
      (most turn : ℕ) (t : Engine) (states : Dict NodeState) (now : ℕ)
      → Stored message_of clock handlers base states now t
      → count_pending states ≤ most
      → (found : FoundReady states now)
      → ((m : ℕ) (u : Engine)
          → suc m ≡ most
          → Stage message_of clock handlers base m u
          → let later =
              execute_until_terminal message_of clock handlers gather most (suc turn) base.id u in
            Ends base.id later.0 later.1)
      → let done =
          run_ready message_of clock handlers gather turn base.id
            (run_at states now)
            (execute_until_terminal message_of clock handlers gather most (suc turn) base.id)
            (found.0 ∷ found.1)
            t in
        Ends base.id done.0 done.1
  unfolding run_ready
  batch_Ends zero turn t states now stored room (n, rest, _, _, (old, known, pending)) later =
      let less =
        count_pending-put_le n.id (record old { status = completed_node }) old states known refl in
      absurd (omega (arith, room, less.1 pending))
  batch_Ends (suc most) turn t states now stored room (n, rest, _, runs, (old, known, pending))
        later =
      let first = run_batch message_of clock handlers gather turn base.id (n ∷ []) t in
      let batch : After message_of clock handlers base most first.0 first.1 =
        run_batch_lem message_of clock handlers base gather turn most n states now t old single
          runs.0 stored known pending room in
      rw (take-batch n rest base.definition.max_concurrency one_node) (
        and_then_rule (Ends base.id) first.0 _ first.1
          (λ u p.
            later most first.1 refl
              (subst (λ r. After message_of clock handlers base most r first.1) p batch))
          (λ e p. subst (λ r. After message_of clock handlers base most r first.1) p batch))

  -- One turn, and those after it.
  turn_Ends :
      (most turn : ℕ) (t : Engine)
      → Stage message_of clock handlers base most t
      → ((m : ℕ) (u : Engine)
          → suc m ≡ most
          → Stage message_of clock handlers base m u
          → let later =
              execute_until_terminal message_of clock handlers gather most (suc turn) base.id u in
            Ends base.id later.0 later.1)
      → let done =
          execute_until_terminal message_of clock handlers gather (suc most) turn base.id t in
        Ends base.id done.0 done.1
  unfolding execute_until_terminal turn_of finish_completed save_run
  turn_Ends most turn t (states, now, (stored, proper, (b, event), pause), room) later =
      let here : WorkflowRun = run_at states now in
      let done_end : WorkflowRun = record (completed_run (clock turn 0) here) {
        updated_at = (clock turn 0).now;
      } in
      elim (Bool-cases b) [
        | inl set ↦
            rw (execute_until_terminal, turn_of, require_run-some base.id here t stored)
              (rw (wait-set base.id t pause)
                (rw (stop-set base.id t (event ∙ ap some set)) (inl refl, (here, stored, refl))))
        | inr clear ↦
            rw (execute_until_terminal, turn_of, require_run-some base.id here t stored)
              (rw (wait-set base.id t pause) (
                rw (stop-clear base.id t (event ∙ ap some clear)) (
                  rw going (elim (Option-cases (first_failed (values states))) [
                    | inr (x, f) ↦
                        let failed_end : WorkflowRun = record (failed_run (clock turn 0) here x) {
                          updated_at = (clock turn 0).now;
                        } in
                        rw f (
                          failed_end,
                          lookup-put_self base.id failed_end t.runs,
                          refl,
                          inr (refl, (x, f)),
                        )
                    | inl f ↦ rw f (elim (Bool-cases (all_done (values states))) [
                      | inl d ↦ rw d (
                          Ends-publish base.id (clock turn 0) Events.pipeline_completed _ _ base.id
                            (
                              done_end,
                              lookup-put_self base.id done_end t.runs,
                              refl,
                              inl (refl, d),
                            ))
                      | inr d ↦ rw d (
                          rw ((found_ready states now proper f d).2) (
                            batch_Ends most turn t states now (stored, proper, (b, event), pause)
                              room (found_ready states now proper f d) later))
                    ])
                  ]))))
      ]

  -- The turns end: with as many turns as there are pending nodes, and one more.
  pub execute_until_terminal-Ends :
      (most turn : ℕ) (t : Engine)
      → Stage message_of clock handlers base most t
      → let done =
          execute_until_terminal message_of clock handlers gather (suc most) turn base.id t in
        Ends base.id done.0 done.1
  execute_until_terminal-Ends zero turn t stage =
      turn_Ends zero turn t stage (λ m u e s. absurd (omega (arith, e)))
  execute_until_terminal-Ends (suc most) turn t stage =
      turn_Ends (suc most) turn t stage (λ m u e s.
        execute_until_terminal-Ends most (suc turn) u
          (subst (λ k. Stage message_of clock handlers base k u) (omega (arith, e)) s))
