-- ===== src/Jobs/Life.antt =====
-- What single operations do to a job that is stored, and two of them in a row.
use dub_manga_studio.Common.{
  String, ◌≡◌, ◌∙◌, refl, Bool, true, false, none, some, str_eq, eq_refl, if◌then◌else◌, Bool-cases,
  inl, inr, no_fields,
}
use dub_manga_studio.Common.Exec.{ok}
use dub_manga_studio.Events.{job_failed, job_paused, job_resumed}
use dub_manga_studio.Storage.Digest.{Digest}
use dub_manga_studio.Storage.Queue
use dub_manga_studio.Jobs.{
  of_job, failure_payload, retries, fail_job, pause_job, resume_job, cancel_job, retry_job,
}
use dub_manga_studio.Jobs.Record.{queued, paused, completed, failed, is_terminal, Job}
use dub_manga_studio.Jobs.Store.{Scheduler, Ambient, queue_name, save_job, enqueue_job, publish}
use dub_manga_studio.Jobs.View.{job_at, touched}
use dub_manga_studio.Jobs.Invariant.{Inv}
use dub_manga_studio.Jobs.Outcomes.{
  noted, fail_job_again, fail_job_ends, pause_job_terminal, pause_job_lem, resume_job_other,
  resume_job_lem, cancel_job_completed, retry_job_other,
}
use dub_manga_studio.Jobs.Preserved.{job_at-noted, job_at-requeued, noted-Inv}

-- The job that `fail_job` stores.
abbrev pub failed_job : Ambient → String → Bool → Job → Job
failed_job a error again job = record job {
  error = some error;
  status = if retries again job then queued else failed;
  updated_at = a.now;
}

module _ (digest : Digest) (a : Ambient) (s : Scheduler) (id error : String) (again : Bool)
    (job : Job) (inv : Inv digest s) (found : job_at digest id s ≡ some job) where
  -- For a state that satisfies the invariant, which says that the bus isolates the errors of its
  -- handlers: a failed job is stored with its error, and is returned. If a retry is asked for,
  -- attempts are left and the job is not cancelled, it is queued again and one message with its id
  -- and priority is put in the queue; otherwise it is marked failed and the queue stays as it is. No
  -- other job changes.
  pub fail_job_lem :
      let after = (fail_job digest a id error again s).1 in
      ((fail_job digest a id error again s).0 ≡ ok (failed_job a error again job))
      × ((j : String)
          → job_at digest j after
            ≡ (if str_eq id j then some (failed_job a error again job) else job_at digest j s))
      × (after.queue ≡ (
          if retries again job
          then Queue.enqueue a.message_id a.now queue_name
              (record { job_id = id })
              job.priority
              s.queue
          else s.queue))
  unfolding publish save_job enqueue_job
  fail_job_lem = elim (Bool-cases (retries again job)) [
    | inl t ↦ rw (fail_job_again digest a inv id found error again t) (
        rw t (
          refl,
          (λ j. rw (← inv.identified id job found) (
              job_at-requeued digest a (record job { error = some error; status = queued })
                job_failed (failure_payload job.id error true) s j)),
          rw (inv.identified id job found),
        ))
    | inr t ↦ rw (fail_job_ends digest a inv id found error again t) (
        rw t (
          refl,
          (λ j. rw (← inv.identified id job found) (
              job_at-noted digest a (record job { error = some error; status = failed }) job_failed
                (failure_payload job.id error false) s j)),
          refl,
        ))
  ]

-- Of two values that are stored under one key the last one counts.
overwritten :
    {A : Type 0} (b : Bool) (x y z w : A)
    → w ≡ (if b then y else z)
    → (if b then x else w) ≡ (if b then x else z)
overwritten true x y z w e = refl
overwritten false x y z w e = e

-- The job that `pause_job` stores.
abbrev pub paused_job : Ambient → Job → Job
paused_job a job = record job { status = paused; paused_at = some a.now }

module _ (digest : Digest) (a b : Ambient) (s : Scheduler) (id : String) (job : Job)
    (inv : Inv digest s) (found : job_at digest id s ≡ some job)
    (open_job : is_terminal job.status ≡ false) where
  paused_state : Scheduler
  paused_state = noted digest a (paused_job a job) job_paused (of_job job.id no_fields) s

  paused-Inv : Inv digest paused_state
  unfolding paused_state
  paused-Inv =
      noted-Inv digest a (paused_job a job) job_paused (of_job job.id no_fields) inv refl
        (inv.priced id job found)

  paused_found : job_at digest id paused_state ≡ some (touched digest a (paused_job a job))
  unfolding paused_state
  paused_found = rw (
    job_at-noted digest a (paused_job a job) job_paused (of_job job.id no_fields) s id,
    inv.identified id job found,
    eq_refl id,
  )

  -- For a state that satisfies the invariant, which says that the bus isolates the errors of its
  -- handlers: a job that is not completed, failed or cancelled, paused and then resumed, is stored
  -- and returned as queued, with every other field as it was but the time of the last change and
  -- `paused_at`, which is none. One message with its id and priority is put in the queue, and no other
  -- job changes.
  pub pause-resume :
      let done = resume_job digest b id (pause_job digest a id s).1 in
      let again = record job { status = queued; paused_at = none; updated_at = b.now } in
      (done.0 ≡ ok again)
      × ((j : String)
          → job_at digest j done.1 ≡ (if str_eq id j then some again else job_at digest j s))
      × (done.1.queue
          ≡ Queue.enqueue b.message_id b.now queue_name
              (record { job_id = id })
              job.priority
              s.queue)
  unfolding paused_state publish save_job enqueue_job
  pause-resume = rw (pause_job_lem digest a inv id found open_job) (
      rw (resume_job_lem digest b paused-Inv id paused_found refl) (
        refl,
        (λ j. rw (← inv.identified id job found) (
            job_at-requeued digest b
              (record (touched digest a (paused_job a job)) { status = queued; paused_at = none })
              job_resumed (of_job job.id no_fields) paused_state j
            ∙ overwritten (str_eq job.id j) _ (some (touched digest a (paused_job a job)))
                (job_at digest j s) _
                (job_at-noted digest a (paused_job a job) job_paused (of_job job.id no_fields) s
                  j))),
        rw (inv.identified id job found),
      ))

-- Pausing, resuming, cancelling and retrying a completed job return it and change nothing.
pub completed_stays :
    (digest : Digest) (a : Ambient) (s : Scheduler) (id : String) (job : Job)
    → Inv digest s
    → job_at digest id s ≡ some job
    → job.status ≡ completed
    → (pause_job digest a id s ≡ (ok job, s))
      × (resume_job digest a id s ≡ (ok job, s))
      × (cancel_job digest a id s ≡ (ok job, s))
      × (retry_job digest a id s ≡ (ok job, s))
completed_stays digest a s id job inv found e = (
  pause_job_terminal digest a inv id found (rw e),
  resume_job_other digest a inv id found (rw e),
  cancel_job_completed digest a inv id found (rw e),
  retry_job_other digest a inv id found (rw e),
)
