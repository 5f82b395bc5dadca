-- ===== src/Jobs/Outcomes.antt =====
-- The outcome of each operation on a job that is stored, branch by branch: what it returns, and
-- the state as a composition of a save, an enqueue and an event.
use dub_manga_studio.Common.{
  String, ◌≡◌, Bool, true, false, none, some, Json, null, bool, int, str, ℤ, pos_part, max,
  no_fields, field,
}
use dub_manga_studio.Common.Exec.{Result, ok}
use dub_manga_studio.Events.{
  EventType, job_created, job_paused, job_resumed, job_completed, job_failed, job_cancelled,
}
use dub_manga_studio.Storage.Digest.{Digest}
use dub_manga_studio.Jobs.{
  of_job, failure_payload, retries, create_job, complete_job, fail_job, pause_job, resume_job,
  cancel_job, retry_job,
}
use dub_manga_studio.Jobs.Record.{
  queued, paused, completed, failed, cancelled, Job, is_paused, is_completed, is_terminal,
  is_retryable,
}
use dub_manga_studio.Jobs.Store.{Scheduler, Ambient, Error, save_job, enqueue_job, publish}
use dub_manga_studio.Jobs.View.{job_at, touched, require_some, publish_then}
use dub_manga_studio.Jobs.Invariant.{Inv}

module _ (digest : Digest) (a : Ambient) where
  -- The job is saved, and an event is published.
  abbrev pub noted : Job → EventType → Json → Scheduler → Scheduler
  noted job type payload s = (publish a type payload job.id (save_job digest a job s).1).1

  -- The job is saved, a message for it is put in the queue, and an event is published.
  abbrev pub requeued : Job → EventType → Json → Scheduler → Scheduler
  requeued job type payload s =
      (publish a type payload job.id
        (enqueue_job a (touched digest a job) (save_job digest a job s).1).1).1

  abbrev pub Returns : Job → Scheduler → Result Error Job × Scheduler
  Returns job s = (ok (touched digest a job), s)

  -- The job that `create_job` makes.
  abbrev pub new_job : String → Json → ℤ → ℤ → Json → Job
  new_job type payload priority max_attempts metadata = record {
    id = a.new_id;
    type = type;
    payload = payload;
    priority = priority;
    status = queued;
    max_attempts = max 1 (pos_part max_attempts);
    attempts = 0;
    created_at = a.now;
    updated_at = a.now;
    started_at = none;
    completed_at = none;
    paused_at = none;
    cancelled_at = none;
    result = null;
    error = none;
    metadata = metadata;
  }

  abbrev pub done_job : Json → Job → Job
  done_job result job = record job {
    status = completed;
    result = result;
    error = none;
    completed_at = some a.now;
  }

  abbrev pub retried_job : Job → Job
  retried_job job = record job {
    status = queued;
    error = none;
    cancelled_at = none;
    completed_at = none;
  }

  pub create_job_lem :
      (type : String) (payload : Json) (priority max_attempts : ℤ) (metadata : Json) (s : Scheduler)
      → s.bus.raise_handler_errors ≡ false
      → let job = new_job type payload priority max_attempts metadata in
        create_job digest a type payload priority max_attempts metadata s
        ≡ Returns job (
            requeued job job_created
              (of_job job.id (field "type" (str type) (field "priority" (int priority) no_fields)))
              s)
  unfolding create_job save_job enqueue_job
  create_job_lem type payload priority max_attempts metadata s h =
      publish_then a job_created _ _ _ _ h

module _ (digest : Digest) (a : Ambient) {s : Scheduler} (inv : Inv digest s) (id : String)
    {job : Job} (found : job_at digest id s ≡ some job) where
  pub complete_job_lem :
      (result : Json)
      → complete_job digest a id result s
        ≡ Returns digest a (done_job digest a result job) (
            noted digest a
              (done_job digest a result job)
              job_completed
              (of_job job.id (field "result" result no_fields))
              s)
  unfolding complete_job save_job
  complete_job_lem result =
      rw (require_some digest a id s inv.persistent found, complete_job)
        (publish_then a job_completed _ _ _ _ inv.isolated)

  pub fail_job_again :
      (error : String) (retry : Bool)
      → retries retry job ≡ true
      → let again = record job { error = some error; status = queued } in
        fail_job digest a id error retry s
        ≡ Returns digest a again
            (requeued digest a again job_failed (failure_payload job.id error true) s)
  unfolding fail_job save_job enqueue_job
  fail_job_again error retry t =
      rw (require_some digest a id s inv.persistent found, fail_job)
        (rw t (publish_then a job_failed _ _ _ _ inv.isolated))

  pub fail_job_ends :
      (error : String) (retry : Bool)
      → retries retry job ≡ false
      → let over = record job { error = some error; status = failed } in
        fail_job digest a id error retry s
        ≡ Returns digest a over
            (noted digest a over job_failed (failure_payload job.id error false) s)
  unfolding fail_job save_job
  fail_job_ends error retry t =
      rw (require_some digest a id s inv.persistent found, fail_job)
        (rw t (publish_then a job_failed _ _ _ _ inv.isolated))

  pub pause_job_terminal : is_terminal job.status ≡ true → pause_job digest a id s ≡ (ok job, s)
  unfolding pause_job
  pause_job_terminal t = rw (require_some digest a id s inv.persistent found, pause_job) (rw t)

  pub pause_job_lem :
      is_terminal job.status ≡ false
      → let held = record job { status = paused; paused_at = some a.now } in
        pause_job digest a id s
        ≡ Returns digest a held (noted digest a held job_paused (of_job job.id no_fields) s)
  unfolding pause_job save_job
  pause_job_lem t =
      rw (require_some digest a id s inv.persistent found, pause_job)
        (rw t (publish_then a job_paused _ _ _ _ inv.isolated))

  pub resume_job_other : is_paused job.status ≡ false → resume_job digest a id s ≡ (ok job, s)
  unfolding resume_job
  resume_job_other t = rw (require_some digest a id s inv.persistent found, resume_job) (rw t)

  pub resume_job_lem :
      is_paused job.status ≡ true
      → let again = record job { status = queued; paused_at = none } in
        resume_job digest a id s
        ≡ Returns digest a again (requeued digest a again job_resumed (of_job job.id no_fields) s)
  unfolding resume_job save_job enqueue_job
  resume_job_lem t =
      rw (require_some digest a id s inv.persistent found, resume_job)
        (rw t (publish_then a job_resumed _ _ _ _ inv.isolated))

  pub cancel_job_completed : is_completed job.status ≡ true → cancel_job digest a id s ≡ (ok job, s)
  unfolding cancel_job
  cancel_job_completed t = rw (require_some digest a id s inv.persistent found, cancel_job) (rw t)

  pub cancel_job_lem :
      is_completed job.status ≡ false
      → let gone = record job { status = cancelled; cancelled_at = some a.now } in
        cancel_job digest a id s
        ≡ Returns digest a gone (noted digest a gone job_cancelled (of_job job.id no_fields) s)
  unfolding cancel_job save_job
  cancel_job_lem t =
      rw (require_some digest a id s inv.persistent found, cancel_job)
        (rw t (publish_then a job_cancelled _ _ _ _ inv.isolated))

  pub retry_job_other : is_retryable job.status ≡ false → retry_job digest a id s ≡ (ok job, s)
  unfolding retry_job
  retry_job_other t = rw (require_some digest a id s inv.persistent found, retry_job) (rw t)

  pub retry_job_lem :
      is_retryable job.status ≡ true
      → retry_job digest a id s
        ≡ Returns digest a (retried_job digest a job) (
            requeued digest a
              (retried_job digest a job)
              job_resumed
              (of_job job.id (field "retry" (bool true) no_fields))
              s)
  unfolding retry_job save_job enqueue_job
  retry_job_lem t =
      rw (require_some digest a id s inv.persistent found, retry_job)
        (rw t (publish_then a job_resumed _ _ _ _ inv.isolated))
