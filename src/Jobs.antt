-- ===== src/Jobs.antt =====
-- src/chatterbox_manga_studio/services/job_scheduler.py: the job queue and the life of a job.
-- An operation is modelled from its call to its return, with no other operation between.
pub mod Record
pub mod Store
pub mod View
pub mod Outcomes
pub mod Invariant
pub mod Preserved
pub mod Skip
pub mod Claim
pub mod Delete
pub mod Steps
pub mod Missing
pub mod Life
mod Samples
use dub_manga_studio.Common.{
  ℕ, zero, suc, ◌+◌, max, String, Bool, true, false, ◌&&◌, not, ℤ, pos, pos_part, Option, none,
  some, List, [], ◌∷◌, map, ltb, leb, length, take, keep, sort_by, if◌then◌else◌, Json, null, bool,
  int, str, object, Fields, no_fields, field, has_prefix,
}
use dub_manga_studio.Common.Exec.{Result, ok, err, Exec, pure, raise, ◌>>=◌, ◌>>◌}
use dub_manga_studio.Events.{
  EventType, job_created, job_started, job_paused, job_resumed, job_completed, job_failed,
  job_cancelled,
}
use dub_manga_studio.Storage.Digest.{Digest}
use dub_manga_studio.Storage.Kv
use dub_manga_studio.Storage.Queue
use Record.{
  JobStatus, queued, running, paused, completed, failed, cancelled, Job, is_queued, is_paused,
  is_cancelled, is_completed, is_terminal, is_retryable, same_status,
}
use Store.{
  Scheduler, Ambient, Error, Op, key_error, loop_unfinished, job_key, queue_name, get_job,
  require_job, save_job, enqueue_job, ack_message, publish,
}

-- The payloads of the events.
unfoldable pub of_job : String → Fields → Json
of_job id rest = object (field "job_id" (str id) rest)

unfoldable pub failure_payload : String → String → Bool → Json
unfolding of_job
failure_payload id error retrying =
    of_job id (field "error" (str error) (field "retrying" (bool retrying) no_fields))

-- `retry and job.attempts < job.max_attempts and job.status != CANCELLED`
abbrev pub retries : Bool → Job → Bool
retries retry job = retry && ltb job.attempts job.max_attempts && not (is_cancelled job.status)

module _ (digest : Digest) (a : Ambient) where
  -- create_job(job_type, payload, priority=, max_attempts=, metadata=)
  unfoldable pub create_job : String → Json → ℤ → ℤ → Json → Op Job
  create_job type payload priority max_attempts metadata = do
    let job : Job = record {
      id = a.new_id;
      type = type;
      payload = payload;
      priority = priority;
      status = queued;
      max_attempts = max 1 (pos_part max_attempts);
      attempts = 0;
      created_at = a.now;
      updated_at = a.now;
      started_at = none;
      completed_at = none;
      paused_at = none;
      cancelled_at = none;
      result = null;
      error = none;
      metadata = metadata;
    }
    saved ← save_job digest a job
    enqueue_job a saved
    publish a job_created
        (of_job saved.id
          (field "type" (str saved.type) (field "priority" (int saved.priority) no_fields)))
        saved.id
    pure saved

  -- complete_job(job_id, result)
  unfoldable pub complete_job : String → Json → Op Job
  complete_job id result = do
    job ← require_job digest a id
    saved ← save_job digest a (record job {
      status = completed;
      result = result;
      error = none;
      completed_at = some a.now;
    })
    publish a job_completed (of_job saved.id (field "result" result no_fields)) saved.id
    pure saved

  -- fail_job(job_id, error, retry=)
  unfoldable pub fail_job : String → String → Bool → Op Job
  fail_job id error retry = do
    job ← require_job digest a id
    if retries retry job
        then (do
          saved ← save_job digest a (record job { error = some error; status = queued })
          enqueue_job a saved
          publish a job_failed (failure_payload saved.id error true) saved.id
          pure saved)
        else do
          saved ← save_job digest a (record job { error = some error; status = failed })
          publish a job_failed (failure_payload saved.id error false) saved.id
          pure saved

  -- pause_job(job_id)
  unfoldable pub pause_job : String → Op Job
  pause_job id = do
    job ← require_job digest a id
    if is_terminal job.status then pure job else do
      saved ← save_job digest a (record job { status = paused; paused_at = some a.now })
      publish a job_paused (of_job saved.id no_fields) saved.id
      pure saved

  -- resume_job(job_id)
  unfoldable pub resume_job : String → Op Job
  resume_job id = do
    job ← require_job digest a id
    if not (is_paused job.status) then pure job else do
      saved ← save_job digest a (record job { status = queued; paused_at = none })
      enqueue_job a saved
      publish a job_resumed (of_job saved.id no_fields) saved.id
      pure saved

  -- cancel_job(job_id)
  unfoldable pub cancel_job : String → Op Job
  cancel_job id = do
    job ← require_job digest a id
    if is_completed job.status then pure job else do
      saved ← save_job digest a (record job { status = cancelled; cancelled_at = some a.now })
      publish a job_cancelled (of_job saved.id no_fields) saved.id
      pure saved

  -- retry_job(job_id)
  unfoldable pub retry_job : String → Op Job
  retry_job id = do
    job ← require_job digest a id
    if not (is_retryable job.status) then pure job else do
      saved ←
          save_job digest a
            (record job { status = queued; error = none; cancelled_at = none; completed_at = none })
      enqueue_job a saved
      publish a job_resumed (of_job saved.id (field "retry" (bool true) no_fields)) saved.id
      pure saved

  -- delete_job(job_id)
  unfoldable pub delete_job : String → Op Bool
  delete_job id s =
      let (deleted, kv') = Kv.delete digest (job_key id) s.kv in
      let s' : Scheduler = record s { kv = kv' } in
      (if deleted
          then (do
            publish a job_cancelled (of_job id (field "deleted" (bool true) no_fields)) id
            pure true)
          else pure false)
        s'

  -- What `claim_next_job` does with a queued job once its message is at hand.
  unfoldable pub start_job : String → Job → Op (Option Job)
  start_job message_id job = do
    saved ←
        save_job digest a
          (record job { status = running; attempts = job.attempts + 1; started_at = some a.now })
    ack_message message_id
    publish a job_started (of_job saved.id (field "attempts" (int (pos saved.attempts)) no_fields))
        saved.id
    pure (some saved)

  -- The body of the `while True` loop, with what the loop does next on `continue`.
  unfoldable pub claim_message : Op (Option Job) → String → String → Op (Option Job)
  claim_message again message_id job_id = do
    found ← get_job digest a job_id
    elim found [
      | none ↦ ack_message message_id >> again
      | some job ↦
          if is_queued job.status
          then start_job message_id job
          else (ack_message message_id >> again)
    ]

  -- The loop of `claim_next_job`, a bounded number of times.
  unfoldable pub claim_loop : ℕ → Op (Option Job)
  claim_loop zero = raise loop_unfinished
  claim_loop (suc fuel) = λ s.
      let again = claim_loop fuel in
      let (messages, queue') = Queue.dequeue a.now queue_name 1 s.queue in
      let s' : Scheduler = record s { queue = queue' } in
      elim messages [
        | [] ↦ (ok none, s')
        | (message_id, ticket) ∷ _ ↦ claim_message again message_id ticket.job_id s'
      ]

  -- claim_next_job(): each round takes a message away, so that one more round than there are
  -- messages is enough.
  unfoldable pub claim_next_job : Op (Option Job)
  claim_next_job s = claim_loop (suc (length s.queue.queued)) s

  -- The loop of `list_jobs` over the keys.
  unfoldable pub read_jobs : Option JobStatus → List String → Op (List Job)
  read_jobs status [] = pure []
  read_jobs status (key ∷ keys) = λ s.
      let (found, kv') = Kv.get digest a.now key s.kv in
      (do
        rest ← read_jobs status keys
        pure (elim found [
          | none ↦ rest
          | some job ↦ elim status [
            | none ↦ job ∷ rest
            | some t ↦ if same_status job.status t then job ∷ rest else rest
          ]
        ]))
        (record s { kv = kv' })

  -- list_jobs(status=, limit=), newest first
  unfoldable pub list_jobs : Option JobStatus → ℕ → Op (List Job)
  list_jobs status limit s =
      let (keys, kv') = Kv.keys digest a.now (has_prefix "jobs:") s.kv in
      let s' : Scheduler = record s { kv = kv' } in
      (do
        jobs ← read_jobs status keys
        pure (take limit (sort_by (λ (i j : Job). leb j.created_at i.created_at) jobs)))
        s'

  unfoldable pub count_status : JobStatus → List Job → ℕ
  count_status status jobs = length (keep (λ (j : Job). same_status j.status status) jobs)

  -- counts_by_status()
  unfoldable pub counts_by_status : Op (List (JobStatus × ℕ))
  counts_by_status = do
    jobs ← list_jobs none 10_000
    pure (
        map (λ (t : JobStatus). (t, count_status t jobs))
          (queued ∷ running ∷ paused ∷ completed ∷ failed ∷ cancelled ∷ []))
