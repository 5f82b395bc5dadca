-- ===== src/Jobs/Samples.antt =====
-- Small inputs, tests, and the properties at them.
use dub_manga_studio.Common.{
  ℕ, String, ◌≡◌, refl, true, false, pos, negsuc, Option, none, some, [], null, sort_by, leb_str,
  str_eq, if◌then◌else◌, keep, prefixed, arith, eq_iff,
}
use dub_manga_studio.Common.Exec.{Result, ok}
use dub_manga_studio.Common.Dict.{lookup, put, remove, values}
use dub_manga_studio.Events.{EventBus, publish_event, deliver, bounded}
use dub_manga_studio.Storage.Digest.{Digest}
use dub_manga_studio.Storage.Kv
use dub_manga_studio.Storage.Queue
use dub_manga_studio.Storage.Queue.{Message}
use dub_manga_studio.Jobs.{
  retries, of_job, failure_payload, create_job, complete_job, fail_job, pause_job, resume_job,
  cancel_job, retry_job, delete_job, start_job, claim_message, claim_loop, claim_next_job,
}
use dub_manga_studio.Jobs.Record.{JobStatus, queued, running, completed, Job}
use dub_manga_studio.Jobs.Store.{
  Scheduler, Ambient, Error, job_key, get_job, require_job, save_job, enqueue_job, ack_message,
  publish, queue_name,
}
use dub_manga_studio.Jobs.View.{job_at}
use dub_manga_studio.Jobs.Invariant.{Inv}
use dub_manga_studio.Jobs.Claim.{Claim, claim_next_job-Claim}
use dub_manga_studio.Jobs.Life.{failed_job, fail_job_lem, pause-resume, completed_stays}
use dub_manga_studio.Jobs.Missing.{missing_unchanged}
use dub_manga_studio.Jobs.Steps.{Step, Reach, start, next, empty, Reach-Inv}

-- A digest that gives the key itself.
abbrev pub plain : Digest
plain = record { hexdigest = λ s. s; injective = λ s t e. e }

abbrev pub at_time : ℕ → String → Ambient
at_time now id = record { now = now; new_id = id; message_id = id; event_id = id }

abbrev pub bus : EventBus
bus = record {
  handlers = λ _. [];
  history = [];
  max_history = 1_000;
  raise_handler_errors = false;
  calls = [];
}

-- A job of priority 0, then one of priority 5.
abbrev pub one_job : Scheduler
one_job = (create_job plain (at_time 1 "a") "dub" null (pos 0) (pos 2) null (empty bus)).1

abbrev pub two_jobs : Scheduler
two_jobs = (create_job plain (at_time 2 "b") "dub" null (pos 5) (negsuc 0) null one_job).1

program : Unit {0}
unfolding lookup put remove values sort_by leb_str keep prefixed publish_event deliver bounded
    Kv.set Kv.expiry Kv.get Kv.read_record Kv.is_expired Kv.delete Queue.enqueue Queue.load_messages
    Queue.files_in_order Queue.comes_before Queue.take_messages Queue.dequeue Queue.ack create_job
    complete_job fail_job pause_job resume_job cancel_job retry_job delete_job start_job
    claim_message claim_loop claim_next_job of_job failure_payload job_key get_job require_job
    save_job enqueue_job ack_message publish job_at empty
program = tt

abbrev status_of : Option Job → Option JobStatus
status_of none = none
status_of (some job) = some job.status

abbrev claimed_id : Result Error (Option Job) → Option String
claimed_id (ok (some job)) = some job.id
claimed_id _ = none

claim_order :
    (claimed_id (claim_next_job plain (at_time 3 "c") two_jobs).0 ≡ some "b")
    × (status_of (job_at plain "b" (claim_next_job plain (at_time 3 "c") two_jobs).1)
        ≡ some running)
    × (status_of (job_at plain "a" (claim_next_job plain (at_time 3 "c") two_jobs).1) ≡ some queued)
unfolding program
claim_order = (refl, refl, refl)

-- A paused job's message is skipped.
claim_paused :
    claimed_id
      (claim_next_job plain (at_time 4 "c") (pause_job plain (at_time 3 "c") "b" two_jobs).1).0
    ≡ some "a"
unfolding program
claim_paused = refl

one_job-Reach : Reach plain bus one_job
unfolding program
one_job-Reach =
    next start
      (Step.create (at_time 1 "a") "dub" null (pos 0) (pos 2) null refl (λ id m e. absurd (cc)))

two_jobs-Reach : Reach plain bus two_jobs
unfolding program
two_jobs-Reach = next one_job-Reach (
    Step.create (at_time 2 "b") "dub" null (pos 5) (negsuc 0) null refl
      (λ id m e f. ground (arith, eq_iff "a" "b", eq_iff "a" id)))

two_jobs-Inv : Inv plain two_jobs
two_jobs-Inv = Reach-Inv refl two_jobs-Reach

Reach-Inv_example : Inv plain two_jobs
Reach-Inv_example = Reach-Inv refl two_jobs-Reach

claim_next_job-Claim_example :
    Claim plain (at_time 3 "c") two_jobs (claim_next_job plain (at_time 3 "c") two_jobs)
claim_next_job-Claim_example = claim_next_job-Claim plain (at_time 3 "c") two_jobs two_jobs-Inv

no_job_c : job_at plain "c" two_jobs ≡ none
unfolding program
no_job_c = refl

missing_unchanged_example : (delete_job plain (at_time 3 "c") "c" two_jobs ≡ (ok false, two_jobs))
missing_unchanged_example =
    (missing_unchanged plain (at_time 3 "c") two_jobs "c" null "x" true two_jobs-Inv no_job_c).6

-- The job that `two_jobs` has under "b".
abbrev job_b : Job
job_b = record {
  id = "b";
  type = "dub";
  payload = null;
  priority = pos 5;
  status = queued;
  max_attempts = 1;
  attempts = 0;
  created_at = 2;
  updated_at = 2;
  started_at = none;
  completed_at = none;
  paused_at = none;
  cancelled_at = none;
  result = null;
  error = none;
  metadata = null;
}

job_b_found : job_at plain "b" two_jobs ≡ some job_b
unfolding program
job_b_found = refl

abbrev failed_b : Scheduler
failed_b = (fail_job plain (at_time 3 "c") "b" "no memory" true two_jobs).1

fail_job_lem_example :
    ((fail_job plain (at_time 3 "c") "b" "no memory" true two_jobs).0
      ≡ ok (failed_job (at_time 3 "c") "no memory" true job_b))
    × ((j : String)
        → job_at plain j failed_b ≡ (
            if str_eq "b" j
            then some (failed_job (at_time 3 "c") "no memory" true job_b)
            else job_at plain j two_jobs))
    × (failed_b.queue ≡ (
        if retries true job_b
        then Queue.enqueue "c" 3 queue_name (record { job_id = "b" }) (pos 5) two_jobs.queue
        else two_jobs.queue))
fail_job_lem_example =
    fail_job_lem plain (at_time 3 "c") two_jobs "b" "no memory" true job_b two_jobs-Inv job_b_found

abbrev resumed_b : Job
resumed_b = record job_b { status = queued; paused_at = none; updated_at = 4 }

abbrev b_again : Result Error Job × Scheduler
b_again = resume_job plain (at_time 4 "d") "b" (pause_job plain (at_time 3 "c") "b" two_jobs).1

pause-resume_example :
    (b_again.0 ≡ ok resumed_b)
    × ((j : String)
        → job_at plain j b_again.1
          ≡ (if str_eq "b" j then some resumed_b else job_at plain j two_jobs))
    × (b_again.1.queue
        ≡ Queue.enqueue "d" 4 queue_name (record { job_id = "b" }) (pos 5) two_jobs.queue)
pause-resume_example =
    pause-resume plain (at_time 3 "c") (at_time 4 "d") two_jobs "b" job_b two_jobs-Inv job_b_found
      refl

abbrev done_b : Scheduler
done_b = (complete_job plain (at_time 3 "c") "b" null two_jobs).1

done_b-Inv : Inv plain done_b
done_b-Inv = Reach-Inv refl (next two_jobs-Reach (Step.complete (at_time 3 "c") "b" null))

abbrev completed_b : Job
completed_b = record job_b { status = completed; updated_at = 3; completed_at = some 3 }

completed_b_found : job_at plain "b" done_b ≡ some completed_b
unfolding program
completed_b_found = refl

completed_stays_example :
    (pause_job plain (at_time 4 "d") "b" done_b ≡ (ok completed_b, done_b))
    × (resume_job plain (at_time 4 "d") "b" done_b ≡ (ok completed_b, done_b))
    × (cancel_job plain (at_time 4 "d") "b" done_b ≡ (ok completed_b, done_b))
    × (retry_job plain (at_time 4 "d") "b" done_b ≡ (ok completed_b, done_b))
completed_stays_example =
    completed_stays plain (at_time 4 "d") done_b "b" completed_b done_b-Inv completed_b_found refl
