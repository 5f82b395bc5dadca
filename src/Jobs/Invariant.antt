-- ===== src/Jobs/Invariant.antt =====
-- What holds of the scheduler between two operations.
use dub_manga_studio.Common.{String, ◌≡◌, true, false, some, str_eq}
use dub_manga_studio.Common.Dict.{lookup}
use dub_manga_studio.Storage.Digest.{Digest}
use dub_manga_studio.Storage.Queue.{Message, Queue}
use dub_manga_studio.Storage.Queue.Messages.{IsQueue}
use dub_manga_studio.Jobs.Record.{queued, Job}
use dub_manga_studio.Jobs.Store.{Scheduler, Ticket, queue_name}
use dub_manga_studio.Jobs.View.{job_at, IsPersistent}

-- A message for the job waits in the queue, at the job's priority.
pub record HasMessage (job : Job) (q : Queue Ticket) : Type 0 where
  pub id : String
  pub message : Message Ticket
  pub waits : lookup id q.queued ≡ some message
  pub in_queue : str_eq message.queue queue_name ≡ true
  pub for_job : message.payload.job_id ≡ job.id
  pub at_priority : message.priority ≡ job.priority

-- Every message for the job that waits in the queue has the job's priority.
abbrev pub IsPriced : Job → Queue Ticket → Type 0
IsPriced job q =
    (id : String) (message : Message Ticket)
    → lookup id q.queued ≡ some message
    → str_eq message.queue queue_name ≡ true
    → message.payload.job_id ≡ job.id
    → message.priority ≡ job.priority

pub record Inv (digest : Digest) (s : Scheduler) : Type 0 where
  pub persistent : IsPersistent digest s.kv
  pub files : IsQueue s.queue
  pub isolated : s.bus.raise_handler_errors ≡ false
  pub identified : (id : String) (job : Job) → job_at digest id s ≡ some job → job.id ≡ id
  -- No queued job is without a message.
  pub waiting :
      (id : String) (job : Job)
      → job_at digest id s ≡ some job
      → job.status ≡ queued
      → HasMessage job s.queue
  pub priced : (id : String) (job : Job) → job_at digest id s ≡ some job → IsPriced job s.queue
