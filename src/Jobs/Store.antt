-- ===== src/Jobs/Store.antt =====
-- What the job scheduler does to its storage and its event bus: `_job_key`, `_save_job`,
-- `get_job`, `require_job`, and the queue and bus calls of the operations.
use dub_manga_studio.Common.{ℕ, String, Option, none, some, Json, prefixed, if◌then◌else◌}
use dub_manga_studio.Common.Exec.{ok, err, Exec, pure, raise, ◌>>=◌}
use dub_manga_studio.Events.{EventType, Event, EventBus, publish_event}
use dub_manga_studio.Storage.Digest.{Digest}
use dub_manga_studio.Storage.Kv
use dub_manga_studio.Storage.Kv.{Files}
use dub_manga_studio.Storage.Queue
use dub_manga_studio.Storage.Queue.{Queue}
use dub_manga_studio.Jobs.Record.{Job}

-- The queue payload {"job_id": ...}.
pub record Ticket : Type 0 where
  pub job_id : String

pub record Scheduler : Type 0 where
  pub kv : Files Job
  pub queue : Queue Ticket
  pub bus : EventBus

-- What one call reads from outside: the clock, and new uuid4 texts.
pub record Ambient : Type 0 where
  pub now : ℕ
  pub new_id : String
  pub message_id : String
  pub event_id : String

pub data Error : Type 0 where
  key_error : String → Error
  handler_error loop_unfinished : Error

abbrev pub Op : Type 0 → Type 0
Op A = Exec Scheduler Error A

abbrev pub queue_name : String
queue_name = "jobs"

-- _job_key(job_id)
unfoldable pub job_key : String → String
unfolding prefixed
job_key id = prefixed "jobs:" id

module _ (digest : Digest) (a : Ambient) where
  -- get_job(job_id)
  unfoldable pub get_job : String → Op (Option Job)
  get_job id s =
      let (found, kv') = Kv.get digest a.now (job_key id) s.kv in (ok found, record s { kv = kv' })

  -- require_job(job_id)
  unfoldable pub require_job : String → Op Job
  require_job id = do
    found ← get_job id
    elim found [ none ↦ raise (key_error id) | some job ↦ pure job ]

  -- _save_job(job), with `touch`
  unfoldable pub save_job : Job → Op Job
  save_job job s =
      let touched = record job { updated_at = a.now } in
      (ok touched, record s { kv = Kv.set digest a.now (job_key job.id) touched none s.kv })

-- storage.enqueue(QUEUE_NAME, {"job_id": job.id}, priority=job.priority)
unfoldable pub enqueue_job : Ambient → Job → Op (Unit {0})
enqueue_job a job s = (
  ok tt,
  record s {
    queue =
        Queue.enqueue a.message_id a.now queue_name (record { job_id = job.id }) job.priority
          s.queue;
  },
)

-- storage.ack_queue(QUEUE_NAME, message_id)
unfoldable pub ack_message : String → Op (Unit {0})
ack_message id s = (ok tt, record s { queue = (Queue.ack id s.queue).1 })

-- event_bus.publish(type, source="JobScheduler", payload=..., correlation_id=...)
unfoldable pub publish : Ambient → EventType → Json → String → Op (Unit {0})
publish a type payload correlation_id s =
    let event : Event = record {
      id = a.event_id;
      type = type;
      source = "JobScheduler";
      payload = payload;
      correlation_id = some correlation_id;
      created_at = a.now;
    } in
    let (bus', raised) = publish_event event s.bus in
    (if raised then err handler_error else ok tt, record s { bus = bus' })
