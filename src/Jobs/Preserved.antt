-- ===== src/Jobs/Preserved.antt =====
-- The invariant holds after a save, an enqueue, an event and a deletion.
use dub_manga_studio.Common.{
  String, ◌≡◌, refl, sym, ap, subst, ◌∙◌, false, none, some, arith, Json, str_eq, eq_iff,
  if◌then◌else◌, Bool-cases, inl, inr,
}
use dub_manga_studio.Common.Dict.{lookup, lookup-put, lookup-put_self}
use dub_manga_studio.Common.Dict.Entries.{Every-put}
use dub_manga_studio.Events.{EventType, publish_event}
use dub_manga_studio.Storage.Digest.{Digest}
use dub_manga_studio.Storage.Kv
use dub_manga_studio.Storage.Kv.{Record}
use dub_manga_studio.Storage.Queue
use dub_manga_studio.Storage.Queue.{Message, Queue}
use dub_manga_studio.Storage.Queue.Messages.{enqueue-IsQueue}
use dub_manga_studio.Jobs.Record.{queued, is_queued, Job}
use dub_manga_studio.Jobs.Store.{
  Scheduler, Ticket, Ambient, queue_name, save_job, enqueue_job, publish,
}
use dub_manga_studio.Jobs.View.{job_at, job_at-save, IsPersistent, touched}
use dub_manga_studio.Jobs.Invariant.{HasMessage, IsPriced, Inv}
use dub_manga_studio.Jobs.Outcomes.{noted, requeued}

module _ (digest : Digest) (a : Ambient) (job : Job) (type : EventType) (payload : Json)
    (s : Scheduler) where
  pub job_at-noted :
      (j : String)
      → job_at digest j (noted digest a job type payload s)
        ≡ (if str_eq job.id j then some (touched digest a job) else job_at digest j s)
  unfolding job_at publish
  job_at-noted j = job_at-save digest a job j s

  pub job_at-requeued :
      (j : String)
      → job_at digest j (requeued digest a job type payload s)
        ≡ (if str_eq job.id j then some (touched digest a job) else job_at digest j s)
  unfolding job_at publish enqueue_job
  job_at-requeued j = job_at-save digest a job j s

  saved-IsPersistent : IsPersistent digest s.kv → IsPersistent digest (save_job digest a job s).1.kv
  unfolding save_job Kv.set Kv.expiry
  saved-IsPersistent h =
      Every-put (λ (e : String × Record Job). e.1.expires_at ≡ none) _ _ s.kv refl h

  -- A message that waits for a job still waits behind a new one.
  HasMessage-enqueue :
      (j : Job)
      → lookup a.message_id s.queue.queued ≡ none
      → HasMessage j s.queue
      → HasMessage j (enqueue_job a job s).1.queue
  unfolding enqueue_job Queue.enqueue
  HasMessage-enqueue j fresh h = record {
    id = h.id;
    message = h.message;
    waits =
        rw (lookup-put a.message_id h.id _ s.queue.queued)
          (ground (arith, eq_iff a.message_id h.id, h.waits));
    in_queue = h.in_queue;
    for_job = h.for_job;
    at_priority = h.at_priority;
  }

  -- The message that `enqueue_job` puts in the queue.
  HasMessage-new : HasMessage job (enqueue_job a job s).1.queue
  unfolding enqueue_job Queue.enqueue
  HasMessage-new = record {
    id = a.message_id;
    message =
        Queue.new_message a.message_id a.now queue_name (record { job_id = job.id }) job.priority;
    waits = lookup-put_self a.message_id _ s.queue.queued;
    in_queue = refl;
    for_job = refl;
    at_priority = refl;
  }

  -- A new message keeps a job's messages at its priority, if it is for another job or has it.
  IsPriced-enqueue :
      (k : Job)
      → (job.id ≡ k.id → job.priority ≡ k.priority)
      → IsPriced k s.queue
      → IsPriced k (enqueue_job a job s).1.queue
  unfolding enqueue_job Queue.enqueue
  IsPriced-enqueue k same price id m e t f =
      let e' = rw (lookup-put a.message_id id _ s.queue.queued) at e in
      elim (Bool-cases (str_eq a.message_id id)) [
        | inl b ↦ ground (arith, same)
        | inr b ↦ price id m (rw b at e') t f
      ]

module _ (digest : Digest) (a : Ambient) (job : Job) (type : EventType) (payload : Json)
    {s : Scheduler} (inv : Inv digest s) where
  later_id :
      (j : String) (k : Job)
      → (if str_eq job.id j then some (touched digest a job) else job_at digest j s) ≡ some k
      → k.id ≡ j
  later_id j k e = elim (Bool-cases (str_eq job.id j)) [
    | inl t ↦
        let same : job.id ≡ j = (eq_iff job.id j).0 t in
        let stored : touched digest a job ≡ k = ground arith in
        ap (λ (x : Job). x.id) (sym stored) ∙ same
    | inr t ↦ inv.identified j k (rw t at e)
  ]

  later_message :
      (q : Queue Ticket) (j : String) (k : Job)
      → (job.status ≡ queued → HasMessage (touched digest a job) q)
      → ((k : Job) → HasMessage k s.queue → HasMessage k q)
      → (if str_eq job.id j then some (touched digest a job) else job_at digest j s) ≡ some k
      → k.status ≡ queued
      → HasMessage k q
  later_message q j k new old e w = elim (Bool-cases (str_eq job.id j)) [
    | inl t ↦
        let stored : touched digest a job ≡ k = ground arith in
        subst (λ (x : Job). HasMessage x q) stored (new (ground arith))
    | inr t ↦ old k (inv.waiting j k (rw t at e) w)
  ]

  later_price :
      (q : Queue Ticket) (j : String) (k : Job)
      → IsPriced (touched digest a job) q
      → (k.id ≡ j → str_eq job.id j ≡ false → IsPriced k s.queue → IsPriced k q)
      → (if str_eq job.id j then some (touched digest a job) else job_at digest j s) ≡ some k
      → IsPriced k q
  later_price q j k new old e = elim (Bool-cases (str_eq job.id j)) [
    | inl t ↦
        let stored : touched digest a job ≡ k = ground arith in
        subst (λ (x : Job). IsPriced x q) stored new
    | inr t ↦
        let there : job_at digest j s ≡ some k = rw t at e in
        old (inv.identified j k there) t (inv.priced j k there)
  ]

  -- A job that is not queued is saved.
  pub noted-Inv :
      is_queued job.status ≡ false
      → IsPriced job s.queue
      → Inv digest (noted digest a job type payload s)
  unfolding publish publish_event save_job
  noted-Inv other price = record {
    persistent = saved-IsPersistent digest a job type payload s inv.persistent;
    files = inv.files;
    isolated = inv.isolated;
    identified = λ j k e. later_id j k (rw (job_at-noted digest a job type payload s j) at e);
    waiting = λ j k e w.
        later_message s.queue j k (λ q. absurd (ground arith)) (λ k h. h)
          (rw (job_at-noted digest a job type payload s j) at e) w;
    priced = λ j k e.
        later_price s.queue j k price (λ _ _ p. p)
          (rw (job_at-noted digest a job type payload s j) at e);
  }

  -- A job is saved, and a message with a new id is put in the queue for it.
  pub requeued-Inv :
      lookup a.message_id s.queue.queued ≡ none
      → IsPriced job s.queue
      → Inv digest (requeued digest a job type payload s)
  unfolding publish publish_event save_job enqueue_job
  requeued-Inv fresh price = record {
    persistent = saved-IsPersistent digest a job type payload s inv.persistent;
    files = enqueue-IsQueue _ _ _ _ _ s.queue inv.files;
    isolated = inv.isolated;
    identified = λ j k e. later_id j k (rw (job_at-requeued digest a job type payload s j) at e);
    waiting = λ j k e w.
        later_message (enqueue_job a (touched digest a job) s).1.queue j k
          (λ q. HasMessage-new digest a (touched digest a job) type payload s)
          (λ k h. HasMessage-enqueue digest a (touched digest a job) type payload s k fresh h)
          (rw (job_at-requeued digest a job type payload s j) at e) w;
    priced = λ j k e.
        later_price (enqueue_job a (touched digest a job) s).1.queue j k
          (IsPriced-enqueue digest a (touched digest a job) type payload s (touched digest a job)
            (λ _. refl) price)
          (λ same other p.
            IsPriced-enqueue digest a (touched digest a job) type payload s k
              (λ here. absurd (ground (arith, eq_iff job.id j))) p)
          (rw (job_at-requeued digest a job type payload s j) at e);
  }
