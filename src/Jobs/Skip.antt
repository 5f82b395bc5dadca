-- ===== src/Jobs/Skip.antt =====
-- `claim_next_job` takes a message away whose job is not queued.
use dub_manga_studio.Common.{
  ◌<◌, ◌≤◌, String, ◌≡◌, subst, false, some, arith, str_eq, eq_iff, Bool-cases, inl, inr, length,
  [], ◌∷◌,
}
use dub_manga_studio.Common.Dict.{Dict, lookup, remove, lookup-remove}
use dub_manga_studio.Storage.Digest.{Digest}
use dub_manga_studio.Storage.Queue
use dub_manga_studio.Storage.Queue.{Message, Queue, ack}
use dub_manga_studio.Storage.Queue.Messages.{moved, moved-IsQueue, queued-ack}
use dub_manga_studio.Jobs.Record.{queued, is_queued, Job}
use dub_manga_studio.Jobs.Store.{Scheduler, Ticket, Ambient}
use dub_manga_studio.Jobs.View.{job_at}
use dub_manga_studio.Jobs.Invariant.{HasMessage, Inv}

-- The message is taken from the queue and acknowledged.
abbrev pub skipped : Ambient → Message Ticket → Scheduler → Scheduler
skipped a m s = record s { queue = (Queue.ack m.id (moved a.now m s.queue)).1 }

pub queued-skipped :
    (a : Ambient) (m : Message Ticket) (s : Scheduler)
    → (skipped a m s).queue.queued ≡ remove m.id s.queue.queued
queued-skipped a m s = queued-ack m.id (moved a.now m s.queue)

length-remove-le {ℓ} : {V : Type ℓ} (k : String) (d : Dict V) → length (remove k d) ≤ length d
unfolding remove
length-remove-le k [] = omega arith
length-remove-le k ((j, v) ∷ d) = ground (arith, length-remove-le k d)

-- A key that is found makes the dictionary shorter when it goes.
pub length-remove-lt {ℓ} :
    {V : Type ℓ} (k : String) (d : Dict V) (v : V)
    → lookup k d ≡ some v
    → length (remove k d) < length d
unfolding remove lookup
length-remove-lt k [] v e = absurd (cc)
length-remove-lt k ((j, w) ∷ d) v e = ground (arith, length-remove-le k d, length-remove-lt k d v)

module _ (digest : Digest) (a : Ambient) (m : Message Ticket) {s : Scheduler} (inv : Inv digest s)
    (first : lookup m.id s.queue.queued ≡ some m) where
  -- A message that is left was there before.
  left_over :
      (id : String) (n : Message Ticket)
      → lookup id (skipped a m s).queue.queued ≡ some n
      → lookup id s.queue.queued ≡ some n
  left_over id n e =
      let e' = rw (queued-skipped a m s, lookup-remove m.id id s.queue.queued) at e in
      elim (Bool-cases (str_eq m.id id)) [ inl t ↦ absurd (ground arith) | inr t ↦ rw t at e' ]

  stays :
      (id : String) (n : Message Ticket)
      → str_eq m.id id ≡ false
      → lookup id s.queue.queued ≡ some n
      → lookup id (skipped a m s).queue.queued ≡ some n
  stays id n t e = rw (queued-skipped a m s, lookup-remove m.id id s.queue.queued) (rw t e)

  -- Without its message the invariant still holds if the job is not queued.
  pub skipped-Inv :
      ((job : Job) → job_at digest m.payload.job_id s ≡ some job → is_queued job.status ≡ false)
      → Inv digest (skipped a m s)
  unfolding job_at
  skipped-Inv idle = record {
    persistent = inv.persistent;
    files = record {
      keys = rw (queued-skipped a m s) (moved-IsQueue a.now m s.queue inv.files).keys;
      named = rw (queued-skipped a m s) (moved-IsQueue a.now m s.queue inv.files).named;
    };
    isolated = inv.isolated;
    identified = inv.identified;
    waiting = λ j k e w. still j k (inv.waiting j k e w) e w;
    priced = λ j k e id n there. inv.priced j k e id n (left_over id n there);
  }
    where
      still :
          (j : String) (k : Job)
          → HasMessage k s.queue
          → job_at digest j s ≡ some k
          → k.status ≡ queued
          → HasMessage k (skipped a m s).queue
      still j k h e w = record {
        id = h.id;
        message = h.message;
        waits = elim (Bool-cases (str_eq m.id h.id)) [
          | inl t ↦
              let same : m.id ≡ h.id = (eq_iff m.id h.id).0 t in
              let message : m ≡ h.message = cc in
              let name : j ≡ m.payload.job_id = cc (inv.identified j k e) in
              absurd (ground (arith, idle k (subst (λ i. job_at digest i s ≡ some k) name e)))
          | inr t ↦ stays h.id h.message t h.waits
        ];
        in_queue = h.in_queue;
        for_job = h.for_job;
        at_priority = h.at_priority;
      }
