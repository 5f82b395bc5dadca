-- ===== src/Jobs/Claim.antt =====
-- `claim_next_job`: the job of highest priority is started, and none is left behind.
use dub_manga_studio.Common.{
  subst, leb_ℤ, ℕ, zero, suc, ◌+◌, ◌<◌, String, ◌≡◌, refl, sym, true, false, pos, ◌≤ℤ◌, Option,
  none, some, arith, str_eq, eq_iff, if◌then◌else◌, Json, int, no_fields, field, Option-cases,
  Bool-cases, inl, inr, length,
}
use dub_manga_studio.Common.Exec.{Result, ok}
use dub_manga_studio.Common.Dict.{lookup}
use dub_manga_studio.Common.Dict.Entries.{All-lookup}
use dub_manga_studio.Events.{job_started, publish_event}
use dub_manga_studio.Storage.Digest.{Digest}
use dub_manga_studio.Storage.Queue.{Message}
use dub_manga_studio.Storage.Queue.Order.{Earlier}
use dub_manga_studio.Storage.Queue.Messages.{InQueue, dequeue_one, moved}
use dub_manga_studio.Jobs.{of_job, start_job, claim_message, claim_loop, claim_next_job}
use dub_manga_studio.Jobs.Record.{queued, running, is_queued, Job}
use dub_manga_studio.Jobs.Store.{
  Scheduler, Ticket, Ambient, Error, Op, queue_name, get_job, save_job, ack_message, publish,
}
use dub_manga_studio.Jobs.View.{job_at, touched, get_job_lem, publish_then}
use dub_manga_studio.Jobs.Invariant.{Inv}
use dub_manga_studio.Jobs.Outcomes.{noted}
use dub_manga_studio.Jobs.Preserved.{noted-Inv, job_at-noted}
use dub_manga_studio.Jobs.Skip.{skipped, skipped-Inv, queued-skipped, length-remove-lt}

-- No stored job is queued.
abbrev pub NoneQueued : Digest → Scheduler → Type 0
NoneQueued digest s =
    (id : String) (job : Job) → job_at digest id s ≡ some job → is_queued job.status ≡ false

-- No queued job has a higher priority.
abbrev pub IsHighest : Digest → Scheduler → Job → Type 0
IsHighest digest s job =
    (id : String) (k : Job)
    → job_at digest id s ≡ some k
    → k.status ≡ queued
    → k.priority ≤ℤ job.priority

abbrev pub started : Ambient → Job → Job
started a job = record job {
  status = running;
  attempts = job.attempts + 1;
  started_at = some a.now;
}

-- What a call of `claim_next_job` may do.
pub data Claim (digest : Digest) (a : Ambient) (s : Scheduler)
    (r : Result Error (Option Job) × Scheduler) : Type 0 where
  nothing :
      r.0 ≡ ok none
      → NoneQueued digest s
      → ((id : String) → job_at digest id r.1 ≡ job_at digest id s)
      → Inv digest r.1
      → Claim digest a s r
  claimed :
      (job : Job)
      → job_at digest job.id s ≡ some job
      → job.status ≡ queued
      → IsHighest digest s job
      → r.0 ≡ ok (some (touched digest a (started a job)))
      → ((id : String)
          → job_at digest id r.1 ≡ (
              if str_eq job.id id
              then some (touched digest a (started a job))
              else job_at digest id s))
      → Inv digest r.1
      → Claim digest a s r

-- A message that was skipped does not change what a claim may do.
Claim-skipped :
    (digest : Digest) (a : Ambient) (m : Message Ticket) (s : Scheduler)
    {r : Result Error (Option Job) × Scheduler}
    → Claim digest a (skipped a m s) r
    → Claim digest a s r
unfolding job_at
Claim-skipped digest a m s (nothing e none_queued same inv) = nothing e none_queued same inv
Claim-skipped digest a m s (claimed job at q high e jobs inv) = claimed job at q high e jobs inv

module _ (digest : Digest) (a : Ambient) {s : Scheduler} (inv : Inv digest s) where
  -- Without a message in the queue no job is queued.
  empty-NoneQueued : InQueue queue_name (λ _. ⊥) s.queue → NoneQueued digest s
  empty-NoneQueued h id job e = elim (Bool-cases (is_queued job.status)) [
    | inl t ↦
        let message = inv.waiting id job e (ground arith) in
        absurd
          (All-lookup _ message.id message.message s.queue.queued h message.waits message.in_queue)
    | inr t ↦ t
  ]

  module _ (m : Message Ticket) (first : lookup m.id s.queue.queued ≡ some m)
      (in_queue : str_eq m.queue queue_name ≡ true)
      (least : InQueue queue_name (Earlier m) s.queue) where
    -- The job of the first message has the highest priority.
    first-IsHighest :
        (job : Job) → job_at digest m.payload.job_id s ≡ some job → IsHighest digest s job
    first-IsHighest job e id k f w =
        let message = inv.waiting id k f w in
        let before : Earlier m message.message =
          All-lookup _ message.id message.message s.queue.queued least message.waits
            message.in_queue in
        let price : m.priority ≡ job.priority =
          inv.priced m.payload.job_id job e m.id m first in_queue
            (sym (inv.identified m.payload.job_id job e)) in
        let price' : message.message.priority ≡ k.priority = message.at_priority in
        let low : leb_ℤ k.priority job.priority ≡ true =
          subst (λ x. leb_ℤ k.priority x ≡ true) price
            (subst (λ x. leb_ℤ x m.priority ≡ true) price' before.0) in
        ground (arith, low)

    started_payload : Job → Json
    started_payload job = of_job job.id (field "attempts" (int (pos (job.attempts + 1))) no_fields)

    -- The state once the job is saved as running and its event is out.
    abbrev running_state : Job → Scheduler
    running_state job = noted digest a (started a job) job_started (started_payload job) s

    module _ (job : Job) (e : job_at digest m.payload.job_id s ≡ some job)
        (q : job.status ≡ queued) where
      ident : job.id ≡ m.payload.job_id
      ident = inv.identified m.payload.job_id job e

      running_idle :
          (k : Job)
          → job_at digest m.payload.job_id (running_state job) ≡ some k
          → is_queued k.status ≡ false
      running_idle k f =
          let f' =
            rw
              (job_at-noted digest a (started a job) job_started (started_payload job) s
                m.payload.job_id)
              at f in
          ground (arith, eq_iff job.id m.payload.job_id, ident)

      running-Inv : Inv digest (skipped a m (running_state job))
      unfolding publish publish_event save_job
      running-Inv =
          skipped-Inv digest a m
            (noted-Inv digest a (started a job) job_started (started_payload job) inv refl
              (inv.priced m.payload.job_id job e))
            first running_idle

      -- The state that `start_job` leaves, with its steps in the order of the code.
      abbrev ordered : Scheduler
      ordered =
          (publish a job_started (started_payload job) job.id
            (ack_message m.id
              (save_job digest a (started a job)
                (record s { queue = moved a.now m s.queue })).1).1).1

      start_job_lem :
          start_job digest a m.id job (record s { queue = moved a.now m s.queue })
          ≡ (ok (some (touched digest a (started a job))), ordered)
      unfolding start_job save_job ack_message started_payload
      start_job_lem = publish_then a job_started _ _ _ _ inv.isolated

      -- The event does not depend on the queue.
      ordered_lem : ordered ≡ skipped a m (running_state job)
      unfolding publish save_job ack_message
      ordered_lem = refl

      start_job-Claim :
          Claim digest a s
            (start_job digest a m.id job (record s { queue = moved a.now m s.queue }))
      unfolding job_at
      start_job-Claim =
          rw (start_job_lem, ordered_lem)
            (claimed job (rw (← ident) at e) q (first-IsHighest job e) refl
              (job_at-noted digest a (started a job) job_started (started_payload job) s)
              running-Inv)

    get_job-moved :
        get_job digest a m.payload.job_id (record s { queue = moved a.now m s.queue })
        ≡ (ok (job_at digest m.payload.job_id s), record s { queue = moved a.now m s.queue })
    unfolding job_at
    get_job-moved =
        get_job_lem digest a m.payload.job_id (record s { queue = moved a.now m s.queue })
          inv.persistent

    -- The body of the loop, with a next round that may claim too.
    claim_message-Claim :
        (again : Op (Option Job))
        → (((job : Job)
              → job_at digest m.payload.job_id s ≡ some job
              → is_queued job.status ≡ false)
            → Claim digest a (skipped a m s) (again (skipped a m s)))
        → Claim digest a s (
            claim_message digest a again m.id m.payload.job_id
              (record s { queue = moved a.now m s.queue }))
    unfolding claim_message ack_message
    claim_message-Claim again next = elim (Option-cases (job_at digest m.payload.job_id s)) [
      | inl e ↦
          rw (get_job-moved, claim_message)
            (rw e (Claim-skipped digest a m s (next (λ job f. absurd (ground arith)))))
      | inr (job, e) ↦
          rw (get_job-moved, claim_message)
            (rw e (elim (Bool-cases (is_queued job.status)) [
              | inl t ↦ rw t (start_job-Claim job e (ground arith))
              | inr t ↦ rw t (
                  Claim-skipped digest a m s
                    (next (λ k f. let same : job ≡ k = ground arith in rw (← same) t)))
            ]))
    ]

-- The loop, with more rounds than messages.
claim_loop-Claim :
    (digest : Digest) (a : Ambient) (fuel : ℕ) (s : Scheduler)
    → Inv digest s
    → length s.queue.queued < fuel
    → Claim digest a s (claim_loop digest a fuel s)
unfolding claim_loop
claim_loop-Claim digest a zero s inv h = absurd (omega arith)
claim_loop-Claim digest a (suc fuel) s inv h =
    elim (dequeue_one a.now queue_name s.queue inv.files) [
      | inl (run, empty) ↦
          rw (run, claim_loop)
            (rw run (nothing refl (empty-NoneQueued digest a inv empty) (λ _. refl) inv))
      | inr (m, first, in_queue, run, least) ↦
          rw (run, claim_loop)
            (rw run (
              claim_message-Claim digest a inv m first in_queue least (claim_loop digest a fuel)
                λ idle.
                  claim_loop-Claim digest a fuel (skipped a m s)
                    (skipped-Inv digest a m inv first idle)
                    (rw (queued-skipped a m s)
                      (omega (arith, length-remove-lt m.id s.queue.queued m first)))))
    ]

-- From every state that satisfies the invariant, `claim_next_job` ends. It returns a job that
-- was queued and had the highest priority of the queued jobs, now stored as running with one
-- more attempt and no other job changed, or none if no job was queued. The invariant holds after.
pub claim_next_job-Claim :
    (digest : Digest) (a : Ambient) (s : Scheduler)
    → Inv digest s
    → Claim digest a s (claim_next_job digest a s)
unfolding claim_next_job
claim_next_job-Claim digest a s inv =
    claim_loop-Claim digest a (suc (length s.queue.queued)) s inv (omega arith)
