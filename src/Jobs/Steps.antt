-- ===== src/Jobs/Steps.antt =====
-- The scheduler's life as a sequence of operations, and what holds at every point of it.
use dub_manga_studio.Common.{
  String, ◌≡◌, ◌≢◌, refl, Bool, false, ℤ, Option, none, some, [], Json, Option-cases, Bool-cases,
  inl, inr,
}
use dub_manga_studio.Common.Exec.{Result}
use dub_manga_studio.Common.Dict.{lookup}
use dub_manga_studio.Events.{
  EventBus, job_created, job_completed, job_failed, job_paused, job_resumed, job_cancelled,
}
use dub_manga_studio.Storage.Digest.{Digest}
use dub_manga_studio.Storage.Queue.{Message}
use dub_manga_studio.Jobs.{
  retries, create_job, complete_job, fail_job, pause_job, resume_job, cancel_job, retry_job,
  delete_job, claim_next_job,
}
use dub_manga_studio.Jobs.Record.{Job, is_terminal, is_paused, is_completed, is_retryable}
use dub_manga_studio.Jobs.Store.{Scheduler, Ticket, Ambient}
use dub_manga_studio.Jobs.View.{job_at}
use dub_manga_studio.Jobs.Invariant.{Inv}
use dub_manga_studio.Jobs.Outcomes.{
  done_job, retried_job, create_job_lem, complete_job_lem, fail_job_again, fail_job_ends,
  pause_job_terminal, pause_job_lem, resume_job_other, resume_job_lem, cancel_job_completed,
  cancel_job_lem, retry_job_other, retry_job_lem, new_job,
}
use dub_manga_studio.Jobs.Preserved.{noted-Inv, requeued-Inv}
use dub_manga_studio.Jobs.Missing.{
  complete_job_missing, fail_job_missing, pause_job_missing, resume_job_missing, cancel_job_missing,
  retry_job_missing,
}
use dub_manga_studio.Jobs.Delete.{delete_job-none, delete_job_lem, deleted-Inv}
use dub_manga_studio.Jobs.Claim.{Claim, nothing, claimed, claim_next_job-Claim}

-- uuid4: the id of a new message names no message that waits.
abbrev pub IsFresh : Ambient → Scheduler → Type 0
IsFresh a s = lookup a.message_id s.queue.queued ≡ none

-- uuid4: no message is for the id of a new job.
abbrev pub IsUnused : Ambient → Scheduler → Type 0
IsUnused a s =
    (id : String) (m : Message Ticket)
    → lookup id s.queue.queued ≡ some m
    → m.payload.job_id ≢ a.new_id

-- One operation, as its caller asks for it.
pub data Step (digest : Digest) (s : Scheduler) : Scheduler → Type 0 where
  create :
      (a : Ambient) (type : String) (payload : Json) (priority max_attempts : ℤ) (metadata : Json)
      → IsFresh a s
      → IsUnused a s
      → Step digest s (create_job digest a type payload priority max_attempts metadata s).1
  claim : (a : Ambient) → Step digest s (claim_next_job digest a s).1
  complete :
      (a : Ambient) (id : String) (result : Json)
      → Step digest s (complete_job digest a id result s).1
  fail :
      (a : Ambient) (id error : String) (again : Bool)
      → IsFresh a s
      → Step digest s (fail_job digest a id error again s).1
  pause : (a : Ambient) (id : String) → Step digest s (pause_job digest a id s).1
  resume : (a : Ambient) (id : String) → IsFresh a s → Step digest s (resume_job digest a id s).1
  cancel : (a : Ambient) (id : String) → Step digest s (cancel_job digest a id s).1
  retry : (a : Ambient) (id : String) → IsFresh a s → Step digest s (retry_job digest a id s).1
  delete : (a : Ambient) (id : String) → Step digest s (delete_job digest a id s).1

module _ (digest : Digest) (a : Ambient) {s : Scheduler} (inv : Inv digest s) where
  create_job-Inv :
      (type : String) (payload : Json) (priority max_attempts : ℤ) (metadata : Json)
      → IsFresh a s
      → IsUnused a s
      → Inv digest (create_job digest a type payload priority max_attempts metadata s).1
  create_job-Inv type payload priority max_attempts metadata fresh unused =
      rw (create_job_lem digest a type payload priority max_attempts metadata s inv.isolated) (
        requeued-Inv digest a (new_job digest a type payload priority max_attempts metadata)
          job_created _ inv fresh (λ id m e _ f. absurd (unused id m e f)))

  complete_job-Inv :
      (id : String) (result : Json) → Inv digest (complete_job digest a id result s).1
  complete_job-Inv id result = elim (Option-cases (job_at digest id s)) [
    | inl e ↦ rw (complete_job_missing digest a inv id e result) inv
    | inr (job, e) ↦ rw (complete_job_lem digest a inv id e result) (
        noted-Inv digest a (done_job digest a result job) job_completed _ inv refl
          (inv.priced id job e))
  ]

  fail_job-Inv :
      (id error : String) (again : Bool)
      → IsFresh a s
      → Inv digest (fail_job digest a id error again s).1
  fail_job-Inv id error again fresh = elim (Option-cases (job_at digest id s)) [
    | inl e ↦ rw (fail_job_missing digest a inv id e error again) inv
    | inr (job, e) ↦ elim (Bool-cases (retries again job)) [
      | inl t ↦
          rw (fail_job_again digest a inv id e error again t)
            (requeued-Inv digest a _ job_failed _ inv fresh (inv.priced id job e))
      | inr t ↦
          rw (fail_job_ends digest a inv id e error again t)
            (noted-Inv digest a _ job_failed _ inv refl (inv.priced id job e))
    ]
  ]

  pause_job-Inv : (id : String) → Inv digest (pause_job digest a id s).1
  pause_job-Inv id = elim (Option-cases (job_at digest id s)) [
    | inl e ↦ rw (pause_job_missing digest a inv id e) inv
    | inr (job, e) ↦ elim (Bool-cases (is_terminal job.status)) [
      | inl t ↦ rw (pause_job_terminal digest a inv id e t) inv
      | inr t ↦
          rw (pause_job_lem digest a inv id e t)
            (noted-Inv digest a _ job_paused _ inv refl (inv.priced id job e))
    ]
  ]

  resume_job-Inv : (id : String) → IsFresh a s → Inv digest (resume_job digest a id s).1
  resume_job-Inv id fresh = elim (Option-cases (job_at digest id s)) [
    | inl e ↦ rw (resume_job_missing digest a inv id e) inv
    | inr (job, e) ↦ elim (Bool-cases (is_paused job.status)) [
      | inl t ↦
          rw (resume_job_lem digest a inv id e t)
            (requeued-Inv digest a _ job_resumed _ inv fresh (inv.priced id job e))
      | inr t ↦ rw (resume_job_other digest a inv id e t) inv
    ]
  ]

  cancel_job-Inv : (id : String) → Inv digest (cancel_job digest a id s).1
  cancel_job-Inv id = elim (Option-cases (job_at digest id s)) [
    | inl e ↦ rw (cancel_job_missing digest a inv id e) inv
    | inr (job, e) ↦ elim (Bool-cases (is_completed job.status)) [
      | inl t ↦ rw (cancel_job_completed digest a inv id e t) inv
      | inr t ↦
          rw (cancel_job_lem digest a inv id e t)
            (noted-Inv digest a _ job_cancelled _ inv refl (inv.priced id job e))
    ]
  ]

  retry_job-Inv : (id : String) → IsFresh a s → Inv digest (retry_job digest a id s).1
  retry_job-Inv id fresh = elim (Option-cases (job_at digest id s)) [
    | inl e ↦ rw (retry_job_missing digest a inv id e) inv
    | inr (job, e) ↦ elim (Bool-cases (is_retryable job.status)) [
      | inl t ↦ rw (retry_job_lem digest a inv id e t) (
          requeued-Inv digest a (retried_job digest a job) job_resumed _ inv fresh
            (inv.priced id job e))
      | inr t ↦ rw (retry_job_other digest a inv id e t) inv
    ]
  ]

  delete_job-Inv : (id : String) → Inv digest (delete_job digest a id s).1
  delete_job-Inv id = elim (Option-cases (job_at digest id s)) [
    | inl e ↦ rw (delete_job-none digest a id s e) inv
    | inr (job, e) ↦
        rw (delete_job_lem digest a id s job inv.isolated e) (deleted-Inv digest a id s inv)
  ]

Claim-Inv :
    {digest : Digest} {a : Ambient} {s : Scheduler} {r : Result _ (Option Job) × Scheduler}
    → Claim digest a s r
    → Inv digest r.1
Claim-Inv (nothing _ _ _ inv) = inv
Claim-Inv (claimed _ _ _ _ _ _ inv) = inv

pub Step-Inv : {digest : Digest} {s t : Scheduler} → Step digest s t → Inv digest s → Inv digest t
Step-Inv {digest} (create a type payload priority max_attempts metadata fresh unused) inv =
    create_job-Inv digest a inv type payload priority max_attempts metadata fresh unused
Step-Inv {digest} {s} (claim a) inv = Claim-Inv (claim_next_job-Claim digest a s inv)
Step-Inv {digest} (complete a id result) inv = complete_job-Inv digest a inv id result
Step-Inv {digest} (fail a id error again fresh) inv = fail_job-Inv digest a inv id error again fresh
Step-Inv {digest} (pause a id) inv = pause_job-Inv digest a inv id
Step-Inv {digest} (resume a id fresh) inv = resume_job-Inv digest a inv id fresh
Step-Inv {digest} (cancel a id) inv = cancel_job-Inv digest a inv id
Step-Inv {digest} (retry a id fresh) inv = retry_job-Inv digest a inv id fresh
Step-Inv {digest} (delete a id) inv = delete_job-Inv digest a inv id

-- A scheduler over an empty store.
unfoldable pub empty : EventBus → Scheduler
empty bus = record { kv = []; queue = record { queued = []; inflight = []; acked = [] }; bus = bus }

pub data Reach (digest : Digest) (bus : EventBus) : Scheduler → Type 0 where
  start : Reach digest bus (empty bus)
  next : {s t : Scheduler} → Reach digest bus s → Step digest s t → Reach digest bus t

empty-Inv :
    (digest : Digest) (bus : EventBus) → bus.raise_handler_errors ≡ false → Inv digest (empty bus)
unfolding empty job_at lookup
empty-Inv digest bus h = record {
  persistent = tt;
  files = record { keys = tt; named = tt };
  isolated = h;
  identified = λ id job e. absurd (cc);
  waiting = λ id job e. absurd (cc);
  priced = λ id job e. absurd (cc);
}

-- Whatever operations are called, in any order, from an empty store, with a bus that isolates the
-- errors of its handlers, where the id of each new message names none that waits and no message is
-- for the id of a new job: every queued job has a message that waits in the queue at the job's
-- priority, and the files of the store and the queue are as the operations expect them.
pub Reach-Inv :
    {digest : Digest} {bus : EventBus} {s : Scheduler}
    → bus.raise_handler_errors ≡ false
    → Reach digest bus s
    → Inv digest s
Reach-Inv {digest} {bus} h start = empty-Inv digest bus h
Reach-Inv h (next r st) = Step-Inv st (Reach-Inv h r)
