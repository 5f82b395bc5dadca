-- ===== src/Jobs/Delete.antt =====
-- `delete_job`: what it removes, and that the invariant holds after.
use dub_manga_studio.Common.{
  String, ◌≡◌, true, false, none, some, arith, bool, no_fields, field, str_eq, if◌then◌else◌,
  Option-cases, Bool-cases, inl, inr,
}
use dub_manga_studio.Common.Exec.{ok}
use dub_manga_studio.Common.Dict.{lookup, remove, lookup-remove}
use dub_manga_studio.Common.Dict.Entries.{Every-remove}
use dub_manga_studio.Events.{job_cancelled, publish_event}
use dub_manga_studio.Storage.Digest.{Digest}
use dub_manga_studio.Storage.Kv
use dub_manga_studio.Storage.Kv.{Record}
use dub_manga_studio.Jobs.{of_job, delete_job}
use dub_manga_studio.Jobs.Record.{Job}
use dub_manga_studio.Jobs.Store.{Scheduler, Ambient, job_key, publish}
use dub_manga_studio.Jobs.View.{job_at, job_key_eq, publish_then}
use dub_manga_studio.Jobs.Invariant.{Inv}

module _ (digest : Digest) (a : Ambient) (id : String) (s : Scheduler) where
  open digest use {hexdigest}

  abbrev without_job : Scheduler
  without_job = record s { kv = remove (hexdigest (job_key id)) s.kv }

  -- The state after the job is removed and the event is out.
  abbrev pub deleted : Scheduler
  deleted =
      (publish a job_cancelled (of_job id (field "deleted" (bool true) no_fields)) id without_job).1

  pub delete_job-none : job_at digest id s ≡ none → delete_job digest a id s ≡ (ok false, s)
  unfolding delete_job job_at Kv.delete
  delete_job-none e = elim (Option-cases (lookup (hexdigest (job_key id)) s.kv)) [
    | inl f ↦ rw (f, delete_job, Kv.delete)
    | inr (r, f) ↦ absurd (ground arith)
  ]

  pub delete_job_lem :
      (job : Job)
      → s.bus.raise_handler_errors ≡ false
      → job_at digest id s ≡ some job
      → delete_job digest a id s ≡ (ok true, deleted)
  unfolding delete_job job_at Kv.delete
  delete_job_lem job h e = elim (Option-cases (lookup (hexdigest (job_key id)) s.kv)) [
    | inl f ↦ absurd (ground arith)
    | inr (r, f) ↦ rw (f, delete_job, Kv.delete) (publish_then a job_cancelled _ _ _ without_job h)
  ]

  pub job_at-deleted :
      (j : String) → job_at digest j deleted ≡ (if str_eq id j then none else job_at digest j s)
  unfolding job_at publish
  job_at-deleted j =
      rw
        (
          lookup-remove (hexdigest (job_key id)) (hexdigest (job_key j)) s.kv,
          job_key_eq digest id j,
        )
        (elim (Bool-cases (str_eq id j)) [ inl e ↦ rw e | inr e ↦ rw e ])

  left_over : (j : String) (k : Job) → job_at digest j deleted ≡ some k → job_at digest j s ≡ some k
  left_over j k e =
      let e' = rw (job_at-deleted j) at e in
      elim (Bool-cases (str_eq id j)) [ inl t ↦ absurd (ground arith) | inr t ↦ rw t at e' ]

  pub deleted-Inv : Inv digest s → Inv digest deleted
  unfolding publish publish_event
  deleted-Inv inv = record {
    persistent =
        Every-remove (λ (e : String × Record Job). e.1.expires_at ≡ none) _ s.kv inv.persistent;
    files = inv.files;
    isolated = inv.isolated;
    identified = λ j k e. inv.identified j k (left_over j k e);
    waiting = λ j k e. inv.waiting j k (left_over j k e);
    priced = λ j k e. inv.priced j k (left_over j k e);
  }
