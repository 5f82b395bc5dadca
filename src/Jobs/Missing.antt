-- ===== src/Jobs/Missing.antt =====
-- An operation on an id under which no job is stored.
use dub_manga_studio.Common.{String, ◌≡◌, Bool, false, none, Json}
use dub_manga_studio.Common.Exec.{ok, err}
use dub_manga_studio.Storage.Digest.{Digest}
use dub_manga_studio.Jobs.{
  complete_job, fail_job, pause_job, resume_job, cancel_job, retry_job, delete_job,
}
use dub_manga_studio.Jobs.Store.{Scheduler, Ambient, key_error}
use dub_manga_studio.Jobs.View.{job_at, require_none}
use dub_manga_studio.Jobs.Invariant.{Inv}
use dub_manga_studio.Jobs.Delete.{delete_job-none}

module _ (digest : Digest) (a : Ambient) {s : Scheduler} (inv : Inv digest s) (id : String)
    (missing : job_at digest id s ≡ none) where
  pub complete_job_missing :
      (result : Json) → complete_job digest a id result s ≡ (err (key_error id), s)
  unfolding complete_job
  complete_job_missing result = rw (require_none digest a id s inv.persistent missing, complete_job)

  pub fail_job_missing :
      (error : String) (retry : Bool) → fail_job digest a id error retry s ≡ (err (key_error id), s)
  unfolding fail_job
  fail_job_missing error retry = rw (require_none digest a id s inv.persistent missing, fail_job)

  pub pause_job_missing : pause_job digest a id s ≡ (err (key_error id), s)
  unfolding pause_job
  pause_job_missing = rw (require_none digest a id s inv.persistent missing, pause_job)

  pub resume_job_missing : resume_job digest a id s ≡ (err (key_error id), s)
  unfolding resume_job
  resume_job_missing = rw (require_none digest a id s inv.persistent missing, resume_job)

  pub cancel_job_missing : cancel_job digest a id s ≡ (err (key_error id), s)
  unfolding cancel_job
  cancel_job_missing = rw (require_none digest a id s inv.persistent missing, cancel_job)

  pub retry_job_missing : retry_job digest a id s ≡ (err (key_error id), s)
  unfolding retry_job
  retry_job_missing = rw (require_none digest a id s inv.persistent missing, retry_job)

-- With no job stored under the id, completing, failing, pausing, resuming, cancelling and
-- retrying raise KeyError, deleting returns False, and none of them changes anything.
pub missing_unchanged :
    (digest : Digest) (a : Ambient) (s : Scheduler) (id : String) (result : Json) (error : String)
    (retry : Bool)
    → Inv digest s
    → job_at digest id s ≡ none
    → (complete_job digest a id result s ≡ (err (key_error id), s))
      × (fail_job digest a id error retry s ≡ (err (key_error id), s))
      × (pause_job digest a id s ≡ (err (key_error id), s))
      × (resume_job digest a id s ≡ (err (key_error id), s))
      × (cancel_job digest a id s ≡ (err (key_error id), s))
      × (retry_job digest a id s ≡ (err (key_error id), s))
      × (delete_job digest a id s ≡ (ok false, s))
missing_unchanged digest a s id result error retry inv e = (
  complete_job_missing digest a inv id e result,
  fail_job_missing digest a inv id e error retry,
  pause_job_missing digest a inv id e,
  resume_job_missing digest a inv id e,
  cancel_job_missing digest a inv id e,
  retry_job_missing digest a inv id e,
  delete_job-none digest a id s e,
)
