-- ===== src/Jobs/View.antt =====
-- The scheduler as its operations see it: the stored job of an id, and the parts of a call.
use dub_manga_studio.Common.{
  String, ◌≡◌, refl, ◌∙◌, false, Option, none, some, List, [], ◌∷◌, arith, Json, All, str_eq,
  prefixed-eq, if◌then◌else◌, Bool-cases, inl, inr,
}
use dub_manga_studio.Common.Exec.{ok, err, pure, ◌>>◌}
use dub_manga_studio.Common.Dict.{lookup, lookup-put}
use dub_manga_studio.Events.{EventType, Event, Handler, deliver, publish_event}
use dub_manga_studio.Storage.Digest.{Digest}
use dub_manga_studio.Storage.Kv
use dub_manga_studio.Storage.Kv.{Record, Files, is_expired, read_record}
use dub_manga_studio.Storage.Kv.Reads.{value_of, key_eq, get-persistent}
use dub_manga_studio.Jobs.Record.{Job}
use dub_manga_studio.Jobs.Store.{
  Scheduler, Ambient, key_error, job_key, get_job, require_job, save_job, publish,
}

module _ (digest : Digest) where
  open digest use {hexdigest}

  -- The job that the store holds under an id.
  unfoldable pub job_at : String → Scheduler → Option Job
  job_at id s = value_of digest (lookup (hexdigest (job_key id)) s.kv)

  -- Two ids share a file only if they are one id.
  pub job_key_eq :
      (i j : String) → str_eq (hexdigest (job_key i)) (hexdigest (job_key j)) ≡ str_eq i j
  unfolding job_key
  job_key_eq i j = key_eq digest (job_key i) (job_key j) ∙ prefixed-eq "jobs:" i j

  -- No job file has an expiry, since `_save_job` sets none.
  abbrev pub IsPersistent : Files Job → Type 0
  IsPersistent files = All (λ (e : String × Record Job). e.1.expires_at ≡ none) files

module _ (digest : Digest) (a : Ambient) where
  open digest use {hexdigest}

  abbrev pub touched : Job → Job
  touched job = record job { updated_at = a.now }

  pub job_at-save :
      (job : Job) (j : String) (s : Scheduler)
      → job_at digest j (save_job digest a job s).1
        ≡ (if str_eq job.id j then some (touched job) else job_at digest j s)
  unfolding job_at save_job Kv.set
  job_at-save job j s =
      rw
        (
          lookup-put (hexdigest (job_key job.id)) (hexdigest (job_key j)) _ s.kv,
          job_key_eq digest job.id j,
        )
        (elim (Bool-cases (str_eq job.id j)) [ inl e ↦ rw e | inr e ↦ rw e ])

  pub get_job_lem :
      (id : String) (s : Scheduler)
      → IsPersistent digest s.kv
      → get_job digest a id s ≡ (ok (job_at digest id s), s)
  unfolding job_at get_job
  get_job_lem id s h = rw (get-persistent digest a.now (job_key id) s.kv h)

  pub require_none :
      (id : String) (s : Scheduler)
      → IsPersistent digest s.kv
      → job_at digest id s ≡ none
      → require_job digest a id s ≡ (err (key_error id), s)
  unfolding require_job
  require_none id s h e = rw (get_job_lem id s h, require_job) (rw e)

  pub require_some :
      (id : String) {job : Job} (s : Scheduler)
      → IsPersistent digest s.kv
      → job_at digest id s ≡ some job
      → require_job digest a id s ≡ (ok job, s)
  unfolding require_job
  require_some id s h e = rw (get_job_lem id s h, require_job) (rw e)

-- With a bus that isolates its handlers' errors, no delivery raises.
deliver_isolated : (event : Event) (hs : List Handler) → (deliver false event hs).1 ≡ false
unfolding deliver
deliver_isolated event [] = refl
deliver_isolated event (h ∷ hs) = ground (arith, deliver_isolated event hs)

pub publish_isolated :
    (a : Ambient) (type : EventType) (payload : Json) (id : String) (s : Scheduler)
    → s.bus.raise_handler_errors ≡ false
    → (publish a type payload id s).0 ≡ ok tt
unfolding publish publish_event
publish_isolated a type payload id s h = rw (h, publish, publish_event) (rw deliver_isolated)

-- The end of most operations: an event, and the value that is returned.
pub publish_then :
    {A : Type 0} (a : Ambient) (type : EventType) (payload : Json) (id : String) (x : A)
    (s : Scheduler)
    → s.bus.raise_handler_errors ≡ false
    → (publish a type payload id >> pure x) s ≡ (ok x, (publish a type payload id s).1)
publish_then a type payload id x s h = rw (publish_isolated a type payload id s h)
