-- ===== src/Pool/Samples.antt =====
-- Small inputs, tests, and the properties at them.
use dub_manga_studio.Common.{
  ℕ, String, ◌≡◌, refl, true, false, Option, none, some, [], ◌∷◌, null, sort_by, leb_str, keep,
}
use dub_manga_studio.Common.Exec.{Result, ok, err}
use dub_manga_studio.Common.Dict.{lookup, put, remove, values}
use dub_manga_studio.Events.{EventBus, publish_event, deliver, bounded}
use dub_manga_studio.Pool.{
  WorkerPool, PoolError, Ambient, publish, register_worker, drop_worker, unregister_worker,
  heartbeat, freed, free_worker, has_expired, expire_each, expire_reservations, release_worker,
  taken, reserve_first, candidates, reserve_worker, is_stale, health_of, set_status, publish_health,
  monitor_each, health_monitor_once,
}
use dub_manga_studio.Pool.Worker.{
  registered, WorkerDescriptor, WorkerReservation, WorkerMatchCriteria, contains, meets_language,
  matches, less_loaded,
}
use dub_manga_studio.Pool.Count.{count}
use dub_manga_studio.Pool.Changes.{Counted}
use dub_manga_studio.Pool.Leases.{Reserved, reserve_worker_lem}
use dub_manga_studio.Pool.Steps.{Step, Reach, start, next, empty, Reach-Counted, Reached-Inv}

abbrev bus : EventBus
bus = record {
  handlers = λ _. [];
  history = [];
  max_history = 100;
  raise_handler_errors = false;
  calls = [];
}

abbrev at_time : ℕ → String → Ambient
at_time now id = record { now = now; new_id = id; event_id = "e" }

abbrev lower : String → String
lower s = s

-- A worker for one reservation at a time.
abbrev worker : String → WorkerDescriptor
worker id = record {
  worker_id = id;
  capabilities = record {
    model_id = "fish";
    label = "Fish";
    supported_languages = "hi" ∷ [];
    supports_voice_clone = true;
    supports_reference_audio = true;
    supports_reference_text = false;
    supports_streaming = false;
    supports_emotions = false;
    recommended_instances = [];
    startup_time = 0;
    batch_support = false;
    plugin_version = "1.0.0";
    license = none;
    gated = false;
    max_batch_size = 1;
    metadata = [];
    estimated_vram = 6;
  };
  endpoint = none;
  gpu_id = none;
  status = registered;
  active_reservations = 0;
  max_reservations = 1;
  registered_at = 0;
  last_heartbeat_at = none;
  metadata = [];
}

abbrev hindi : WorkerMatchCriteria
hindi = record {
  language = some "hi";
  supports_voice_clone = some true;
  supports_reference_audio = none;
  supports_reference_text = none;
  supports_streaming = none;
  supports_emotions = none;
  max_vram = some 8;
  model_id = none;
}

program : Unit {0}
unfolding lookup put remove values sort_by leb_str keep publish_event deliver bounded publish
    register_worker drop_worker unregister_worker heartbeat freed free_worker has_expired
    expire_each expire_reservations release_worker taken reserve_first candidates reserve_worker
    is_stale health_of set_status publish_health monitor_each health_monitor_once contains
    meets_language matches less_loaded count empty
program = tt

abbrev two_workers : WorkerPool
two_workers =
    (register_worker (at_time 2 "") (worker "b") none
      (register_worker (at_time 1 "") (worker "a") none (empty bus)).1).1

abbrev one_taken : WorkerPool
one_taken = (reserve_worker (at_time 3 "r") lower hindi (some 10) null two_workers).1

abbrev taken_on : Result PoolError WorkerReservation → Option String
taken_on (ok r) = some r.worker_id
taken_on (err _) = none

reserves_test :
    (taken_on (reserve_worker (at_time 3 "r") lower hindi (some 10) null two_workers).0 ≡ some "a")
    × (taken_on (reserve_worker (at_time 4 "s") lower hindi none null one_taken).0 ≡ some "b")
unfolding program
reserves_test = (refl, refl)

-- A worker that registers again while a reservation is held on it is reserved above its limit.
registers_again_test :
    (let again = (register_worker (at_time 5 "") (worker "a") none one_taken).1 in
      count "a" (reserve_worker (at_time 6 "t") lower hindi none null again).1.reservations ≡ 2)
unfolding program
registers_again_test = refl

two_workers-Reach : Reach lower bus two_workers
unfolding program
two_workers-Reach =
    next (next start (Step.registering (at_time 1 "") (worker "a") none refl refl))
      (Step.registering (at_time 2 "") (worker "b") none refl refl)

one_taken-Reach : Reach lower bus one_taken
unfolding program
one_taken-Reach = next two_workers-Reach (Step.reserving (at_time 3 "r") hindi (some 10) null refl)

Reach-Counted_example : Counted one_taken.reservations "a" (lookup "a" one_taken.workers)
Reach-Counted_example = Reach-Counted one_taken-Reach "a"

reserve_worker_lem_example :
    Reserved (at_time 4 "s") lower hindi none null one_taken (expire_reservations 4 one_taken)
reserve_worker_lem_example =
    reserve_worker_lem (at_time 4 "s") lower hindi none null one_taken (Reached-Inv one_taken-Reach)
