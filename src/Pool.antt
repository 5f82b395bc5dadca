-- ===== src/Pool.antt =====
-- src/chatterbox_manga_studio/services/worker_pool.py: the registered workers and the reservations
-- that are held on them. An operation is modelled from its call to its return, with no other
-- operation between.
pub mod Worker
pub mod Count
pub mod Changes
pub mod Expiry
pub mod Eligible
pub mod Leases
pub mod Steps
mod Samples
use dub_manga_studio.Common.{
  ℕ, zero, suc, ◌+◌, ◌-◌, String, Bool, true, false, ◌&&◌, not, Option, none, some, List, [], ◌∷◌,
  ltb, leb, keep, sort_by, str_eq, if◌then◌else◌, Json, str, object, no_fields, field,
}
use dub_manga_studio.Common.Exec.{Result, ok, err, Exec, pure, raise, ◌>>=◌, ◌>>◌}
use dub_manga_studio.Common.Dict.{Dict, lookup, put, remove, values}
use dub_manga_studio.Events.{
  EventType, worker_registered, worker_disconnected, Event, EventBus, publish_event,
}
use Worker.{
  WorkerStatus, registered, healthy, degraded, unhealthy, reserved, draining, disconnected,
  WorkerDescriptor, WorkerReservation, WorkerMatchCriteria, matches, less_loaded, has_capacity,
}

-- What a health check answers: `none` where it raises.
abbrev pub HealthCheck : Type 0
HealthCheck = WorkerDescriptor → Option Bool

pub record WorkerPool : Type 0 where
  pub bus : EventBus
  pub workers : Dict WorkerDescriptor
  pub reservations : Dict WorkerReservation
  pub health_checks : Dict HealthCheck

pub data PoolError : Type 0 where
  key_error runtime_error handler_error : PoolError

abbrev pub PoolOp : Type 0 → Type 0
PoolOp A = Exec WorkerPool PoolError A

-- What one call reads from outside.
pub record Ambient : Type 0 where
  pub now : ℕ
  pub new_id : String
  pub event_id : String

-- event_bus.publish(type, source="WorkerPool", payload=..., correlation_id=...)
unfoldable pub publish : Ambient → EventType → Json → String → PoolOp Unit
publish a type payload correlation_id p =
    let event : Event = record {
      id = a.event_id;
      type = type;
      source = "WorkerPool";
      payload = payload;
      correlation_id = some correlation_id;
      created_at = a.now;
    } in
    let (bus', raised) = publish_event event p.bus in
    (if raised then err handler_error else ok tt, record p { bus = bus' })

abbrev pub add_check : String → Option HealthCheck → Dict HealthCheck → Dict HealthCheck
add_check id none checks = checks
add_check id (some check) checks = put id check checks

-- register_worker(descriptor, health_check=)
unfoldable pub register_worker :
    Ambient → WorkerDescriptor → Option HealthCheck → PoolOp WorkerDescriptor
register_worker a descriptor check p =
    let worker : WorkerDescriptor = record descriptor {
      status = healthy;
      last_heartbeat_at = some a.now;
    } in
    (publish a worker_registered
          (object (
            field "worker_id" (str worker.worker_id)
              (field "model_id" (str worker.capabilities.model_id) no_fields)))
          worker.worker_id
        >> pure worker)
      (record p {
        workers = put worker.worker_id worker p.workers;
        health_checks = add_check worker.worker_id check p.health_checks;
      })

-- The loop of `unregister_worker` over the reservations.
unfoldable pub drop_worker : String → Dict WorkerReservation → Dict WorkerReservation
drop_worker worker_id [] = []
drop_worker worker_id ((id, r) ∷ rs) =
    let rest = drop_worker worker_id rs in
    if str_eq r.worker_id worker_id then rest else (id, r) ∷ rest

-- unregister_worker(worker_id)
unfoldable pub unregister_worker : Ambient → String → PoolOp Unit
unregister_worker a worker_id p =
    let p' : WorkerPool = record p {
      workers = remove worker_id p.workers;
      health_checks = remove worker_id p.health_checks;
      reservations = drop_worker worker_id p.reservations;
    } in
    elim (lookup worker_id p.workers) [
      | none ↦ (ok tt, p')
      | some _ ↦
          publish a worker_disconnected (object (field "worker_id" (str worker_id) no_fields))
            worker_id p'
    ]

-- metadata.update(payload)
unfoldable pub update : Dict Json → Dict Json → Dict Json
update [] metadata = metadata
update ((k, v) ∷ payload) metadata = update payload (put k v metadata)

-- heartbeat(worker_id, payload)
unfoldable pub heartbeat : ℕ → String → Dict Json → PoolOp WorkerDescriptor
heartbeat now worker_id payload p = elim (lookup worker_id p.workers) [
  | none ↦ (err key_error, p)
  | some w ↦
      let beaten : WorkerDescriptor = record w {
        last_heartbeat_at = some now;
        status = healthy;
        metadata = update payload w.metadata;
      } in
      (ok beaten, record p { workers = put worker_id beaten p.workers })
]

-- discover_workers()
unfoldable pub discover_workers : PoolOp (List WorkerDescriptor)
discover_workers p = (ok (values p.workers), p)

-- match_workers(criteria)
unfoldable pub match_workers :
    (String → String) → WorkerMatchCriteria → PoolOp (List WorkerDescriptor)
match_workers lower criteria p =
    (ok (sort_by less_loaded (keep (matches lower criteria) (values p.workers))), p)

-- A worker with one reservation less, as `release_worker` and the expiry write it.
unfoldable pub freed : WorkerDescriptor → WorkerDescriptor
freed w = record w {
  active_reservations = w.active_reservations - 1;
  status = if leb (w.active_reservations - 1) 0 then healthy else reserved;
}

unfoldable pub free_worker : String → Dict WorkerDescriptor → Dict WorkerDescriptor
free_worker id workers = elim (lookup id workers) [
  | none ↦ workers
  | some w ↦ put id (freed w) workers
]

unfoldable pub has_expired : ℕ → WorkerReservation → Bool
has_expired now r = elim r.expires_at [ none ↦ false | some t ↦ leb t now ]

-- A reservation that is taken away, and its worker freed.
abbrev pub dropped : String → WorkerReservation → WorkerPool → WorkerPool
dropped id r p = record p {
  reservations = remove id p.reservations;
  workers = free_worker r.worker_id p.workers;
}

-- The loop of `_expire_reservations_locked`.
unfoldable pub expire_each : ℕ → Dict WorkerReservation → WorkerPool → WorkerPool
expire_each now [] p = p
expire_each now ((id, r) ∷ rs) p =
    expire_each now rs (if has_expired now r then dropped id r p else p)

-- _expire_reservations_locked()
unfoldable pub expire_reservations : ℕ → WorkerPool → WorkerPool
expire_reservations now p = expire_each now p.reservations p

-- release_worker(reservation_id)
unfoldable pub release_worker : String → PoolOp Bool
release_worker id p = elim (lookup id p.reservations) [
  | none ↦ (ok false, p)
  | some r ↦ (ok true, dropped id r p)
]

unfoldable pub taken : WorkerDescriptor → WorkerDescriptor
taken w = record w {
  active_reservations = w.active_reservations + 1;
  status = if leb w.max_reservations (w.active_reservations + 1) then reserved else healthy;
}

-- `now + timedelta(seconds=ttl) if ttl else None`
abbrev pub expiry : ℕ → Option ℕ → Option ℕ
expiry now none = none
expiry now (some zero) = none
expiry now (some (suc n)) = some (now + suc n)

-- What `reserve_worker` does with the candidates.
unfoldable pub reserve_first :
    Ambient → Option ℕ → Json → List WorkerDescriptor → PoolOp WorkerReservation
reserve_first a ttl metadata [] p = (err runtime_error, p)
reserve_first a ttl metadata (w ∷ ws) p =
    let reservation : WorkerReservation = record {
      reservation_id = a.new_id;
      worker_id = w.worker_id;
      model_id = w.capabilities.model_id;
      created_at = a.now;
      expires_at = expiry a.now ttl;
      metadata = metadata;
    } in
    (
      ok reservation,
      record p {
        workers = put w.worker_id (taken w) p.workers;
        reservations = put a.new_id reservation p.reservations;
      },
    )

unfoldable pub candidates :
    (String → String) → WorkerMatchCriteria → WorkerPool → List WorkerDescriptor
candidates lower criteria p =
    sort_by less_loaded
      (keep (λ w. has_capacity w) (keep (matches lower criteria) (values p.workers)))

-- reserve_worker(criteria, ttl_seconds=, metadata=)
unfoldable pub reserve_worker :
    Ambient → (String → String) → WorkerMatchCriteria → Option ℕ → Json → PoolOp WorkerReservation
reserve_worker a lower criteria ttl metadata p =
    let p' = expire_reservations a.now p in
    reserve_first a ttl metadata (candidates lower criteria p') p'

-- The health of one worker.
unfoldable pub is_stale : ℕ → ℕ → WorkerDescriptor → Bool
is_stale now stale_after w = elim w.last_heartbeat_at [
  | none ↦ false
  | some t ↦ ltb stale_after (now - t)
]

unfoldable pub health_of : ℕ → ℕ → Dict HealthCheck → WorkerDescriptor → WorkerStatus
health_of now stale_after checks w =
    let status = if is_stale now stale_after w then degraded else healthy in
    elim (lookup w.worker_id checks) as (λ _. WorkerStatus) [
      | none ↦ status
      | some check ↦ elim (check w) as (λ _. WorkerStatus) [
        | none ↦ unhealthy
        | some answer ↦ if answer then status else unhealthy
      ]
    ]

unfoldable pub set_status : String → WorkerStatus → Dict WorkerDescriptor → Dict WorkerDescriptor
set_status id status workers = elim (lookup id workers) [
  | none ↦ workers
  | some w ↦ put id (record w { status = status }) workers
]

-- The event of a worker that the check calls unhealthy; it never calls one disconnected.
unfoldable pub publish_health : Ambient → String → WorkerStatus → PoolOp Unit
publish_health a id unhealthy =
    publish a worker_disconnected
      (object (field "worker_id" (str id) (field "status" (str "unhealthy") no_fields))) id
publish_health a id _ = pure tt

-- The loop of `health_monitor_once`, over the workers as they were at its start.
unfoldable pub monitor_each : Ambient → ℕ → List WorkerDescriptor → PoolOp (Dict WorkerStatus)
monitor_each a stale_after [] = pure []
monitor_each a stale_after (w ∷ ws) = λ p.
    let status = health_of a.now stale_after p.health_checks w in
    (do
      publish_health a w.worker_id status
      results ← monitor_each a stale_after ws
      pure ((w.worker_id, status) ∷ results))
      (record p { workers = set_status w.worker_id status p.workers })

-- health_monitor_once(stale_after_seconds=)
unfoldable pub health_monitor_once : Ambient → ℕ → PoolOp (Dict WorkerStatus)
health_monitor_once a stale_after p = monitor_each a stale_after (values p.workers) p
