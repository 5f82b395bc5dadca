-- ===== src/Pool/Steps.antt =====
-- The pool's life as a sequence of operations.
use dub_manga_studio.Common.{ℕ, String, ◌≡◌, refl, Option, none, [], Json}
use dub_manga_studio.Common.Dict.{Dict, lookup}
use dub_manga_studio.Events.{EventBus}
use dub_manga_studio.Pool.{
  HealthCheck, WorkerPool, Ambient, register_worker, unregister_worker, heartbeat, release_worker,
  reserve_worker, health_monitor_once,
}
use dub_manga_studio.Pool.Worker.{WorkerDescriptor, WorkerMatchCriteria}
use dub_manga_studio.Pool.Count.{count}
use dub_manga_studio.Pool.Changes.{
  Counted, Inv, register_worker-Inv, unregister_worker-Inv, heartbeat-Inv, health_monitor_once-Inv,
}
use dub_manga_studio.Pool.Expiry.{release_worker-Inv}
use dub_manga_studio.Pool.Leases.{reserve_worker-Inv}

-- One operation, as its caller asks for it. A worker is registered under a name that is free and
-- with no reservations, and the id of a new reservation (uuid4) names none that is held.
pub data Step (lower : String → String) (p : WorkerPool) : WorkerPool → Type 0 where
  registering :
      (a : Ambient) (d : WorkerDescriptor) (check : Option HealthCheck)
      → lookup d.worker_id p.workers ≡ none
      → d.active_reservations ≡ 0
      → Step lower p (register_worker a d check p).1
  unregistering : (a : Ambient) (id : String) → Step lower p (unregister_worker a id p).1
  beating :
      (now : ℕ) (id : String) (payload : Dict Json) → Step lower p (heartbeat now id payload p).1
  reserving :
      (a : Ambient) (criteria : WorkerMatchCriteria) (ttl : Option ℕ) (metadata : Json)
      → lookup a.new_id p.reservations ≡ none
      → Step lower p (reserve_worker a lower criteria ttl metadata p).1
  releasing : (id : String) → Step lower p (release_worker id p).1
  monitoring :
      (a : Ambient) (stale_after : ℕ) → Step lower p (health_monitor_once a stale_after p).1

Step-Inv : {lower : String → String} {p q : WorkerPool} → Step lower p q → Inv p → Inv q
Step-Inv {lower} {p} (registering a d check new idle) inv =
    register_worker-Inv a d check p inv new idle
Step-Inv {lower} {p} (unregistering a id) inv = unregister_worker-Inv a id p inv
Step-Inv {lower} {p} (beating now id payload) inv = heartbeat-Inv now id payload p inv
Step-Inv {lower} {p} (reserving a criteria ttl metadata new) inv =
    reserve_worker-Inv a lower criteria ttl metadata p inv new
Step-Inv {lower} {p} (releasing id) inv = release_worker-Inv id p inv
Step-Inv {lower} {p} (monitoring a stale_after) inv = health_monitor_once-Inv a stale_after p inv

-- WorkerPool(event_bus)
unfoldable pub empty : EventBus → WorkerPool
empty bus = record { bus = bus; workers = []; reservations = []; health_checks = [] }

pub data Reach (lower : String → String) (bus : EventBus) : WorkerPool → Type 0 where
  start : Reach lower bus (empty bus)
  next : {p q : WorkerPool} → Reach lower bus p → Step lower p q → Reach lower bus q

pub Reached-Inv :
    {lower : String → String} {bus : EventBus} {p : WorkerPool} → Reach lower bus p → Inv p
unfolding empty lookup count
Reached-Inv start = record { counted = λ id. refl; names = tt; distinct = tt; once = tt }
Reached-Inv (next r st) = Step-Inv st (Reached-Inv r)

-- Whatever operations are called, in any order, on a new pool: every registered worker counts
-- exactly the reservations that are held on it, these are never more than its limit, and none is
-- held on a worker that is not registered. This is for a pool where a worker is registered only under
-- a free name and with no reservations, and where the id of a new reservation names none that is
-- held.
pub Reach-Counted :
    {lower : String → String} {bus : EventBus} {p : WorkerPool}
    → Reach lower bus p
    → (id : String) → Counted p.reservations id (lookup id p.workers)
Reach-Counted r = (Reached-Inv r).counted
