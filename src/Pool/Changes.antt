-- ===== src/Pool/Changes.antt =====
-- Each operation of the pool keeps what `Inv` says of it.
use dub_manga_studio.Common.{
  ℕ, ◌≤◌, String, ◌≡◌, refl, sym, ◌∙◌, Option, none, some, List, [], ◌∷◌, inl, inr, Bool-cases,
  Option-cases, arith, eq_iff, str_eq, All, subst, Json,
}
use dub_manga_studio.Common.Exec.{and_then_keeps}
use dub_manga_studio.Common.Dict.{Dict, lookup, put, remove, values, lookup-put, lookup-remove}
use dub_manga_studio.Common.Dict.Entries.{
  HasKeys, HasKeys-put, HasKeys-remove, Every-put, Every-remove, All-lookup,
}
use dub_manga_studio.Events.{EventType}
use dub_manga_studio.Pool.{
  HealthCheck, WorkerPool, Ambient, publish, register_worker, unregister_worker, heartbeat,
  set_status, health_of, monitor_each, health_monitor_once, publish_health, drop_worker, add_check,
}
use dub_manga_studio.Pool.Worker.{
  registered, healthy, degraded, unhealthy, reserved, draining, disconnected, WorkerStatus,
  WorkerDescriptor, WorkerReservation,
}
use dub_manga_studio.Pool.Count.{count, count-drop_worker, HasKeys-drop_worker}

-- A registered worker counts the reservations that are held on it, and these are within its limit;
-- none is held on a worker that is not registered.
abbrev pub Counted : Dict WorkerReservation → String → Option WorkerDescriptor → Type 0
Counted rs id none = count id rs ≡ 0
Counted rs id (some w) =
    (w.active_reservations ≡ count id rs) × (w.active_reservations ≤ w.max_reservations)

pub Counted-same :
    (id : String) (rs qs : Dict WorkerReservation)
    → count id qs ≡ count id rs
    → (found : Option WorkerDescriptor) → Counted rs id found
    → Counted qs id found
Counted-same id rs qs e none h = e ∙ h
Counted-same id rs qs e (some w) h = (h.0 ∙ sym e, h.1)

pub record Inv (p : WorkerPool) : Type 0 where
  pub counted : (id : String) → Counted p.reservations id (lookup id p.workers)
  pub names : All (λ (e : String × WorkerDescriptor). e.0 ≡ e.1.worker_id) p.workers
  pub distinct : HasKeys p.workers
  pub once : HasKeys p.reservations

pub publish-Inv :
    (a : Ambient) (type : EventType) (payload : Json) (id : String) (p : WorkerPool)
    → Inv p
    → Inv (publish a type payload id p).1
unfolding publish
publish-Inv a type payload id p inv = record {
  counted = inv.counted;
  names = inv.names;
  distinct = inv.distinct;
  once = inv.once;
}

-- A worker that is stored in place of one, or anew.
put_worker-Inv :
    (w : WorkerDescriptor) (checks : Dict HealthCheck) (p : WorkerPool)
    → Inv p
    → Counted p.reservations w.worker_id (some w)
    → Inv (record p { workers = put w.worker_id w p.workers; health_checks = checks })
put_worker-Inv w checks p inv h = record {
  counted = λ id.
      rw (lookup-put w.worker_id id w p.workers) (elim (Bool-cases (str_eq w.worker_id id)) [
        | inl t ↦
            let key : w.worker_id ≡ id = (eq_iff w.worker_id id).0 t in
            rw t (subst (λ k. Counted p.reservations k (some w)) key h)
        | inr t ↦ rw t (inv.counted id)
      ]);
  names =
      Every-put (λ (e : String × WorkerDescriptor). e.0 ≡ e.1.worker_id) w.worker_id w p.workers
        refl inv.names;
  distinct = HasKeys-put w.worker_id w p.workers inv.distinct;
  once = inv.once;
}

pub register_worker-Inv :
    (a : Ambient) (d : WorkerDescriptor) (check : Option HealthCheck) (p : WorkerPool)
    → Inv p
    → lookup d.worker_id p.workers ≡ none
    → d.active_reservations ≡ 0
    → Inv (register_worker a d check p).1
unfolding register_worker
register_worker-Inv a d check p inv new idle =
    let none_held : count d.worker_id p.reservations ≡ 0 = rw new at (inv.counted d.worker_id) in
    let p' =
      put_worker-Inv (record d { status = healthy; last_heartbeat_at = some a.now })
        (add_check d.worker_id check p.health_checks) p inv
        (omega (arith, idle, none_held), omega (arith, idle)) in
    and_then_keeps Inv (publish a _ _ _ _).0 _ _ (publish-Inv a _ _ _ _ p')
      (λ u. publish-Inv a _ _ _ _ p')

unregistered-Inv :
    (worker_id : String) (checks : Dict HealthCheck) (p : WorkerPool)
    → Inv p
    → Inv (record p {
      workers = remove worker_id p.workers;
      health_checks = checks;
      reservations = drop_worker worker_id p.reservations;
    })
unregistered-Inv worker_id checks p inv = record {
  counted = λ id.
      rw (lookup-remove worker_id id p.workers) (elim (Bool-cases (str_eq worker_id id)) [
        | inl t ↦ rw t (count-drop_worker id worker_id p.reservations ∙ rw t refl)
        | inr t ↦
            let same : count id (drop_worker worker_id p.reservations) ≡ count id p.reservations =
              count-drop_worker id worker_id p.reservations ∙ rw t refl in
            rw t (
              Counted-same id p.reservations (drop_worker worker_id p.reservations) same
                (lookup id p.workers) (inv.counted id))
      ]);
  names = Every-remove _ worker_id p.workers inv.names;
  distinct = HasKeys-remove worker_id p.workers inv.distinct;
  once = HasKeys-drop_worker worker_id p.reservations inv.once;
}

pub unregister_worker-Inv :
    (a : Ambient) (id : String) (p : WorkerPool) → Inv p → Inv (unregister_worker a id p).1
unfolding unregister_worker
unregister_worker-Inv a id p inv =
    let gone = unregistered-Inv id (remove id p.health_checks) p inv in
    elim (Option-cases (lookup id p.workers)) [
      | inl e ↦ rw (unregister_worker, e) gone
      | inr (w, e) ↦ rw (unregister_worker, e) (publish-Inv a _ _ _ _ gone)
    ]

-- A stored worker that is changed, but neither its id nor its reservations.
changed-Inv :
    (id : String) (w v : WorkerDescriptor) (p : WorkerPool)
    → Inv p
    → lookup id p.workers ≡ some w
    → v.worker_id ≡ w.worker_id
    → v.active_reservations ≡ w.active_reservations
    → v.max_reservations ≡ w.max_reservations
    → Inv (record p { workers = put id v p.workers })
changed-Inv id w v p inv found same_id same_active same_max =
    let key : id ≡ w.worker_id =
      All-lookup (λ (e : String × WorkerDescriptor). e.0 ≡ e.1.worker_id) id w p.workers inv.names
        found in
    let known : Counted p.reservations id (some w) = rw found at (inv.counted id) in
    let here : v.worker_id ≡ id = same_id ∙ sym key in
    subst (λ k. Inv (record p { workers = put k v p.workers })) here
      (put_worker-Inv v p.health_checks p inv (
        subst (λ k. Counted p.reservations k (some v)) (sym here)
          (same_active ∙ known.0, omega (arith, known.1, same_active, same_max))))

pub heartbeat-Inv :
    (now : ℕ) (id : String) (payload : Dict Json) (p : WorkerPool)
    → Inv p
    → Inv (heartbeat now id payload p).1
unfolding heartbeat
heartbeat-Inv now id payload p inv = elim (Option-cases (lookup id p.workers)) [
  | inl e ↦ rw (heartbeat, e) inv
  | inr (w, e) ↦ rw (heartbeat, e) (changed-Inv id w _ p inv e refl refl refl)
]

set_status-Inv :
    (id : String) (status : WorkerStatus) (p : WorkerPool)
    → Inv p
    → Inv (record p { workers = set_status id status p.workers })
unfolding set_status
set_status-Inv id status p inv = elim (Option-cases (lookup id p.workers)) [
  | inl e ↦
      rw (set_status, e)
        (record {
          counted = inv.counted;
          names = inv.names;
          distinct = inv.distinct;
          once = inv.once;
        })
  | inr (w, e) ↦ rw (set_status, e) (changed-Inv id w _ p inv e refl refl refl)
]

publish_health-Inv :
    (a : Ambient) (id : String) (status : WorkerStatus) (p : WorkerPool)
    → Inv p
    → Inv (publish_health a id status p).1
unfolding publish_health
publish_health-Inv a id unhealthy p inv = publish-Inv a _ _ _ p inv
publish_health-Inv a id registered p inv = inv
publish_health-Inv a id healthy p inv = inv
publish_health-Inv a id degraded p inv = inv
publish_health-Inv a id reserved p inv = inv
publish_health-Inv a id draining p inv = inv
publish_health-Inv a id disconnected p inv = inv

monitor_each-Inv :
    (a : Ambient) (stale_after : ℕ) (ws : List WorkerDescriptor) (p : WorkerPool)
    → Inv p
    → Inv (monitor_each a stale_after ws p).1
unfolding monitor_each
monitor_each-Inv a stale_after [] p inv = inv
monitor_each-Inv a stale_after (w ∷ ws) p inv =
    let status : WorkerStatus = health_of a.now stale_after p.health_checks w in
    let p' : WorkerPool = record p { workers = set_status w.worker_id status p.workers } in
    let inv' : Inv p' = set_status-Inv w.worker_id status p inv in
    let told = publish_health-Inv a w.worker_id status p' inv' in
    and_then_keeps Inv (publish_health a w.worker_id status p').0 _ _ told (λ u.
      let rest =
        monitor_each-Inv a stale_after ws (publish_health a w.worker_id status p').1 told in
      and_then_keeps Inv
        (monitor_each a stale_after ws (publish_health a w.worker_id status p').1).0 _ _ rest
        (λ results. rest))

pub health_monitor_once-Inv :
    (a : Ambient) (stale_after : ℕ) (p : WorkerPool)
    → Inv p
    → Inv (health_monitor_once a stale_after p).1
unfolding health_monitor_once
health_monitor_once-Inv a stale_after p inv =
    monitor_each-Inv a stale_after (values p.workers) p inv
