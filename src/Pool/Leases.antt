-- ===== src/Pool/Leases.antt =====
-- `reserve_worker`.
use dub_manga_studio.Common.{
  ℕ, ◌+◌, ◌≤◌, String, ◌≡◌, refl, Option, none, some, [], inl, inr, ◌⊎◌, Bool-cases, List-cases,
  arith, eq_iff, eq_refl, str_eq, subst, Json,
}
use dub_manga_studio.Common.Exec.{ok, err}
use dub_manga_studio.Common.Dict.{lookup, put, lookup-put}
use dub_manga_studio.Common.Dict.Entries.{HasKeys-put, Every-put}
use dub_manga_studio.Pool.{
  expiry, WorkerPool, runtime_error, Ambient, expire_reservations, taken, reserve_first, candidates,
  reserve_worker,
}
use dub_manga_studio.Pool.Worker.{WorkerDescriptor, WorkerReservation, WorkerMatchCriteria}
use dub_manga_studio.Pool.Count.{one_if, count, count-put}
use dub_manga_studio.Pool.Changes.{Counted, Counted-same, Inv}
use dub_manga_studio.Pool.Expiry.{expire_reservations-Inv, absent-expire_each}
use dub_manga_studio.Pool.Eligible.{
  IsEligible, IsCandidate, candidates-IsCandidate, eligible_lem, candidates-empty,
}

module _ (a : Ambient) (lower : String → String) (criteria : WorkerMatchCriteria) (ttl : Option ℕ)
    (metadata : Json) where
  -- The worker, and what it is given.
  abbrev pub reservation_on : WorkerDescriptor → WorkerReservation
  reservation_on w = record {
    reservation_id = a.new_id;
    worker_id = w.worker_id;
    model_id = w.capabilities.model_id;
    created_at = a.now;
    expires_at = expiry a.now ttl;
    metadata = metadata;
  }

  abbrev pub reserved_on : WorkerDescriptor → WorkerPool → WorkerPool
  reserved_on w p = record p {
    workers = put w.worker_id (taken w) p.workers;
    reservations = put a.new_id (reservation_on w) p.reservations;
  }

  abbrev ReserveOutcome : WorkerPool → WorkerPool → Type 0
  ReserveOutcome p t =
      ((candidates lower criteria t ≡ [])
        × (reserve_worker a lower criteria ttl metadata p ≡ (err runtime_error, t)))
      ⊎ ((w : WorkerDescriptor) × IsCandidate lower criteria t w
          × (reserve_worker a lower criteria ttl metadata p
              ≡ (ok (reservation_on w), reserved_on w t)))

  reserve_worker_tests : (p : WorkerPool) → Inv p → ReserveOutcome p (expire_reservations a.now p)
  unfolding reserve_worker reserve_first
  reserve_worker_tests p inv =
      let t : WorkerPool = expire_reservations a.now p in
      let all = candidates-IsCandidate lower criteria t (expire_reservations-Inv a.now p inv) in
      elim (List-cases (candidates lower criteria t)) [
        | inl e ↦ inl (e, rw (reserve_worker, e) refl)
        | inr (w, ws, e) ↦ inr (w, (rw e at all).0, rw (reserve_worker, e) refl)
      ]

  abbrev pub Reserved : WorkerPool → WorkerPool → Type 0
  Reserved p t =
      (((w : WorkerDescriptor) → IsEligible lower criteria t w → ⊥)
        × (reserve_worker a lower criteria ttl metadata p ≡ (err runtime_error, t)))
      ⊎ ((w : WorkerDescriptor) × IsEligible lower criteria t w
          × (reserve_worker a lower criteria ttl metadata p
              ≡ (ok (reservation_on w), reserved_on w t)))

  -- `reserve_worker` takes the expired reservations away first. It raises exactly where no worker may
  -- be taken then: a stored one that is not unhealthy, disconnected or draining, is below its limit,
  -- and has what the query asks for. Else it reserves such a worker, which counts one reservation
  -- more, and remembers the reservation.
  pub reserve_worker_lem : (p : WorkerPool) → Inv p → Reserved p (expire_reservations a.now p)
  reserve_worker_lem p inv =
      let t : WorkerPool = expire_reservations a.now p in
      elim (reserve_worker_tests p inv) [
        | inl (e, run) ↦ inl (
          (λ w k. candidates-empty lower criteria t w e ((eligible_lem lower criteria t w).1 k)),
          run,
        )
        | inr (w, c, run) ↦ inr (w, (eligible_lem lower criteria t w).0 c, run)
      ]

  reserved-Inv :
      (w : WorkerDescriptor) (t : WorkerPool)
      → Inv t
      → IsCandidate lower criteria t w
      → lookup a.new_id t.reservations ≡ none
      → Inv (reserved_on w t)
  unfolding taken
  reserved-Inv w t inv chosen new =
      let known : Counted t.reservations w.worker_id (some w) =
        rw chosen.0 at (inv.counted w.worker_id) in
      let more : (k : String)
          → count k (put a.new_id (reservation_on w) t.reservations)
            ≡ one_if (str_eq w.worker_id k) + count k t.reservations =
        λ k. count-put k a.new_id (reservation_on w) t.reservations new in
      record {
        counted = λ k.
            rw (lookup-put w.worker_id k (taken w) t.workers)
              (elim (Bool-cases (str_eq w.worker_id k)) [
                | inl u ↦
                    let key : w.worker_id ≡ k = (eq_iff w.worker_id k).0 u in
                    let one : one_if (str_eq w.worker_id w.worker_id) ≡ 1 =
                      rw (eq_refl w.worker_id) refl in
                    let here = more w.worker_id in
                    let below : w.active_reservations + 1 ≤ w.max_reservations =
                      ground (arith, chosen.2) in
                    rw u (
                      subst
                        (λ j.
                          Counted (put a.new_id (reservation_on w) t.reservations) j
                            (some (taken w)))
                        key (omega (arith, known.0, here, one), below))
                | inr u ↦
                    let same : count k (put a.new_id (reservation_on w) t.reservations)
                        ≡ count k t.reservations =
                      (let all = rw u at (more k) in omega (arith, all)) in
                    rw u (Counted-same k t.reservations _ same (lookup k t.workers) (inv.counted k))
              ]);
        names =
            Every-put (λ (e : String × WorkerDescriptor). e.0 ≡ e.1.worker_id) w.worker_id (taken w)
              t.workers refl inv.names;
        distinct = HasKeys-put w.worker_id (taken w) t.workers inv.distinct;
        once = HasKeys-put a.new_id (reservation_on w) t.reservations inv.once;
      }

  pub reserve_worker-Inv :
      (p : WorkerPool)
      → Inv p
      → lookup a.new_id p.reservations ≡ none
      → Inv (reserve_worker a lower criteria ttl metadata p).1
  unfolding expire_reservations
  reserve_worker-Inv p inv new =
      let t : WorkerPool = expire_reservations a.now p in
      let kept : Inv t = expire_reservations-Inv a.now p inv in
      elim (reserve_worker_tests p inv) [
        | inl (_, run) ↦ rw run kept
        | inr (w, chosen, run) ↦
            rw run (
              reserved-Inv w t kept chosen (absent-expire_each a.now a.new_id p.reservations p new))
      ]
