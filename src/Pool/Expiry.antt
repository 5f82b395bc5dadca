-- ===== src/Pool/Expiry.antt =====
-- Reservations that are released or expire: the pool keeps what `Inv` says of it.
use dub_manga_studio.Common.{
  ℕ, ◌+◌, String, ◌≡◌, ◌≢◌, refl, sym, ◌∙◌, none, some, [], ◌∷◌, inl, inr, Bool-cases, Option-cases,
  arith, eq_iff, eq_refl, str_eq, All, All-map, All-both, subst,
}
use dub_manga_studio.Common.Dict.{Dict, lookup, remove, lookup-put, lookup-remove}
use dub_manga_studio.Common.Dict.Entries.{
  HasKeys, HasKeys-put, HasKeys-remove, Every-put, All-lookup, lookup-each,
}
use dub_manga_studio.Pool.{
  WorkerPool, freed, free_worker, has_expired, dropped, expire_each, expire_reservations,
  release_worker,
}
use dub_manga_studio.Pool.Worker.{WorkerDescriptor, WorkerReservation}
use dub_manga_studio.Pool.Count.{one_if, count, count-remove}
use dub_manga_studio.Pool.Changes.{Counted, Counted-same, Inv}

-- Taking a reservation away that is held frees its worker by one.
dropped-Inv :
    (id : String) (r : WorkerReservation) (p : WorkerPool)
    → Inv p
    → lookup id p.reservations ≡ some r
    → Inv (dropped id r p)
unfolding free_worker freed
dropped-Inv id r p inv held =
    let less : (k : String)
        → count k p.reservations
          ≡ one_if (str_eq r.worker_id k) + count k (remove id p.reservations) =
      λ k. count-remove k id r p.reservations inv.once held in
    let here = less r.worker_id in
    elim (Option-cases (lookup r.worker_id p.workers)) [
      | inl e ↦
          let zero_held : count r.worker_id p.reservations ≡ 0 =
            rw e at (inv.counted r.worker_id) in
          let one : one_if (str_eq r.worker_id r.worker_id) ≡ 1 = rw (eq_refl r.worker_id) refl in
          absurd (omega (arith, here, zero_held, one))
      | inr (w, e) ↦
          let known : Counted p.reservations r.worker_id (some w) =
            rw e at (inv.counted r.worker_id) in
          rw (free_worker, e)
            (record {
              counted = λ k.
                  rw (lookup-put r.worker_id k (freed w) p.workers)
                    (elim (Bool-cases (str_eq r.worker_id k)) [
                      | inl t ↦
                          let key : r.worker_id ≡ k = (eq_iff r.worker_id k).0 t in
                          let one : one_if (str_eq r.worker_id r.worker_id) ≡ 1 =
                            rw (eq_refl r.worker_id) refl in
                          rw t (
                            subst (λ j. Counted (remove id p.reservations) j (some (freed w))) key
                              (omega (arith, known.0, here, one), omega (arith, known.1)))
                      | inr t ↦
                          let same : count k (remove id p.reservations) ≡ count k p.reservations =
                            (let all = rw t at (less k) in omega (arith, all)) in
                          rw t (
                            Counted-same k p.reservations (remove id p.reservations) same
                              (lookup k p.workers) (inv.counted k))
                    ]);
              names =
                  Every-put (λ (e : String × WorkerDescriptor). e.0 ≡ e.1.worker_id) r.worker_id
                    (freed w) p.workers
                    (All-lookup (λ (e : String × WorkerDescriptor). e.0 ≡ e.1.worker_id) r.worker_id
                      w p.workers inv.names e)
                    inv.names;
              distinct = HasKeys-put r.worker_id (freed w) p.workers inv.distinct;
              once = HasKeys-remove id p.reservations inv.once;
            })
    ]

pub release_worker-Inv : (id : String) (p : WorkerPool) → Inv p → Inv (release_worker id p).1
unfolding release_worker
release_worker-Inv id p inv = elim (Option-cases (lookup id p.reservations)) [
  | inl e ↦ rw (release_worker, e) inv
  | inr (r, e) ↦ rw (release_worker, e) (dropped-Inv id r p inv e)
]

Held : WorkerPool → Dict WorkerReservation → Type 0
Held p rs = All (λ (e : String × WorkerReservation). lookup e.0 p.reservations ≡ some e.1) rs

Held-dropped :
    (id : String) (r : WorkerReservation) (p : WorkerPool) (rs : Dict WorkerReservation)
    → All (λ (e : String × WorkerReservation). e.0 ≢ id) rs
    → Held p rs
    → Held (dropped id r p) rs
unfolding Held
Held-dropped id r p rs apart held =
    All-map
      (λ e h. rw (lookup-remove id e.0 p.reservations) (elim (Bool-cases (str_eq id e.0)) [
        | inl t ↦ absurd (h.0 (sym ((eq_iff id e.0).0 t)))
        | inr t ↦ rw t h.1
      ]))
      rs (All-both (λ e. e.0 ≢ id) (λ e. lookup e.0 p.reservations ≡ some e.1) rs apart held)

expire_each-Inv :
    (now : ℕ) (rs : Dict WorkerReservation) (p : WorkerPool)
    → HasKeys rs
    → Held p rs
    → Inv p
    → Inv (expire_each now rs p)
unfolding expire_each Held
expire_each-Inv now [] p keys held inv = inv
expire_each-Inv now ((id, r) ∷ rs) p keys held inv = elim (Bool-cases (has_expired now r)) [
  | inl t ↦ rw t (
      expire_each-Inv now rs (dropped id r p) keys.1 (Held-dropped id r p rs keys.0 held.1)
        (dropped-Inv id r p inv held.0))
  | inr t ↦ rw t (expire_each-Inv now rs p keys.1 held.1 inv)
]

pub expire_reservations-Inv : (now : ℕ) (p : WorkerPool) → Inv p → Inv (expire_reservations now p)
unfolding expire_reservations Held
expire_reservations-Inv now p inv =
    expire_each-Inv now p.reservations p inv.once (lookup-each p.reservations inv.once) inv

-- A reservation that is not held is not held after the expiry of others.
pub absent-expire_each :
    (now : ℕ) (k : String) (rs : Dict WorkerReservation) (p : WorkerPool)
    → lookup k p.reservations ≡ none
    → lookup k (expire_each now rs p).reservations ≡ none
unfolding expire_each
absent-expire_each now k [] p h = h
absent-expire_each now k ((id, r) ∷ rs) p h = elim (Bool-cases (has_expired now r)) [
  | inl t ↦
      rw (expire_each, t)
        (absent-expire_each now k rs (dropped id r p) (
          lookup-remove id k p.reservations
          ∙ (elim (Bool-cases (str_eq id k)) [ inl u ↦ rw u refl | inr u ↦ rw u h ])))
  | inr t ↦ rw (expire_each, t) (absent-expire_each now k rs p h)
]
