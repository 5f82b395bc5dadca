-- ===== src/Pool/Count.antt =====
-- How many reservations are held on a worker.
use dub_manga_studio.Common.{
  ℕ, ◌+◌, String, ◌≡◌, ◌≢◌, refl, Bool, none, some, [], ◌∷◌, inl, inr, if◌then◌else◌, Bool-cases,
  arith, eq_iff, str_eq, All,
}
use dub_manga_studio.Common.Dict.{Dict, lookup, put, remove}
use dub_manga_studio.Common.Dict.Entries.{HasKeys}
use dub_manga_studio.Pool.{drop_worker}
use dub_manga_studio.Pool.Worker.{WorkerReservation}

abbrev pub one_if : Bool → ℕ
one_if b = if b then 1 else 0

unfoldable pub count : String → Dict WorkerReservation → ℕ
count id [] = 0
count id ((k, r) ∷ rs) = one_if (str_eq r.worker_id id) + count id rs

pub count-put :
    (id k : String) (r : WorkerReservation) (rs : Dict WorkerReservation)
    → lookup k rs ≡ none
    → count id (put k r rs) ≡ one_if (str_eq r.worker_id id) + count id rs
unfolding count put lookup
count-put id k r [] e = refl
count-put id k r ((j, q) ∷ rs) e = elim (Bool-cases (str_eq j k)) [
  | inl t ↦ absurd (let e' = rw t at e in cc)
  | inr t ↦ let rest = count-put id k r rs (rw t at e) in rw t (omega (arith, rest))
]

remove-absent :
    (k : String) (rs : Dict WorkerReservation)
    → All (λ (e : String × WorkerReservation). e.0 ≢ k) rs
    → remove k rs ≡ rs
unfolding remove
remove-absent k [] h = refl
remove-absent k ((j, q) ∷ rs) h = elim (Bool-cases (str_eq j k)) [
  | inl t ↦ absurd (h.0 ((eq_iff j k).0 t))
  | inr t ↦ rw t (rw (remove-absent k rs h.1) refl)
]

pub count-remove :
    (id k : String) (r : WorkerReservation) (rs : Dict WorkerReservation)
    → HasKeys rs
    → lookup k rs ≡ some r
    → count id rs ≡ one_if (str_eq r.worker_id id) + count id (remove k rs)
unfolding count remove lookup
count-remove id k r [] keys e = absurd (cc)
count-remove id k r ((j, q) ∷ rs) keys e = elim (Bool-cases (str_eq j k)) [
  | inl t ↦
      let same : q ≡ r = (let e' = rw t at e in cc) in
      let key : j ≡ k = (eq_iff j k).0 t in
      rw t (rw (remove-absent k rs (rw key at keys.0), same) refl)
  | inr t ↦ let rest = count-remove id k r rs keys.1 (rw t at e) in rw t (omega (arith, rest))
]

pub count-drop_worker :
    (id worker_id : String) (rs : Dict WorkerReservation)
    → count id (drop_worker worker_id rs) ≡ (if str_eq worker_id id then 0 else count id rs)
unfolding count drop_worker
count-drop_worker id worker_id [] = ground arith
count-drop_worker id worker_id ((k, r) ∷ rs) = ground (
  arith,
  eq_iff worker_id id,
  eq_iff r.worker_id worker_id,
  eq_iff r.worker_id id,
  count-drop_worker id worker_id rs,
)

All-drop_worker :
    (P : String × WorkerReservation → Type 0) (worker_id : String) (rs : Dict WorkerReservation)
    → All P rs
    → All P (drop_worker worker_id rs)
unfolding drop_worker
All-drop_worker P worker_id [] h = tt
All-drop_worker P worker_id ((k, r) ∷ rs) h = elim (Bool-cases (str_eq r.worker_id worker_id)) [
  | inl t ↦ rw t (All-drop_worker P worker_id rs h.1)
  | inr t ↦ rw t (h.0, All-drop_worker P worker_id rs h.1)
]

pub HasKeys-drop_worker :
    (worker_id : String) (rs : Dict WorkerReservation)
    → HasKeys rs
    → HasKeys (drop_worker worker_id rs)
unfolding drop_worker
HasKeys-drop_worker worker_id [] h = tt
HasKeys-drop_worker worker_id ((k, r) ∷ rs) h = elim (Bool-cases (str_eq r.worker_id worker_id)) [
  | inl t ↦ rw t (HasKeys-drop_worker worker_id rs h.1)
  | inr t ↦ rw t (All-drop_worker _ worker_id rs h.0, HasKeys-drop_worker worker_id rs h.1)
]
