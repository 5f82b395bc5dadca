-- ===== src/Gpu/Release.antt =====
-- An allocation and its release.
use dub_manga_studio.Common.{
  ℕ, String, ◌≡◌, refl, Bool, true, Option, none, some, [], ◌∷◌, All, Json, Bool-cases, inl, inr,
  arith, eq_iff, eq_refl, str_eq, ap, subst,
}
use dub_manga_studio.Common.Exec.{ok}
use dub_manga_studio.Common.Dict.{Dict, put, lookup, remove, lookup-put_self}
use dub_manga_studio.Gpu.{Gpus, allocate, release, release_first}
use dub_manga_studio.Gpu.Memory.{Device, Allocation}
use dub_manga_studio.Gpu.Invariant.{Inv}
use dub_manga_studio.Gpu.Placement.{settled, new_allocation, allocate-Outcome}

remove-absent : (k : String) (d : Dict Allocation) → lookup k d ≡ none → remove k d ≡ d
unfolding remove lookup
remove-absent k [] e = refl
remove-absent k ((j, y) ∷ d) e = ground (arith, remove-absent k d)

remove-put :
    (k : String) (x : Allocation) (d : Dict Allocation)
    → lookup k d ≡ none
    → remove k (put k x d) ≡ d
unfolding remove put lookup
remove-put k x [] e = rw (eq_refl k) refl
remove-put k x ((j, y) ∷ d) e = elim (Bool-cases (str_eq j k)) [
  | inl t ↦ absurd (let e' = rw t at e in cc)
  | inr t ↦ rw t (rw t (ap (λ (r : Dict Allocation). (j, y) ∷ r) (remove-put k x d (rw t at e))))
]

-- No device has an allocation of that id.
abbrev pub IsNew : String → Gpus → Type 0
IsNew id t = All (λ (e : String × Device). lookup id e.1.allocations ≡ none) t.devices

release_first-put :
    (id : String) (x : Allocation) (d : Device) (ds : Dict Device)
    → All (λ (e : String × Device). lookup id e.1.allocations ≡ none) ds
    → lookup d.gpu_id ds ≡ some d
    → release_first id (put d.gpu_id (record d { allocations = put id x d.allocations }) ds)
      ≡ (true, ds)
unfolding release_first put lookup
release_first-put id x d [] h e = absurd (cc)
release_first-put id x d ((j, c) ∷ ds) h e = elim (Bool-cases (str_eq j d.gpu_id)) [
  | inl t ↦
      let key : j ≡ d.gpu_id = (eq_iff j d.gpu_id).0 t in
      let found : some c ≡ some d = rw t at e in
      let same : c ≡ d = cc in
      let absent = subst (λ (y : Device). lookup id y.allocations ≡ none) same h.0 in
      let entry : (d.gpu_id, d) ≡ (j, c) = cc in
      rw t (
        rw (release_first, lookup-put_self id x d.allocations)
          (rw (remove-put id x d.allocations absent)
            (ap (λ (y : String × Device). (true, y ∷ ds)) entry)))
  | inr t ↦ rw t (rw (release_first, h.0) (rw (release_first-put id x d ds h.1 (rw t at e)) refl))
]

-- An allocation that was made and is released: the devices are again as they were when it was
-- placed, where its id is new.
pub release-allocate :
    (id : String) (now : ℕ) (model : String) (required : ℕ) (choice : Option String)
    (allow_eviction : Bool) (metadata : Json) (s : Gpus) (x : Allocation)
    → Inv s
    → IsNew id (settled required choice allow_eviction s)
    → (allocate id now model required choice allow_eviction metadata s).0 ≡ ok x
    → release id (allocate id now model required choice allow_eviction metadata s).1
      ≡ (ok true, settled required choice allow_eviction s)
unfolding release
release-allocate id now model required choice allow_eviction metadata s x inv new e =
    elim (allocate-Outcome id now model required choice allow_eviction metadata s inv) [
      | inl (_, run) ↦ absurd (let e' = rw run at e in cc)
      | inr (d, found, room, _, _, run) ↦
          let t : Gpus = settled required choice allow_eviction s in
          rw run (
            rw
              (release_first-put id (new_allocation id now model required metadata d) d t.devices
                new found)
              refl)
    ]
