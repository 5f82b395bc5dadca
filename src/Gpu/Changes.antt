-- ===== src/Gpu/Changes.antt =====
-- Each operation keeps the devices as `Inv` describes them.
use dub_manga_studio.Common.{
  ℕ, String, ◌≡◌, refl, true, Option, none, some, [], ◌∷◌, inl, inr, Option-cases, arith, All,
}
use dub_manga_studio.Common.Exec.{Result, ok, err, pure, and_then}
use dub_manga_studio.Common.Dict.{Dict, lookup, put}
use dub_manga_studio.Common.Dict.Entries.{HasKeys-put, Every-put, All-lookup}
use dub_manga_studio.Common.Dict.Shape.{SameKeys, SameKeys-refl, HasKeys-SameKeys}
use dub_manga_studio.Gpu.Memory.{Allocation, Device, holds_memory, used}
use dub_manga_studio.Gpu.{
  Gpus, GpuError, mark_resident, touch, evict_each, change_first, with_allocation, at_residence,
  touched_at, release_first, release, evict_from, evict_everywhere, evict_model,
}
use dub_manga_studio.Gpu.Charge.{
  charge, sum_vram-put_same, sum_vram-evict_from, All-evict_from, HasKeys-evict_from,
}
use dub_manga_studio.Gpu.Invariant.{IsEntry, IsSound, IsPlace, Inv}
use dub_manga_studio.Gpu.Eviction.{without-IsSound, evict_device-IsSound, evict_device-gpu_id}

-- A change of an allocation that leaves its id, its device and what it counts for.
pub record IsMild (change : Allocation → Allocation) : Type 0 where
  pub same_id : (x : Allocation) → (change x).allocation_id ≡ x.allocation_id
  pub same_gpu : (x : Allocation) → (change x).gpu_id ≡ x.gpu_id
  pub same_vram : (x : Allocation) → (change x).vram ≡ x.vram
  pub holds :
      (x : Allocation) → holds_memory x.status ≡ true → holds_memory (change x).status ≡ true

changed-IsSound :
    (change : Allocation → Allocation)
    → IsMild change
    → (id : String) (x : Allocation) (d : Device) → IsSound d
    → lookup id d.allocations ≡ some x
    → IsSound (record d { allocations = put id (change x) d.allocations })
unfolding used
changed-IsSound change mild id x d v found =
    let entry = All-lookup (IsEntry d.gpu_id) id x d.allocations v.entries found in
    let holds = mild.holds x entry.2 in
    let same : charge (change x) ≡ charge x = rw (entry.2, holds) (mild.same_vram x) in
    record {
      fits = rw (sum_vram-put_same id x (change x) d.allocations found same) v.fits;
      entries =
          Every-put (IsEntry d.gpu_id) id (change x) d.allocations
            (rw (mild.same_id x) entry.0, rw (mild.same_gpu x) entry.1, holds) v.entries;
      once = HasKeys-put id (change x) d.allocations v.once;
    }

-- The devices after a loop over them: the same ids, and each device as it should be.
abbrev pub Sound : Dict Device → Dict Device → Type 0
Sound ds es = All IsPlace es × SameKeys ds es

abbrev FoundSound : Dict Device → Option (Allocation × Dict Device) → Type 0
FoundSound ds none = Unit
FoundSound ds (some (x, es)) = Sound ds es

change_first-Sound :
    (change : Allocation → Allocation)
    → IsMild change
    → (id : String) (ds : Dict Device) → All IsPlace ds
    → FoundSound ds (change_first id change ds)
unfolding change_first
change_first-Sound change mild id [] h = tt
change_first-Sound change mild id ((g, d) ∷ ds) h = elim (Option-cases (lookup id d.allocations)) [
  | inl t ↦ elim (Option-cases (change_first id change ds)) [
    | inl t' ↦ rw (FoundSound, change_first, t) (rw t' tt)
    | inr (p, t') ↦
        let rest : Sound ds p.1 = rw t' at (change_first-Sound change mild id ds h.1) in
        rw (FoundSound, change_first, t) (rw t' ((h.0, rest.0), (refl, rest.1)))
  ]
  | inr (y, t) ↦
      rw (FoundSound, change_first, t)
        (((h.0.0, changed-IsSound change mild id y d h.0.1 t), h.1), (refl, SameKeys-refl ds))
]

with_allocation-Inv :
    (change : Allocation → Allocation)
    → IsMild change
    → (id : String) (s : Gpus) → Inv s
    → Inv (with_allocation id change s).1
unfolding with_allocation
with_allocation-Inv change mild id s inv = elim (Option-cases (change_first id change s.devices)) [
  | inl t ↦ rw (with_allocation, t) inv
  | inr (p, t) ↦
      let found : Sound s.devices p.1 =
        rw t at (change_first-Sound change mild id s.devices inv.places) in
      rw (with_allocation, t)
        (record {
          places = found.0;
          distinct = HasKeys-SameKeys s.devices p.1 found.1 inv.distinct;
        })
]

at_residence-IsMild : (now : ℕ) → IsMild (at_residence now)
at_residence-IsMild now = record {
  same_id = λ x. refl;
  same_gpu = λ x. refl;
  same_vram = λ x. refl;
  holds = λ x h. refl;
}

touched_at-IsMild : (now : ℕ) → IsMild (touched_at now)
touched_at-IsMild now = record {
  same_id = λ x. refl;
  same_gpu = λ x. refl;
  same_vram = λ x. refl;
  holds = λ x h. h;
}

pub mark_resident-Inv : (now : ℕ) (id : String) (s : Gpus) → Inv s → Inv (mark_resident now id s).1
unfolding mark_resident
mark_resident-Inv now id = with_allocation-Inv (at_residence now) (at_residence-IsMild now) id

forgotten-Inv :
    (r : Result GpuError Allocation) (s : Gpus) → Inv s → Inv (and_then r (λ _. pure tt) s).1
forgotten-Inv (ok x) s inv = inv
forgotten-Inv (err e) s inv = inv

pub touch-Inv : (now : ℕ) (id : String) (s : Gpus) → Inv s → Inv (touch now id s).1
unfolding touch
touch-Inv now id s inv =
    forgotten-Inv (with_allocation id (touched_at now) s).0
      (with_allocation id (touched_at now) s).1
      (with_allocation-Inv (touched_at now) (touched_at-IsMild now) id s inv)

release_first-Sound :
    (id : String) (ds : Dict Device) → All IsPlace ds → Sound ds (release_first id ds).1
unfolding release_first
release_first-Sound id [] h = (tt, tt)
release_first-Sound id ((g, d) ∷ ds) h = elim (Option-cases (lookup id d.allocations)) [
  | inl t ↦
      let rest = release_first-Sound id ds h.1 in
      rw (release_first, t) ((h.0, rest.0), (refl, rest.1))
  | inr (y, t) ↦
      rw (release_first, t) (((h.0.0, without-IsSound id d h.0.1), h.1), (refl, SameKeys-refl ds))
]

Sound-Inv :
    (s : Gpus) (ds : Dict Device) → Inv s → Sound s.devices ds → Inv (record { devices = ds })
Sound-Inv s ds inv sound = record {
  places = sound.0;
  distinct = HasKeys-SameKeys s.devices ds sound.1 inv.distinct;
}

pub release-Inv : (id : String) (s : Gpus) → Inv s → Inv (release id s).1
unfolding release
release-Inv id s inv = Sound-Inv s _ inv (release_first-Sound id s.devices inv.places)

evicted_from-IsSound :
    (model : String) (d : Device)
    → IsSound d
    → IsSound (record d { allocations = (evict_from model d.allocations).1 })
unfolding used
evicted_from-IsSound model d v = record {
  fits =
      let less = sum_vram-evict_from model d.allocations in
      let fits = v.fits in omega (arith, less, fits);
  entries = All-evict_from (IsEntry d.gpu_id) model d.allocations v.entries;
  once = HasKeys-evict_from model d.allocations v.once;
}

evict_everywhere-Sound :
    (model : String) (ds : Dict Device) → All IsPlace ds → Sound ds (evict_everywhere model ds).1
unfolding evict_everywhere
evict_everywhere-Sound model [] h = (tt, tt)
evict_everywhere-Sound model ((g, d) ∷ ds) h =
    let rest = evict_everywhere-Sound model ds h.1 in
    (((h.0.0, evicted_from-IsSound model d h.0.1), rest.0), (refl, rest.1))

pub evict_model-Inv : (model : String) (s : Gpus) → Inv s → Inv (evict_model model s).1
unfolding evict_model
evict_model-Inv model s inv = Sound-Inv s _ inv (evict_everywhere-Sound model s.devices inv.places)

pub evict_each-Sound :
    (required : ℕ) (ds : Dict Device) → All IsPlace ds → Sound ds (evict_each required ds)
unfolding evict_each
evict_each-Sound required [] h = (tt, tt)
evict_each-Sound required ((g, d) ∷ ds) h =
    let rest = evict_each-Sound required ds h.1 in
    (
      ((rw (evict_device-gpu_id required d) h.0.0, evict_device-IsSound required d h.0.1), rest.0),
      (refl, rest.1),
    )
