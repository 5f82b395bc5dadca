-- ===== src/Gpu/Steps.antt =====
-- The GPU scheduler's life as a sequence of operations.
use dub_manga_studio.Common.{
  str_eq, List-cases, ◌||◌, ℕ, String, ◌≡◌, refl, Bool, Option, List, [], ◌∷◌, All, Json,
  Bool-cases, inl, inr, arith,
}
use dub_manga_studio.Common.Exec.{ok}
use dub_manga_studio.Common.Dict.{Dict, put}
use dub_manga_studio.Common.Dict.Entries.{HasKeys-put, Every-put}
use dub_manga_studio.Gpu.{
  Gpus, Profile, by_id, create, active_devices, first_device, device_of, from_config, allocate,
  mark_resident, touch, release, evict_model,
}
use dub_manga_studio.Gpu.Memory.{Device, used, sum_vram}
use dub_manga_studio.Gpu.Invariant.{IsSound, IsPlace, Inv}
use dub_manga_studio.Gpu.Changes.{mark_resident-Inv, touch-Inv, release-Inv, evict_model-Inv}
use dub_manga_studio.Gpu.Placement.{allocate-Inv}

pub data Step (s : Gpus) : Gpus → Type 0 where
  allocating :
      (id : String) (now : ℕ) (model : String) (required : ℕ) (choice : Option String)
      (allow_eviction : Bool) (metadata : Json)
      → Step s (allocate id now model required choice allow_eviction metadata s).1
  marking : (now : ℕ) (id : String) → Step s (mark_resident now id s).1
  touching : (now : ℕ) (id : String) → Step s (touch now id s).1
  releasing : (id : String) → Step s (release id s).1
  evicting : (model : String) → Step s (evict_model model s).1

Step-Inv : {s t : Gpus} → Step s t → Inv s → Inv t
Step-Inv {s} (allocating id now model required choice allow_eviction metadata) inv =
    allocate-Inv id now model required choice allow_eviction metadata s inv
Step-Inv {s} (marking now id) inv = mark_resident-Inv now id s inv
Step-Inv {s} (touching now id) inv = touch-Inv now id s inv
Step-Inv {s} (releasing id) inv = release-Inv id s inv
Step-Inv {s} (evicting model) inv = evict_model-Inv model s inv

-- A device with no allocations.
abbrev IsBare : Device → Type 0
IsBare d = d.allocations ≡ []

bare-IsSound : (d : Device) → IsBare d → IsSound d
unfolding used sum_vram
bare-IsSound d e = record { fits = rw e (omega arith); entries = rw e tt; once = rw e tt }

by_id-Inv :
    (ds : List Device) (acc : Dict Device)
    → All IsBare ds
    → Inv (record { devices = acc })
    → Inv (record { devices = by_id ds acc })
unfolding by_id
by_id-Inv [] acc h inv = inv
by_id-Inv (d ∷ ds) acc h inv = by_id-Inv ds (put d.gpu_id d acc) h.1 (record {
  places = Every-put IsPlace d.gpu_id d acc (refl, bare-IsSound d h.0) inv.places;
  distinct = HasKeys-put d.gpu_id d acc inv.distinct;
})

pub create-Inv : (ds : List Device) (s : Gpus) → All IsBare ds → create ds ≡ ok s → Inv s
unfolding create
create-Inv [] s h e = absurd (cc)
create-Inv (d ∷ ds) s h e =
    let same : record { devices = by_id (d ∷ ds) [] } ≡ s = cc in
    rw (← same) (by_id-Inv (d ∷ ds) [] h (record { places = tt; distinct = tt }))

active_devices-IsBare :
    (active : String) (active_only : Bool) (profiles : Dict Profile)
    → All IsBare (active_devices active active_only profiles)
unfolding active_devices device_of
active_devices-IsBare active active_only [] = tt
active_devices-IsBare active active_only ((gpu_id, p) ∷ ps) =
    let rest = active_devices-IsBare active active_only ps in
    elim (Bool-cases active_only) [
      | inl e ↦ elim (Bool-cases (str_eq active "auto" || str_eq active gpu_id)) [
        | inl t ↦ rw e (rw t (refl, rest))
        | inr t ↦ rw e (rw t rest)
      ]
      | inr e ↦ rw e (refl, rest)
    ]

first_device-IsBare :
    (empty : Json) (profiles : Dict Profile) → All IsBare (first_device empty profiles)
unfolding first_device
first_device-IsBare empty [] = tt
first_device-IsBare empty ((gpu_id, p) ∷ ps) = (refl, tt)

from_config-Inv :
    (empty : Json) (profiles : Dict Profile) (active : String) (active_only : Bool) (s : Gpus)
    → from_config empty profiles active active_only ≡ ok s
    → Inv s
unfolding from_config
from_config-Inv empty profiles active active_only s e =
    elim (List-cases (active_devices active active_only profiles)) [
      | inl t ↦
          create-Inv (first_device empty profiles) s (first_device-IsBare empty profiles)
            (rw (from_config, t) at e)
      | inr (d, ds, t) ↦
          create-Inv (d ∷ ds) s (rw t at (active_devices-IsBare active active_only profiles))
            (rw (from_config, t) at e)
    ]

-- What a scheduler that was made from a configuration comes to.
pub data Reach (empty : Json) (profiles : Dict Profile) : Gpus → Type 0 where
  configured :
      {s : Gpus} (active : String) (active_only : Bool)
      → from_config empty profiles active active_only ≡ ok s
      → Reach empty profiles s
  next : {s t : Gpus} → Reach empty profiles s → Step s t → Reach empty profiles t

pub Reached-Inv :
    {empty : Json} {profiles : Dict Profile} {s : Gpus} → Reach empty profiles s → Inv s
Reached-Inv {empty} {profiles} {s} (configured active active_only e) =
    from_config-Inv empty profiles active active_only s e
Reached-Inv (next r st) = Step-Inv st (Reached-Inv r)

-- Whatever operations are called, in any order, on a scheduler that a configuration gave: no device
-- is over-committed, that is, what its reserved and resident allocations hold is within its memory
-- less its reserve. Each device and each allocation stands under its own id, an allocation names
-- the device that it is on, and none that is released or evicted is kept.
pub Reach-IsPlace :
    {empty : Json} {profiles : Dict Profile} {s : Gpus}
    → Reach empty profiles s
    → All IsPlace s.devices
Reach-IsPlace r = (Reached-Inv r).places
