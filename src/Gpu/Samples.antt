-- ===== src/Gpu/Samples.antt =====
-- Small inputs, tests, and the properties at them.
use dub_manga_studio.Common.{
  ℕ, arith, ◌≤◌, ◌⊎◌, String, ◌≡◌, refl, true, Option, none, some, [], ◌∷◌, List, null, sort_by,
  leb_str, keep, All, map,
}
use dub_manga_studio.Common.Exec.{Result, ok, err}
use dub_manga_studio.Common.Dict.{Dict, lookup, put, remove, values}
use dub_manga_studio.Gpu.{
  Gpus, GpuError, runtime_error, Profile, by_id, create, device_of, first_device, active_devices,
  from_config, preferred, candidate_devices, evict_each, evict_until_available, roomier, place,
  allocate, change_first, with_allocation, mark_resident, touch, release_first, release, evict_from,
  evict_everywhere, evict_model,
}
use dub_manga_studio.Gpu.Memory.{
  resident, Allocation, Device, sum_vram, used, available, least_recent, evict_loop, evict_device,
}
use dub_manga_studio.Gpu.Invariant.{IsPlace, IsSound}
use dub_manga_studio.Gpu.Eviction.{Kept, NoResident, evict_device_lem}
use dub_manga_studio.Gpu.Placement.{settled, allocate_lem, Before, Decided, new_allocation}
use dub_manga_studio.Gpu.Release.{IsNew, release-allocate}
use dub_manga_studio.Gpu.Steps.{Step, Reach, configured, next, Reach-IsPlace, Reached-Inv}

abbrev pub profile : ℕ → ℕ → Profile
profile vram reserve = record {
  label = none;
  vram = some vram;
  reserve = some reserve;
  data_of = null;
}

-- Two cards, of 8 and of 10 units with 1 in reserve.
abbrev pub profiles : Dict Profile
profiles = ("left", profile 8 0) ∷ ("right", profile 10 1) ∷ []

program : Unit {0}
unfolding lookup put remove values sort_by leb_str keep by_id create device_of first_device
    active_devices from_config preferred candidate_devices evict_each evict_until_available roomier
    place allocate change_first with_allocation mark_resident touch release_first release evict_from
    evict_everywhere evict_model sum_vram used available least_recent evict_loop evict_device
program = tt

abbrev pub cards : Gpus
cards = record {
  devices =
      ("left", device_of "left" (profile 8 0)) ∷ ("right", device_of "right" (profile 10 1)) ∷ [];
}

-- A model of 6 goes to the right, and is marked resident; then one of 7 to the left.
abbrev pub first : Gpus
first = (allocate "a" 1 "tts" 6 none true null cards).1

abbrev pub second : Gpus
second = (mark_resident 2 "a" first).1

abbrev pub third : Gpus
third = (allocate "b" 3 "vlm" 7 none true null second).1

abbrev where_put : Result GpuError Allocation → Option String
where_put (ok x) = some x.gpu_id
where_put (err _) = none

abbrev held : Gpus → List ℕ
held s = map used (values s.devices)

places_test :
    (where_put (allocate "a" 1 "tts" 6 none true null cards).0 ≡ some "right")
    × (where_put (allocate "b" 3 "vlm" 7 none true null second).0 ≡ some "left")
    × (held third ≡ 7 ∷ 6 ∷ [])
unfolding program
places_test = (refl, refl, refl)

-- The resident model on the right makes room for one of 9.
evicts_test :
    (where_put (allocate "c" 4 "asr" 9 none true null third).0 ≡ some "right")
    × (held (allocate "c" 4 "asr" 9 none true null third).1 ≡ 7 ∷ 9 ∷ [])
unfolding program
evicts_test = (refl, refl)

-- A request that no device can meet raises, and the resident model is gone all the same.
too_large_test :
    allocate "c" 4 "asr" 20 none true null third ≡ (err runtime_error, settled 20 none true third)
unfolding program
too_large_test = refl

too_large_held : held (allocate "c" 4 "asr" 20 none true null third).1 ≡ 7 ∷ 0 ∷ []
unfolding program
too_large_held = refl

cards-Reach : Reach null profiles cards
unfolding program
cards-Reach = configured "auto" true refl

third-Reach : Reach null profiles third
third-Reach =
    next
      (next (next cards-Reach (Step.allocating "a" 1 "tts" 6 none true null)) (Step.marking 2 "a"))
      (Step.allocating "b" 3 "vlm" 7 none true null)

Reach-IsPlace_example : All IsPlace third.devices
Reach-IsPlace_example = Reach-IsPlace third-Reach

allocate_lem_example :
    (t : Gpus) × Before "c" 4 "asr" 9 none true null third t
    × Decided "c" 4 "asr" 9 none true null third t
allocate_lem_example = allocate_lem "c" 4 "asr" 9 none true null third (Reached-Inv third-Reach)

abbrev right : Device
right = record {
  gpu_id = "right";
  label = "right";
  total_vram = 10;
  reserve_vram = 1;
  allocations =
      (
        "a",
        record (new_allocation "a" 1 "tts" 6 null (device_of "right" (profile 10 1))) {
          status = resident;
          last_used_at = 2;
        },
      )
      ∷ [];
  metadata = null;
}

right-IsSound : IsSound right
unfolding program
right-IsSound = record { fits = omega arith; entries = ((refl, refl, refl), tt); once = (tt, tt) }

evict_device_lem_example :
    ((9 ≤ available (evict_device 9 right)) ⊎ NoResident (evict_device 9 right))
    × Kept right (evict_device 9 right)
    × (9 ≤ available right → evict_device 9 right ≡ right)
evict_device_lem_example = evict_device_lem 9 right right-IsSound

settled-IsNew : IsNew "c" (settled 9 none true third)
unfolding program
settled-IsNew = (refl, (refl, tt))

ran :
    (allocate "c" 4 "asr" 9 none true null third).0
    ≡ ok (new_allocation "c" 4 "asr" 9 null (device_of "right" (profile 10 1)))
unfolding program
ran = refl

release-allocate_example :
    release "c" (allocate "c" 4 "asr" 9 none true null third).1
    ≡ (ok true, settled 9 none true third)
release-allocate_example =
    release-allocate "c" 4 "asr" 9 none true null third
      (new_allocation "c" 4 "asr" 9 null (device_of "right" (profile 10 1)))
      (Reached-Inv third-Reach) settled-IsNew ran
