-- ===== src/Gpu.antt =====
-- src/chatterbox_manga_studio/services/gpu_scheduler.py: video memory, its allocations and their
-- eviction. Memory is counted in whole units: the sums of the program's floats are exact there.
-- An operation holds the lock from its start to its end, so it is one step.
pub mod Memory
pub mod Charge
pub mod Invariant
pub mod Eviction
pub mod Changes
pub mod Candidates
pub mod Placement
pub mod Steps
pub mod Release
mod Samples
use dub_manga_studio.Common.{
  ℕ, zero, suc, ◌-◌, String, Bool, true, false, ◌&&◌, ◌||◌, Option, none, some, List, [], ◌∷◌, ◌++◌,
  ltb, leb, leb_str, length, keep, sort_by, str_eq, if◌then◌else◌, Json, map,
}
use dub_manga_studio.Common.Exec.{Result, ok, err, Exec, pure, ◌>>◌}
use dub_manga_studio.Common.Dict.{Dict, lookup, put, remove, values}
use Memory.{
  AllocationStatus, reserved, resident, evicted, Allocation, Device, available, evict_device,
}

pub record Gpus : Type 0 where
  pub devices : Dict Device

pub data GpuError : Type 0 where
  value_error key_error runtime_error : GpuError

abbrev pub GpuOp : Type 0 → Type 0
GpuOp A = Exec Gpus GpuError A

-- GPUScheduler(devices)
unfoldable pub by_id : List Device → Dict Device → Dict Device
by_id [] acc = acc
by_id (d ∷ ds) acc = by_id ds (put d.gpu_id d acc)

unfoldable pub create : List Device → Result GpuError Gpus
create [] = err value_error
create (d ∷ ds) = ok (record { devices = by_id (d ∷ ds) [] })

-- One entry of `gpu_profiles`, with `none` for a key that is not there.
pub record Profile : Type 0 where
  pub label : Option String
  pub vram : Option ℕ
  pub reserve : Option ℕ
  pub data_of : Json

abbrev or_zero : Option ℕ → ℕ
or_zero none = 0
or_zero (some n) = n

abbrev or_text : Option String → String → String
or_text none t = t
or_text (some s) t = s

unfoldable pub device_of : String → Profile → Device
device_of gpu_id p = record {
  gpu_id = gpu_id;
  label = or_text p.label gpu_id;
  total_vram = or_zero p.vram;
  reserve_vram = or_zero p.reserve;
  allocations = [];
  metadata = p.data_of;
}

-- The fallback to the first profile: no reserve and no metadata.
unfoldable pub first_device : Json → Dict Profile → List Device
first_device empty [] = []
first_device empty ((gpu_id, p) ∷ _) =
    record {
      gpu_id = gpu_id;
      label = or_text p.label gpu_id;
      total_vram = or_zero p.vram;
      reserve_vram = 0;
      allocations = [];
      metadata = empty;
    }
    ∷ []

unfoldable pub active_devices : String → Bool → Dict Profile → List Device
active_devices active active_only [] = []
active_devices active active_only ((gpu_id, p) ∷ ps) =
    let rest = active_devices active active_only ps in
    if active_only
    then (if str_eq active "auto" || str_eq active gpu_id then device_of gpu_id p ∷ rest else rest)
    else device_of gpu_id p ∷ rest

-- from_config(config, active_only=), where `empty` is the default of `metadata`
unfoldable pub from_config : Json → Dict Profile → String → Bool → Result GpuError Gpus
from_config empty profiles active active_only = elim (active_devices active active_only profiles) [
  | [] ↦ create (first_device empty profiles)
  | d ∷ ds ↦ create (d ∷ ds)
]

-- `preferred_gpu_id and preferred_gpu_id in self.devices`
unfoldable pub preferred : Option String → Dict Device → Option Device
preferred none devices = none
preferred (some id) devices = if str_eq id "" then none else lookup id devices

-- _candidate_devices(required, preferred_gpu_id)
unfoldable pub candidate_devices : ℕ → Option String → Dict Device → List Device
candidate_devices required choice devices = elim (preferred choice devices) [
  | none ↦ keep (λ d. leb required (available d)) (values devices)
  | some d ↦ keep (λ d. leb required (available d)) (d ∷ [])
]

unfoldable pub evict_each : ℕ → Dict Device → Dict Device
evict_each required [] = []
evict_each required ((id, d) ∷ ds) = (id, evict_device required d) ∷ evict_each required ds

-- _evict_until_available_locked(required, preferred_gpu_id)
unfoldable pub evict_until_available : ℕ → Option String → Dict Device → Dict Device
evict_until_available required choice devices = elim (preferred choice devices) [
  | none ↦ evict_each required devices
  | some d ↦ put d.gpu_id (evict_device required d) devices
]

-- The key (-available_vram_gb, gpu_id).
unfoldable pub roomier : Device → Device → Bool
roomier d e =
    if ltb (available e) (available d)
    then true
    else if ltb (available d) (available e)
    then false
    else leb_str d.gpu_id e.gpu_id

-- What `allocate` reads from outside: the new id and the time.
unfoldable pub place : String → ℕ → String → ℕ → Json → List Device → GpuOp Allocation
place id now model required metadata candidates s = elim (sort_by roomier candidates) [
  | [] ↦ (err runtime_error, s)
  | d ∷ _ ↦
      let allocation : Allocation = record {
        allocation_id = id;
        model_id = model;
        gpu_id = d.gpu_id;
        vram = required;
        status = reserved;
        created_at = now;
        last_used_at = now;
        metadata = metadata;
      } in
      (
        ok allocation,
        record {
          devices =
              put d.gpu_id (record d { allocations = put id allocation d.allocations }) s.devices;
        },
      )
]

-- allocate(capabilities, vram_gb=, preferred_gpu_id=, allow_eviction=), for the memory that
-- `required` works out to
unfoldable pub allocate : String → ℕ → String → ℕ → Option String → Bool → Json → GpuOp Allocation
allocate id now model required choice allow_eviction metadata s =
    elim (candidate_devices required choice s.devices) [
      | [] ↦
          let evicted : Gpus = record {
            devices = evict_until_available required choice s.devices;
          } in
          if allow_eviction
          then place id now model required metadata
              (candidate_devices required choice evicted.devices) evicted
          else (err runtime_error, s)
      | d ∷ ds ↦ place id now model required metadata (d ∷ ds) s
    ]

-- _find_allocation_locked(allocation_id), applied to the allocation it finds: the first device that
-- has the id, with the allocation that `change` makes of it.
unfoldable pub change_first :
    String → (Allocation → Allocation) → Dict Device → Option (Allocation × Dict Device)
change_first id change [] = none
change_first id change ((gpu_id, d) ∷ ds) =
    let rest = change_first id change ds in
    elim (lookup id d.allocations) [
      | some x ↦
          some (change x, (gpu_id, record d { allocations = put id (change x) d.allocations }) ∷ ds)
      | none ↦ elim rest [ none ↦ none | some (y, more) ↦ some (y, (gpu_id, d) ∷ more) ]
    ]

unfoldable pub with_allocation : String → (Allocation → Allocation) → GpuOp Allocation
with_allocation id change s = elim (change_first id change s.devices) [
  | none ↦ (err key_error, s)
  | some (x, devices) ↦ (ok x, record { devices = devices })
]

abbrev pub at_residence : ℕ → Allocation → Allocation
at_residence now x = record x { status = resident; last_used_at = now }

abbrev pub touched_at : ℕ → Allocation → Allocation
touched_at now x = record x { last_used_at = now }

-- mark_resident(allocation_id)
unfoldable pub mark_resident : ℕ → String → GpuOp Allocation
mark_resident now id = with_allocation id (at_residence now)

-- touch(allocation_id)
unfoldable pub touch : ℕ → String → GpuOp Unit
touch now id = with_allocation id (touched_at now) >> pure tt

unfoldable pub release_first : String → Dict Device → Bool × Dict Device
release_first id [] = (false, [])
release_first id ((gpu_id, d) ∷ ds) =
    let (found, more) = release_first id ds in
    elim (lookup id d.allocations) [
      | some x ↦ (true, (gpu_id, record d { allocations = remove id d.allocations }) ∷ ds)
      | none ↦ (found, (gpu_id, d) ∷ more)
    ]

-- release(allocation_id)
unfoldable pub release : String → GpuOp Bool
release id s =
    let (found, devices) = release_first id s.devices in (ok found, record { devices = devices })

-- The loop of `evict_model` over the allocations of one device: what it evicts, what stays.
unfoldable pub evict_from : String → Dict Allocation → List Allocation × Dict Allocation
evict_from model [] = ([], [])
evict_from model ((id, x) ∷ xs) =
    let (gone, stay) = evict_from model xs in
    if str_eq x.model_id model
    then (record x { status = evicted } ∷ gone, stay)
    else (gone, (id, x) ∷ stay)

unfoldable pub evict_everywhere : String → Dict Device → List Allocation × Dict Device
evict_everywhere model [] = ([], [])
evict_everywhere model ((gpu_id, d) ∷ ds) =
    let (gone, stay) = evict_from model d.allocations in
    let (more, rest) = evict_everywhere model ds in
    (gone ++ more, (gpu_id, record d { allocations = stay }) ∷ rest)

-- evict_model(model_id)
unfoldable pub evict_model : String → GpuOp (List Allocation)
evict_model model s =
    let (gone, devices) = evict_everywhere model s.devices in
    (ok gone, record { devices = devices })
