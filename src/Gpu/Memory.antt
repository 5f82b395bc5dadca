-- ===== src/Gpu/Memory.antt =====
-- GPUDevice and GPUAllocation of services/gpu_scheduler.py, and eviction on one device.
use dub_manga_studio.Common.{
  ℕ, zero, suc, ◌+◌, ◌-◌, String, Bool, true, false, List, [], ◌∷◌, ltb, leb, length, keep, sort_by,
  if◌then◌else◌, Json,
}
use dub_manga_studio.Common.Dict.{Dict, remove, values}

pub data AllocationStatus : Type 0 where
  reserved resident released evicted : AllocationStatus

pub record Allocation : Type 0 where
  pub allocation_id : String
  pub model_id : String
  pub gpu_id : String
  pub vram : ℕ
  pub status : AllocationStatus
  pub created_at : ℕ
  pub last_used_at : ℕ
  pub metadata : Json

pub record Device : Type 0 where
  pub gpu_id : String
  pub label : String
  pub total_vram : ℕ
  pub reserve_vram : ℕ
  pub allocations : Dict Allocation
  pub metadata : Json

-- in {RESERVED, RESIDENT}
abbrev pub holds_memory : AllocationStatus → Bool
holds_memory reserved = true
holds_memory resident = true
holds_memory _ = false

abbrev pub is_resident : AllocationStatus → Bool
is_resident resident = true
is_resident _ = false

unfoldable pub sum_vram : Dict Allocation → ℕ
sum_vram [] = 0
sum_vram ((id, x) ∷ xs) = if holds_memory x.status then x.vram + sum_vram xs else sum_vram xs

-- used_vram_gb
unfoldable pub used : Device → ℕ
unfolding sum_vram
used d = sum_vram d.allocations

-- available_vram_gb: the subtraction of the naturals stops at zero, as `max(0.0, …)` does.
unfoldable pub available : Device → ℕ
unfolding used
available d = d.total_vram - d.reserve_vram - used d

-- sorted(resident, key=last_used_at)
unfoldable pub least_recent : Device → List Allocation
unfolding keep sort_by values
least_recent d =
    sort_by (λ (x y : Allocation). leb x.last_used_at y.last_used_at)
      (keep (λ (x : Allocation). is_resident x.status) (values d.allocations))

-- The `while` loop on one device, a bounded number of times.
unfoldable pub evict_loop : ℕ → ℕ → Device → Device
unfolding available least_recent remove
evict_loop zero required d = d
evict_loop (suc fuel) required d =
    if ltb (available d) required
    then elim (least_recent d) [
      | [] ↦ d
      | victim ∷ _ ↦
          evict_loop fuel required
            (record d { allocations = remove victim.allocation_id d.allocations })
    ]
    else d

-- Each round takes an allocation away, so that as many rounds as there are allocations are enough.
unfoldable pub evict_device : ℕ → Device → Device
unfolding evict_loop
evict_device required d = evict_loop (length d.allocations) required d
