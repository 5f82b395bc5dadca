-- ===== src/Gpu/Invariant.antt =====
-- What holds of every device and of its allocations.
use dub_manga_studio.Common.{◌-◌, ◌≤◌, String, ◌≡◌, true, All}
use dub_manga_studio.Common.Dict.Entries.{HasKeys}
use dub_manga_studio.Gpu.{Gpus}
use dub_manga_studio.Gpu.Memory.{Allocation, Device, holds_memory, used}

-- An allocation stands under its own id, names the device that it is on, and is not marked
-- released or evicted.
abbrev pub IsEntry : String → String × Allocation → Type 0
IsEntry gpu_id (k, x) = (k ≡ x.allocation_id) × (x.gpu_id ≡ gpu_id) × (holds_memory x.status ≡ true)

-- The allocations hold no more than what the reserve leaves of the device's memory.
abbrev pub Fits : Device → Type 0
Fits d = used d ≤ d.total_vram - d.reserve_vram

pub record IsSound (d : Device) : Type 0 where
  pub fits : Fits d
  pub entries : All (IsEntry d.gpu_id) d.allocations
  pub once : HasKeys d.allocations

abbrev pub IsPlace : String × Device → Type 0
IsPlace (k, d) = (k ≡ d.gpu_id) × IsSound d

pub record Inv (s : Gpus) : Type 0 where
  pub places : All IsPlace s.devices
  pub distinct : HasKeys s.devices
