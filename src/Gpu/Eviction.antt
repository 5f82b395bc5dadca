-- ===== src/Gpu/Eviction.antt =====
-- Eviction on one device.
use dub_manga_studio.Common.{
  ℕ, zero, suc, ◌≤◌, ◌<◌, String, ◌≡◌, refl, Bool, true, false, none, some, List, [], ◌∷◌, inl, inr,
  ◌⊎◌, Bool-cases, List-cases, arith, eq_iff, str_eq, ltb, leb, All, All-intro, All-of-Any, All-map,
  All-keep, All-keep_inv, All-sort_by, All-sort_by_inv, IsOrder, sort_by-IsAscending, keep, length,
  subst,
}
use dub_manga_studio.Common.Dict.{
  Dict, lookup, remove, values, lookup-remove, All-values, All-values_inv,
}
use dub_manga_studio.Common.Dict.Entries.{HasKeys-remove, Every-remove, lookup-Holds}
use dub_manga_studio.Gpu.Memory.{
  Allocation, Device, is_resident, used, available, least_recent, evict_loop, evict_device,
}
use dub_manga_studio.Gpu.Charge.{sum_vram-remove}
use dub_manga_studio.Gpu.Invariant.{IsEntry, IsSound}

-- The device after one allocation went.
abbrev pub without : String → Device → Device
without id d = record d { allocations = remove id d.allocations }

pub without-IsSound : (id : String) (d : Device) → IsSound d → IsSound (without id d)
unfolding used
without-IsSound id d v = record {
  fits =
      let less = sum_vram-remove id d.allocations in let fits = v.fits in omega (arith, less, fits);
  entries = Every-remove (IsEntry d.gpu_id) id d.allocations v.entries;
  once = HasKeys-remove id d.allocations v.once;
}

-- What the loop keeps, where each of its rounds does.
pub evict_loop-keeps :
    (P : Device → Type 0) (required : ℕ)
    → ((d : Device) (x : Allocation) (rest : List Allocation)
        → least_recent d ≡ x ∷ rest
        → P d
        → P (without x.allocation_id d))
    → (fuel : ℕ) (d : Device) → P d
    → P (evict_loop fuel required d)
unfolding evict_loop
evict_loop-keeps P required round zero d p = p
evict_loop-keeps P required round (suc fuel) d p = elim (Bool-cases (ltb (available d) required)) [
  | inl t ↦ elim (List-cases (least_recent d)) [
    | inl e ↦ rw t (rw e p)
    | inr (x, rest, e) ↦ rw t (
        rw e
          (evict_loop-keeps P required round fuel (without x.allocation_id d) (round d x rest e p)))
  ]
  | inr t ↦ rw t p
]

pub evict_device-IsSound :
    (required : ℕ) (d : Device) → IsSound d → IsSound (evict_device required d)
unfolding evict_device
evict_device-IsSound required d =
    evict_loop-keeps IsSound required (λ e x rest _. without-IsSound x.allocation_id e)
      (length d.allocations) d

pub evict_device-gpu_id : (required : ℕ) (d : Device) → (evict_device required d).gpu_id ≡ d.gpu_id
unfolding evict_device
evict_device-gpu_id required d =
    evict_loop-keeps (λ e. e.gpu_id ≡ d.gpu_id) required (λ e x rest _ p. p) (length d.allocations)
      d refl

used_before :
    (x y z : Allocation)
    → leb x.last_used_at y.last_used_at ≡ true
    → leb y.last_used_at z.last_used_at ≡ true
    → leb x.last_used_at z.last_used_at ≡ true
used_before x y z e f = ground arith

used-IsOrder : IsOrder (λ (x y : Allocation). leb x.last_used_at y.last_used_at)
used-IsOrder = record { total = λ x y e. ground arith; trans = used_before }

IsStored : Device → Allocation → Type 0
IsStored d x = lookup x.allocation_id d.allocations ≡ some x

stored :
    (d : Device)
    → IsSound d
    → All
        (λ (e : String × Allocation). lookup e.1.allocation_id d.allocations ≡ some e.1)
        d.allocations
stored d v = All-intro _ d.allocations λ e held.
    let (a, entry, same) = All-of-Any d.allocations v.entries held in
    let key : e.0 ≡ e.1.allocation_id = rw same at entry.0 in
    subst (λ k. lookup k d.allocations ≡ some e.1) key
      (lookup-Holds e.0 e.1 d.allocations v.once held)

-- The victim of a round: a resident allocation of the device, none that is resident used earlier.
pub victim-Stored :
    (d : Device) (x : Allocation) (rest : List Allocation)
    → IsSound d
    → least_recent d ≡ x ∷ rest
    → (lookup x.allocation_id d.allocations ≡ some x) × (is_resident x.status ≡ true)
unfolding least_recent
victim-Stored d x rest v e =
    let all =
      All-sort_by (λ (x y : Allocation). leb x.last_used_at y.last_used_at) _ _
        (All-keep (λ x. lookup x.allocation_id d.allocations ≡ some x)
          (λ (x : Allocation). is_resident x.status) (values d.allocations)
          (All-values _ d.allocations (stored d v))) in
    (rw e at all).0

pub victim-Least :
    (d : Device) (x : Allocation) (rest : List Allocation)
    → least_recent d ≡ x ∷ rest
    → All
        (λ (e : String × Allocation).
          is_resident e.1.status ≡ true → leb x.last_used_at e.1.last_used_at ≡ true)
        d.allocations
unfolding least_recent
victim-Least d x rest e =
    let le : Allocation → Allocation → Bool = λ a b. leb a.last_used_at b.last_used_at in
    let kept : List Allocation = keep (λ a. is_resident a.status) (values d.allocations) in
    let first = (rw e at (sort_by-IsAscending used-IsOrder kept)).0 in
    All-values_inv (λ y. is_resident y.status ≡ true → le x y ≡ true) d.allocations
      (All-keep_inv (λ y. le x y ≡ true) (λ (a : Allocation). is_resident a.status)
        (values d.allocations)
        (All-sort_by_inv le (λ y. le x y ≡ true) kept (rw e (ground arith, first))))

-- No resident allocation of the device was used before `x`.
abbrev pub IsLeast : Allocation → Device → Type 0
IsLeast x e =
    All
      (λ (y : String × Allocation).
        is_resident y.1.status ≡ true → leb x.last_used_at y.1.last_used_at ≡ true)
      e.allocations

-- What became of the allocations of `d` in `e`.
abbrev pub Kept : Device → Device → Type 0
Kept d e =
    (k : String)
    → (lookup k e.allocations ≡ lookup k d.allocations)
      ⊎ ((lookup k e.allocations ≡ none)
          × ((x : Allocation) × (lookup k d.allocations ≡ some x)
              × (is_resident x.status ≡ true)
              × IsLeast x e))

Kept-without :
    (d e : Device) (x : Allocation) (rest : List Allocation)
    → least_recent e ≡ x ∷ rest
    → IsSound e
    → Kept d e
    → Kept d (without x.allocation_id e)
Kept-without d e x rest found v kept k =
    let victim = victim-Stored e x rest v found in
    let least = Every-remove _ x.allocation_id e.allocations (victim-Least e x rest found) in
    let gone = lookup-remove x.allocation_id k e.allocations in
    elim (kept k) [
      | inl same ↦ elim (Bool-cases (str_eq x.allocation_id k)) [
        | inl t ↦
            let key : x.allocation_id ≡ k = (eq_iff x.allocation_id k).0 t in
            inr (rw (gone, t), (x, (rw (← same, ← key) victim.0), victim.1, least))
        | inr t ↦ inl (rw (gone, t) same)
      ]
      | inr (absent, (y, was, resident, first)) ↦ inr (
        ground (arith, gone, absent),
        (y, was, resident, Every-remove _ x.allocation_id e.allocations first),
      )
    ]

evict_device-Kept : (required : ℕ) (d : Device) → IsSound d → Kept d (evict_device required d)
unfolding evict_device
evict_device-Kept required d v =
    (evict_loop-keeps (λ e. IsSound e × Kept d e) required
      (λ e x rest found p.
        (without-IsSound x.allocation_id e p.0, Kept-without d e x rest found p.0 p.1))
      (length d.allocations) d (v, λ k. inl refl)).1

length-remove_le : (k : String) (d : Dict Allocation) → length (remove k d) ≤ length d
unfolding remove
length-remove_le k [] = omega arith
length-remove_le k ((j, x) ∷ d) = ground (arith, length-remove_le k d)

length-remove :
    (k : String) (x : Allocation) (d : Dict Allocation)
    → lookup k d ≡ some x
    → length (remove k d) < length d
unfolding lookup remove
length-remove k x [] e = absurd (cc)
length-remove k x ((j, y) ∷ d) e = elim (Bool-cases (str_eq j k)) [
  | inl t ↦ let less = length-remove_le k d in rw t (omega arith)
  | inr t ↦ let less = length-remove k x d (ground arith) in rw t (omega arith)
]

abbrev pub NoResident : Device → Type 0
NoResident d = All (λ (e : String × Allocation). is_resident e.1.status ≡ false) d.allocations

no_victim : (d : Device) → least_recent d ≡ [] → NoResident d
unfolding least_recent
no_victim d e =
    let none_left =
      All-sort_by_inv (λ (x y : Allocation). leb x.last_used_at y.last_used_at) (λ _. ⊥)
        (keep (λ (x : Allocation). is_resident x.status) (values d.allocations)) (rw e tt) in
    All-map (λ a f. elim (Bool-cases (is_resident a.1.status)) [ inl t ↦ absurd (f t) | inr t ↦ t ])
      d.allocations
      (All-values_inv (λ y. is_resident y.status ≡ true → ⊥) d.allocations
        (All-keep_inv (λ _. ⊥) (λ (x : Allocation). is_resident x.status) (values d.allocations)
          none_left))

evict_loop-ends :
    (required fuel : ℕ) (d : Device)
    → IsSound d
    → length d.allocations ≤ fuel
    → (required ≤ available (evict_loop fuel required d)) ⊎ NoResident (evict_loop fuel required d)
unfolding evict_loop
evict_loop-ends required zero d v enough = inr (elim (List-cases d.allocations) [
  | inl e ↦ rw e tt
  | inr (x, rest, e) ↦
      absurd (let long : length d.allocations ≡ suc (length rest) = rw e in omega arith)
])
evict_loop-ends required (suc fuel) d v enough = elim (Bool-cases (ltb (available d) required)) [
  | inl t ↦ elim (List-cases (least_recent d)) [
    | inl e ↦ rw t (rw e (inr (no_victim d e)))
    | inr (x, rest, e) ↦
        let less = length-remove x.allocation_id x d.allocations (victim-Stored d x rest v e).0 in
        rw t (
          rw e (
            evict_loop-ends required fuel (without x.allocation_id d)
              (without-IsSound x.allocation_id d v) (omega (arith, less, enough))))
  ]
  | inr t ↦ rw t (inl (ground arith))
]

evict_loop-idle :
    (required fuel : ℕ) (d : Device) → required ≤ available d → evict_loop fuel required d ≡ d
unfolding evict_loop
evict_loop-idle required zero d h = refl
evict_loop-idle required (suc fuel) d h =
    let t : ltb (available d) required ≡ false = ground arith in rw t

-- Making room on a device whose allocations are well formed ends with room for what is required, or
-- with no resident allocation left. Every allocation stays as it was, or was resident and is gone,
-- and then none of the residents that stay was used before it. Where there was room already, the
-- device does not change.
pub evict_device_lem :
    (required : ℕ) (d : Device)
    → IsSound d
    → ((required ≤ available (evict_device required d)) ⊎ NoResident (evict_device required d))
      × Kept d (evict_device required d)
      × (required ≤ available d → evict_device required d ≡ d)
unfolding evict_device
evict_device_lem required d v = (
  evict_loop-ends required (length d.allocations) d v (omega arith),
  evict_device-Kept required d v,
  evict_loop-idle required (length d.allocations) d,
)
