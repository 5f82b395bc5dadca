-- ===== src/Gpu/Placement.antt =====
-- `allocate`: which device it takes, and what it does to the devices.
use dub_manga_studio.Common.{
  Any, ℕ, ◌≤◌, String, ◌≡◌, refl, sym, ◌∙◌, Bool, true, false, Option, some, List, [], ◌∷◌, inl,
  inr, ◌⊎◌, if◌then◌else◌, Bool-cases, Option-cases, List-cases, arith, All, All-sort_by,
  All-sort_by_inv, All-intro, All-of-Any, Json, subst, sort_by, sort_by-IsAscending,
}
use dub_manga_studio.Common.Exec.{ok, err}
use dub_manga_studio.Common.Dict.{lookup, put}
use dub_manga_studio.Common.Dict.Entries.{HasKeys-put, Every-put, All-lookup}
use dub_manga_studio.Common.Dict.Shape.{HasKeys-SameKeys}
use dub_manga_studio.Gpu.Memory.{reserved, Allocation, Device, used, available, evict_device}
use dub_manga_studio.Gpu.{
  Gpus, runtime_error, preferred, candidate_devices, evict_until_available, roomier, place,
  allocate,
}
use dub_manga_studio.Gpu.Charge.{sum_vram-put}
use dub_manga_studio.Gpu.Invariant.{IsEntry, IsPlace, Inv}
use dub_manga_studio.Gpu.Eviction.{evict_device-IsSound, evict_device-gpu_id}
use dub_manga_studio.Gpu.Changes.{evict_each-Sound}
use dub_manga_studio.Gpu.Candidates.{
  IsCandidate, Roomier, roomier-IsOrder, roomier_self, preferred-Stored, candidates-Stored,
  roomier-Roomier, candidates-IsCandidate, candidate-Any,
}

-- The state in which `allocate` places: the devices after eviction, if it evicts.
abbrev pub settled : ℕ → Option String → Bool → Gpus → Gpus
settled required choice allow_eviction s = elim (candidate_devices required choice s.devices) [
  | [] ↦
      if allow_eviction
      then record { devices = evict_until_available required choice s.devices }
      else s
  | _ ∷ _ ↦ s
]

evicted-Inv :
    (required : ℕ) (choice : Option String) (s : Gpus)
    → Inv s
    → Inv (record { devices = evict_until_available required choice s.devices })
unfolding evict_until_available
evicted-Inv required choice s inv = elim (Option-cases (preferred choice s.devices)) [
  | inl t ↦
      let each = evict_each-Sound required s.devices inv.places in
      rw (evict_until_available, t)
        (record { places = each.0; distinct = HasKeys-SameKeys s.devices _ each.1 inv.distinct })
  | inr (d, t) ↦
      let here = preferred-Stored choice s.devices d inv.places t in
      rw (evict_until_available, t)
        (record {
          places =
              Every-put IsPlace d.gpu_id (evict_device required d) s.devices
                (rw (evict_device-gpu_id required d) refl, evict_device-IsSound required d here.1)
                inv.places;
          distinct = HasKeys-put d.gpu_id (evict_device required d) s.devices inv.distinct;
        })
]

pub settled-Inv :
    (required : ℕ) (choice : Option String) (allow_eviction : Bool) (s : Gpus)
    → Inv s
    → Inv (settled required choice allow_eviction s)
settled-Inv required choice allow_eviction s inv =
    elim (List-cases (candidate_devices required choice s.devices)) [
      | inl t ↦ elim (Bool-cases allow_eviction) [
        | inl u ↦ rw (settled, t) (rw u (evicted-Inv required choice s inv))
        | inr u ↦ rw (settled, t) (rw u inv)
      ]
      | inr (d, ds, t) ↦ rw (settled, t) inv
    ]

-- The allocation that is made on `d`.
abbrev pub new_allocation : String → ℕ → String → ℕ → Json → Device → Allocation
new_allocation id now model required metadata d = record {
  allocation_id = id;
  model_id = model;
  gpu_id = d.gpu_id;
  vram = required;
  status = reserved;
  created_at = now;
  last_used_at = now;
  metadata = metadata;
}

-- The devices with `x` added to `d`.
abbrev pub placed : Allocation → Device → Gpus → Gpus
placed x d s = record {
  devices = put d.gpu_id (record d { allocations = put x.allocation_id x d.allocations }) s.devices;
}

module _ (id : String) (now : ℕ) (model : String) (required : ℕ) (choice : Option String)
    (allow_eviction : Bool) (metadata : Json) (s : Gpus) where
  place_none : (t : Gpus) → place id now model required metadata [] t ≡ (err runtime_error, t)
  unfolding place sort_by
  place_none t = refl

  allocate-settled :
      let t = settled required choice allow_eviction s in
      allocate id now model required choice allow_eviction metadata s
      ≡ place id now model required metadata (candidate_devices required choice t.devices) t
  unfolding allocate
  allocate-settled = elim (List-cases (candidate_devices required choice s.devices)) [
    | inl t ↦ elim (Bool-cases allow_eviction) [
      | inl u ↦ rw (allocate, settled, t) (rw u refl)
      | inr u ↦ rw (allocate, settled, t) (rw u (rw t (sym (place_none s))))
    ]
    | inr (d, ds, t) ↦ rw (allocate, settled, t) (rw t refl)
  ]

  -- What `allocate` may do in the state that it places in.
  abbrev pub Outcome : Gpus → Type 0
  Outcome t =
      let candidates = candidate_devices required choice t.devices in
      let result = allocate id now model required choice allow_eviction metadata s in
      ((candidates ≡ []) × (result ≡ (err runtime_error, t)))
      ⊎ ((d : Device) × (lookup d.gpu_id t.devices ≡ some d)
          × (required ≤ available d)
          × All (λ e. roomier d e ≡ true) candidates
          × Any (λ e. e ≡ d) candidates
          × (result ≡ (
            ok (new_allocation id now model required metadata d),
            placed (new_allocation id now model required metadata d) d t,
          )))

  place_outcome :
      (t : Gpus) (d : Device) (rest : List Device) (candidates : List Device)
      → sort_by roomier candidates ≡ d ∷ rest
      → place id now model required metadata candidates t ≡ (
        ok (new_allocation id now model required metadata d),
        placed (new_allocation id now model required metadata d) d t,
      )
  unfolding place
  place_outcome t d rest candidates e = rw (place, e) refl

  settled-Outcome : (t : Gpus) → t ≡ settled required choice allow_eviction s → Inv t → Outcome t
  settled-Outcome t same inv =
      let candidates : List Device = candidate_devices required choice t.devices in
      let run = rw (← same) at allocate-settled in
      let all = candidates-Stored required choice t.devices inv.distinct inv.places in
      elim (List-cases (sort_by roomier candidates)) [
        | inl e ↦
            let empty = All-sort_by_inv roomier (λ _. ⊥) candidates (rw e tt) in
            let nothing : candidates ≡ [] = elim (List-cases candidates) [
              | inl c ↦ c
              | inr (d, ds, c) ↦ absurd ((rw c at empty).0)
            ] in
            inl (nothing, run ∙ rw nothing (place_none t))
        | inr (d, rest, e) ↦
            let here = (rw e at (All-sort_by roomier _ candidates all)).0 in
            let first = (rw e at (sort_by-IsAscending roomier-IsOrder candidates)).0 in
            inr (
              d,
              here.0.0,
              ground (arith, here.1),
              All-sort_by_inv roomier (λ e. roomier d e ≡ true) candidates
                  (rw e (roomier_self d, first)),
              (rw e at (
                  All-sort_by roomier (λ x. Any (λ e. e ≡ x) candidates) candidates
                    (All-intro _ candidates (λ x m. m)))).0,
              run ∙ place_outcome t d rest candidates e,
            )
      ]

  pub allocate-Outcome : Inv s → Outcome (settled required choice allow_eviction s)
  allocate-Outcome inv =
      settled-Outcome (settled required choice allow_eviction s) refl
        (settled-Inv required choice allow_eviction s inv)

  -- What `allocate` decides in the state `t`, said without its own list: no device may be taken, or
  -- one that may be, with as much room as any other that may be.
  abbrev pub Decided : Gpus → Type 0
  Decided t =
      let result = allocate id now model required choice allow_eviction metadata s in
      (((e : Device) → IsCandidate required choice t.devices e → ⊥)
        × (result ≡ (err runtime_error, t)))
      ⊎ ((d : Device) × IsCandidate required choice t.devices d
          × ((e : Device) → IsCandidate required choice t.devices e → Roomier d e)
          × (result ≡ (
            ok (new_allocation id now model required metadata d),
            placed (new_allocation id now model required metadata d) d t,
          )))

  -- The state in which it decides: as it was, or after the eviction.
  abbrev pub Before : Gpus → Type 0
  Before t =
      ((t ≡ s)
        × ((allow_eviction ≡ false) ⊎ ((d : Device) × IsCandidate required choice s.devices d)))
      ⊎ ((t ≡ record { devices = evict_until_available required choice s.devices })
          × (allow_eviction ≡ true)
          × ((e : Device) → IsCandidate required choice s.devices e → ⊥))

  settled-Before : Inv s → Before (settled required choice allow_eviction s)
  settled-Before inv = elim (List-cases (candidate_devices required choice s.devices)) [
    | inl t ↦ elim (Bool-cases allow_eviction) [
      | inl u ↦
          rw (settled, t)
            (rw u (
              inr (
                refl,
                refl,
                (λ e c.
                    subst (λ ds. Any (λ x. x ≡ e) ds) t
                      (candidate-Any required choice s.devices e inv.distinct inv.places c)),
              )))
      | inr u ↦ rw (settled, t) (rw u (inl (refl, inl refl)))
    ]
    | inr (d, ds, t) ↦
        let all = candidates-IsCandidate required choice s.devices inv.distinct inv.places in
        rw (settled, t) (inl (refl, inr (d, (rw t at all).0)))
  ]

  -- `allocate` evicts only where no device may be taken as they are, and eviction is allowed. It
  -- then decides among the devices that may be taken: those that are stored and have the room, and
  -- where a stored device is preferred, only that one. It raises where there is none, and leaves the
  -- devices as the eviction left them; else it takes one of which no other has more room, the first
  -- id among equals, and reserves the memory there and nowhere else.
  pub allocate_lem : Inv s → (t : Gpus) × Before t × Decided t
  allocate_lem inv =
      let t : Gpus = settled required choice allow_eviction s in
      let kept : Inv t = settled-Inv required choice allow_eviction s inv in
      (
        t,
        settled-Before inv,
        elim (settled-Outcome t refl kept) [
          | inl (empty, run) ↦ inl (
            (λ e c.
                subst (λ ds. Any (λ x. x ≡ e) ds) empty
                  (candidate-Any required choice t.devices e kept.distinct kept.places c)),
            run,
          )
          | inr (d, found, room, most, member, run) ↦
              let all =
                candidates-IsCandidate required choice t.devices kept.distinct kept.places in
              inr (
                d,
                (let (x, c, same) = All-of-Any _ all member in
                    subst (λ y. IsCandidate required choice t.devices y) same c),
                (λ e c.
                    let (x, r, same) =
                      All-of-Any _ most
                        (candidate-Any required choice t.devices e kept.distinct kept.places c) in
                    roomier-Roomier d e (subst (λ y. roomier d y ≡ true) same r)),
                run,
              )
        ],
      )

  placed-Inv :
      (t : Gpus) (d : Device)
      → Inv t
      → lookup d.gpu_id t.devices ≡ some d
      → required ≤ available d
      → Inv (placed (new_allocation id now model required metadata d) d t)
  unfolding available used
  placed-Inv t d inv found room =
      let x : Allocation = new_allocation id now model required metadata d in
      let v = (All-lookup IsPlace d.gpu_id d t.devices inv.places found).1 in
      let more = sum_vram-put id x d.allocations in
      let fits = v.fits in
      record {
        places =
            Every-put IsPlace d.gpu_id _ t.devices
              (
                refl,
                record {
                  fits = omega (arith, more, fits, room);
                  entries =
                      Every-put (IsEntry d.gpu_id) id x d.allocations (refl, refl, refl) v.entries;
                  once = HasKeys-put id x d.allocations v.once;
                },
              )
              inv.places;
        distinct = HasKeys-put d.gpu_id _ t.devices inv.distinct;
      }

  pub allocate-Inv : Inv s → Inv (allocate id now model required choice allow_eviction metadata s).1
  allocate-Inv inv =
      let t : Gpus = settled required choice allow_eviction s in
      let kept : Inv t = settled-Inv required choice allow_eviction s inv in
      elim (settled-Outcome t refl kept) [
        | inl (_, run) ↦ rw run kept
        | inr (d, found, room, _, _, run) ↦ rw run (placed-Inv t d kept found room)
      ]
