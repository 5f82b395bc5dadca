-- ===== src/Gpu/Candidates.antt =====
-- The devices that `allocate` may take, and the order in which it prefers them.
use dub_manga_studio.Common.{
  leb_str, keep, Any, All-map, All-keep_inv, ap, ℕ, ◌≤◌, String, ◌≡◌, refl, sym, ◌∙◌, Bool, true,
  false, Option, none, some, List, [], ◌∷◌, inl, inr, Bool-cases, Option-cases, arith, str_eq, leb,
  All, All-keep, All-intro, All-of-Any, subst, IsOrder, leb_str_total, leb_str_trans,
}
use dub_manga_studio.Common.Dict.{Dict, lookup, values, All-values}
use dub_manga_studio.Common.Dict.Entries.{HasKeys, All-lookup, lookup-Holds}
use dub_manga_studio.Gpu.Memory.{Device, available}
use dub_manga_studio.Gpu.{preferred, candidate_devices, roomier, place}
use dub_manga_studio.Gpu.Invariant.{IsSound, IsPlace}

roomier_total : (d e : Device) → roomier d e ≡ false → roomier e d ≡ true
unfolding roomier
roomier_total d e h = ground (arith, leb_str_total d.gpu_id e.gpu_id)

roomier_trans : (d e f : Device) → roomier d e ≡ true → roomier e f ≡ true → roomier d f ≡ true
unfolding roomier
roomier_trans d e f h k = ground (arith, leb_str_trans d.gpu_id e.gpu_id f.gpu_id)

pub roomier-IsOrder : IsOrder roomier
roomier-IsOrder = record { total = roomier_total; trans = roomier_trans }

pub roomier_self : (d : Device) → roomier d d ≡ true
roomier_self d = elim (Bool-cases (roomier d d)) [ inl e ↦ e | inr e ↦ roomier_total d d e ]

-- A device that is stored, as it should be.
abbrev pub Stored : Dict Device → Device → Type 0
Stored ds d = (lookup d.gpu_id ds ≡ some d) × IsSound d

stored : (ds : Dict Device) → HasKeys ds → All IsPlace ds → All (Stored ds) (values ds)
stored ds keys places = All-values (Stored ds) ds (
    All-intro _ ds λ e held.
      let (a, place, same) = All-of-Any ds places held in
      let here : IsPlace e = rw same at place in
      (subst (λ k. lookup k ds ≡ some e.1) here.0 (lookup-Holds e.0 e.1 ds keys held), here.1))

pub preferred-Stored :
    (choice : Option String) (ds : Dict Device) (d : Device)
    → All IsPlace ds
    → preferred choice ds ≡ some d
    → Stored ds d
unfolding preferred
preferred-Stored none ds d h e = absurd (cc)
preferred-Stored (some id) ds d h e = elim (Bool-cases (str_eq id "")) [
  | inl t ↦ absurd (let e' = rw t at e in cc)
  | inr t ↦
      let found : lookup id ds ≡ some d = rw t at e in
      let place = All-lookup IsPlace id d ds h found in
      (subst (λ k. lookup k ds ≡ some d) place.0 found, place.1)
]

pub candidates-Stored :
    (required : ℕ) (choice : Option String) (ds : Dict Device)
    → HasKeys ds
    → All IsPlace ds
    → All
        (λ d. Stored ds d × (leb required (available d) ≡ true))
        (candidate_devices required choice ds)
unfolding candidate_devices
candidates-Stored required choice ds keys h = elim (Option-cases (preferred choice ds)) [
  | inl t ↦
      rw (candidate_devices, t)
        (All-keep (Stored ds) (λ d. leb required (available d)) (values ds) (stored ds keys h))
  | inr (d, t) ↦
      rw (candidate_devices, t)
        (All-keep (Stored ds) (λ d. leb required (available d)) (d ∷ [])
          (preferred-Stored choice ds d h t, tt))
]

-- A device that may be taken, said without the code's tests: it is stored, it has the room, and where
-- a device is preferred and stored, it is that one.
abbrev pub IsCandidate : ℕ → Option String → Dict Device → Device → Type 0
IsCandidate required choice ds d =
    (lookup d.gpu_id ds ≡ some d)
    × (required ≤ available d)
    × ((id : String) (e : Device)
        → choice ≡ some id
        → str_eq id "" ≡ false
        → lookup id ds ≡ some e
        → d.gpu_id ≡ id)

-- More room, or as much and an id that is not after.
abbrev pub Roomier : Device → Device → Type 0
Roomier d e =
    (available e ≤ available d) × (available d ≡ available e → leb_str d.gpu_id e.gpu_id ≡ true)

pub roomier-Roomier : (d e : Device) → roomier d e ≡ true → Roomier d e
unfolding roomier
roomier-Roomier d e h = (ground (arith, h), (λ same. ground (arith, h, same)))

-- The choice, where a stored device is preferred.
preferred-found :
    (choice : Option String) (ds : Dict Device) (id : String) (e : Device)
    → choice ≡ some id
    → str_eq id "" ≡ false
    → lookup id ds ≡ some e
    → preferred choice ds ≡ some e
unfolding preferred
preferred-found choice ds id e c named found = rw c (rw named found)

preferred-id :
    (choice : Option String) (ds : Dict Device) (d : Device)
    → All IsPlace ds
    → preferred choice ds ≡ some d
    → (id : String) × (choice ≡ some id) × (str_eq id "" ≡ false) × (lookup id ds ≡ some d)
unfolding preferred
preferred-id none ds d h e = absurd (cc)
preferred-id (some id) ds d h e = elim (Bool-cases (str_eq id "")) [
  | inl t ↦ absurd (let e' = rw t at e in cc)
  | inr t ↦ (id, refl, t, (rw t at e))
]

keep-Any :
    (p : Device → Bool) (d : Device) (ds : List Device)
    → p d ≡ true
    → Any (λ x. x ≡ d) ds
    → Any (λ x. x ≡ d) (keep p ds)
keep-Any p d ds room a =
    let (x, f, same) =
      All-of-Any ds
        (All-keep_inv (λ x. Any (λ y. y ≡ x) (keep p ds)) p ds (All-intro _ (keep p ds) (λ x m. m)))
        a in
    subst (λ y. p y ≡ true → Any (λ z. z ≡ y) (keep p ds)) same f room

values-Any :
    (k : String) (d : Device) (ds : Dict Device)
    → lookup k ds ≡ some d
    → Any (λ x. x ≡ d) (values ds)
unfolding lookup values
values-Any k d [] e = absurd (cc)
values-Any k d ((j, x) ∷ ds) e = elim (Bool-cases (str_eq j k)) [
  | inl t ↦ inl (let f = rw t at e in cc)
  | inr t ↦ inr (values-Any k d ds (rw t at e))
]

pub candidates-IsCandidate :
    (required : ℕ) (choice : Option String) (ds : Dict Device)
    → HasKeys ds
    → All IsPlace ds
    → All (IsCandidate required choice ds) (candidate_devices required choice ds)
unfolding candidate_devices
candidates-IsCandidate required choice ds keys h = elim (Option-cases (preferred choice ds)) [
  | inl t ↦
      rw (candidate_devices, t)
        (All-map
          (λ d k. (
            k.0.0,
            ground (arith, k.1),
            (λ id e c named found.
                absurd (let q = preferred-found choice ds id e c named found in cc)),
          ))
          _ (All-keep (Stored ds) (λ d. leb required (available d)) (values ds) (stored ds keys h)))
  | inr (d, t) ↦
      let place = preferred-Stored choice ds d h t in
      rw (candidate_devices, t)
        (All-map
          (λ x k. (
            k.0.0.0,
            ground (arith, k.1),
            (λ id e c named found.
                let q = preferred-found choice ds id e c named found in
                let same : x ≡ e = (let f = k.0.1 in cc) in
                let entry = All-lookup IsPlace id e ds h found in
                ap (λ (y : Device). y.gpu_id) same ∙ sym entry.0),
          ))
          _
          (All-keep (λ x. Stored ds x × (x ≡ d)) (λ d. leb required (available d)) (d ∷ [])
            ((place, refl), tt)))
]

-- And none is left out.
pub candidate-Any :
    (required : ℕ) (choice : Option String) (ds : Dict Device) (d : Device)
    → HasKeys ds
    → All IsPlace ds
    → IsCandidate required choice ds d
    → Any (λ x. x ≡ d) (candidate_devices required choice ds)
unfolding candidate_devices
candidate-Any required choice ds d keys h c =
    let room : leb required (available d) ≡ true = (let r = c.1 in ground (arith, r)) in
    elim (Option-cases (preferred choice ds)) [
      | inl t ↦
          rw (candidate_devices, t)
            (keep-Any (λ d. leb required (available d)) d (values ds) room
              (values-Any d.gpu_id d ds c.0))
      | inr (e, t) ↦
          let (id, chosen, named, found) = preferred-id choice ds e h t in
          let same : e ≡ d =
            (let key = c.2 id e chosen named found in
              let one : lookup id ds ≡ some d = subst (λ k. lookup k ds ≡ some d) key c.0 in cc) in
          rw (candidate_devices, t)
            (keep-Any (λ d. leb required (available d)) d (e ∷ []) room (inl same))
    ]
