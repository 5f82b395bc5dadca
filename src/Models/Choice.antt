-- ===== src/Models/Choice.antt =====
-- `recommend_model`.
use dub_manga_studio.Common.{
  ◌≤◌, ◌↔◌, ap, leb_str, Option-cases, Bool-cases, String, ◌≡◌, refl, sym, subst, true, false, none,
  some, List, ◌⊎◌, inl, inr, arith, leb_str_total, leb_str_trans, All, All-intro, All-of-Any,
  All-sort_by, All-sort_by_inv, IsAscending, IsOrder, sort_by-IsAscending, sort_by, List-cases,
}
use dub_manga_studio.Common.Dict.{Dict, lookup}
use dub_manga_studio.Plugins.{list_models, fits}
use dub_manga_studio.Plugins.Capabilities.{ModelCapabilities}
use dub_manga_studio.Plugins.Find.{Member, fits_lem, find_by_capabilities-Member}
use dub_manga_studio.Plugins.Asks.{Asks}
use dub_manga_studio.Models.{
  ModelStatus, registered, loading, loaded, unloading, unloaded, failed, is_loaded, record_loaded,
  ModelRecord, ModelManager, ModelSelectionCriteria, query_of, sooner, lighter, preferred,
  select_models, recommend_model,
}

sooner_total : (c d : ModelCapabilities) → sooner c d ≡ false → sooner d c ≡ true
unfolding sooner
sooner_total c d h = ground (arith, leb_str_total c.model_id d.model_id)

sooner_trans :
    (c d e : ModelCapabilities) → sooner c d ≡ true → sooner d e ≡ true → sooner c e ≡ true
unfolding sooner
sooner_trans c d e h k = ground (arith, leb_str_trans c.model_id d.model_id e.model_id)

lighter_total : (c d : ModelCapabilities) → lighter c d ≡ false → lighter d c ≡ true
unfolding lighter
lighter_total c d h = ground (arith, sooner_total c d)

lighter_trans :
    (c d e : ModelCapabilities) → lighter c d ≡ true → lighter d e ≡ true → lighter c e ≡ true
unfolding lighter
lighter_trans c d e h k = ground (arith, sooner_trans c d e)

preferred_total :
    (rs : Dict ModelRecord) (c d : ModelCapabilities)
    → preferred rs c d ≡ false
    → preferred rs d c ≡ true
unfolding preferred
preferred_total rs c d h = ground (arith, lighter_total c d)

preferred_trans :
    (rs : Dict ModelRecord) (c d e : ModelCapabilities)
    → preferred rs c d ≡ true
    → preferred rs d e ≡ true
    → preferred rs c e ≡ true
unfolding preferred
preferred_trans rs c d e h k = ground (arith, lighter_trans c d e)

preferred-IsOrder : (rs : Dict ModelRecord) → IsOrder (preferred rs)
preferred-IsOrder rs = record { total = preferred_total rs; trans = preferred_trans rs }

-- The stored record of a model says that it is loaded.
abbrev pub IsLoaded : Dict ModelRecord → ModelCapabilities → Type 0
IsLoaded rs c = (r : ModelRecord) × (lookup c.model_id rs ≡ some r) × (r.status ≡ loaded)

-- Less memory first, then a shorter start, then the order of the ids.
abbrev pub Lighter : ModelCapabilities → ModelCapabilities → Type 0
Lighter c d =
    (c.estimated_vram ≤ d.estimated_vram)
    × (c.estimated_vram ≡ d.estimated_vram
        → (c.startup_time ≤ d.startup_time)
          × (c.startup_time ≡ d.startup_time → leb_str c.model_id d.model_id ≡ true))

-- A model that is loaded before one that is not, and the lighter one where both are or neither is.
abbrev pub Preferred : Dict ModelRecord → ModelCapabilities → ModelCapabilities → Type 0
Preferred rs c d = (IsLoaded rs d → IsLoaded rs c) × ((IsLoaded rs c → IsLoaded rs d) → Lighter c d)

is_loaded_lem : (status : ModelStatus) → (is_loaded status ≡ true) ↔ (status ≡ loaded)
is_loaded_lem loaded = ((λ _. refl), (λ _. refl))
is_loaded_lem registered = ((λ h. absurd (cc)), (λ h. ap is_loaded h))
is_loaded_lem loading = ((λ h. absurd (cc)), (λ h. ap is_loaded h))
is_loaded_lem unloading = ((λ h. absurd (cc)), (λ h. ap is_loaded h))
is_loaded_lem unloaded = ((λ h. absurd (cc)), (λ h. ap is_loaded h))
is_loaded_lem failed = ((λ h. absurd (cc)), (λ h. ap is_loaded h))

record_loaded_lem :
    (rs : Dict ModelRecord) (c : ModelCapabilities)
    → (record_loaded rs c.model_id ≡ true) ↔ IsLoaded rs c
record_loaded_lem rs c = elim (Option-cases (lookup c.model_id rs)) [
  | inl e ↦ rw (record_loaded, e) ((λ h. absurd (cc)), (λ h. absurd (let f = h.1 in cc)))
  | inr (r, e) ↦
      rw (record_loaded, e)
        (
          (λ h. (r, refl, (is_loaded_lem r.status).0 h)),
          (λ h. (is_loaded_lem r.status).1 (
              let same : h.0 ≡ r = (let f = h.1 in cc) in
              subst (λ (x : ModelRecord). x.status ≡ loaded) same h.2)),
        )
]

lighter-Lighter : (c d : ModelCapabilities) → lighter c d ≡ true → Lighter c d
unfolding lighter sooner
lighter-Lighter c d h =
    (ground (arith, h), (λ e. (ground (arith, h, e), (λ f. ground (arith, h, e, f)))))

preferred-Preferred :
    (rs : Dict ModelRecord) (c d : ModelCapabilities) → preferred rs c d ≡ true → Preferred rs c d
unfolding preferred
preferred-Preferred rs c d h =
    let of_c = record_loaded_lem rs c in
    let of_d = record_loaded_lem rs d in
    elim (Bool-cases (record_loaded rs c.model_id)) [
      | inl here ↦ (
        (λ _. of_c.0 here),
        (λ both.
            let other : record_loaded rs d.model_id ≡ true = of_d.1 (both (of_c.0 here)) in
            lighter-Lighter c d (ground (arith, h, here, other))),
      )
      | inr gone ↦ elim (Bool-cases (record_loaded rs d.model_id)) [
        | inl other ↦ absurd (ground (arith, h, gone, other))
        | inr other ↦ (
          (λ l. absurd (let here = of_d.1 l in cc)),
          (λ _. lighter-Lighter c d (ground (arith, h, gone, other))),
        )
      ]
    ]

recommend_model_tests :
    {W : Type 0} (lower : String → String) (criteria : ModelSelectionCriteria) (m : ModelManager W)
    → ((recommend_model lower criteria m ≡ none)
        × ((c : ModelCapabilities)
            → Member c (list_models m.registry)
            → fits lower (query_of criteria) c ≡ true
            → ⊥))
      ⊎ ((c : ModelCapabilities) × (recommend_model lower criteria m ≡ some c)
          × Member c (list_models m.registry)
          × (fits lower (query_of criteria) c ≡ true)
          × ((d : ModelCapabilities)
              → Member d (list_models m.registry)
              → fits lower (query_of criteria) d ≡ true
              → (d ≡ c) ⊎ (preferred m.records c d ≡ true)))
unfolding recommend_model select_models
recommend_model_tests lower criteria m =
    let found : List ModelCapabilities = select_models lower criteria m in
    let sorted : List ModelCapabilities = sort_by (preferred m.records) found in
    let exact = find_by_capabilities-Member lower (query_of criteria) m.registry in
    let inside : (d : ModelCapabilities)
        → Member d (list_models m.registry)
        → fits lower (query_of criteria) d ≡ true
        → Member d sorted =
      λ d a f.
        let (x, p, e) =
          All-of-Any found
            (All-sort_by_inv (preferred m.records) (λ x. Member x sorted) found
              (All-intro _ sorted (λ x b. b)))
            ((exact d).1 (a, f)) in
        subst (λ y. Member y sorted) e p in
    elim (List-cases sorted) [
      | inl e ↦
          inl (rw (recommend_model, e) refl, (λ c a f. subst (λ xs. Member c xs) e (inside c a f)))
      | inr (c, rest, e) ↦
          let known =
            subst
              (λ xs.
                All
                  (λ x.
                    Member x (list_models m.registry) × (fits lower (query_of criteria) x ≡ true))
                  xs)
              e
              (All-sort_by (preferred m.records) _ found
                (All-intro _ found (λ x a. (exact x).0 a))) in
          let order =
            subst (λ xs. IsAscending (preferred m.records) xs) e
              (sort_by-IsAscending (preferred-IsOrder m.records) found) in
          inr (
            c,
            rw (recommend_model, e) refl,
            known.0.0,
            known.0.1,
            (λ d a f. elim (subst (λ xs. Member d xs) e (inside d a f)) [
              | inl same ↦ inl (sym same)
              | inr later ↦
                  let (x, p, q) = All-of-Any rest order.0 later in
                  inr (subst (λ y. preferred m.records c y ≡ true) q p)
            ]),
          )
    ]

-- A model that has what the criteria ask for.
abbrev pub Meets : (String → String) → ModelSelectionCriteria → ModelCapabilities → Type 0
Meets lower criteria c =
    Asks lower criteria.language criteria.supports_voice_clone criteria.supports_reference_audio
      criteria.supports_reference_text criteria.supports_streaming criteria.supports_emotions
      criteria.max_vram c

abbrev pub Recommended :
    {W : Type 0} → (String → String) → ModelSelectionCriteria → ModelManager W → Type 0
Recommended lower criteria m =
    ((recommend_model lower criteria m ≡ none)
      × ((c : ModelCapabilities) → Member c (list_models m.registry) → Meets lower criteria c → ⊥))
    ⊎ ((c : ModelCapabilities) × (recommend_model lower criteria m ≡ some c)
        × Member c (list_models m.registry)
        × Meets lower criteria c
        × ((d : ModelCapabilities)
            → Member d (list_models m.registry)
            → Meets lower criteria d
            → (d ≡ c) ⊎ Preferred m.records c d))

-- A model is recommended exactly if the registry has one that has what the criteria ask for. The one
-- that is recommended is such a model, and among them one whose record says that it is loaded is put
-- before one without such a record, then less memory before more, a shorter start before a longer
-- one, and then the order of the ids decides.
pub recommend_model_lem :
    {W : Type 0} (lower : String → String) (criteria : ModelSelectionCriteria) (m : ModelManager W)
    → Recommended lower criteria m
recommend_model_lem lower criteria m =
    let same = fits_lem lower (query_of criteria) in
    elim (recommend_model_tests lower criteria m) [
      | inl (e, nowhere) ↦ inl (e, (λ c a k. nowhere c a ((same c).1 k)))
      | inr (c, e, a, f, best) ↦ inr (
        c,
        e,
        a,
        (same c).0 f,
        (λ d b k. elim (best d b ((same d).1 k)) [
          | inl q ↦ inl q
          | inr p ↦ inr (preferred-Preferred m.records c d p)
        ]),
      )
    ]
