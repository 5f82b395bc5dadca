-- ===== src/Plugins/Find.antt =====
-- `find_by_capabilities`.
use dub_manga_studio.Common.{
  leb_str, refl, Bool, ◌&&◌, ◌≤◌, IsSorted, IsAscending-IsSorted, String, ◌≡◌, sym, subst, ◌↔◌,
  true, false, List, arith, leb_str_total, leb_str_trans, Any, All-intro, All-of-Any, All-keep,
  All-keep_inv, All-sort_by, All-sort_by_inv, IsOrder, sort_by-IsAscending, keep, sort_by,
}
use dub_manga_studio.Plugins.{
  PluginRegistry, Query, list_models, fits, smaller, find_by_capabilities,
}
use dub_manga_studio.Plugins.Capabilities.{ModelCapabilities}
use dub_manga_studio.Plugins.Asks.{Asks, meets_lem, meets_vram_lem, meets_language_lem}

smaller_total : (c d : ModelCapabilities) → smaller c d ≡ false → smaller d c ≡ true
unfolding smaller
smaller_total c d h = ground (arith, leb_str_total c.model_id d.model_id)

smaller_trans :
    (c d e : ModelCapabilities) → smaller c d ≡ true → smaller d e ≡ true → smaller c e ≡ true
unfolding smaller
smaller_trans c d e h k = ground (arith, leb_str_trans c.model_id d.model_id e.model_id)

pub smaller-IsOrder : IsOrder smaller
smaller-IsOrder = record { total = smaller_total; trans = smaller_trans }

-- Less memory comes first, and the order of the ids decides among equals.
abbrev pub Smaller : ModelCapabilities → ModelCapabilities → Type 0
Smaller c d =
    (c.estimated_vram ≤ d.estimated_vram)
    × (c.estimated_vram ≡ d.estimated_vram → leb_str c.model_id d.model_id ≡ true)

smaller-Smaller : (c d : ModelCapabilities) → smaller c d ≡ true → Smaller c d
unfolding smaller
smaller-Smaller c d h = (ground (arith, h), (λ e. ground (arith, h, e)))

abbrev pub Member : ModelCapabilities → List ModelCapabilities → Type 0
Member c cs = Any (λ x. x ≡ c) cs

-- A model that has what the query asks for.
abbrev pub Asked : (String → String) → Query → ModelCapabilities → Type 0
Asked lower query c =
    Asks lower query.language query.voice_clone query.reference_audio query.reference_text
      query.streaming query.emotions query.max_vram c

and_left : (a b : Bool) → (a && b) ≡ true → a ≡ true
and_left a b e = ground (arith, e)

and_right : (a b : Bool) → (a && b) ≡ true → b ≡ true
and_right a b e = ground (arith, e)

-- The tests of the loop are what the query asks for.
pub fits_lem :
    (lower : String → String) (query : Query) (c : ModelCapabilities)
    → (fits lower query c ≡ true) ↔ Asked lower query c
unfolding fits
fits_lem lower query c = (
  (λ h.
      let g = and_left _ _ h in
      let f = and_left _ _ g in
      let e = and_left _ _ f in
      let d = and_left _ _ e in
      let b = and_left _ _ d in
      record {
        speaks = (meets_language_lem lower query.language c.supported_languages).0 (and_left _ _ b);
        clones = (meets_lem query.voice_clone c.supports_voice_clone).0 (and_right _ _ b);
        hears = (meets_lem query.reference_audio c.supports_reference_audio).0 (and_right _ _ d);
        reads = (meets_lem query.reference_text c.supports_reference_text).0 (and_right _ _ e);
        streams = (meets_lem query.streaming c.supports_streaming).0 (and_right _ _ f);
        feels = (meets_lem query.emotions c.supports_emotions).0 (and_right _ _ g);
        small = (meets_vram_lem query.max_vram c.estimated_vram).0 (and_right _ _ h);
      }),
  (λ a.
      rw
        (
          (meets_language_lem lower query.language c.supported_languages).1 a.speaks,
          (meets_lem query.voice_clone c.supports_voice_clone).1 a.clones,
          (meets_lem query.reference_audio c.supports_reference_audio).1 a.hears,
          (meets_lem query.reference_text c.supports_reference_text).1 a.reads,
          (meets_lem query.streaming c.supports_streaming).1 a.streams,
          (meets_lem query.emotions c.supports_emotions).1 a.feels,
          (meets_vram_lem query.max_vram c.estimated_vram).1 a.small,
        )
        refl),
)

pub find_by_capabilities-Member :
    (lower : String → String) (query : Query) (r : PluginRegistry) (c : ModelCapabilities)
    → Member c (find_by_capabilities lower query r)
      ↔ (Member c (list_models r) × (fits lower query c ≡ true))
unfolding find_by_capabilities
find_by_capabilities-Member lower query r c =
    let all : List ModelCapabilities = list_models r in
    let kept : List ModelCapabilities = keep (fits lower query) all in
    (
      (λ a.
          let sound =
            All-sort_by smaller (λ x. Member x all × (fits lower query x ≡ true)) kept
              (All-keep (λ x. Member x all) (fits lower query) all (All-intro _ all (λ x m. m))) in
          let (x, h, e) = All-of-Any (sort_by smaller kept) sound a in
          subst (λ y. Member y all × (fits lower query y ≡ true)) e h),
      (λ h.
          let complete =
            All-keep_inv (λ x. Member x (sort_by smaller kept)) (fits lower query) all
              (All-sort_by_inv smaller (λ x. Member x (sort_by smaller kept)) kept
                (All-intro _ (sort_by smaller kept) (λ x m. m))) in
          let (x, f, e) = All-of-Any all complete h.0 in
          subst (λ y. Member y (sort_by smaller kept)) e
            (f (subst (λ y. fits lower query y ≡ true) (sym e) h.1))),
    )

-- What is found is what the registry has and what has all that the query asks for: the language,
-- where one is asked for and the model names some and not all; each support that the query fixes;
-- and the limit of memory. Less memory comes first, and models of the same memory by their ids.
pub find_by_capabilities_lem :
    (lower : String → String) (query : Query) (r : PluginRegistry)
    → IsSorted Smaller (find_by_capabilities lower query r)
      × ((c : ModelCapabilities)
          → Member c (find_by_capabilities lower query r)
            ↔ (Member c (list_models r) × Asked lower query c))
unfolding find_by_capabilities
find_by_capabilities_lem lower query r = (
  IsAscending-IsSorted smaller Smaller smaller-Smaller _
      (sort_by-IsAscending smaller-IsOrder (keep (fits lower query) (list_models r))),
  (λ c.
      let found = find_by_capabilities-Member lower query r c in
      let same = fits_lem lower query c in
      ((λ a. ((found.0 a).0, same.0 (found.0 a).1)), (λ h. found.1 (h.0, same.1 h.1)))),
)
