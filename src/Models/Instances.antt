-- ===== src/Models/Instances.antt =====
-- How many instances of a model are loaded.
use dub_manga_studio.Common.{
  suc, min, max, All, All-map, List, [], ◌∷◌, ℕ, ◌≤◌, ◌≡◌, refl, Option, none, some, ◌⊎◌, inl, inr,
  arith, List-cases,
}
use dub_manga_studio.Common.Dict.{values}
use dub_manga_studio.Plugins.Capabilities.{ModelCapabilities}
use dub_manga_studio.Models.{least, default_instances, requested_instances}

default_instances-positive : (c : ModelCapabilities) → 1 ≤ default_instances c
unfolding default_instances
default_instances-positive c = elim (List-cases (values c.recommended_instances)) [
  | inl e ↦ rw (default_instances, e) (omega arith)
  | inr (n, ns, e) ↦ rw (default_instances, e) (omega arith)
]

-- No more instances than any entry of the table.
least_le : (n : ℕ) (ns : List ℕ) → (least n ns ≤ n) × All (λ k. least n ns ≤ k) ns
unfolding least
least_le n [] = (omega arith, tt)
least_le n (m ∷ ms) =
    let rest = least_le (min n m) ms in (omega (arith, rest.0), (omega (arith, rest.0), rest.1))

-- The instances that are asked for, where it is not zero; else as many as any entry of the model's
-- table allows, but at least one, and one where the table is empty.
abbrev pub Instances : Option ℕ → ModelCapabilities → ℕ → Type 0
Instances instances c n =
    (1 ≤ n)
    × ((k : ℕ) → instances ≡ some (suc k) → n ≡ suc k)
    × ((instances ≡ none) ⊎ (instances ≡ some 0)
        → All (λ k. n ≤ max 1 k) (values c.recommended_instances)
          × (values c.recommended_instances ≡ [] → n ≡ 1))

default_instances_le :
    (c : ModelCapabilities)
    → All (λ k. default_instances c ≤ max 1 k) (values c.recommended_instances)
      × (values c.recommended_instances ≡ [] → default_instances c ≡ 1)
unfolding default_instances
default_instances_le c = elim (List-cases (values c.recommended_instances)) [
  | inl e ↦ rw (default_instances, e) (tt, (λ _. refl))
  | inr (n, ns, e) ↦
      let low = least_le n ns in
      rw (default_instances, e)
        ((omega (arith, low.0), All-map (λ k h. omega (arith, h)) ns low.1), (λ w. absurd (cc)))
]

-- As many instances as are asked for are at least one.
pub requested_instances-positive :
    (instances : Option ℕ) (c : ModelCapabilities)
    → 1 ≤ requested_instances instances (default_instances c)
requested_instances-positive none c = default_instances-positive c
requested_instances-positive (some n) c = ground (arith, default_instances-positive c)

pub requested_instances-Instances :
    (instances : Option ℕ) (c : ModelCapabilities)
    → Instances instances c (requested_instances instances (default_instances c))
requested_instances-Instances none c =
    (default_instances-positive c, (λ k e. absurd (cc)), (λ _. default_instances_le c))
requested_instances-Instances (some n) c = (
  requested_instances-positive (some n) c,
  (λ k e. let same : n ≡ suc k = cc in ground (arith, same)),
  (λ h. elim h [
    | inl e ↦ absurd (cc)
    | inr e ↦ let zero_asked : n ≡ 0 = cc in rw zero_asked (default_instances_le c)
  ]),
)
