-- ===== src/Common/Sorting.antt =====
-- Python's `sorted(xs, key=...)`: stable, so equal keys keep their order. `le x y` says that
-- the key of `x` is not above the key of `y`.
use mathlib.Core.Path.{◌≡◌}
use mathlib.Core.Logic.{inl, inr}
use mathlib.Core.Bool.{Bool, true, false}
use mathlib.Core.List.{List, [], ◌∷◌}
use dub_manga_studio.Common.Tests.{if◌then◌else◌, Bool-cases}
use dub_manga_studio.Common.Lists.{All, All-map}

module _ {ℓ} {A : Type ℓ} (le : A → A → Bool) where
  unfoldable pub insert_by : A → List A → List A
  insert_by x [] = x ∷ []
  insert_by x (y ∷ ys) = let rest = insert_by x ys in if le x y then x ∷ y ∷ ys else y ∷ rest

  unfoldable pub sort_by : List A → List A
  unfolding insert_by
  sort_by [] = []
  sort_by (x ∷ xs) = insert_by x (sort_by xs)

-- What holds of every entry, and what holds of some entry, does not see the order.
module _ {ℓ} {A : Type ℓ} (le : A → A → Bool) (P : A → Type 0) where
  All-insert_by : (x : A) (xs : List A) → P x → All P xs → All P (insert_by le x xs)
  unfolding insert_by
  All-insert_by x [] p h = (p, tt)
  All-insert_by x (y ∷ ys) p h = elim (Bool-cases (le x y)) [
    | inl e ↦ rw e (p, h)
    | inr e ↦ rw e (h.0, All-insert_by x ys p h.1)
  ]

  All-insert_by_inv : (x : A) (xs : List A) → All P (insert_by le x xs) → P x × All P xs
  unfolding insert_by
  All-insert_by_inv x [] h = h
  All-insert_by_inv x (y ∷ ys) h = elim (Bool-cases (le x y)) [
    | inl e ↦ rw e at h
    | inr e ↦
        let h' : P y × All P (insert_by le x ys) = rw e at h in
        let rest = All-insert_by_inv x ys h'.1 in (rest.0, (h'.0, rest.1))
  ]

  pub All-sort_by : (xs : List A) → All P xs → All P (sort_by le xs)
  unfolding sort_by
  All-sort_by [] h = tt
  All-sort_by (x ∷ xs) h = All-insert_by x (sort_by le xs) h.0 (All-sort_by xs h.1)

  pub All-sort_by_inv : (xs : List A) → All P (sort_by le xs) → All P xs
  unfolding sort_by
  All-sort_by_inv [] h = tt
  All-sort_by_inv (x ∷ xs) h =
      let parts = All-insert_by_inv x (sort_by le xs) h in (parts.0, All-sort_by_inv xs parts.1)

-- Each entry is at most every later one.
abbrev pub IsAscending {ℓ} : {A : Type ℓ} → (A → A → Bool) → List A → Type 0
IsAscending le [] = Unit
IsAscending le (x ∷ xs) = All (λ y. le x y ≡ true) xs × IsAscending le xs

-- An order that `sorted` can use: total and transitive.
pub record IsOrder {ℓ} {A : Type ℓ} (le : A → A → Bool) : Type ℓ where
  pub total : (x y : A) → le x y ≡ false → le y x ≡ true
  pub trans : (x y z : A) → le x y ≡ true → le y z ≡ true → le x z ≡ true

module _ {ℓ} {A : Type ℓ} {le : A → A → Bool} (order : IsOrder le) where
  All-trans :
      (x y : A) (ys : List A)
      → le x y ≡ true
      → All (λ z. le y z ≡ true) ys
      → All (λ z. le x z ≡ true) ys
  All-trans x y [] e h = tt
  All-trans x y (z ∷ zs) e h = (order.trans x y z e h.0, All-trans x y zs e h.1)

  insert_by-IsAscending :
      (x : A) (xs : List A) → IsAscending le xs → IsAscending le (insert_by le x xs)
  unfolding insert_by
  insert_by-IsAscending x [] h = (tt, tt)
  insert_by-IsAscending x (y ∷ ys) h = elim (Bool-cases (le x y)) [
    | inl e ↦ rw e ((e, All-trans x y ys e h.0), h)
    | inr e ↦ rw e (
      All-insert_by le (λ z. le y z ≡ true) x ys (order.total x y e) h.0,
      insert_by-IsAscending x ys h.1,
    )
  ]

  pub sort_by-IsAscending : (xs : List A) → IsAscending le (sort_by le xs)
  unfolding sort_by
  sort_by-IsAscending [] = tt
  sort_by-IsAscending (x ∷ xs) = insert_by-IsAscending x (sort_by le xs) (sort_by-IsAscending xs)

-- Each entry stands in `R` to every later one.
abbrev pub IsSorted {ℓ} : {A : Type ℓ} → (A → A → Type 0) → List A → Type 0
IsSorted R [] = Unit
IsSorted R (x ∷ xs) = All (R x) xs × IsSorted R xs

-- What the test of an order says of two entries holds along a list in this order.
pub IsAscending-IsSorted {ℓ} :
    {A : Type ℓ} (le : A → A → Bool) (R : A → A → Type 0)
    → ((x y : A) → le x y ≡ true → R x y)
    → (xs : List A) → IsAscending le xs
    → IsSorted R xs
IsAscending-IsSorted le R f [] h = tt
IsAscending-IsSorted le R f (x ∷ xs) h =
    (All-map (λ y e. f x y e) xs h.0, IsAscending-IsSorted le R f xs h.1)
