-- ===== src/Common/Dict.antt =====
-- Python's `dict` with text keys, in insertion order.
pub mod Entries
pub mod Shape
use Prim.Native.String.{String}
use mathlib.Core.Path.{◌≡◌, refl}
use mathlib.Core.Logic.{inl, inr}
use mathlib.Core.Option.{Option, none, some}
use mathlib.Core.List.{List, [], ◌∷◌}
use native.Mathlib.Omega.{arith}
use text.Mathlib.Text.{◌==◌}
use text.Mathlib.TextEquality.{eq_iff}
use text.Mathlib.TextPositions.{eq_refl}
use dub_manga_studio.Common.Tests.{if◌then◌else◌, Bool-cases}
use dub_manga_studio.Common.Lists.{All}

abbrev pub Dict {ℓ} : Type ℓ → Type ℓ
Dict V = List (String × V)

module _ {ℓ} {V : Type ℓ} where
  -- d.get(k)
  unfoldable pub lookup : String → Dict V → Option V
  lookup k [] = none
  lookup k ((j, v) ∷ d) = if j == k then some v else lookup k d

  -- d[k] = v: a key that is there keeps its place.
  unfoldable pub put : String → V → Dict V → Dict V
  put k v [] = (k, v) ∷ []
  put k v ((j, w) ∷ d) = if j == k then (k, v) ∷ d else (j, w) ∷ put k v d

  -- d.pop(k, None)
  unfoldable pub remove : String → Dict V → Dict V
  remove k [] = []
  remove k ((j, v) ∷ d) = let rest = remove k d in if j == k then rest else (j, v) ∷ rest

  -- d.values()
  unfoldable pub values : Dict V → List V
  values [] = []
  values ((j, v) ∷ d) = v ∷ values d

  pub lookup-put :
      (k j : String) (v : V) (d : Dict V)
      → lookup j (put k v d) ≡ (if k == j then some v else lookup j d)
  unfolding lookup put
  lookup-put k j v [] = refl
  lookup-put k j v ((i, w) ∷ d) =
      ground (arith, eq_iff k j, eq_iff i k, eq_iff i j, lookup-put k j v d)

  pub lookup-put_self : (k : String) (v : V) (d : Dict V) → lookup k (put k v d) ≡ some v
  lookup-put_self k v d = rw (lookup-put k k v d, eq_refl k)

  pub lookup-remove :
      (k j : String) (d : Dict V) → lookup j (remove k d) ≡ (if k == j then none else lookup j d)
  unfolding lookup remove
  lookup-remove k j [] = ground arith
  lookup-remove k j ((i, w) ∷ d) =
      ground (arith, eq_iff k j, eq_iff i k, eq_iff i j, lookup-remove k j d)

  pub All-values :
      (P : V → Type 0) (d : Dict V) → All (λ (e : String × V). P e.1) d → All P (values d)
  unfolding values
  All-values P [] h = tt
  All-values P ((j, v) ∷ d) h = (h.0, All-values P d h.1)

  pub All-values_inv :
      (P : V → Type 0) (d : Dict V) → All P (values d) → All (λ (e : String × V). P e.1) d
  unfolding values
  All-values_inv P [] h = tt
  All-values_inv P ((j, v) ∷ d) h = (h.0, All-values_inv P d h.1)

  pub put-put : (k : String) (v w : V) (d : Dict V) → put k v (put k w d) ≡ put k v d
  unfolding put
  put-put k v w [] = rw (eq_refl k) refl
  put-put k v w ((j, x) ∷ d) = elim (Bool-cases (j == k)) [
    | inl e ↦ rw e (rw (eq_refl k) refl)
    | inr e ↦ rw e (rw e (rw (put-put k v w d) refl))
  ]
