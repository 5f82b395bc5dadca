-- ===== src/Common/Dict/Shape.antt =====
-- Dictionaries with the same keys in the same order.
use Prim.Native.String.{String}
use mathlib.Core.Path.{◌≡◌, refl}
use mathlib.Core.Logic.{◌≢◌}
use mathlib.Core.List.{[], ◌∷◌}
use dub_manga_studio.Common.Lists.{All}
use dub_manga_studio.Common.Dict.{Dict}
use dub_manga_studio.Common.Dict.Entries.{HasKeys}

module _ {V : Type 0} where
  abbrev pub SameKeys : Dict V → Dict V → Type 0
  SameKeys [] [] = Unit
  SameKeys [] (e ∷ es) = ⊥
  SameKeys (d ∷ ds) [] = ⊥
  SameKeys (d ∷ ds) (e ∷ es) = (e.0 ≡ d.0) × SameKeys ds es

  pub SameKeys-refl : (ds : Dict V) → SameKeys ds ds
  SameKeys-refl [] = tt
  SameKeys-refl (d ∷ ds) = (refl, SameKeys-refl ds)

  absent-SameKeys :
      (k : String) (ds es : Dict V)
      → SameKeys ds es
      → All (λ (e : String × V). e.0 ≢ k) ds
      → All (λ (e : String × V). e.0 ≢ k) es
  absent-SameKeys k [] [] same h = tt
  absent-SameKeys k [] (e ∷ es) same h = absurd same
  absent-SameKeys k (d ∷ ds) [] same h = absurd same
  absent-SameKeys k (d ∷ ds) (e ∷ es) same h = (rw same.0 h.0, absent-SameKeys k ds es same.1 h.1)

  pub HasKeys-SameKeys : (ds es : Dict V) → SameKeys ds es → HasKeys ds → HasKeys es
  HasKeys-SameKeys [] [] same h = tt
  HasKeys-SameKeys [] (e ∷ es) same h = absurd same
  HasKeys-SameKeys (d ∷ ds) [] same h = absurd same
  HasKeys-SameKeys (d ∷ ds) (e ∷ es) same h =
      (rw same.0 (absent-SameKeys d.0 ds es same.1 h.0), HasKeys-SameKeys ds es same.1 h.1)
