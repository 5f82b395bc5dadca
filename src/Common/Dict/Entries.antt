-- ===== src/Common/Dict/Entries.antt =====
-- A dictionary's entries: each key once, what holds of every entry, and lookups among them.
use Prim.Native.String.{String}
use mathlib.Core.Path.{◌≡◌, refl}
use mathlib.Core.Logic.{◌≢◌, inl, inr}
use mathlib.Core.Bool.{false}
use mathlib.Core.Option.{none, some}
use mathlib.Core.List.{[], ◌∷◌}
use native.Mathlib.Omega.{arith}
use text.Mathlib.Text.{◌==◌}
use text.Mathlib.TextEquality.{eq_iff}
use dub_manga_studio.Common.Tests.{Bool-cases}
use dub_manga_studio.Common.Lists.{All, All-intro, Any}
use dub_manga_studio.Common.Dict.{Dict, lookup, put, remove}

ne_of_test : (j k : String) → (j == k) ≡ false → k ≢ j
ne_of_test j k e p = ground (arith, eq_iff j k)

module _ {V : Type 0} where
  -- Each key stands once.
  abbrev pub HasKeys : Dict V → Type 0
  HasKeys [] = Unit
  HasKeys ((k, v) ∷ d) = All (λ (e : String × V). e.0 ≢ k) d × HasKeys d

  abbrev pub Holds : (String × V) → Dict V → Type 0
  Holds e d = Any (λ x. x ≡ e) d

  All-put :
      (P : String × V → Type 0) (k : String) (v : V) (d : Dict V)
      → P (k, v)
      → All P d
      → All P (put k v d)
  unfolding put
  All-put P k v [] p h = (p, tt)
  All-put P k v ((j, w) ∷ d) p h = elim (Bool-cases (j == k)) [
    | inl e ↦ rw e (p, h.1)
    | inr e ↦ rw e (h.0, All-put P k v d p h.1)
  ]

  pub Every-put :
      (P : String × V → Type 0) (k : String) (v : V) (d : Dict V)
      → P (k, v)
      → All P d
      → All P (put k v d)
  Every-put = All-put

  pub Every-remove :
      (P : String × V → Type 0) (k : String) (d : Dict V) → All P d → All P (remove k d)
  unfolding remove
  Every-remove P k [] h = tt
  Every-remove P k ((j, w) ∷ d) h = elim (Bool-cases (j == k)) [
    | inl e ↦ rw e (Every-remove P k d h.1)
    | inr e ↦ rw e (h.0, Every-remove P k d h.1)
  ]

  pub HasKeys-put : (k : String) (v : V) (d : Dict V) → HasKeys d → HasKeys (put k v d)
  unfolding put
  HasKeys-put k v [] h = (tt, tt)
  HasKeys-put k v ((j, w) ∷ d) h = elim (Bool-cases (j == k)) [
    | inl e ↦ let same : j ≡ k = (eq_iff j k).0 e in rw (e, ← same) h
    | inr e ↦ rw e (All-put _ k v d (ne_of_test j k e) h.0, HasKeys-put k v d h.1)
  ]

  pub HasKeys-remove : (k : String) (d : Dict V) → HasKeys d → HasKeys (remove k d)
  unfolding remove
  HasKeys-remove k [] h = tt
  HasKeys-remove k ((j, w) ∷ d) h = elim (Bool-cases (j == k)) [
    | inl e ↦ rw e (HasKeys-remove k d h.1)
    | inr e ↦ rw e (Every-remove _ k d h.0, HasKeys-remove k d h.1)
  ]

  lookup-absent :
      (k : String) (d : Dict V) → All (λ (e : String × V). e.0 ≢ k) d → lookup k d ≡ none
  unfolding lookup
  lookup-absent k [] h = refl
  lookup-absent k ((j, w) ∷ d) h = ground (arith, eq_iff j k, lookup-absent k d h.1)

  -- Where each key stands once, a lookup finds the entry.
  pub lookup-Holds :
      (k : String) (v : V) (d : Dict V) → HasKeys d → Holds (k, v) d → lookup k d ≡ some v
  unfolding lookup
  lookup-Holds k v [] h a = absurd a
  lookup-Holds k v ((j, w) ∷ d) h (inl e) = ground (arith, eq_iff j k)
  lookup-Holds k v ((j, w) ∷ d) h (inr a) =
      ground (arith, eq_iff j k, lookup-Holds k v d h.1 a, lookup-absent j d h.0)

  pub lookup-each : (d : Dict V) → HasKeys d → All (λ (e : String × V). lookup e.0 d ≡ some e.1) d
  lookup-each d keys =
      All-intro (λ (e : String × V). lookup e.0 d ≡ some e.1) d
        (λ e held. lookup-Holds e.0 e.1 d keys held)

  -- What holds of every entry holds of one that a lookup finds.
  pub All-lookup :
      (P : String × V → Type 0) (k : String) (v : V) (d : Dict V)
      → All P d
      → lookup k d ≡ some v
      → P (k, v)
  unfolding lookup
  All-lookup P k v [] h e = absurd (cc)
  All-lookup P k v ((j, w) ∷ d) h e = elim (Bool-cases (j == k)) [
    | inl t ↦
        let same : j ≡ k = (eq_iff j k).0 t in
        let value : w ≡ v = ground arith in rw (← same, ← value) h.0
    | inr t ↦ All-lookup P k v d h.1 (ground arith)
  ]
