-- ===== src/Plugins/Asks.antt =====
-- What a query by capabilities asks for, said without the tests of the code.
use dub_manga_studio.Common.{
  ℕ, ◌≤◌, String, ◌≡◌, refl, sym, ◌∙◌, subst, ◌↔◌, ◌⊎◌, inl, inr, Bool, true, false, ◌||◌, Option,
  none, some, List, [], ◌∷◌, arith, str_eq, eq_iff, Any, Bool-cases,
}
use dub_manga_studio.Plugins.Capabilities.{
  ModelCapabilities, contains, meets, meets_vram, meets_language,
}

abbrev pub HasText : String → List String → Type 0
HasText x xs = Any (λ y. y ≡ x) xs

-- What is asked for is what is given.
abbrev pub Gives : Option Bool → Bool → Type 0
Gives asked given = (b : Bool) → asked ≡ some b → given ≡ b

abbrev pub Within : Option ℕ → ℕ → Type 0
Within limit given = (n : ℕ) → limit ≡ some n → given ≤ n

-- The language is spoken: none is asked for, or no language is named, or all are, or this one is.
abbrev pub Speaks : (String → String) → Option String → List String → Type 0
Speaks lower language supported =
    (l : String)
    → language ≡ some l
    → (l ≡ "") ⊎ (supported ≡ []) ⊎ HasText "*" supported ⊎ HasText (lower l) supported

pub meets_lem :
    (asked : Option Bool) (given : Bool) → (meets asked given ≡ true) ↔ Gives asked given
meets_lem none given = ((λ _ b e. absurd (cc)), (λ _. refl))
meets_lem (some true) given = ((λ h b e. let same : true ≡ b = cc in h ∙ same), (λ h. h true refl))
meets_lem (some false) true =
    ((λ h b e. absurd (cc)), (λ h. let wrong : true ≡ false = h false refl in absurd (cc)))
meets_lem (some false) false = ((λ h b e. cc), (λ _. refl))

pub meets_vram_lem :
    (limit : Option ℕ) (given : ℕ) → (meets_vram limit given ≡ true) ↔ Within limit given
meets_vram_lem none given = ((λ _ n e. absurd (cc)), (λ _. refl))
meets_vram_lem (some m) given = (
  (λ h n e. let same : m ≡ n = cc in ground (arith, h, same)),
  (λ h. let less = h m refl in ground (arith, less)),
)

contains_lem : (x : String) (ys : List String) → (contains x ys ≡ true) ↔ HasText x ys
unfolding contains
contains_lem x [] = ((λ h. absurd (cc)), (λ a. absurd a))
contains_lem x (y ∷ ys) = (
  (λ h. elim (Bool-cases (str_eq x y)) [
    | inl e ↦ inl (sym ((eq_iff x y).0 e))
    | inr e ↦ inr ((contains_lem x ys).0 (rw e at h))
  ]),
  (λ a. elim a [
    | inl e ↦ let same : str_eq x y ≡ true = (eq_iff x y).1 (sym e) in rw same refl
    | inr b ↦ let rest : contains x ys ≡ true = (contains_lem x ys).1 b in ground (arith, rest)
  ]),
)

-- Either of two tests, and one of three.
or_lem : (a b : Bool) → ((a || b) ≡ true) ↔ ((a ≡ true) ⊎ (b ≡ true))
or_lem true b = ((λ _. inl refl), (λ _. refl))
or_lem false b = ((λ h. inr h), (λ h. elim h [ inl e ↦ absurd (cc) | inr e ↦ e ]))

pub meets_language_lem :
    (lower : String → String) (language : Option String) (supported : List String)
    → (meets_language lower language supported ≡ true) ↔ Speaks lower language supported
unfolding meets_language
meets_language_lem lower none supported = ((λ _ l e. absurd (cc)), (λ _. refl))
meets_language_lem lower (some l) [] = ((λ _ k e. inr (inl refl)), (λ _. refl))
meets_language_lem lower (some l) (s ∷ ss) = (
  (λ h k e.
      let same : l ≡ k = cc in
      subst (λ j. (j ≡ "") ⊎ (s ∷ ss ≡ []) ⊎ HasText "*" (s ∷ ss) ⊎ HasText (lower j) (s ∷ ss)) same
        (elim ((or_lem _ _).0 h) [
          | inr c ↦ inr (inr (inr ((contains_lem (lower l) (s ∷ ss)).0 c)))
          | inl ab ↦ elim ((or_lem _ _).0 ab) [
            | inl a ↦ inl ((eq_iff l "").0 a)
            | inr b ↦ inr (inr (inl ((contains_lem "*" (s ∷ ss)).0 b)))
          ]
        ])),
  (λ h. elim (h l refl) [
    | inl e ↦ (or_lem _ _).1 (inl ((or_lem _ _).1 (inl ((eq_iff l "").1 e))))
    | inr (inl e) ↦ absurd (cc)
    | inr (inr (inl a)) ↦
        (or_lem _ _).1 (inl ((or_lem _ _).1 (inr ((contains_lem "*" (s ∷ ss)).1 a))))
    | inr (inr (inr a)) ↦ (or_lem _ _).1 (inr ((contains_lem (lower l) (s ∷ ss)).1 a))
  ]),
)

-- A model that has what is asked for.
pub record Asks (lower : String → String) (language : Option String)
    (clone audio text streaming emotions : Option Bool) (max_vram : Option ℕ)
    (c : ModelCapabilities) : Type 0 where
  pub speaks : Speaks lower language c.supported_languages
  pub clones : Gives clone c.supports_voice_clone
  pub hears : Gives audio c.supports_reference_audio
  pub reads : Gives text c.supports_reference_text
  pub streams : Gives streaming c.supports_streaming
  pub feels : Gives emotions c.supports_emotions
  pub small : Within max_vram c.estimated_vram
