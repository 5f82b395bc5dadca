-- ===== src/Plugins/Capabilities.antt =====
-- ModelCapabilities of services/plugin_registry.py, and the tests of a query by capabilities.
-- Memory is in thousandths of a gigabyte, times are whole units.
use dub_manga_studio.Common.{
  ℕ, String, Bool, true, false, ◌||◌, not, Option, none, some, List, [], ◌∷◌, leb, str_eq, Json,
}
use dub_manga_studio.Common.Dict.{Dict}

pub record ModelCapabilities : Type 0 where
  pub model_id : String
  pub label : String
  pub supported_languages : List String
  pub supports_voice_clone : Bool
  pub supports_reference_audio : Bool
  pub supports_reference_text : Bool
  pub supports_streaming : Bool
  pub supports_emotions : Bool
  pub estimated_vram : ℕ
  pub recommended_instances : Dict ℕ
  pub startup_time : ℕ
  pub batch_support : Bool
  pub plugin_version : String
  pub license : Option String
  pub gated : Bool
  pub max_batch_size : ℕ
  pub metadata : Dict Json

-- x in xs
unfoldable pub contains : String → List String → Bool
contains x [] = false
contains x (y ∷ ys) = str_eq x y || contains x ys

-- `wanted is not None and given != wanted`, negated
abbrev pub meets : Option Bool → Bool → Bool
meets none given = true
meets (some true) given = given
meets (some false) given = not given

abbrev pub meets_vram : Option ℕ → ℕ → Bool
meets_vram none given = true
meets_vram (some limit) given = leb given limit

-- No languages, or "*" among them, is every language; `lower` is str.lower.
unfoldable pub meets_language : (String → String) → Option String → List String → Bool
unfolding contains
meets_language lower none supported = true
meets_language lower (some language) [] = true
meets_language lower (some language) (s ∷ ss) =
    str_eq language "" || contains "*" (s ∷ ss) || contains (lower language) (s ∷ ss)
