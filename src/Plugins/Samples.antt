-- ===== src/Plugins/Samples.antt =====
-- Small configurations, tests, and the properties at them.
use dub_manga_studio.Common.{
  ℕ, String, ◌≡◌, ◌↔◌, refl, true, none, some, List, [], ◌∷◌, null, keep, sort_by, insert_by,
  leb_str, prefixed, IsSorted, map, length,
}
use dub_manga_studio.Common.Exec.{ok, err}
use dub_manga_studio.Common.Dict.{Dict, lookup, put, values}
use dub_manga_studio.Common.Dict.Entries.{HasKeys, HasKeys-put}
use dub_manga_studio.Plugins.{
  PluginRegistry, already_registered, Ambient, create, announce, register, Query, list_models,
  list_model_ids, fits, smaller, find_by_capabilities,
}
use dub_manga_studio.Plugins.Capabilities.{ModelCapabilities, contains, meets_language}
use dub_manga_studio.Plugins.Build.{
  Profile, ModelConfig, Config, recommended, recommended_instances, distinct, normalize_languages,
  merged, existing_worker, model_plugin, whisper_plugin, inserted_model, inserted_whisper,
  register_each, build_by_registration, insert_each, build_by_insertion,
}
use dub_manga_studio.Plugins.Bootstrap.{build_by_registration-build_by_insertion}
use dub_manga_studio.Plugins.Find.{Member, Smaller, Asked, find_by_capabilities_lem}

program : Unit {0}
unfolding keep sort_by insert_by leb_str prefixed lookup put values create announce register
    list_models list_model_ids fits smaller find_by_capabilities contains meets_language recommended
    recommended_instances distinct normalize_languages merged existing_worker model_plugin
    whisper_plugin inserted_model inserted_whisper register_each build_by_registration insert_each
    build_by_insertion
program = tt

abbrev l4 : Profile
l4 = record { vram = some 24000; min_free_vram_reserve = none; tts_instances = some 3 }

abbrev model : ℕ → ModelConfig
model vram = record {
  label = none;
  license_flag = none;
  est_vram = some vram;
  default_for = [];
  supports_clone = none;
  needs_ref_transcript = none;
  inline_emotion_tags = none;
  batch_support = none;
  weights_gated = none;
  port = null;
  venv = null;
}

abbrev config : Dict ModelConfig → Config
config models = record {
  target_languages = "hi" ∷ "en" ∷ [];
  gpu_profiles = ("l4", l4) ∷ [];
  whisper_model = none;
  dubbing_models = models;
}

abbrev two_models : Config
two_models = config (("fish", model 9000) ∷ ("vox", model 5000) ∷ [])

abbrev as_is : String → String
as_is text = text

abbrev now : Ambient
now = record { now = 1; event_id = "e" }

abbrev built : PluginRegistry
built = build_by_insertion as_is two_models none

build_test :
    (list_model_ids built ≡ "fish" ∷ "vox" ∷ "whisper" ∷ [])
    × (recommended 9000 l4 ≡ 2)
    × (recommended 5000 l4 ≡ 3)
    × (recommended 0 l4 ≡ 3)
unfolding program
build_test = (refl, refl, refl, refl)

-- A configured model that is called `whisper` makes registering raise, and is replaced by inserting.
whisper_twice_test :
    ((build_by_registration as_is (config (("whisper", model 1000) ∷ [])) now none).0
      ≡ err (already_registered "whisper"))
    × (length (build_by_insertion as_is (config (("whisper", model 1000) ∷ [])) none).models ≡ 1)
unfolding program
whisper_twice_test = (refl, refl)

two_models-HasKeys :
    HasKeys two_models.dubbing_models × (lookup "whisper" two_models.dubbing_models ≡ none)
unfolding program
two_models-HasKeys = (
  HasKeys-put "vox" (model 5000) (("fish", model 9000) ∷ [])
      (HasKeys-put "fish" (model 9000) [] tt),
  refl,
)

build_by_registration-build_by_insertion_example :
    build_by_registration as_is two_models now none
    ≡ (ok tt, build_by_insertion as_is two_models none)
build_by_registration-build_by_insertion_example =
    build_by_registration-build_by_insertion as_is two_models now two_models-HasKeys.0
      two_models-HasKeys.1

abbrev query : Query
query = record {
  language = some "hi";
  voice_clone = some true;
  reference_audio = none;
  reference_text = none;
  streaming = none;
  emotions = none;
  max_vram = some 6000;
}

abbrev ids_of : List ModelCapabilities → List String
ids_of = map (λ (c : ModelCapabilities). c.model_id)

find_test : ids_of (find_by_capabilities as_is query built) ≡ "vox" ∷ []
unfolding program
find_test = refl

find_by_capabilities_lem_example :
    IsSorted Smaller (find_by_capabilities as_is query built)
    × ((c : ModelCapabilities)
        → Member c (find_by_capabilities as_is query built)
          ↔ (Member c (list_models built) × Asked as_is query c))
find_by_capabilities_lem_example = find_by_capabilities_lem as_is query built
