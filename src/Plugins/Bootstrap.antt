-- ===== src/Plugins/Bootstrap.antt =====
-- The two ways in which `build_registry_from_config` fills the registry.
use dub_manga_studio.Common.{
  String, ◌≡◌, ◌≢◌, refl, ◌∙◌, ap, none, [], ◌∷◌, arith, eq_iff, All, All-intro,
}
use dub_manga_studio.Common.Exec.{ok}
use dub_manga_studio.Common.Dict.{Dict, lookup, put, lookup-put}
use dub_manga_studio.Common.Dict.Entries.{HasKeys}
use dub_manga_studio.Plugins.{PluginRegistry, Ambient, create, announce, register}
use dub_manga_studio.Plugins.Capabilities.{ModelCapabilities}
use dub_manga_studio.Plugins.Build.{
  ModelConfig, Config, existing_worker, model_plugin, whisper_plugin, inserted_model,
  inserted_whisper, register_each, build_by_registration, insert_each, build_by_insertion,
}

-- A registry without a bus.
abbrev plain : Dict ModelCapabilities → PluginRegistry
plain models = record { models = models; loaded_entry_points = []; event_bus = none }

register-new :
    (a : Ambient) (cap : ModelCapabilities) (models : Dict ModelCapabilities)
    → lookup cap.model_id models ≡ none
    → register a cap (plain models) ≡ (ok tt, plain (put cap.model_id cap models))
unfolding register announce
register-new a cap models e = rw (register, e) refl

put-absent :
    (j k : String) (cap : ModelCapabilities) (models : Dict ModelCapabilities)
    → j ≢ k
    → lookup j models ≡ none
    → lookup j (put k cap models) ≡ none
put-absent j k cap models other e = ground (arith, lookup-put k j cap models, eq_iff k j)

absent-put :
    (k : String) (cap : ModelCapabilities) (models : Dict ModelCapabilities)
    (rest : Dict ModelConfig)
    → All (λ (e : String × ModelConfig). e.0 ≢ k) rest
    → All (λ (e : String × ModelConfig). lookup e.0 models ≡ none) rest
    → All (λ (e : String × ModelConfig). lookup e.0 (put k cap models) ≡ none) rest
absent-put k cap models [] h g = tt
absent-put k cap models ((j, m) ∷ rest) h g =
    (put-absent j k cap models h.0 g.0, absent-put k cap models rest h.1 g.1)

module _ (lower : String → String) (config : Config) where
  model_plugin-model_id :
      (k : String) (m : ModelConfig) → (model_plugin lower config k m).model_id ≡ k
  unfolding model_plugin existing_worker
  model_plugin-model_id k m = refl

  -- The two constructions write the same plugin.
  inserted_model-model_plugin :
      (k : String) (m : ModelConfig)
      → inserted_model lower config k m ≡ model_plugin lower config k m
  unfolding inserted_model model_plugin
  inserted_model-model_plugin k m = refl

  inserted_whisper-whisper_plugin : inserted_whisper lower config ≡ whisper_plugin lower config
  unfolding inserted_whisper whisper_plugin
  inserted_whisper-whisper_plugin = refl

  register_each-insert_each :
      (a : Ambient) (rest : Dict ModelConfig) (models : Dict ModelCapabilities)
      → HasKeys rest
      → All (λ (e : String × ModelConfig). lookup e.0 models ≡ none) rest
      → register_each lower config a rest (plain models)
        ≡ (ok tt, plain (insert_each lower config rest models))
  unfolding register_each insert_each
  register_each-insert_each a [] models keys h = refl
  register_each-insert_each a ((k, m) ∷ rest) models keys h =
      let cap : ModelCapabilities = model_plugin lower config k m in
      let same : cap.model_id ≡ k = model_plugin-model_id k m in
      let first : register a cap (plain models) ≡ (ok tt, plain (put k cap models)) =
        register-new a cap models (ap (λ j. lookup j models) same ∙ h.0)
        ∙ ap (λ j. (ok tt, plain (put j cap models))) same in
      rw (register_each, first, inserted_model-model_plugin k m)
        (register_each-insert_each a rest (put k cap models) keys.1
          (absent-put k cap models rest keys.0 h.1))

  insert_each-absent :
      (j : String) (rest : Dict ModelConfig) (models : Dict ModelCapabilities)
      → lookup j rest ≡ none
      → lookup j models ≡ none
      → lookup j (insert_each lower config rest models) ≡ none
  unfolding insert_each lookup
  insert_each-absent j [] models h g = g
  insert_each-absent j ((k, m) ∷ rest) models h g =
      insert_each-absent j rest (put k (inserted_model lower config k m) models) (ground (arith, h))
        (ground (arith, h, g, lookup-put k j (inserted_model lower config k m) models))

  whisper-model_id : (whisper_plugin lower config).model_id ≡ "whisper"
  unfolding whisper_plugin existing_worker
  whisper-model_id = refl

  -- For a configuration that names each model once and none of them `whisper`, and without a bus.
  -- Registering the plugins one after another, as without a running loop, succeeds and gives the
  -- registry that inserting them directly gives, as under a running loop.
  pub build_by_registration-build_by_insertion :
      (a : Ambient)
      → HasKeys config.dubbing_models
      → lookup "whisper" config.dubbing_models ≡ none
      → build_by_registration lower config a none ≡ (ok tt, build_by_insertion lower config none)
  unfolding build_by_registration build_by_insertion create lookup
  build_by_registration-build_by_insertion a keys free =
      let models : Dict ModelCapabilities = insert_each lower config config.dubbing_models [] in
      let whisper : ModelCapabilities = whisper_plugin lower config in
      let last : register a whisper (plain models) ≡ (ok tt, plain (put "whisper" whisper models)) =
        register-new a whisper models (
          ap (λ j. lookup j models) whisper-model_id
          ∙ insert_each-absent "whisper" config.dubbing_models [] free refl)
        ∙ ap (λ j. (ok tt, plain (put j whisper models))) whisper-model_id in
      rw
        (
          build_by_registration,
          register_each-insert_each a config.dubbing_models [] keys
              (All-intro _ config.dubbing_models (λ e _. refl)),
          inserted_whisper-whisper_plugin,
        )
        last
