-- ===== src/Plugins/Build.antt =====
-- WorkerPluginConfig, ExistingWorkerPlugin, `_recommended_instances` and
-- `build_registry_from_config`. What the configuration leaves out is `none`.
use dub_manga_studio.Common.{
  ℕ, ◌-◌, ◌*◌, ◌/◌, min, max, String, Bool, true, false, Option, none, some, List, [], ◌∷◌, ◌==◌,
  map, sort_by, leb_str, if◌then◌else◌, prefixed, Json, str, null,
}
use dub_manga_studio.Common.Exec.{Result, pure, ◌>>◌}
use dub_manga_studio.Common.Dict.{Dict, put}
use dub_manga_studio.Events.{EventBus}
use dub_manga_studio.Plugins.Capabilities.{ModelCapabilities, contains}
use dub_manga_studio.Plugins.{PluginRegistry, RegistryError, RegistryOp, Ambient, create, register}

-- One entry of `gpu_profiles`.
pub record Profile : Type 0 where
  pub vram : Option ℕ
  pub min_free_vram_reserve : Option ℕ
  pub tts_instances : Option ℕ

-- One entry of `dubbing_models`.
pub record ModelConfig : Type 0 where
  pub label : Option String
  pub license_flag : Option String
  pub est_vram : Option ℕ
  pub default_for : List String
  pub supports_clone : Option Bool
  pub needs_ref_transcript : Option Bool
  pub inline_emotion_tags : Option Bool
  pub batch_support : Option Bool
  pub weights_gated : Option Bool
  pub port : Json
  pub venv : Json

pub record Config : Type 0 where
  pub target_languages : List String
  pub gpu_profiles : Dict Profile
  pub whisper_model : Option String
  pub dubbing_models : Dict ModelConfig

pub record WorkerPluginConfig : Type 0 where
  pub model_id : String
  pub label : String
  pub license_flag : String
  pub estimated_vram : ℕ
  pub supported_languages : List String
  pub supports_voice_clone : Bool
  pub supports_reference_text : Bool
  pub supports_emotions : Bool
  pub batch_support : Bool
  pub gated : Bool
  pub startup_time : ℕ
  pub plugin_version : String
  pub worker_module : Option String
  pub install_script : Option String
  pub recommended_instances : Dict ℕ
  pub metadata : Dict Json

-- data.get(key, default)
abbrev pub given {ℓ} : {A : Type ℓ} → A → Option A → A
given fallback none = fallback
given fallback (some x) = x

-- x or default
abbrev pub or_default : ℕ → ℕ → ℕ
or_default fallback x = if x == 0 then fallback else x

-- One gigabyte.
abbrev pub gigabyte : ℕ
gigabyte = 1000

-- The body of the loop of `_recommended_instances`.
unfoldable pub recommended : ℕ → Profile → ℕ
recommended estimated_vram profile =
    let total = given 0 profile.vram in
    let reserve = given (2 * gigabyte) profile.min_free_vram_reserve in
    let requested = or_default 1 (given 1 profile.tts_instances) in
    let fit = max gigabyte (total - reserve) / estimated_vram in
    if estimated_vram == 0 then max 1 requested else max 1 (min (max 1 fit) (max 1 requested))

-- _recommended_instances(estimated_vram, profiles), where each key stands once.
unfoldable pub recommended_instances : ℕ → Dict Profile → Dict ℕ
recommended_instances estimated_vram [] = []
recommended_instances estimated_vram ((key, profile) ∷ profiles) =
    (key, recommended estimated_vram profile) ∷ recommended_instances estimated_vram profiles

-- sorted({item.lower() for item in value})
unfoldable pub distinct : List String → List String
distinct [] = []
distinct (x ∷ xs) = let rest = distinct xs in if contains x rest then rest else x ∷ rest

unfoldable pub normalize_languages : (String → String) → List String → List String
normalize_languages lower languages = sort_by leb_str (distinct (map lower languages))

-- {**d, **e}
unfoldable pub merged : Dict Json → Dict Json → Dict Json
merged d [] = d
merged d ((k, v) ∷ e) = merged (put k v d) e

abbrev pub text_or_null : Option String → Json
text_or_null none = null
text_or_null (some text) = str text

-- ExistingWorkerPlugin(config), by its capabilities
unfoldable pub existing_worker : (String → String) → WorkerPluginConfig → ModelCapabilities
existing_worker lower config = record {
  model_id = config.model_id;
  label = config.label;
  supported_languages = normalize_languages lower config.supported_languages;
  supports_voice_clone = config.supports_voice_clone;
  supports_reference_audio = config.supports_voice_clone;
  supports_reference_text = config.supports_reference_text;
  supports_streaming = false;
  supports_emotions = config.supports_emotions;
  estimated_vram = config.estimated_vram;
  recommended_instances = config.recommended_instances;
  startup_time = config.startup_time;
  batch_support = config.batch_support;
  plugin_version = config.plugin_version;
  license = some config.license_flag;
  gated = config.gated;
  max_batch_size = if config.batch_support then 8 else 1;
  metadata =
      merged
        (("worker_module", text_or_null config.worker_module)
          ∷ ("install_script", text_or_null config.install_script)
          ∷ [])
        config.metadata;
}

-- default_for or target_languages or ["*"]
abbrev pub languages_of : List String → List String → List String
languages_of (x ∷ xs) targets = x ∷ xs
languages_of [] (x ∷ xs) = x ∷ xs
languages_of [] [] = "*" ∷ []

-- The plugin of a configured model.
unfoldable pub model_plugin : (String → String) → Config → String → ModelConfig → ModelCapabilities
model_plugin lower config model_id model = existing_worker lower (record {
  model_id = model_id;
  label = given model_id model.label;
  license_flag = given "unknown" model.license_flag;
  estimated_vram = given 0 model.est_vram;
  supported_languages = languages_of model.default_for config.target_languages;
  supports_voice_clone = given true model.supports_clone;
  supports_reference_text = given false model.needs_ref_transcript;
  supports_emotions = given false model.inline_emotion_tags;
  batch_support = given false model.batch_support;
  gated = given false model.weights_gated;
  startup_time = 30;
  plugin_version = "1.0.0";
  worker_module = some (prefixed "chatterbox_manga_studio.dubbing.workers.worker_" model_id);
  install_script = some (prefixed "scripts/install_model_" (prefixed model_id ".sh"));
  recommended_instances = recommended_instances (given 0 model.est_vram) config.gpu_profiles;
  metadata = ("source", str "config.yaml") ∷ ("port", model.port) ∷ ("venv", model.venv) ∷ [];
})

-- The plugin of Whisper.
unfoldable pub whisper_plugin : (String → String) → Config → ModelCapabilities
whisper_plugin lower config = existing_worker lower (record {
  model_id = "whisper";
  label = prefixed "Whisper " (given "large-v3" config.whisper_model);
  license_flag = "OpenAI Whisper license";
  estimated_vram = 4 * gigabyte;
  supported_languages = "*" ∷ [];
  supports_voice_clone = false;
  supports_reference_text = false;
  supports_emotions = false;
  batch_support = true;
  gated = false;
  startup_time = 20;
  plugin_version = "1.0.0";
  worker_module = some "scripts.whisper_worker";
  install_script = some "scripts/install_model_whisper.sh";
  recommended_instances = recommended_instances (4 * gigabyte) config.gpu_profiles;
  metadata = ("source", str "config.yaml") ∷ ("task", str "transcription") ∷ [];
})

-- The plugin of a configured model, as the direct insertion makes it.
unfoldable pub inserted_model :
    (String → String) → Config → String → ModelConfig → ModelCapabilities
inserted_model lower config model_id model = existing_worker lower (record {
  model_id = model_id;
  label = given model_id model.label;
  license_flag = given "unknown" model.license_flag;
  estimated_vram = given 0 model.est_vram;
  supported_languages = languages_of model.default_for config.target_languages;
  supports_voice_clone = given true model.supports_clone;
  supports_reference_text = given false model.needs_ref_transcript;
  supports_emotions = given false model.inline_emotion_tags;
  batch_support = given false model.batch_support;
  gated = given false model.weights_gated;
  startup_time = 30;
  plugin_version = "1.0.0";
  worker_module = some (prefixed "chatterbox_manga_studio.dubbing.workers.worker_" model_id);
  install_script = some (prefixed "scripts/install_model_" (prefixed model_id ".sh"));
  recommended_instances = recommended_instances (given 0 model.est_vram) config.gpu_profiles;
  metadata = ("source", str "config.yaml") ∷ ("port", model.port) ∷ ("venv", model.venv) ∷ [];
})

-- The plugin of Whisper, as the direct insertion makes it.
unfoldable pub inserted_whisper : (String → String) → Config → ModelCapabilities
inserted_whisper lower config = existing_worker lower (record {
  model_id = "whisper";
  label = prefixed "Whisper " (given "large-v3" config.whisper_model);
  license_flag = "OpenAI Whisper license";
  estimated_vram = 4 * gigabyte;
  supported_languages = "*" ∷ [];
  supports_voice_clone = false;
  supports_reference_text = false;
  supports_emotions = false;
  batch_support = true;
  gated = false;
  startup_time = 20;
  plugin_version = "1.0.0";
  worker_module = some "scripts.whisper_worker";
  install_script = some "scripts/install_model_whisper.sh";
  recommended_instances = recommended_instances (4 * gigabyte) config.gpu_profiles;
  metadata = ("source", str "config.yaml") ∷ ("task", str "transcription") ∷ [];
})

module _ (lower : String → String) (config : Config) where
  -- The loop of `_register_all`.
  unfoldable pub register_each : Ambient → Dict ModelConfig → RegistryOp Unit
  register_each a [] = pure tt
  register_each a ((model_id, model) ∷ rest) =
      register a (model_plugin lower config model_id model) >> register_each a rest

  -- asyncio.run(_register_all()): without a running loop.
  unfoldable pub build_by_registration :
      Ambient → Option EventBus → Result RegistryError Unit × PluginRegistry
  build_by_registration a bus =
      ((register_each a config.dubbing_models >> register a (whisper_plugin lower config))
        (create bus))

  -- The loop of the direct insertion.
  unfoldable pub insert_each : Dict ModelConfig → Dict ModelCapabilities → Dict ModelCapabilities
  insert_each [] models = models
  insert_each ((model_id, model) ∷ rest) models =
      insert_each rest (put model_id (inserted_model lower config model_id model) models)

  -- Under a running loop.
  unfoldable pub build_by_insertion : Option EventBus → PluginRegistry
  build_by_insertion bus =
      let models = insert_each config.dubbing_models [] in
      record (create bus) { models = put "whisper" (inserted_whisper lower config) models }
