-- ===== src/Models/Samples.antt =====
-- Small managers, tests, and the properties at them.
use dub_manga_studio.Common.{
  ℕ, String, ◌≡◌, refl, true, false, none, some, Option, List, [], ◌∷◌, null, keep, sort_by,
  insert_by, leb_str,
}
use dub_manga_studio.Common.Dict.{lookup, put, values}
use dub_manga_studio.Events.{EventBus, publish_event, deliver, bounded}
use dub_manga_studio.Events
use dub_manga_studio.Plugins.{fits, smaller, find_by_capabilities, list_models, get_capabilities}
use dub_manga_studio.Plugins.Capabilities.{ModelCapabilities, contains, meets_language}
use dub_manga_studio.Models.{
  ModelManager, ModelError, runtime_error, Ambient, ModelSelectionCriteria, least,
  default_instances, sooner, lighter, preferred, get_record, record_or_new, save_record,
  capabilities_of, publish, select_models, recommend_model, initialize_each, initialize,
}
use dub_manga_studio.Models.Calls.{
  run, load_failed, load_now, load_model, unload_each, unload_model, generate_with, health_check,
  noop_load, noop_unload, noop_generate, noop_is_healthy, noop_runtime,
}
use dub_manga_studio.Models.Choice.{Recommended, recommend_model_lem}
use dub_manga_studio.Models.Instances.{Instances}

program : Unit {0}
unfolding keep sort_by insert_by leb_str lookup put values publish_event deliver bounded fits
    smaller find_by_capabilities list_models get_capabilities contains meets_language least
    default_instances sooner lighter preferred get_record record_or_new save_record capabilities_of
    publish select_models recommend_model initialize_each initialize run load_failed load_now
    load_model unload_each unload_model generate_with health_check noop_load noop_unload
    noop_generate noop_is_healthy
program = tt

abbrev model : String → ℕ → ModelCapabilities
model id vram = record {
  model_id = id;
  label = id;
  supported_languages = "*" ∷ [];
  supports_voice_clone = true;
  supports_reference_audio = true;
  supports_reference_text = false;
  supports_streaming = false;
  supports_emotions = false;
  estimated_vram = vram;
  recommended_instances = ("l4", 2) ∷ ("t4", 1) ∷ [];
  startup_time = 30;
  batch_support = false;
  plugin_version = "1.0.0";
  license = none;
  gated = false;
  max_batch_size = 1;
  metadata = [];
}

abbrev Manager : Type 0
Manager = ModelManager (List String)

abbrev manager : Manager
manager = record {
  records = [];
  event_bus = Events.create 10 false;
  registry = record {
    models = ("fish", model "fish" 9000) ∷ ("vox", model "vox" 5000) ∷ [];
    loaded_entry_points = [];
    event_bus = none;
  };
  runtime = [];
}

abbrev now : Ambient
now = record { now = 7; event_id = "e" }

abbrev text_of : ModelError → String
text_of (runtime_error text) = text
text_of _ = "error"

with_fish : Manager
with_fish = (load_model noop_runtime null text_of now "fish" none manager).1

abbrev any_model : ModelSelectionCriteria
any_model = record {
  language = some "hi";
  supports_voice_clone = none;
  supports_reference_audio = none;
  supports_reference_text = none;
  supports_streaming = none;
  supports_emotions = none;
  max_vram = none;
}

abbrev id_of : Option ModelCapabilities → Option String
id_of none = none
id_of (some c) = some c.model_id

-- The smaller model is recommended until the other one is loaded, and again when it is unloaded.
recommend_test :
    (id_of (recommend_model (λ t. t) any_model manager) ≡ some "vox")
    × (id_of (recommend_model (λ t. t) any_model with_fish) ≡ some "fish")
    × (id_of (
          recommend_model
            (λ t. t)
            any_model
            (unload_model noop_runtime null text_of now none with_fish).1)
        ≡ some "vox")
    × (with_fish.runtime ≡ "fish" ∷ [])
unfolding program Events.create with_fish
recommend_test = (refl, refl, refl, refl)

generate_test :
    (generate_with noop_runtime null text_of now "vox" null manager).1.runtime ≡ "vox" ∷ []
unfolding program Events.create
generate_test = refl

recommend_model_lem_example : Recommended (λ t. t) any_model manager
recommend_model_lem_example = recommend_model_lem (λ t. t) any_model manager
