-- ===== src/Plugins.antt =====
-- src/chatterbox_manga_studio/services/plugin_registry.py: the registry of model plugins. A plugin
-- is known by its capabilities; `lower` is str.lower.
pub mod Capabilities
pub mod Build
pub mod Asks
pub mod Find
pub mod Bootstrap
mod Samples
use dub_manga_studio.Common.{
  ℕ, String, Bool, true, false, ◌&&◌, ◌||◌, Option, none, some, List, [], ◌∷◌, ◌++◌, map, keep,
  sort_by, ltb, leb_str, str_eq, if◌then◌else◌, Json, str, object, no_fields, field,
}
use dub_manga_studio.Common.Exec.{Result, ok, err, Exec, pure, raise, and_then, ◌>>=◌, ◌>>◌}
use dub_manga_studio.Common.Dict.{Dict, lookup, put, values}
use dub_manga_studio.Events.{Event, EventBus, publish_event, plugin_registered}
use dub_manga_studio.Plugins.Capabilities.{
  ModelCapabilities, contains, meets, meets_vram, meets_language,
}

pub record PluginRegistry : Type 0 where
  pub models : Dict ModelCapabilities
  pub loaded_entry_points : List String
  pub event_bus : Option EventBus

pub data RegistryError : Type 0 where
  already_registered not_registered : String → RegistryError
  handler_error : RegistryError

abbrev pub RegistryOp : Type 0 → Type 0
RegistryOp A = Exec PluginRegistry RegistryError A

-- PluginRegistry(event_bus)
unfoldable pub create : Option EventBus → PluginRegistry
create bus = record { models = []; loaded_entry_points = []; event_bus = bus }

-- What one publication reads from outside.
pub record Ambient : Type 0 where
  pub now : ℕ
  pub event_id : String

-- The publication of PLUGIN_REGISTERED, where there is a bus.
unfoldable pub announce : Ambient → ModelCapabilities → RegistryOp Unit
announce a cap r = elim r.event_bus as (λ _. Result RegistryError Unit × PluginRegistry) [
  | none ↦ (ok tt, r)
  | some bus ↦
      let event : Event = record {
        id = a.event_id;
        type = plugin_registered;
        source = "PluginRegistry";
        payload = object (
            field "model_id" (str cap.model_id)
              (field "plugin_version" (str cap.plugin_version) no_fields));
        correlation_id = none;
        created_at = a.now;
      } in
      let (bus', raised) = publish_event event bus in
      ((if raised then err handler_error else ok tt), record r { event_bus = some bus' })
]

-- register(plugin)
unfoldable pub register : Ambient → ModelCapabilities → RegistryOp Unit
register a cap r =
    elim (lookup cap.model_id r.models) as (λ _. Result RegistryError Unit × PluginRegistry) [
      | some _ ↦ (err (already_registered cap.model_id), r)
      | none ↦ announce a cap (record r { models = put cap.model_id cap r.models })
    ]

-- get(model_id), get_capabilities(model_id)
unfoldable pub get_capabilities : String → PluginRegistry → Option ModelCapabilities
get_capabilities id r = lookup id r.models

-- require(model_id)
unfoldable pub require : String → PluginRegistry → Result RegistryError ModelCapabilities
require id r = elim (lookup id r.models) as (λ _. Result RegistryError ModelCapabilities) [
  | none ↦ err (not_registered id)
  | some cap ↦ ok cap
]

-- list_models()
unfoldable pub list_models : PluginRegistry → List ModelCapabilities
list_models r = values r.models

-- list_model_ids()
unfoldable pub list_model_ids : PluginRegistry → List String
list_model_ids r = sort_by leb_str (map (λ (e : String × ModelCapabilities). e.0) r.models)

-- The `for` loop of `discover`, over the plugins that the entry points load.
unfoldable pub register_all : Ambient → List ModelCapabilities → RegistryOp Unit
register_all a [] = pure tt
register_all a (cap ∷ caps) = register a cap >> register_all a caps

-- discover(entry_point_group); `found` are the plugins of its entry points.
unfoldable pub discover : Ambient → String → List ModelCapabilities → RegistryOp Unit
discover a group found r =
    let go = (do
      register_all a found
      λ s. (ok tt, record s { loaded_entry_points = group ∷ s.loaded_entry_points })) in
    if contains group r.loaded_entry_points then (ok tt, r) else go r

-- The arguments of `find_by_capabilities`.
pub record Query : Type 0 where
  pub language : Option String
  pub voice_clone : Option Bool
  pub reference_audio : Option Bool
  pub reference_text : Option Bool
  pub streaming : Option Bool
  pub emotions : Option Bool
  pub max_vram : Option ℕ

-- The tests of the loop.
unfoldable pub fits : (String → String) → Query → ModelCapabilities → Bool
fits lower query cap =
    meets_language lower query.language cap.supported_languages
    && meets query.voice_clone cap.supports_voice_clone
    && meets query.reference_audio cap.supports_reference_audio
    && meets query.reference_text cap.supports_reference_text
    && meets query.streaming cap.supports_streaming
    && meets query.emotions cap.supports_emotions
    && meets_vram query.max_vram cap.estimated_vram

-- The order of the key (estimated_vram, model_id).
unfoldable pub smaller : ModelCapabilities → ModelCapabilities → Bool
smaller c d =
    if ltb c.estimated_vram d.estimated_vram
    then true
    else if ltb d.estimated_vram c.estimated_vram
    then false
    else leb_str c.model_id d.model_id

-- find_by_capabilities(...)
unfoldable pub find_by_capabilities :
    (String → String) → Query → PluginRegistry → List ModelCapabilities
find_by_capabilities lower query r = sort_by smaller (keep (fits lower query) (list_models r))
