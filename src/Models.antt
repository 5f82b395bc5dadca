-- ===== src/Models.antt =====
-- src/chatterbox_manga_studio/services/model_manager.py: ModelManager, over a registry of plugins
-- and a runtime that is an interface, ModelRuntime. The key-value store is a dictionary of records
-- by their model id. The calls of the runtime are in Models.Calls. A model's lock is held for the whole call, so that calls do not interleave.
-- `lower` is str.lower.
pub mod Calls
pub mod Choice
pub mod Instances
pub mod Loading
mod Samples
use dub_manga_studio.Common.{
  ℕ, zero, min, max, String, Bool, true, false, not, Option, none, some, List, [], ◌∷◌, ltb,
  leb_str, str_eq, ◌==◌, sort_by, if◌then◌else◌, Json, int, pos, str, object, no_fields, field,
}
use dub_manga_studio.Common.Exec.{Result, ok, err, Exec, pure, raise, ◌>>=◌, ◌>>◌}
use dub_manga_studio.Common.Dict.{Dict, lookup, put, values}
use dub_manga_studio.Events.{
  EventType, Event, EventBus, publish_event, model_loaded, model_unloaded,
}
use dub_manga_studio.Plugins.{
  PluginRegistry, Query, list_models, get_capabilities, find_by_capabilities,
}
use dub_manga_studio.Plugins.Capabilities.{ModelCapabilities}

pub data ModelStatus : Type 0 where
  registered loading loaded unloading unloaded failed : ModelStatus

pub record ModelRecord : Type 0 where
  pub model_id : String
  pub status : ModelStatus
  pub loaded_instances : ℕ
  pub last_loaded_at : Option ℕ
  pub last_unloaded_at : Option ℕ
  pub last_error : Option String
  pub metadata : Json

-- ModelRuntime: each call takes and gives the runtime's own state, and may raise.
pub record ModelRuntime (W : Type 0) : Type 0 where
  pub load : String → ℕ → W → Result String Unit × W
  pub unload : Option String → W → Result String Unit × W
  pub generate : String → Json → W → Result String Json × W
  pub is_healthy : String → W → Result String Bool × W

pub record ModelManager (W : Type 0) : Type 0 where
  pub records : Dict ModelRecord
  pub event_bus : EventBus
  pub registry : PluginRegistry
  pub runtime : W

pub data ModelError : Type 0 where
  not_registered : String → ModelError
  runtime_error : String → ModelError
  handler_error : ModelError

pub record Ambient : Type 0 where
  pub now : ℕ
  pub event_id : String

-- ModelRecord(model_id=model_id), with the empty metadata
abbrev pub new_record : Json → String → ModelRecord
new_record empty model_id = record {
  model_id = model_id;
  status = registered;
  loaded_instances = 0;
  last_loaded_at = none;
  last_unloaded_at = none;
  last_error = none;
  metadata = empty;
}

abbrev pub is_loaded : ModelStatus → Bool
is_loaded loaded = true
is_loaded _ = false

-- min(values), of values that are not empty
unfoldable pub least : ℕ → List ℕ → ℕ
least n [] = n
least n (m ∷ ms) = least (min n m) ms

-- _default_instances(capabilities)
unfoldable pub default_instances : ModelCapabilities → ℕ
unfolding least
default_instances cap = elim (values cap.recommended_instances) [
  | [] ↦ 1
  | n ∷ ns ↦ max 1 (least n ns)
]

-- instances or default
abbrev pub requested_instances : Option ℕ → ℕ → ℕ
requested_instances none fallback = fallback
requested_instances (some n) fallback = if n == 0 then fallback else n

pub record ModelSelectionCriteria : Type 0 where
  pub language : Option String
  pub supports_voice_clone : Option Bool
  pub supports_reference_audio : Option Bool
  pub supports_reference_text : Option Bool
  pub supports_streaming : Option Bool
  pub supports_emotions : Option Bool
  pub max_vram : Option ℕ

-- The arguments that `select_models` passes on.
abbrev pub query_of : ModelSelectionCriteria → Query
query_of criteria = record {
  language = criteria.language;
  voice_clone = criteria.supports_voice_clone;
  reference_audio = criteria.supports_reference_audio;
  reference_text = criteria.supports_reference_text;
  streaming = criteria.supports_streaming;
  emotions = criteria.supports_emotions;
  max_vram = criteria.max_vram;
}

-- Whether the record of a model is there and loaded.
abbrev pub record_loaded : Dict ModelRecord → String → Bool
record_loaded records id = elim (lookup id records) as (λ _. Bool) [
  | none ↦ false
  | some r ↦ is_loaded r.status
]

-- The order of the key (startup_time, model_id)
unfoldable pub sooner : ModelCapabilities → ModelCapabilities → Bool
sooner c d =
    let by_id = leb_str c.model_id d.model_id in
    if ltb c.startup_time d.startup_time
    then true
    else if ltb d.startup_time c.startup_time
    then false
    else by_id

-- The order of the key (estimated_vram, startup_time, model_id)
unfoldable pub lighter : ModelCapabilities → ModelCapabilities → Bool
lighter c d =
    let by_start = sooner c d in
    if ltb c.estimated_vram d.estimated_vram
    then true
    else if ltb d.estimated_vram c.estimated_vram
    then false
    else by_start

-- The order of the key (0 if loaded else 1, estimated_vram, startup_time, model_id)
unfoldable pub preferred : Dict ModelRecord → ModelCapabilities → ModelCapabilities → Bool
preferred records c d =
    let by_vram = lighter c d in
    if record_loaded records c.model_id
    then (if record_loaded records d.model_id then by_vram else true)
    else (if record_loaded records d.model_id then false else by_vram)

abbrev pub ModelOp : Type 0 → Type 0 → Type 0
ModelOp W A = Exec (ModelManager W) ModelError A

module _ {W : Type 0} where
  -- get_record(model_id)
  unfoldable pub get_record : String → ModelOp W (Option ModelRecord)
  get_record id m = (ok (lookup id m.records), m)

  -- get_record(model_id) or ModelRecord(model_id=model_id)
  unfoldable pub record_or_new : Json → String → ModelOp W ModelRecord
  record_or_new empty id m =
      (ok (elim (lookup id m.records) [ none ↦ new_record empty id | some r ↦ r ]), m)

  -- _save_record(record)
  unfoldable pub save_record : ModelRecord → ModelOp W Unit
  save_record r m = (ok tt, record m { records = put r.model_id r m.records })

  -- get_capabilities(model_id)
  unfoldable pub capabilities_of : String → ModelOp W ModelCapabilities
  capabilities_of id m = (
    elim (get_capabilities id m.registry) as (λ _. Result ModelError ModelCapabilities) [
      | none ↦ err (not_registered id)
      | some cap ↦ ok cap
    ],
    m,
  )

  -- event_bus.publish(type, source="ModelManager", payload=..., correlation_id=model_id)
  unfoldable pub publish : Ambient → EventType → Json → String → ModelOp W Unit
  publish a type payload id m =
      let event : Event = record {
        id = a.event_id;
        type = type;
        source = "ModelManager";
        payload = payload;
        correlation_id = some id;
        created_at = a.now;
      } in
      let (bus', raised) = publish_event event m.event_bus in
      ((if raised then err handler_error else ok tt), record m { event_bus = bus' })

  -- select_models(criteria)
  unfoldable pub select_models :
      (String → String) → ModelSelectionCriteria → ModelManager W → List ModelCapabilities
  select_models lower criteria m = find_by_capabilities lower (query_of criteria) m.registry

  -- recommend_model(criteria)
  unfoldable pub recommend_model :
      (String → String) → ModelSelectionCriteria → ModelManager W → Option ModelCapabilities
  recommend_model lower criteria m =
      elim (sort_by (preferred m.records) (select_models lower criteria m)) [
        | [] ↦ none
        | cap ∷ _ ↦ some cap
      ]

  -- The loop of `initialize`.
  unfoldable pub initialize_each : Json → List ModelCapabilities → ModelOp W Unit
  initialize_each empty [] = pure tt
  initialize_each empty (cap ∷ caps) = do
    found ← get_record cap.model_id
    elim found [ none ↦ save_record (new_record empty cap.model_id) | some _ ↦ pure tt ]
    initialize_each empty caps

  -- initialize()
  unfoldable pub initialize : Json → ModelOp W Unit
  initialize empty m = initialize_each empty (list_models m.registry) m
