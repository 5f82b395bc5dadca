-- ===== src/Pool/Worker.antt =====
-- The workers of services/worker_pool.py, and which workers a query matches. Memory and times are whole units.
use dub_manga_studio.Common.{
  ℕ, ◌*◌, max, String, Bool, true, false, ◌&&◌, not, Option, none, some, ltb, leb_str, str_eq,
  if◌then◌else◌, Json,
}
use dub_manga_studio.Common.Dict.{Dict}
pub use dub_manga_studio.Plugins.Capabilities.{ModelCapabilities, meets, meets_vram}
unfoldable pub use dub_manga_studio.Plugins.Capabilities.{contains, meets_language}

pub data WorkerStatus : Type 0 where
  registered healthy degraded unhealthy reserved draining disconnected : WorkerStatus

pub record WorkerDescriptor : Type 0 where
  pub worker_id : String
  pub capabilities : ModelCapabilities
  pub endpoint : Option String
  pub gpu_id : Option String
  pub status : WorkerStatus
  pub active_reservations : ℕ
  pub max_reservations : ℕ
  pub registered_at : ℕ
  pub last_heartbeat_at : Option ℕ
  pub metadata : Dict Json

pub record WorkerReservation : Type 0 where
  pub reservation_id : String
  pub worker_id : String
  pub model_id : String
  pub created_at : ℕ
  pub expires_at : Option ℕ
  pub metadata : Json

pub record WorkerMatchCriteria : Type 0 where
  pub language : Option String
  pub supports_voice_clone : Option Bool
  pub supports_reference_audio : Option Bool
  pub supports_reference_text : Option Bool
  pub supports_streaming : Option Bool
  pub supports_emotions : Option Bool
  pub max_vram : Option ℕ
  pub model_id : Option String

-- status in {UNHEALTHY, DISCONNECTED, DRAINING}
abbrev pub is_out : WorkerStatus → Bool
is_out unhealthy = true
is_out disconnected = true
is_out draining = true
is_out _ = false

abbrev pub meets_model : Option String → String → Bool
meets_model none given = true
meets_model (some wanted) given = str_eq given wanted

-- _matches(worker, criteria)
unfoldable pub matches : (String → String) → WorkerMatchCriteria → WorkerDescriptor → Bool
unfolding meets_language
matches lower criteria worker =
    let cap = worker.capabilities in
    not (is_out worker.status)
    && meets_model criteria.model_id cap.model_id
    && meets_language lower criteria.language cap.supported_languages
    && meets criteria.supports_voice_clone cap.supports_voice_clone
    && meets criteria.supports_reference_audio cap.supports_reference_audio
    && meets criteria.supports_reference_text cap.supports_reference_text
    && meets criteria.supports_streaming cap.supports_streaming
    && meets criteria.supports_emotions cap.supports_emotions
    && meets_vram criteria.max_vram cap.estimated_vram

-- The order of the key (active / max(1, limit), active, worker_id), the quotients compared exactly.
unfoldable pub less_loaded : WorkerDescriptor → WorkerDescriptor → Bool
less_loaded v w =
    let left = v.active_reservations * max 1 w.max_reservations in
    let right = w.active_reservations * max 1 v.max_reservations in
    if ltb left right
    then true
    else if ltb right left
    then false
    else if ltb v.active_reservations w.active_reservations
    then true
    else if ltb w.active_reservations v.active_reservations
    then false
    else leb_str v.worker_id w.worker_id

-- worker.active_reservations < worker.max_reservations
abbrev pub has_capacity : WorkerDescriptor → Bool
has_capacity w = ltb w.active_reservations w.max_reservations
