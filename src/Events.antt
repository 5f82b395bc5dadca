-- ===== src/Events.antt =====
-- src/chatterbox_manga_studio/services/events.py: the in-process publish and subscribe bus.
-- A handler is its name and what it does with an event: return, or raise. What a handler does
-- elsewhere is outside the bus; `calls` records each invocation in order.
pub mod Delivery
mod Samples
use dub_manga_studio.Common.{
  ℕ, zero, suc, ◌-◌, String, Bool, true, false, Option, none, some, List, [], ◌∷◌, ◌++◌, Json,
  length, drop, keep, str_eq, if◌then◌else◌,
}
use mathlib.Core.Bool.{decide}

pub data EventType : Type 0 where
  job_created job_started job_paused job_resumed job_completed job_failed job_cancelled : EventType
  node_started node_completed node_failed node_retrying : EventType
  workflow_started workflow_paused workflow_resumed workflow_cancelled : EventType
  workflow_failed pipeline_completed : EventType
  worker_registered worker_disconnected model_loaded model_unloaded : EventType
  provider_registered provider_health_changed provider_rate_limited plugin_registered : EventType

EventType-discrete : Discrete EventType
EventType-discrete = hlevel

unfoldable pub is_type : EventType → EventType → Bool
unfolding EventType-discrete decide
is_type a b = decide (EventType-discrete a b)

pub record Event : Type 0 where
  pub id : String
  pub type : EventType
  pub source : String
  pub payload : Json
  pub correlation_id : Option String
  pub created_at : ℕ

pub record Handler : Type 0 where
  pub name : String
  pub fails : Event → Bool

-- `_handlers` as a function: a key that is missing reads as the empty list everywhere.
pub record EventBus : Type 0 where
  pub handlers : Option EventType → List Handler
  pub history : List Event
  pub max_history : ℕ
  pub raise_handler_errors : Bool
  pub calls : List (String × Event)

-- EventBus(max_history=..., raise_handler_errors=...)
unfoldable pub create : ℕ → Bool → EventBus
create max_history raises = record {
  handlers = λ _. [];
  history = [];
  max_history = max_history;
  raise_handler_errors = raises;
  calls = [];
}

unfoldable pub same_key : Option EventType → Option EventType → Bool
unfolding is_type
same_key none none = true
same_key (some a) (some b) = is_type a b
same_key none (some b) = false
same_key (some a) none = false

unfoldable pub subscribe : Option EventType → Handler → EventBus → EventBus
unfolding same_key
subscribe key handler bus = record bus {
  handlers = λ k. if same_key key k then bus.handlers k ++ handler ∷ [] else bus.handlers k;
}

-- current.remove(handler): the first occurrence.
unfoldable pub remove_handler : String → List Handler → List Handler
remove_handler name [] = []
remove_handler name (h ∷ hs) = if str_eq h.name name then hs else h ∷ remove_handler name hs

-- The callback that `subscribe` returns.
unfoldable pub unsubscribe : Option EventType → Handler → EventBus → EventBus
unfolding same_key remove_handler
unsubscribe key handler bus = record bus {
  handlers =
      λ k. if same_key key k then remove_handler handler.name (bus.handlers k) else bus.handlers k;
}

-- A `deque` with `maxlen`: an append drops from the left what is over.
unfoldable pub bounded : ℕ → List Event → List Event
bounded limit events = drop (length events - limit) events

-- The loop over the handlers: the calls made, and whether the exception of one goes on.
unfoldable pub deliver : Bool → Event → List Handler → List (String × Event) × Bool
deliver raises event [] = ([], false)
deliver raises event (h ∷ hs) =
    let (calls, raised) = deliver raises event hs in
    if h.fails event
    then (if raises then ((h.name, event) ∷ [], true) else ((h.name, event) ∷ calls, raised))
    else ((h.name, event) ∷ calls, raised)

-- The new bus, and whether `publish_event` raised.
unfoldable pub publish_event : Event → EventBus → EventBus × Bool
unfolding bounded deliver
publish_event event bus =
    let handlers = bus.handlers (some event.type) ++ bus.handlers none in
    let (calls, raised) = deliver bus.raise_handler_errors event handlers in
    (
      record bus {
        history = bounded bus.max_history (bus.history ++ event ∷ []);
        calls = bus.calls ++ calls;
      },
      raised,
    )

unfoldable pub of_type : Option EventType → List Event → List Event
unfolding keep is_type
of_type none events = events
of_type (some t) events = keep (λ e. is_type e.type t) events

-- events[-limit:], where `events[-0:]` is the whole list.
unfoldable pub last : Option ℕ → List Event → List Event
last none events = events
last (some zero) events = events
last (some (suc n)) events = drop (length events - suc n) events

unfoldable pub history : Option EventType → Option ℕ → EventBus → List Event
unfolding of_type last
history type limit bus = last limit (of_type type bus.history)
