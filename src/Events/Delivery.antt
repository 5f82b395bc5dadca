-- ===== src/Events/Delivery.antt =====
-- EventBus.publish_event: who is called, what is remembered, and whether an error goes on.
use dub_manga_studio.Common.{
  ℕ, ◌+◌, ◌-◌, ◌≤◌, String, ◌≡◌, refl, Bool, true, false, Option, none, some, List, [], ◌∷◌, ◌++◌,
  map, arith, length, length-append, drop, str_eq, if◌then◌else◌, Bool-cases, inl, inr, All, ap,
  zero, suc, eq_refl,
}
use mathlib.Core.Bool.{decide_iff}
use dub_manga_studio.Events.{
  EventType-discrete, is_type, EventType, Event, Handler, EventBus, bounded, deliver, publish_event,
  subscribe, unsubscribe, remove_handler, same_key,
}

-- The handlers up to the first one that fails, that one included, if errors go on.
pub reached : Bool → Event → List Handler → List Handler
reached raises event [] = []
reached raises event (h ∷ hs) =
    let rest = reached raises event hs in
    if h.fails event then (if raises then h ∷ [] else h ∷ rest) else h ∷ rest

pub any_fails : Event → List Handler → Bool
any_fails event [] = false
any_fails event (h ∷ hs) = let rest = any_fails event hs in if h.fails event then true else rest

abbrev pub calls_of : Event → List Handler → List (String × Event)
calls_of event hs = map (λ (h : Handler). (h.name, event)) hs

deliver_calls :
    (raises : Bool) (event : Event) (hs : List Handler)
    → (deliver raises event hs).0 ≡ calls_of event (reached raises event hs)
unfolding deliver reached
deliver_calls raises event [] = refl
deliver_calls true event (h ∷ hs) = ground (arith, deliver_calls true event hs)
deliver_calls false event (h ∷ hs) = ground (arith, deliver_calls false event hs)

deliver_raised :
    (raises : Bool) (event : Event) (hs : List Handler)
    → (deliver raises event hs).1 ≡ (if raises then any_fails event hs else false)
unfolding deliver any_fails
deliver_raised true event [] = refl
deliver_raised false event [] = refl
deliver_raised true event (h ∷ hs) = ground (arith, deliver_raised true event hs)
deliver_raised false event (h ∷ hs) = ground (arith, deliver_raised false event hs)

reached_isolated : (event : Event) (hs : List Handler) → reached false event hs ≡ hs
unfolding reached
reached_isolated event [] = refl
reached_isolated event (h ∷ hs) = ground (arith, reached_isolated event hs)

length-drop {ℓ} : {A : Type ℓ} (n : ℕ) (xs : List A) → length (drop n xs) ≡ length xs - n
length-drop zero xs = omega arith
length-drop (suc n) [] = omega arith
length-drop (suc n) (x ∷ xs) = omega (arith, length-drop n xs)

-- The handlers of an event, in the order of their calls.
abbrev pub handlers_of : Event → EventBus → List Handler
handlers_of event bus = bus.handlers (some event.type) ++ bus.handlers none

reached_lem :
    (raises : Bool) (event : Event) (hs : List Handler)
    → reached raises event hs ≡ (if raises then reached true event hs else hs)
reached_lem true event hs = refl
reached_lem false event hs = reached_isolated event hs

bounded_lem :
    (limit : ℕ) (events : List Event) (event : Event)
    → bounded limit (events ++ event ∷ []) ≡ drop (length events + 1 - limit) (events ++ event ∷ [])
unfolding bounded
bounded_lem limit events event = rw (length-append events (event ∷ []))

length-bounded : (limit : ℕ) (events : List Event) → length (bounded limit events) ≤ limit
unfolding bounded
length-bounded limit events = omega (arith, length-drop (length events - limit) events)

-- Publishing calls the handlers of the event's type and then those of all events, in the order
-- of subscription. Where handler errors are isolated each is called and nothing is raised; where
-- they are not, the calls end behind the first handler that fails, and it raises exactly if one
-- fails. The history keeps the newest events, at most `max_history`, and the subscriptions stay.
pub publish_event_lem :
    (event : Event) (bus : EventBus)
    → ((publish_event event bus).0.calls
        ≡ bus.calls
          ++ calls_of event (
              if bus.raise_handler_errors
              then reached true event (handlers_of event bus)
              else handlers_of event bus))
      × ((publish_event event bus).1
          ≡ (if bus.raise_handler_errors then any_fails event (handlers_of event bus) else false))
      × ((publish_event event bus).0.history
          ≡ drop (length bus.history + 1 - bus.max_history) (bus.history ++ event ∷ []))
      × (length (publish_event event bus).0.history ≤ bus.max_history)
      × ((publish_event event bus).0.handlers ≡ bus.handlers)
unfolding publish_event
publish_event_lem event bus = (
  rw (
    deliver_calls bus.raise_handler_errors event (handlers_of event bus),
    reached_lem bus.raise_handler_errors event (handlers_of event bus),
  ),
  deliver_raised bus.raise_handler_errors event (handlers_of event bus),
  bounded_lem bus.max_history bus.history event,
  length-bounded bus.max_history (bus.history ++ event ∷ []),
  refl,
)

eq-of-same_key : (key k : Option EventType) → same_key key k ≡ true → key ≡ k
unfolding same_key is_type
eq-of-same_key none none e = refl
eq-of-same_key none (some b) e = absurd (cc)
eq-of-same_key (some a) none e = absurd (cc)
eq-of-same_key (some a) (some b) e = ap some ((decide_iff (EventType-discrete a b)).0 e)

remove_handler-append :
    (name : String) (h : Handler) (hs : List Handler)
    → h.name ≡ name
    → All (λ (x : Handler). str_eq x.name name ≡ false) hs
    → remove_handler name (hs ++ h ∷ []) ≡ hs
unfolding remove_handler
remove_handler-append name h [] e a = rw (e, eq_refl name)
remove_handler-append name h (x ∷ xs) e a = rw (a.0, remove_handler-append name h xs e a.1)

-- Undoing a subscription under a name that the key does not have yet gives back the handlers of
-- every key.
pub unsubscribe-subscribe :
    (key k : Option EventType) (h : Handler) (bus : EventBus)
    → All (λ (x : Handler). str_eq x.name h.name ≡ false) (bus.handlers key)
    → (unsubscribe key h (subscribe key h bus)).handlers k ≡ bus.handlers k
unfolding unsubscribe subscribe
unsubscribe-subscribe key k h bus new = elim (Bool-cases (same_key key k)) [
  | inl e ↦
      let same : key ≡ k = eq-of-same_key key k e in
      rw e (remove_handler-append h.name h (bus.handlers k) refl (rw same at new))
  | inr e ↦ rw e
]
