-- ===== src/Events/Samples.antt =====
-- Small inputs, tests, and the properties at them.
use dub_manga_studio.Common.{
  ◌+◌, ◌-◌, ◌≤◌, ◌≡◌, refl, true, false, none, some, [], ◌∷◌, ◌++◌, null, if◌then◌else◌, length,
  drop,
}
use dub_manga_studio.Events.{
  job_created, Event, Handler, EventBus, create, same_key, is_type, subscribe, remove_handler,
  unsubscribe, bounded, deliver, publish_event,
}
use dub_manga_studio.Events.Delivery.{
  reached, any_fails, calls_of, handlers_of, publish_event_lem, unsubscribe-subscribe,
}

abbrev quiet : Handler
quiet = record { name = "quiet"; fails = λ _. false }

abbrev failing : Handler
failing = record { name = "failing"; fails = λ _. true }

abbrev bus : EventBus
bus = subscribe none quiet (subscribe (some job_created) failing (create 1 true))

abbrev event : Event
event = record {
  id = "e";
  type = job_created;
  source = "JobScheduler";
  payload = null;
  correlation_id = none;
  created_at = 1;
}

program : Unit {0}
unfolding create same_key is_type subscribe remove_handler unsubscribe bounded deliver publish_event
program = tt

raises_test :
    ((publish_event event bus).0.calls ≡ ("failing", event) ∷ [])
    × ((publish_event event bus).1 ≡ true)
unfolding program
raises_test = (refl, refl)

isolated_test :
    (publish_event event (record bus { raise_handler_errors = false })).0.calls
    ≡ ("failing", event) ∷ ("quiet", event) ∷ []
unfolding program
isolated_test = refl

publish_event_lem_example :
    ((publish_event event bus).0.calls
      ≡ bus.calls
        ++ calls_of event (
            if bus.raise_handler_errors
            then reached true event (handlers_of event bus)
            else handlers_of event bus))
    × ((publish_event event bus).1
        ≡ (if bus.raise_handler_errors then any_fails event (handlers_of event bus) else false))
    × ((publish_event event bus).0.history
        ≡ drop (length bus.history + 1 - bus.max_history) (bus.history ++ event ∷ []))
    × (length (publish_event event bus).0.history ≤ bus.max_history)
    × ((publish_event event bus).0.handlers ≡ bus.handlers)
publish_event_lem_example = publish_event_lem event bus

unsubscribe-subscribe_example :
    (unsubscribe none failing (subscribe none failing bus)).handlers none ≡ bus.handlers none
unfolding program
unsubscribe-subscribe_example = unsubscribe-subscribe none none failing bus (refl, tt)
