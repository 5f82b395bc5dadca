-- ===== src/Providers.antt =====
-- src/chatterbox_manga_studio/services/provider_manager.py: the choice of a provider, its health,
-- and the attempts of one request. Times are whole milliseconds; the state holds the clock, which a
-- sleep moves on. What a provider and its health check answer is a parameter.
pub mod Record
pub mod Execution
pub mod Waits
pub mod Attempts
pub mod Exact
pub mod Choice
pub mod Limits
pub mod Failures
mod Samples
use dub_manga_studio.Common.{
  ℕ, zero, suc, ◌+◌, ◌-◌, ◌*◌, min, max, String, Bool, true, false, ◌&&◌, not, ℤ, Option, none,
  some, List, [], ◌∷◌, ◌++◌, ltb, leb, length, keep, sort_by, if◌then◌else◌, Json, str, int, pos,
  object, no_fields, field, Fields,
}
use Prim.Native.Nat.{◌^◌}
use dub_manga_studio.Common.Exec.{Result, ok, err, Exec, pure, raise, catch, ◌>>=◌, ◌>>◌}
use dub_manga_studio.Common.Dict.{Dict, lookup, put, remove, values}
use dub_manga_studio.Events.{
  EventType, provider_registered, provider_health_changed, provider_rate_limited, Event, EventBus,
  publish_event,
}
use Record.{
  ProviderHealth, healthy, degraded, unhealthy, cooldown, RateLimitConfig, ProviderRecord, is_open,
  recent, settle, comes_first, status_text,
}

pub record ProviderRequest : Type 0 where
  pub operation : String
  pub payload : Json

pub record ProviderResponse : Type 0 where
  pub provider : String
  pub result : Json
  pub attempts : ℕ

-- `calls` counts the invocations so far.
pub record Providers : Type 0 where
  pub bus : EventBus
  pub providers : Dict ProviderRecord
  pub clock : ℕ
  pub calls : ℕ

pub data ProviderError : Type 0 where
  key_error value_error handler_error no_provider loop_unfinished : ProviderError
  provider_error : String → ProviderError

abbrev pub ProviderOp : Type 0 → Type 0
ProviderOp A = Exec Providers ProviderError A

-- event_bus.publish(type, source="ProviderManager", payload=...)
unfoldable pub publish : String → EventType → Json → ProviderOp Unit
publish event_id type payload s =
    let event : Event = record {
      id = event_id;
      type = type;
      source = "ProviderManager";
      payload = payload;
      correlation_id = none;
      created_at = s.clock;
    } in
    let (bus', raised) = publish_event event s.bus in
    (if raised then err handler_error else ok tt, record s { bus = bus' })

-- register_provider(provider, ...), for the record that its arguments make
unfoldable pub register_provider : String → ProviderRecord → ProviderOp Unit
register_provider event_id r s =
    let fresh : ProviderRecord = record r {
      status = healthy;
      failure_count = 0;
      success_count = 0;
      cooldown_until = none;
      circuit_open_until = none;
      circuit_failure_threshold = max 1 r.circuit_failure_threshold;
      request_times = [];
      last_health_check = none;
      last_error = none;
    } in
    publish event_id provider_registered
      (object (field "provider" (str fresh.name) (field "priority" (int fresh.priority) no_fields)))
      (record s { providers = put fresh.name fresh s.providers })

-- unregister_provider(name)
unfoldable pub unregister_provider : String → ProviderOp Unit
unregister_provider name s = (ok tt, record s { providers = remove name s.providers })

-- update_priority(name, priority)
unfoldable pub update_priority : String → ℤ → ProviderOp Unit
update_priority name priority s = elim (lookup name s.providers) [
  | none ↦ (err key_error, s)
  | some r ↦
      (ok tt, record s { providers = put name (record r { priority = priority }) s.providers })
]

-- The loop of `choose_provider`: the statuses that it writes, and the candidates.
unfoldable pub settle_all : ℕ → Dict ProviderRecord → Dict ProviderRecord × List ProviderRecord
settle_all now [] = ([], [])
settle_all now ((name, r) ∷ rs) =
    let (rest, found) = settle_all now rs in
    let (settled, is_candidate) = settle now r in
    ((name, settled) ∷ rest, if is_candidate then settled ∷ found else found)

abbrev pub first_of : List ProviderRecord → Option ProviderRecord
first_of [] = none
first_of (r ∷ _) = some r

-- choose_provider()
unfoldable pub choose_provider : ProviderOp (Option ProviderRecord)
choose_provider s =
    let (settled, found) = settle_all s.clock s.providers in
    (ok (first_of (sort_by comes_first found)), record s { providers = settled })

-- _mark_success(name)
unfoldable pub mark_success : String → ProviderOp Unit
mark_success name s = elim (lookup name s.providers) [
  | none ↦ (err key_error, s)
  | some r ↦ (
    ok tt,
    record s {
      providers =
          put name
            (record r {
              success_count = r.success_count + 1;
              failure_count = 0;
              last_error = none;
              cooldown_until = none;
              status = healthy;
            })
            s.providers;
    },
  )
]

-- The record of a provider after a failure.
unfoldable pub failed : ℕ → String → ProviderRecord → ProviderRecord
failed now error r =
    let cooling : ProviderRecord = record r {
      failure_count = r.failure_count + 1;
      last_error = some error;
      status = if ltb 0 r.cooldown_ms then cooldown else unhealthy;
      cooldown_until = some (now + r.cooldown_ms);
    } in
    if leb r.circuit_failure_threshold (r.failure_count + 1)
    then record cooling {
      status = unhealthy;
      circuit_open_until = some (now + max (r.cooldown_ms * 2) 60_000);
    }
    else cooling

-- _mark_failure(name, error)
unfoldable pub mark_failure : String → String → String → ProviderOp Unit
mark_failure event_id name error s = elim (lookup name s.providers) [
  | none ↦ (err key_error, s)
  | some r ↦
      let after = failed s.clock error r in
      publish event_id provider_health_changed
        (object (
          field "provider" (str name) (
            field "status" (str (status_text after.status)) (field "error" (str error) no_fields))))
        (record s { providers = put name after s.providers })
]

abbrev pub earliest : ℕ → List ℕ → ℕ
earliest t [] = t
earliest t (u ∷ us) = min t (earliest u us)

-- The loop of `_apply_rate_limit` on the record under `name`, a bounded number of times.
unfoldable pub rate_limit_loop :
    ℕ → String → String → RateLimitConfig → ProviderRecord → ProviderOp Unit
rate_limit_loop zero event_id name limit r s = (err loop_unfinished, s)
rate_limit_loop (suc fuel) event_id name limit r s =
    let times = recent s.clock limit r.request_times in
    let admitted : ProviderRecord = record r { request_times = times ++ s.clock ∷ [] } in
    let held : ProviderRecord = record r { request_times = times } in
    let held_state : Providers = record s { providers = put name held s.providers } in
    let waited = elim times as (λ _. Result ProviderError Unit × Providers) [
      | [] ↦ (err value_error, held_state)
      | t ∷ ts ↦
          let wait = limit.window_ms - (s.clock - earliest t ts) in
          (publish event_id provider_rate_limited
                (object (field "provider" (str name) (field "wait_ms" (int (pos wait)) no_fields)))
              >> (λ u.
                  rate_limit_loop fuel event_id name limit held
                    (record u { clock = u.clock + wait })))
            held_state
    ] in
    if ltb (length times) limit.max_requests
    then (ok tt, record s { providers = put name admitted s.providers })
    else waited

-- _apply_rate_limit(record): each wait lets the oldest request leave the window, so that one more
-- round than there are requests is enough.
unfoldable pub apply_rate_limit : String → ProviderRecord → ProviderOp Unit
apply_rate_limit event_id r s = elim r.rate_limit [
  | none ↦ (ok tt, s)
  | some limit ↦ rate_limit_loop (suc (length r.request_times)) event_id r.name limit r s
]

-- Health of all, in the order of registration; `check` is `none` where a check raises.
unfoldable pub checked : ℕ → Bool → ProviderRecord → ProviderRecord
checked now answer r =
    let seen : ProviderRecord = record r {
      status = if answer then healthy else unhealthy;
      last_health_check = some now;
    } in
    if answer then record seen { cooldown_until = none; failure_count = 0 } else seen

-- The `try` of one health check, from its answer on.
unfoldable pub note_health : String → String → Bool → ProviderOp ProviderHealth
note_health event_id name answer s = elim (lookup name s.providers) [
  | none ↦ (err key_error, s)
  | some r ↦
      let after = checked s.clock answer r in
      (publish event_id provider_health_changed (
            object (
              field "provider" (str name)
                (field "status" (str (status_text after.status)) no_fields)))
          >> pure after.status)
        (record s { providers = put name after s.providers })
]

-- str(exc), where the text of what an event handler raises is a parameter.
abbrev pub text_of : String → ProviderError → String
text_of handler_text (provider_error text) = text
text_of handler_text _ = handler_text

-- The answer of a health check, or what it raises.
abbrev pub answer_of : Result String Bool → ProviderOp Bool
answer_of (ok answer) s = (ok answer, s)
answer_of (err text) s = (err (provider_error text), s)

-- The loop of `health_check_all`, over the records as they were at its start.
unfoldable pub health_check_each :
    String
    → String
    → (String → Result String Bool)
    → List ProviderRecord
    → ProviderOp (Dict ProviderHealth)
health_check_each event_id handler_text check [] = pure []
health_check_each event_id handler_text check (r ∷ rs) = do
  status ←
      catch (answer_of (check r.name) >>= note_health event_id r.name)
        (λ e. mark_failure event_id r.name (text_of handler_text e) >> pure unhealthy)
  rest ← health_check_each event_id handler_text check rs
  pure ((r.name, status) ∷ rest)

-- health_check_all()
unfoldable pub health_check_all :
    String → String → (String → Result String Bool) → ProviderOp (Dict ProviderHealth)
health_check_all event_id handler_text check s =
    health_check_each event_id handler_text check (values s.providers) s
