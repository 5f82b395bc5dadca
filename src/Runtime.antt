-- ===== src/Runtime.antt =====
-- src/chatterbox_manga_studio/services/worker_runtime.py: WorkerRuntime around a WorkerAdapter, which
-- is an interface. One call runs from its start to its end; what another task does to the token
-- of a request in that time comes with the adapter's answer. Times are whole units, progress is in
-- millionths, and a progress callback is part of the adapter here. `infer_batch`, whose requests run
-- at the same time, is not modelled.
pub mod Inference
pub mod Steps
mod Samples
use dub_manga_studio.Common.{
  ℕ, zero, suc, ◌-◌, ◌*◌, ◌/◌, max, length, String, Bool, true, false, Option, none, some, List, [],
  ◌∷◌, str_eq, prefixed, if◌then◌else◌, Json, null, str, object, no_fields, field,
}
use dub_manga_studio.Common.Exec.{
  Result, ok, err, Exec, pure, raise, and_then, or_else, catch, ◌>>=◌, ◌>>◌,
}
use dub_manga_studio.Common.Dict.{Dict, lookup, put, remove}
use dub_manga_studio.Events.{
  EventType, Event, EventBus, publish_event, model_loaded, model_unloaded,
}

abbrev pub whole : ℕ
whole = 1000000

pub data RuntimeState : Type 0 where
  idle loading ready running unloading failed stopped : RuntimeState

pub record RuntimeInferenceRequest : Type 0 where
  pub request_id : String
  pub model_id : String
  pub payload : Json
  pub timeout_seconds : Option ℕ
  pub batch_key : Option String
  pub metadata : Json

pub record RuntimeInferenceResult : Type 0 where
  pub request_id : String
  pub model_id : String
  pub is_ok : Bool
  pub result : Json
  pub error : Option String
  pub started_at : ℕ
  pub completed_at : ℕ
  pub duration_seconds : ℕ

-- What Python raises here: asyncio.CancelledError, TimeoutError, the ValueError for another model,
-- and the other exceptions by their text.
pub data Raised : Type 0 where
  cancelled_error : Raised
  timeout_error value_error exception : String → Raised

-- WorkerAdapter, over its own state. `infer` takes the timeout, and says whether the token was
-- cancelled while it ran.
pub record WorkerAdapter (W : Type 0) : Type 0 where
  pub worker_id : String
  pub model_id : String
  pub load_worker : W → Result Raised Unit × W
  pub unload_worker : W → Result Raised Unit × W
  pub infer_worker : RuntimeInferenceRequest → Option ℕ → W → Result Raised Json × Bool × W
  pub cancel_worker : String → W → Result Raised Bool × W
  pub report : String → ℕ → String → W → Result Raised Unit × W

-- A token is whether it is cancelled.
pub record WorkerRuntime (W : Type 0) : Type 0 where
  pub event_bus : EventBus
  pub max_concurrency : ℕ
  pub default_timeout_seconds : Option ℕ
  pub state : RuntimeState
  pub is_loaded : Bool
  pub tokens : Dict Bool
  pub worker : W

-- WorkerRuntime(adapter, ...)
unfoldable pub create : {W : Type 0} → EventBus → ℕ → Option ℕ → W → WorkerRuntime W
create bus max_concurrency timeout w = record {
  event_bus = bus;
  max_concurrency = max 1 max_concurrency;
  default_timeout_seconds = timeout;
  state = idle;
  is_loaded = false;
  tokens = [];
  worker = w;
}

-- What one call reads from outside: when it starts, when it ends, and an id.
pub record Ambient : Type 0 where
  pub started : ℕ
  pub completed : ℕ
  pub event_id : String

abbrev pub RuntimeOp : Type 0 → Type 0 → Type 0
RuntimeOp W A = Exec (WorkerRuntime W) Raised A

abbrev pub is_running : RuntimeState → Bool
is_running running = true
is_running _ = false

module _ {W : Type 0} where
  unfoldable pub set_state : RuntimeState → RuntimeOp W Unit
  set_state state r = (ok tt, record r { state = state })

  -- A call of the adapter.
  unfoldable pub call : {A : Type 0} → (W → Result Raised A × W) → RuntimeOp W A
  call f r = let (answer, w) = f r.worker in (answer, record r { worker = w })

  unfoldable pub set_token : String → Bool → RuntimeOp W Unit
  set_token id cancelled r = (ok tt, record r { tokens = put id cancelled r.tokens })

  -- token.raise_if_cancelled()
  unfoldable pub raise_if_cancelled : String → RuntimeOp W Unit
  raise_if_cancelled id r = (
    elim (lookup id r.tokens) as (λ _. Result Raised Unit) [
      | none ↦ ok tt
      | some cancelled ↦ if cancelled then err cancelled_error else ok tt
    ],
    r,
  )

  -- The `finally` of `infer`.
  unfoldable pub finish : String → WorkerRuntime W → WorkerRuntime W
  finish id r =
      let after = if r.is_loaded then ready else idle in
      record r {
        tokens = remove id r.tokens;
        state = if is_running r.state then after else r.state;
      }

-- request.timeout_seconds if it is not None else default_timeout_seconds
abbrev pub timeout_of : Option ℕ → Option ℕ → Option ℕ
timeout_of none fallback = fallback
timeout_of (some t) fallback = some t

module _ {W : Type 0} (adapter : WorkerAdapter W) where
  open adapter use {
    worker_id, model_id, load_worker, unload_worker, infer_worker, cancel_worker, report,
  }

  -- event_bus.publish(type, source="WorkerRuntime", payload=..., correlation_id=worker_id); what a
  -- subscriber raises is an exception.
  unfoldable pub publish : Ambient → EventType → RuntimeOp W Unit
  publish a type r =
      let event : Event = record {
        id = a.event_id;
        type = type;
        source = "WorkerRuntime";
        payload =
            object (field "worker_id" (str worker_id) (field "model_id" (str model_id) no_fields));
        correlation_id = some worker_id;
        created_at = a.started;
      } in
      let (bus', raised) = publish_event event r.event_bus in
      ((if raised then err (exception "handler") else ok tt), record r { event_bus = bus' })

  -- except Exception: a cancellation is no Exception.
  abbrev pub load_failed : Raised → RuntimeOp W Unit
  load_failed cancelled_error = raise cancelled_error
  load_failed e = set_state failed >> raise e

  -- load()
  unfoldable pub load : Ambient → RuntimeOp W Unit
  load a r =
      let body : RuntimeOp W Unit = (do
        call load_worker
        (λ s. (ok tt, record s { is_loaded = true; state = ready }))
        publish a model_loaded) in
      let go : RuntimeOp W Unit = set_state loading >> catch body load_failed in
      if r.is_loaded then (ok tt, r) else go r

  -- The loop of `unload` over the requests in flight.
  unfoldable pub cancel_each : Dict Bool → RuntimeOp W Unit
  cancel_each [] = pure tt
  cancel_each ((id, _) ∷ rest) = do set_token id true; call (cancel_worker id); cancel_each rest

  -- unload()
  unfoldable pub unload : Ambient → RuntimeOp W Unit
  unload a = do
    set_state unloading
    (λ r. cancel_each r.tokens r)
    call unload_worker
    (λ r. (ok tt, record r { is_loaded = false; state = idle }))
    publish a model_unloaded

  -- RuntimeInferenceResult(...)
  abbrev pub answer :
      Ambient → RuntimeInferenceRequest → Bool → Json → Option String → RuntimeInferenceResult
  answer a request is_ok result error = record {
    request_id = request.request_id;
    model_id = request.model_id;
    is_ok = is_ok;
    result = result;
    error = error;
    started_at = a.started;
    completed_at = a.completed;
    duration_seconds = a.completed - a.started;
  }

  -- adapter.infer(request), and what became of the token
  unfoldable pub call_infer : RuntimeInferenceRequest → RuntimeOp W Json
  call_infer request r =
      let (result, cancelled, w) =
        infer_worker request (timeout_of request.timeout_seconds r.default_timeout_seconds)
          r.worker in
      (
        result,
        record r {
          worker = w;
          tokens = if cancelled then put request.request_id true r.tokens else r.tokens;
        },
      )

  -- The body of `try` in `infer`.
  unfoldable pub infer_now : Ambient → RuntimeInferenceRequest → RuntimeOp W RuntimeInferenceResult
  infer_now a request = do
    load a
    set_state running
    call (report request.request_id 0 "started")
    result ← call_infer request
    raise_if_cancelled request.request_id
    call (report request.request_id whole "completed")
    pure (answer a request true result none)

  -- The `except` clauses of `infer`.
  unfoldable pub infer_failed :
      Ambient → RuntimeInferenceRequest → Raised → RuntimeOp W RuntimeInferenceResult
  infer_failed a request cancelled_error =
      (call (cancel_worker request.request_id)
        >> pure (answer a request false null (some "cancelled")))
  infer_failed a request (timeout_error text) =
      (call (cancel_worker request.request_id)
        >> pure (answer a request false null (some (prefixed "timeout: " text))))
  infer_failed a request (value_error text) =
      (set_state failed >> pure (answer a request false null (some text)))
  infer_failed a request (exception text) =
      (set_state failed >> pure (answer a request false null (some text)))

  -- infer(request, cancellation_token=): `token` is whether the token is cancelled.
  unfoldable pub infer :
      Ambient → RuntimeInferenceRequest → Bool → RuntimeOp W RuntimeInferenceResult
  infer a request token r =
      let other : Result Raised RuntimeInferenceResult × WorkerRuntime W =
        (err (value_error "wrong model"), r) in
      let s : WorkerRuntime W = record r { tokens = put request.request_id token r.tokens } in
      let stopped : Result Raised RuntimeInferenceResult × WorkerRuntime W =
        (err cancelled_error, s) in
      let (result, t) = catch (infer_now a request) (infer_failed a request) s in
      if str_eq request.model_id model_id
      then (if token then stopped else (result, finish request.request_id t))
      else other

  -- cancel(request_id)
  unfoldable pub cancel : String → RuntimeOp W Bool
  cancel id r =
      let s : WorkerRuntime W = elim (lookup id r.tokens) [
        | none ↦ r
        | some _ ↦ record r { tokens = put id true r.tokens }
      ] in
      call (cancel_worker id) s
