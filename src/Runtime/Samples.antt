-- ===== src/Runtime/Samples.antt =====
-- A small worker, tests, and the properties at it.
use dub_manga_studio.Common.{
  ℕ, String, ◌≡◌, refl, true, false, none, some, Option, null, str, Json, str_eq, prefixed,
}
use dub_manga_studio.Common.Exec.{Result, ok, err}
use dub_manga_studio.Common.Dict.{lookup, put, remove}
use dub_manga_studio.Events
use dub_manga_studio.Runtime.{
  ready, RuntimeInferenceRequest, RuntimeInferenceResult, Raised, cancelled_error, timeout_error,
  value_error, WorkerAdapter, WorkerRuntime, Ambient, create, set_state, call, set_token, finish,
  publish, load, cancel_each, unload, call_infer, raise_if_cancelled, infer_now, infer_failed,
  infer, cancel,
}
use dub_manga_studio.Runtime.Inference.{CanCancel, Tells, infer_lem}
use dub_manga_studio.Runtime.Steps.{Settled, Reach, start, next, loads, infers, Reach-Settled}

program : Unit {0}
unfolding lookup put remove prefixed create set_state call set_token finish publish load cancel_each
    unload call_infer raise_if_cancelled infer_now infer_failed infer cancel Events.publish_event
    Events.deliver Events.bounded Events.create
program = tt

-- A worker that answers, unless it has a timeout.
abbrev answers : Option ℕ → Result Raised Json
answers (some _) = err (timeout_error "1 s")
answers none = ok (str "audio")

abbrev worker : WorkerAdapter ℕ
worker = record {
  worker_id = "w";
  model_id = "fish";
  load_worker = λ n. (ok tt, n);
  unload_worker = λ n. (ok tt, n);
  infer_worker = λ request timeout n. (answers timeout, false, n);
  cancel_worker = λ id n. (ok true, n);
  report = λ id progress message n. (ok tt, n);
}

abbrev request : String → Option ℕ → RuntimeInferenceRequest
request model timeout = record {
  request_id = "q";
  model_id = model;
  payload = null;
  timeout_seconds = timeout;
  batch_key = none;
  metadata = null;
}

abbrev now : Ambient
now = record { started = 3; completed = 5; event_id = "e" }

new_runtime : WorkerRuntime ℕ
new_runtime = create (Events.create 10 false) 1 none 0

abbrev error_of : Result Raised RuntimeInferenceResult → Option String
error_of (ok result) = result.error
error_of (err e) = some "raised"

infer_test :
    (error_of (infer worker now (request "fish" none) false new_runtime).0 ≡ none)
    × ((infer worker now (request "fish" none) false new_runtime).1.state ≡ ready)
    × (error_of (infer worker now (request "fish" (some 1)) false new_runtime).0
        ≡ some "timeout: 1 s")
unfolding program new_runtime
infer_test = (refl, refl, refl)

-- A token that is cancelled before the call raises, and stays among the requests in flight.
cancelled_token_test :
    ((infer worker now (request "fish" none) true new_runtime).0 ≡ err cancelled_error)
    × (lookup "q" (infer worker now (request "fish" none) true new_runtime).1.tokens ≡ some true)
unfolding program new_runtime
cancelled_token_test = (refl, refl)

worker-CanCancel : CanCancel worker
worker-CanCancel id w = (true, refl)

other_model : str_eq "vox" "fish" ≡ false
other_model = refl

infer_lem_example :
    ((result : RuntimeInferenceResult) × ((infer worker now
          (request "fish" none)
          false
          new_runtime).0
        ≡ ok result)
      × Tells worker (request "fish" none) result)
    × (lookup "q" (infer worker now (request "fish" none) false new_runtime).1.tokens ≡ none)
    × (infer worker now (request "vox" none) false new_runtime
        ≡ (err (value_error "wrong model"), new_runtime))
infer_lem_example =
    infer_lem worker now (request "fish" none) (request "vox" none) new_runtime worker-CanCancel
      refl other_model

after_calls : WorkerRuntime ℕ
after_calls = (infer worker now (request "fish" (some 1)) false (load worker now new_runtime).1).1

after_calls-Reach : Reach worker (Events.create 10 false) 1 none 0 after_calls
unfolding after_calls new_runtime
after_calls-Reach = next (next start (loads now)) (infers now (request "fish" (some 1)) false)

Reach-Settled_example : Settled after_calls
Reach-Settled_example = Reach-Settled worker after_calls-Reach
