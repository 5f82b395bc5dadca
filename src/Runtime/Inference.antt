-- ===== src/Runtime/Inference.antt =====
-- What `infer` gives for a request.
use dub_manga_studio.Common.{
  ℕ, String, ◌≡◌, refl, sym, ◌∙◌, subst, Bool, true, false, none, some, str_eq, eq_refl, Json,
  if◌then◌else◌, Option,
}
use mathlib.Core.Bool.{false≢true}
use dub_manga_studio.Common.Exec.{Result, ok, err, catch, and_then_rule, or_else_rule}
use dub_manga_studio.Common.Dict.{lookup, put, lookup-remove}
use dub_manga_studio.Runtime.{
  RuntimeInferenceRequest, RuntimeInferenceResult, Raised, cancelled_error, timeout_error,
  value_error, exception, WorkerAdapter, WorkerRuntime, Ambient, running, set_state, call, finish,
  load, call_infer, raise_if_cancelled, infer_now, infer_failed, infer, timeout_of, whole,
}

module _ {W : Type 0} (adapter : WorkerAdapter W) where
  -- A result that the adapter gave for a request.
  abbrev pub FromAdapter : RuntimeInferenceRequest → Json → Type 0
  FromAdapter request v =
      (timeout : Option ℕ) × (w : W) × ((adapter.infer_worker request timeout w).0 ≡ ok v)

  -- A result that tells what happened: either what the adapter gave, or an error.
  abbrev pub Tells : RuntimeInferenceRequest → RuntimeInferenceResult → Type 0
  Tells request result =
      (result.request_id ≡ request.request_id)
      × (result.model_id ≡ request.model_id)
      × (result.is_ok ≡ true → (result.error ≡ none) × FromAdapter request result.result)
      × (result.is_ok ≡ false → (text : String) × (result.error ≡ some text))

  abbrev Good :
      RuntimeInferenceRequest → Result Raised RuntimeInferenceResult → WorkerRuntime W → Type 0
  Good request (ok result) t = Tells request result
  Good request (err e) t = Unit

  abbrev Always :
      RuntimeInferenceRequest → Result Raised RuntimeInferenceResult → WorkerRuntime W → Type 0
  Always request (ok result) t = Tells request result
  Always request (err e) t = ⊥

  -- Cancelling at the adapter does not raise.
  abbrev pub CanCancel : Type 0
  CanCancel = (id : String) (w : W) → (b : Bool) × ((adapter.cancel_worker id w).0 ≡ ok b)

  infer_now-Good :
      (a : Ambient) (request : RuntimeInferenceRequest) (r : WorkerRuntime W)
      → Good request (infer_now adapter a request r).0 (infer_now adapter a request r).1
  unfolding infer_now set_state call call_infer
  infer_now-Good a request r =
      let Q : Result Raised RuntimeInferenceResult → WorkerRuntime W → Type 0 = Good request in
      let id : String = request.request_id in
      let s1 : WorkerRuntime W = record (load adapter a r).1 { state = running } in
      let first = adapter.report id 0 "started" s1.worker in
      let s2 : WorkerRuntime W = record s1 { worker = first.1 } in
      let limit : Option ℕ = timeout_of request.timeout_seconds s2.default_timeout_seconds in
      let asked = adapter.infer_worker request limit s2.worker in
      let s3 : WorkerRuntime W = record s2 {
        worker = asked.2;
        tokens = if asked.1 then put id true s2.tokens else s2.tokens;
      } in
      let checked = raise_if_cancelled id s3 in
      let last = adapter.report id whole "completed" checked.1.worker in
      and_then_rule Q (load adapter a r).0 _ (load adapter a r).1
        (λ _ _.
          and_then_rule Q first.0 _ s2
            (λ _ _.
              and_then_rule Q asked.0 _ s3
                (λ v given.
                  and_then_rule Q checked.0 _ checked.1
                    (λ _ _.
                      and_then_rule Q last.0 _ (record checked.1 { worker = last.1 })
                        (λ _ _. (
                          refl,
                          refl,
                          (λ _. (refl, (limit, s2.worker, given))),
                          (λ e. absurd (false≢true (sym e))),
                        ))
                        (λ _ _. tt))
                    (λ _ _. tt))
                (λ _ _. tt))
            (λ _ _. tt))
        (λ _ _. tt)

  infer_failed-Always :
      (a : Ambient) (request : RuntimeInferenceRequest) (e : Raised) (r : WorkerRuntime W)
      → CanCancel
      → Always request (infer_failed adapter a request e r).0 (infer_failed adapter a request e r).1
  unfolding infer_failed set_state call
  infer_failed-Always a request cancelled_error r can =
      let (b, e) = can request.request_id r.worker in
      rw e (refl, refl, (λ f. absurd (false≢true f)), (λ _. ("cancelled", refl)))
  infer_failed-Always a request (timeout_error text) r can =
      let (b, e) = can request.request_id r.worker in
      rw e (refl, refl, (λ f. absurd (false≢true f)), (λ _. (_, refl)))
  infer_failed-Always a request (value_error text) r can =
      (refl, refl, (λ f. absurd (false≢true f)), (λ _. (text, refl)))
  infer_failed-Always a request (exception text) r can =
      (refl, refl, (λ f. absurd (false≢true f)), (λ _. (text, refl)))

  caught-Always :
      (a : Ambient) (request : RuntimeInferenceRequest) (r : WorkerRuntime W)
      → CanCancel
      → let done = catch (infer_now adapter a request) (infer_failed adapter a request) r in
        Always request done.0 done.1
  caught-Always a request r can =
      let tried = infer_now adapter a request r in
      or_else_rule (Always request) tried.0 (infer_failed adapter a request) tried.1
        (λ result e. subst (λ x. Good request x tried.1) e (infer_now-Good a request r))
        (λ e p. infer_failed-Always a request e tried.1 can)

  Always-ok :
      (request : RuntimeInferenceRequest) (x : Result Raised RuntimeInferenceResult)
      (t : WorkerRuntime W)
      → Always request x t
      → (result : RuntimeInferenceResult) × (x ≡ ok result) × Tells request result
  Always-ok request (ok result) t h = (result, refl, h)
  Always-ok request (err e) t h = absurd h

  -- For an adapter whose `cancel` does not raise, a request for its model, and a token that is not
  -- cancelled. `infer` returns a result whatever happens: it names the request and its model, and
  -- is either what the adapter gave for this request, without an error, or an error with its text.
  -- The token of the request is gone. A request for another model raises and changes nothing.
  pub infer_lem :
      (a : Ambient) (request other : RuntimeInferenceRequest) (r : WorkerRuntime W)
      → CanCancel
      → request.model_id ≡ adapter.model_id
      → str_eq other.model_id adapter.model_id ≡ false
      → ((result : RuntimeInferenceResult) × ((infer adapter a request false r).0 ≡ ok result)
          × Tells request result)
        × (lookup request.request_id (infer adapter a request false r).1.tokens ≡ none)
        × (infer adapter a other false r ≡ (err (value_error "wrong model"), r))
  unfolding infer finish
  infer_lem a request other r can same different =
      let s : WorkerRuntime W = record r { tokens = put request.request_id false r.tokens } in
      let done = catch (infer_now adapter a request) (infer_failed adapter a request) s in
      let right : str_eq request.model_id adapter.model_id ≡ true =
        rw same (eq_refl adapter.model_id) in
      (
        rw (infer, right) (Always-ok request done.0 done.1 (caught-Always a request s can)),
        rw (infer, right)
            (lookup-remove request.request_id request.request_id done.1.tokens
              ∙ rw (eq_refl request.request_id) refl),
        rw (infer, different) refl,
      )
