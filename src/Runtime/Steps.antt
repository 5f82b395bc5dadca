-- ===== src/Runtime/Steps.antt =====
-- What holds between the calls of a WorkerRuntime, made one after another.
use dub_manga_studio.Common.{
  ℕ, String, ◌≡◌, refl, Bool, true, false, Option, Option-cases, [], ◌∷◌, inl, inr, str_eq,
  if◌then◌else◌,
}
use dub_manga_studio.Common.Exec.{◌>>◌, Result, ok, err, or_else, and_then_keeps}
use dub_manga_studio.Common.Dict.{Dict, lookup, put}
use dub_manga_studio.Events.{EventBus, EventType, model_loaded, model_unloaded}
use dub_manga_studio.Runtime.{
  RuntimeOp, RuntimeInferenceResult, timeout_of, whole, RuntimeState, idle, loading, ready, running,
  unloading, RuntimeInferenceRequest, Raised, cancelled_error, timeout_error, value_error,
  exception, WorkerAdapter, WorkerRuntime, Ambient, create, is_running, set_state, call, set_token,
  finish, publish, load_failed, load, cancel_each, unload, call_infer, raise_if_cancelled,
  infer_now, infer_failed, infer, cancel,
}

-- A ready worker is loaded, and an idle one is not.
abbrev pub Fits : RuntimeState → Bool → Type 0
Fits ready is_loaded = is_loaded ≡ true
Fits idle is_loaded = is_loaded ≡ false
Fits _ is_loaded = Unit

-- Between two calls no request runs.
abbrev pub Settled : {W : Type 0} → WorkerRuntime W → Type 0
Settled r = Fits r.state r.is_loaded × (is_running r.state ≡ false)

-- In the course of a request.
abbrev Loose : {W : Type 0} → WorkerRuntime W → Type 0
Loose r = Fits r.state r.is_loaded

if_keeps :
    {A : Type 0} (P : A → Type 0) (b : Bool) (x y : A)
    → (b ≡ true → P x)
    → (b ≡ false → P y)
    → P (if b then x else y)
if_keeps P true x y h k = h refl
if_keeps P false x y h k = k refl

module _ {W : Type 0} where
  finish-Settled : (id : String) (r : WorkerRuntime W) → Loose r → Settled (finish id r)
  unfolding finish
  finish-Settled id r h =
      if_keeps (λ x. Fits x r.is_loaded × (is_running x ≡ false)) (is_running r.state)
        (if r.is_loaded then ready else idle) r.state
        (λ _.
          if_keeps (λ x. Fits x r.is_loaded × (is_running x ≡ false)) r.is_loaded ready idle
            (λ b. (b, refl)) (λ b. (b, refl)))
        (λ e. (h, e))

  or_else_keeps :
      {A : Type 0} (P : WorkerRuntime W → Type 0) (r : Result Raised A)
      (f : Raised → WorkerRuntime W → Result Raised A × WorkerRuntime W) (s : WorkerRuntime W)
      → P s
      → ((e : Raised) → P (f e s).1)
      → P (or_else r f s).1
  or_else_keeps P (ok a) f s h k = h
  or_else_keeps P (err e) f s h k = k e

module _ {W : Type 0} (adapter : WorkerAdapter W) where
  load_failed-Settled :
      (e : Raised) (r : WorkerRuntime W) → Settled r → Settled (load_failed adapter e r).1
  unfolding set_state
  load_failed-Settled cancelled_error r h = h
  load_failed-Settled (timeout_error text) r h = (tt, refl)
  load_failed-Settled (value_error text) r h = (tt, refl)
  load_failed-Settled (exception text) r h = (tt, refl)

  publish-Settled :
      (a : Ambient) (type : EventType) (r : WorkerRuntime W)
      → Settled r
      → Settled (publish adapter a type r).1
  unfolding publish
  publish-Settled a type r h = h

  load-Settled : (a : Ambient) (r : WorkerRuntime W) → Settled r → Settled (load adapter a r).1
  unfolding load set_state call
  load-Settled a r h =
      let s : WorkerRuntime W = record r {
        state = loading;
        worker = (adapter.load_worker r.worker).1;
      } in
      let t : WorkerRuntime W = record s { is_loaded = true; state = ready } in
      let told = publish adapter a model_loaded t in
      let body : RuntimeOp W Unit = (do
        call adapter.load_worker
        (λ u. (ok tt, record u { is_loaded = true; state = ready }))
        publish adapter a model_loaded) in
      let tried = body (record r { state = loading }) in
      let after : Settled tried.1 =
        and_then_keeps Settled (adapter.load_worker r.worker).0 _ s (tt, refl)
          (λ _. publish-Settled a model_loaded t (refl, refl)) in
      if_keeps (λ (p : Result Raised Unit × WorkerRuntime W). Settled p.1) r.is_loaded (ok tt, r) _
        (λ _. h)
        (λ _.
          or_else_keeps Settled tried.0 (load_failed adapter) tried.1 after
            (λ e. load_failed-Settled e tried.1 after))

  cancel_each-keeps :
      (P : WorkerRuntime W → Type 0)
      → ((r : WorkerRuntime W) (tokens : Dict Bool) (w : W)
          → P r
          → P (record r { tokens = tokens; worker = w }))
      → (ids : Dict Bool) (r : WorkerRuntime W) → P r
      → P (cancel_each adapter ids r).1
  unfolding cancel_each set_token call
  cancel_each-keeps P k [] r h = h
  cancel_each-keeps P k ((id, b) ∷ ids) r h =
      let s : WorkerRuntime W = record r {
        tokens = put id true r.tokens;
        worker = (adapter.cancel_worker id r.worker).1;
      } in
      let here : P s = k r (put id true r.tokens) (adapter.cancel_worker id r.worker).1 h in
      and_then_keeps P (adapter.cancel_worker id r.worker).0 _ s here
        (λ _. cancel_each-keeps P k ids s here)

  unload-Settled : (a : Ambient) (r : WorkerRuntime W) → Settled (unload adapter a r).1
  unfolding unload set_state call
  unload-Settled a r =
      let s : WorkerRuntime W = record r { state = unloading } in
      let each = cancel_each adapter r.tokens s in
      let held : Settled each.1 =
        cancel_each-keeps Settled (λ u tokens w h. h) r.tokens s (tt, refl) in
      let stopped_at : WorkerRuntime W = record each.1 {
        worker = (adapter.unload_worker each.1.worker).1;
      } in
      let idle_at : WorkerRuntime W = record stopped_at { is_loaded = false; state = idle } in
      and_then_keeps Settled each.0 _ each.1 held (λ _.
        and_then_keeps Settled (adapter.unload_worker each.1.worker).0 _ stopped_at held
          (λ _. publish-Settled a model_unloaded idle_at (refl, refl)))

  cancel-Settled : (id : String) (r : WorkerRuntime W) → Settled r → Settled (cancel adapter id r).1
  unfolding cancel call
  cancel-Settled id r h = elim (Option-cases (lookup id r.tokens)) [
    | inl e ↦ rw (cancel, e) h
    | inr (b, e) ↦ rw (cancel, e) h
  ]

  infer_now-Loose :
      (a : Ambient) (request : RuntimeInferenceRequest) (r : WorkerRuntime W)
      → Settled r
      → Loose (infer_now adapter a request r).1
  unfolding infer_now set_state call call_infer raise_if_cancelled
  infer_now-Loose a request r h =
      let id : String = request.request_id in
      let loaded = load adapter a r in
      let s1 : WorkerRuntime W = record loaded.1 { state = running } in
      let first = adapter.report id 0 "started" s1.worker in
      let s2 : WorkerRuntime W = record s1 { worker = first.1 } in
      let asked =
        adapter.infer_worker request (timeout_of request.timeout_seconds s2.default_timeout_seconds)
          s2.worker in
      let s3 : WorkerRuntime W = record s2 {
        worker = asked.2;
        tokens = if asked.1 then put id true s2.tokens else s2.tokens;
      } in
      let checked = raise_if_cancelled id s3 in
      let last = adapter.report id whole "completed" s3.worker in
      and_then_keeps Loose loaded.0 _ loaded.1 (load-Settled a r h).0 (λ _.
        and_then_keeps Loose first.0 _ s2 tt (λ _. and_then_keeps Loose asked.0 _ s3 tt (λ v.
          and_then_keeps Loose checked.0 _ s3 tt
            (λ _. and_then_keeps Loose last.0 _ (record s3 { worker = last.1 }) tt (λ _. tt)))))

  infer_failed-Loose :
      (a : Ambient) (request : RuntimeInferenceRequest) (e : Raised) (r : WorkerRuntime W)
      → Loose r
      → Loose (infer_failed adapter a request e r).1
  unfolding infer_failed set_state call
  infer_failed-Loose a request cancelled_error r h =
      and_then_keeps Loose (adapter.cancel_worker request.request_id r.worker).0 _ _ h (λ _. h)
  infer_failed-Loose a request (timeout_error text) r h =
      and_then_keeps Loose (adapter.cancel_worker request.request_id r.worker).0 _ _ h (λ _. h)
  infer_failed-Loose a request (value_error text) r h = tt
  infer_failed-Loose a request (exception text) r h = tt

  infer-Settled :
      (a : Ambient) (request : RuntimeInferenceRequest) (token : Bool) (r : WorkerRuntime W)
      → Settled r
      → Settled (infer adapter a request token r).1
  unfolding infer
  infer-Settled a request token r h =
      let s : WorkerRuntime W = record r { tokens = put request.request_id token r.tokens } in
      let tried = infer_now adapter a request s in
      let loose : Loose tried.1 = infer_now-Loose a request s h in
      let P = λ (p : Result Raised RuntimeInferenceResult × WorkerRuntime W). Settled p.1 in
      if_keeps P (str_eq request.model_id adapter.model_id) _ _
        (λ _.
          if_keeps P token _ _ (λ _. h)
            (λ _. finish-Settled request.request_id _ (
              or_else_keeps Loose tried.0 (infer_failed adapter a request) tried.1 loose
                (λ e. infer_failed-Loose a request e tried.1 loose))))
        (λ _. h)

  -- One call, as its caller asks for it.
  pub data Step (r : WorkerRuntime W) : WorkerRuntime W → Type 0 where
    loads : (a : Ambient) → Step r (load adapter a r).1
    unloads : (a : Ambient) → Step r (unload adapter a r).1
    infers :
        (a : Ambient) (request : RuntimeInferenceRequest) (token : Bool)
        → Step r (infer adapter a request token r).1
    cancels : (id : String) → Step r (cancel adapter id r).1

  pub data Reach (bus : EventBus) (most : ℕ) (timeout : Option ℕ) (w : W)
      : WorkerRuntime W → Type 0 where
    start : Reach bus most timeout w (create bus most timeout w)
    next :
        {r s : WorkerRuntime W} → Reach bus most timeout w r → Step r s → Reach bus most timeout w s

  Step-Settled : {r s : WorkerRuntime W} → Step r s → Settled r → Settled s
  Step-Settled {r} (loads a) h = load-Settled a r h
  Step-Settled {r} (unloads a) h = unload-Settled a r
  Step-Settled {r} (infers a request token) h = infer-Settled a request token r h
  Step-Settled {r} (cancels id) h = cancel-Settled id r h

  -- Whatever calls of `load`, `unload`, `infer` and `cancel` are made one after another, in any order,
  -- on a new runtime, and whatever its worker answers or raises: after each call no request runs, a
  -- runtime that is ready has its model loaded, and one that is idle has not.
  pub Reach-Settled :
      {bus : EventBus} {most : ℕ} {timeout : Option ℕ} {w : W} {r : WorkerRuntime W}
      → Reach bus most timeout w r
      → Settled r
  unfolding create
  Reach-Settled start = (refl, refl)
  Reach-Settled (next reached step) = Step-Settled step (Reach-Settled reached)
