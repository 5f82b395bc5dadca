-- ===== src/Providers/Exact.antt =====
-- ProviderManager.execute: which attempt gives the response, where a provider has no rate limit.
use dub_manga_studio.Common.{
  List, ℕ, zero, suc, ◌+◌, ◌≤◌, ◌<◌, String, ◌≡◌, refl, sym, ap, subst, Bool, true, false, Option,
  none, some, inl, inr, ◌⊎◌, ltb, arith, All-map, length, Json, if◌then◌else◌, Option-cases,
}
use dub_manga_studio.Common.Exec.{Result, ok, err, pure, and_then, ◌>>◌, or_else}
use dub_manga_studio.Common.Dict.{lookup, put, lookup-put_self}
use dub_manga_studio.Providers.{
  provider_error, Providers, ProviderError, handler_error, ProviderRequest, ProviderResponse,
  ProviderOp, publish, apply_rate_limit, mark_success, mark_failure, failed, text_of,
  rate_limit_loop,
}
use dub_manga_studio.Providers.Execution.{Invoke, call, current, sleep, backoff, try_attempts}
use dub_manga_studio.Providers.Record.{RateLimitConfig, healthy, ProviderRecord}
use dub_manga_studio.Providers.Waits.{Stored}
use dub_manga_studio.Providers.Attempts.{answers, body, Marked, Outcome, attempts_lem}

module _ (event_id handler_text : String) (invoke : Invoke) (request : ProviderRequest)
    (r : ProviderRecord) where
  -- Without a rate limit each attempt is one call: the response comes from the first call that the
  -- provider answers, and says which one that is; or all calls fail, and the text of the last one is
  -- in the record.
  abbrev pub Fails : ℕ → Type 0
  Fails n = (text : String) × (invoke r.name request n ≡ err text)

  abbrev pub AllFail : ℕ → ℕ → Providers → Type 0
  AllFail calls left t =
      (t.calls ≡ calls + suc left)
      × ((j : ℕ) → j ≤ left → Fails (calls + j))
      × ((text : String) × (invoke r.name request (calls + left) ≡ err text)
          × Marked event_id handler_text invoke request r text t)

  abbrev pub Exact : ℕ → ℕ → ℕ → Result ProviderError (Option ProviderResponse) → Providers → Type 0
  Exact calls attempt left (ok (some response)) t =
      (k : ℕ) × (k ≤ left)
      × (response.attempts ≡ attempt + k)
      × (t.calls ≡ calls + suc k)
      × (invoke r.name request (calls + k) ≡ ok response.result)
      × ((j : ℕ) → j < k → Fails (calls + j))
  Exact calls attempt left (ok none) t = AllFail calls left t
  Exact calls attempt left (err e) t = AllFail calls left t

  abbrev in_turn : ℕ → ℕ → ProviderError → ProviderOp (Option ProviderResponse)
  in_turn left attempt e =
      if ltb 0 left
      then (sleep (backoff r attempt)
          >> try_attempts event_id handler_text invoke request r (attempt + 1) left)
      else (mark_failure event_id r.name (text_of handler_text e) >> pure none)

  told-AllFail :
      (calls attempt left : ℕ) (b : Bool) (t : Providers)
      → AllFail calls left t
      → let done = and_then (if b then err handler_error else ok tt) (λ _. pure none) t in
        Exact calls attempt left done.0 done.1
  told-AllFail calls attempt left true t h = h
  told-AllFail calls attempt left false t h = h

  no_wait :
      (s : Providers) (ts : List ℕ)
      → r.rate_limit ≡ none
      → apply_rate_limit event_id (record r { request_times = ts }) s ≡ (ok tt, s)
  unfolding apply_rate_limit
  no_wait s ts free =
      ap
        (λ o. elim o as (λ _. Result ProviderError Unit × Providers) [
          | none ↦ (ok tt, s)
          | some limit ↦
              rate_limit_loop (suc (length ts)) event_id r.name limit
                (record r { request_times = ts }) s
        ])
        free

  -- The call of one attempt without a rate limit.
  unlimited :
      (attempt : ℕ) (s : Providers) (ts : List ℕ)
      → r.rate_limit ≡ none
      → lookup r.name s.providers ≡ some (record r { request_times = ts })
      → let t : Providers = record s { calls = s.calls + 1 } in
        ((v : Json) × (invoke r.name request s.calls ≡ ok v)
          × ((u : Providers) × (body event_id handler_text invoke request r attempt s
                ≡ (ok (some (record { provider = r.name; result = v; attempts = attempt })), u))
              × (u.calls ≡ suc s.calls)))
        ⊎ ((text : String) × (invoke r.name request s.calls ≡ err text)
            × (body event_id handler_text invoke request r attempt s
                ≡ (err (provider_error text), t)))
  unfolding current call mark_success
  unlimited attempt s ts free found = elim (answers (invoke r.name request s.calls)) [
    | inl (v, e) ↦
        let well : ProviderRecord = record r {
          request_times = ts;
          status = healthy;
          success_count = r.success_count + 1;
          failure_count = 0;
          cooldown_until = none;
          last_error = none;
        } in
        let u : Providers = record s {
          calls = s.calls + 1;
          providers = put r.name well s.providers;
        } in
        inl (
          v,
          e,
          (
            u,
            rw (current, found) (rw (no_wait s ts free) (rw e (rw (mark_success, found) refl))),
            omega arith,
          ),
        )
    | inr (text, e) ↦ inr (text, e, rw (current, found) (rw (no_wait s ts free) (rw e refl)))
  ]

  gives_up-Exact :
      (calls attempt left : ℕ) (text : String) (t : Providers)
      → Stored r t
      → t.calls ≡ calls + suc left
      → ((j : ℕ) → j ≤ left → Fails (calls + j))
      → invoke r.name request (calls + left) ≡ err text
      → let done =
          and_then
            (mark_failure event_id r.name text t).0
            (λ _. pure none)
            (mark_failure event_id r.name text t).1 in
        Exact calls attempt left done.0 done.1
  unfolding mark_failure publish
  gives_up-Exact calls attempt left text t (ts, found, past) count fails last =
      let x : ProviderRecord = failed t.clock text (record r { request_times = ts }) in
      rw (mark_failure, found)
        (told-AllFail calls attempt left _ _
          (count, fails, (text, last, (ts, lookup-put_self r.name x t.providers))))

  Fails-later :
      (calls k : ℕ)
      → Fails calls
      → ((j : ℕ) → j < k → Fails (calls + 1 + j))
      → (j : ℕ) → j < suc k
      → Fails (calls + j)
  Fails-later calls k first rest zero h = subst Fails (omega arith) first
  Fails-later calls k first rest (suc j) h = subst Fails (omega arith) (rest j (omega (arith, h)))

  AllFail-later :
      (calls left : ℕ) (u : Providers)
      → Fails calls
      → AllFail (calls + 1) left u
      → AllFail calls (suc left) u
  AllFail-later calls left u first (count, fails, (text, last, marked)) = (
    omega (arith, count),
    (λ j h.
        Fails-later calls (suc left) first (λ i k. fails i (omega (arith, k))) j
          (omega (arith, h))),
    (text, subst (λ n. invoke r.name request n ≡ err text) (omega arith) last, marked),
  )

  Exact-later :
      (calls attempt left : ℕ) (x : Result ProviderError (Option ProviderResponse)) (u : Providers)
      → Fails calls
      → Exact (calls + 1) (attempt + 1) left x u
      → Exact calls attempt (suc left) x u
  Exact-later calls attempt left (ok none) u first h = AllFail-later calls left u first h
  Exact-later calls attempt left (err e) u first h = AllFail-later calls left u first h
  Exact-later calls attempt left (ok (some response)) u first (k, few, says, count, given, fails) =
      (
        suc k,
        omega (arith, few),
        omega (arith, says),
        omega (arith, count),
        subst (λ n. invoke r.name request n ≡ ok response.result) (omega arith) given,
        Fails-later calls k first fails,
      )

  -- After an attempt without an answer: the failure, or the next one.
  last-Exact :
      (attempt : ℕ) (s : Providers) (text : String)
      → invoke r.name request s.calls ≡ err text
      → Stored r s
      → let done = in_turn 0 attempt (provider_error text) (record s { calls = s.calls + 1 }) in
        Exact s.calls attempt 0 done.0 done.1
  last-Exact attempt s text e stored =
      gives_up-Exact s.calls attempt 0 text (record s { calls = s.calls + 1 }) stored (omega arith)
        (λ j h.
          subst Fails (let none_after : j ≡ 0 = omega (arith, h) in omega (arith, none_after))
            (text, e))
        (subst (λ n. invoke r.name request n ≡ err text) (omega arith) e)

  next-Exact :
      (left attempt : ℕ) (s : Providers) (text : String)
      → ((u : Providers)
          → Stored r u
          → let done =
              try_attempts event_id handler_text invoke request r (attempt + 1) (suc left) u in
            Exact u.calls (attempt + 1) left done.0 done.1)
      → invoke r.name request s.calls ≡ err text
      → Stored r s
      → let done =
          in_turn (suc left) attempt (provider_error text) (record s { calls = s.calls + 1 }) in
        Exact s.calls attempt (suc left) done.0 done.1
  unfolding sleep
  next-Exact left attempt s text rest e (ts, found, past) =
      let more : ltb 0 (suc left) ≡ true = ground arith in
      let next : Providers = record s {
        calls = s.calls + 1;
        clock = s.clock + backoff r attempt;
      } in
      rw more (
        Exact-later s.calls attempt left _ _ (text, e)
          (rest next (ts, found, All-map (λ t k. omega (arith, k)) ts past)))

  attempt-Exact :
      (left attempt : ℕ) (s : Providers)
      → r.rate_limit ≡ none
      → Stored r s
      → ((text : String)
          → invoke r.name request s.calls ≡ err text
          → let done =
              in_turn left attempt (provider_error text) (record s { calls = s.calls + 1 }) in
            Exact s.calls attempt left done.0 done.1)
      → let done =
          or_else
            (body event_id handler_text invoke request r attempt s).0
            (in_turn left attempt)
            (body event_id handler_text invoke request r attempt s).1 in
        Exact s.calls attempt left done.0 done.1
  attempt-Exact left attempt s free (ts, found, past) after =
      let Goal : Result ProviderError (Option ProviderResponse) × Providers → Type 0 = λ b.
        Exact s.calls attempt left (or_else b.0 (in_turn left attempt) b.1).0
          (or_else b.0 (in_turn left attempt) b.1).1 in
      elim (unlimited attempt s ts free found) [
        | inl (v, e, (u, run, count)) ↦ subst Goal (sym run) (
          0,
          omega arith,
          omega arith,
          omega (arith, count),
          subst (λ n. invoke r.name request n ≡ ok v) (omega arith) e,
          (λ j h. absurd (omega (arith, h))),
        )
        | inr (text, e, run) ↦ subst Goal (sym run) (after text e)
      ]

  attempts-Exact :
      (left attempt : ℕ) (s : Providers)
      → r.rate_limit ≡ none
      → Stored r s
      → let done = try_attempts event_id handler_text invoke request r attempt (suc left) s in
        Exact s.calls attempt left done.0 done.1
  unfolding try_attempts sleep
  attempts-Exact zero attempt s free stored =
      attempt-Exact 0 attempt s free stored (λ text e. last-Exact attempt s text e stored)
  attempts-Exact (suc left) attempt s free stored =
      attempt-Exact (suc left) attempt s free stored (λ text e.
        next-Exact left attempt s text (λ u h. attempts-Exact left (attempt + 1) u free h) e stored)

  -- For a provider that is stored as in the record `r` but for the times of its requests, which are
  -- not later than now: all its attempts make at most one call each and are at most one more than
  -- `retries`. A response is the provider's answer to the last call, and the stored record then says
  -- healthy, one success more and no failure. Without a response the failure is in the stored record,
  -- and an error is raised only by a subscriber of its event. If the provider has no rate limit, each
  -- attempt is one call: either the response says which attempt was the first to be answered, and all
  -- before it failed, or all `retries` + 1 calls failed and the text of the last is in the record.
  pub try_attempts_lem :
      (s : Providers)
      → Stored r s
      → let done = try_attempts event_id handler_text invoke request r 1 (suc r.retries) s in
        Outcome event_id handler_text invoke request r s.calls 1 (suc r.retries) done.0 done.1
        × (((limit : RateLimitConfig) × (r.rate_limit ≡ some limit))
            ⊎ Exact s.calls 1 r.retries done.0 done.1)
  try_attempts_lem s stored = (
    attempts_lem event_id handler_text invoke request r r.retries 1 s stored,
    elim (Option-cases r.rate_limit) [
      | inl free ↦ inr (attempts-Exact r.retries 1 s free stored)
      | inr given ↦ inl given
    ],
  )
