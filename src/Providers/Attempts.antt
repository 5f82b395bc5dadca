-- ===== src/Providers/Attempts.antt =====
-- ProviderManager.execute: what all the attempts of one request with one provider come to.
use dub_manga_studio.Common.{
  List, ℕ, zero, suc, ◌+◌, ◌≤◌, ◌<◌, String, ◌≡◌, refl, subst, Bool, true, false, Option, none,
  some, inl, inr, ◌⊎◌, ltb, arith, All-map, Json, if◌then◌else◌,
}
use dub_manga_studio.Common.Exec.{
  Result, ok, err, pure, and_then, ◌>>=◌, ◌>>◌, and_then_rule, or_else_rule,
}
use dub_manga_studio.Common.Dict.{lookup, lookup-put_self}
use dub_manga_studio.Providers.{
  Providers, ProviderError, handler_error, ProviderRequest, ProviderResponse, ProviderOp, publish,
  apply_rate_limit, mark_success, mark_failure, failed, text_of,
}
use dub_manga_studio.Providers.Execution.{Invoke, call, current, sleep, backoff, try_attempts}
use dub_manga_studio.Providers.Record.{healthy, ProviderRecord}
use dub_manga_studio.Providers.Waits.{Stored, apply_rate_limit-Kept}

pub answers :
    (x : Result String Json) → ((v : Json) × (x ≡ ok v)) ⊎ ((text : String) × (x ≡ err text))
answers (ok v) = inl (v, refl)
answers (err text) = inr (text, refl)

module _ (event_id handler_text : String) (invoke : Invoke) (request : ProviderRequest)
    (r : ProviderRecord) where
  -- The response is the answer to the last of the calls, and the success is in the stored record.
  abbrev pub Answered : ℕ → ProviderResponse → Providers → Type 0
  Answered calls response t =
      (response.provider ≡ r.name)
      × ((n : ℕ) × (invoke r.name request n ≡ ok response.result) × (calls ≤ n) × (t.calls ≡ suc n))
      × ((ts : List ℕ) × (lookup r.name t.providers
            ≡ some (record r {
              request_times = ts;
              status = healthy;
              success_count = r.success_count + 1;
              failure_count = 0;
              cooldown_until = none;
              last_error = none;
            })))

  -- What one attempt comes to.
  abbrev Tried : ℕ → ℕ → Result ProviderError (Option ProviderResponse) → Providers → Type 0
  Tried calls attempt (ok (some response)) t =
      (response.attempts ≡ attempt) × Answered calls response t × (t.calls ≤ suc calls)
  Tried calls attempt (ok none) t = ⊥
  Tried calls attempt (err e) t = Stored r t × (calls ≤ t.calls) × (t.calls ≤ suc calls)

  -- The `try` of one attempt.
  abbrev pub body : ℕ → ProviderOp (Option ProviderResponse)
  body attempt = do
    stored ← current r.name
    apply_rate_limit event_id stored
    value ← call invoke request r.name
    mark_success r.name
    pure (some (record { provider = r.name; result = value; attempts = attempt }))

  body-Tried :
      (attempt : ℕ) (s : Providers)
      → Stored r s
      → Tried s.calls attempt (body attempt s).0 (body attempt s).1
  unfolding current call mark_success
  body-Tried attempt s (ts, found, past) =
      let x : ProviderRecord = record r { request_times = ts } in
      let kept = apply_rate_limit-Kept event_id r ts s past (ts, found, past) in
      let limited : Result ProviderError Unit × Providers = apply_rate_limit event_id x s in
      let t : Providers = limited.1 in
      rw (current, found)
        (and_then_rule (Tried s.calls attempt) limited.0 _ t
          (λ _ _. elim (answers (invoke r.name request t.calls)) [
            | inr (text, e) ↦ rw (call, e) (kept.0, omega (arith, kept.1), omega (arith, kept.1))
            | inl (v, e) ↦
                rw (call, e)
                  (let (later, stored, _) = kept.0 in
                    rw (mark_success, stored)
                      (
                        refl,
                        (
                          refl,
                          (t.calls, e, omega (arith, kept.1), omega arith),
                          (later, lookup-put_self r.name _ t.providers),
                        ),
                        omega (arith, kept.1),
                      ))
          ])
          (λ _ _. (kept.0, omega (arith, kept.1), omega (arith, kept.1))))

  -- The failure is in the stored record, with its text and the time.
  abbrev pub Marked : String → Providers → Type 0
  Marked text t =
      (ts : List ℕ) × (lookup r.name t.providers
        ≡ some (failed t.clock text (record r { request_times = ts })))

  -- What the attempts from `attempt` on come to, where `left` are left.
  abbrev pub Outcome :
      ℕ → ℕ → ℕ → Result ProviderError (Option ProviderResponse) → Providers → Type 0
  Outcome calls attempt left (ok (some response)) t =
      (attempt ≤ response.attempts)
      × (response.attempts < attempt + left)
      × Answered calls response t
      × (t.calls + attempt ≤ calls + suc response.attempts)
  Outcome calls attempt left (ok none) t =
      ((text : String) × Marked text t) × (t.calls ≤ calls + left)
  Outcome calls attempt left (err e) t =
      (e ≡ handler_error) × ((text : String) × Marked text t) × (t.calls ≤ calls + left)

  told :
      (calls attempt left : ℕ) (text : String) (b : Bool) (t : Providers)
      → Marked text t
      → t.calls ≤ calls + left
      → let done = and_then (if b then err handler_error else ok tt) (λ _. pure none) t in
        Outcome calls attempt left done.0 done.1
  told calls attempt left text true t marked few = (refl, (text, marked), few)
  told calls attempt left text false t marked few = ((text, marked), few)

  gives_up :
      (calls attempt left : ℕ) (text : String) (t : Providers)
      → Stored r t
      → t.calls ≤ calls + left
      → let done =
          and_then
            (mark_failure event_id r.name text t).0
            (λ _. pure none)
            (mark_failure event_id r.name text t).1 in
        Outcome calls attempt left done.0 done.1
  unfolding mark_failure publish
  gives_up calls attempt left text t (ts, found, past) few =
      rw (mark_failure, found)
        (told calls attempt left text _ _
          (
            ts,
            lookup-put_self r.name (failed t.clock text (record r { request_times = ts }))
                t.providers,
          )
          few)

  answered :
      (left attempt : ℕ) (s : Providers) (a : Option ProviderResponse) (t : Providers)
      → Tried s.calls attempt (ok a) t
      → Outcome s.calls attempt (suc left) (ok a) t
  answered left attempt s none t h = absurd h
  answered left attempt s (some response) t (same, found, few) =
      (omega (arith, same), omega (arith, same), found, omega (arith, same, few))

  -- What the attempts after this one come to is what those from this one on do.
  later :
      (left attempt calls between : ℕ) (x : Result ProviderError (Option ProviderResponse))
      (u : Providers)
      → calls ≤ between
      → between ≤ suc calls
      → Outcome between (attempt + 1) (suc left) x u
      → Outcome calls attempt (suc (suc left)) x u
  later left attempt calls between (ok none) u low high (marked, few) =
      (marked, omega (arith, high, few))
  later left attempt calls between (err e) u low high (raised, marked, few) =
      (raised, marked, omega (arith, high, few))
  later left attempt calls between (ok (some response)) u low high
        (first, last, (of, (n, given, after, count), good), few) =
      (
        omega (arith, first),
        omega (arith, last),
        (of, (n, given, omega (arith, low, after), count), good),
        omega (arith, few, high),
      )

  pub attempts_lem :
      (left attempt : ℕ) (s : Providers)
      → Stored r s
      → let done = try_attempts event_id handler_text invoke request r attempt (suc left) s in
        Outcome s.calls attempt (suc left) done.0 done.1
  unfolding try_attempts sleep
  attempts_lem zero attempt s stored =
      let done = body attempt s in
      let tried : Tried s.calls attempt done.0 done.1 = body-Tried attempt s stored in
      or_else_rule (Outcome s.calls attempt 1) done.0 _ done.1
        (λ a p. answered 0 attempt s a done.1 (subst (λ x. Tried s.calls attempt x done.1) p tried))
        (λ e p.
          let (here, low, high) : Tried s.calls attempt (err e) done.1 =
            subst (λ x. Tried s.calls attempt x done.1) p tried in
          gives_up s.calls attempt 1 (text_of handler_text e) done.1 here (omega (arith, high)))
  attempts_lem (suc left) attempt s stored =
      let done = body attempt s in
      let tried : Tried s.calls attempt done.0 done.1 = body-Tried attempt s stored in
      or_else_rule (Outcome s.calls attempt (suc (suc left))) done.0 _ done.1
        (λ a p.
          answered (suc left) attempt s a done.1
            (subst (λ x. Tried s.calls attempt x done.1) p tried))
        (λ e p.
          let ((ts, found, past), low, high) : Tried s.calls attempt (err e) done.1 =
            subst (λ x. Tried s.calls attempt x done.1) p tried in
          let more : ltb 0 (suc left) ≡ true = ground arith in
          rw more (
            later left attempt s.calls done.1.calls _ _ low high (
              attempts_lem left (attempt + 1)
                (record done.1 { clock = done.1.clock + backoff r attempt })
                (ts, found, All-map (λ t k. omega (arith, k)) ts past))))
