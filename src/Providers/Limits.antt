-- ===== src/Providers/Limits.antt =====
-- ProviderManager._apply_rate_limit: it waits until the window has room.
use dub_manga_studio.Common.{
  ◌∙◌, ap, ℕ, zero, suc, ◌+◌, ◌-◌, ◌≤◌, ◌<◌, min, String, ◌≡◌, refl, sym, Bool, true, false, none,
  some, List, [], ◌∷◌, ◌++◌, inl, inr, ◌⊎◌, ltb, Bool-cases, List-cases, arith, All, Any, All-map,
  All-keep, All-of-Any, keep, length, length-keep-le, Json, object, field, str, int, pos, no_fields,
  subst,
}
use dub_manga_studio.Common.Exec.{Result, ok, err}
use dub_manga_studio.Common.Dict.{lookup, put, lookup-put_self}
use dub_manga_studio.Events.{Event, provider_rate_limited, EventType, EventBus, publish_event}
use dub_manga_studio.Providers.{
  Providers, ProviderError, key_error, value_error, handler_error, no_provider, loop_unfinished,
  provider_error, publish, earliest, rate_limit_loop, apply_rate_limit,
}
use dub_manga_studio.Providers.Record.{ProviderRecord, RateLimitConfig, recent}

earliest-Any : (t : ℕ) (ts : List ℕ) → Any (λ x. x ≡ earliest t ts) (t ∷ ts)
earliest-Any t [] = inl refl
earliest-Any t (u ∷ us) = elim (Bool-cases (ltb (earliest u us) t)) [
  | inl e ↦
      let later : min t (earliest u us) ≡ earliest u us = ground arith in
      inr (subst (λ m. Any (λ x. x ≡ m) (u ∷ us)) (sym later) (earliest-Any u us))
  | inr e ↦ inl (ground arith)
]

-- An entry that fails the test makes the list shorter.
length-keep-lt :
    (p : ℕ → Bool) (m : ℕ) (ts : List ℕ)
    → Any (λ x. x ≡ m) ts
    → p m ≡ false
    → length (keep p ts) < length ts
unfolding keep
length-keep-lt p m [] a e = absurd a
length-keep-lt p m (t ∷ ts) (inl same) e =
    let f : p t ≡ false = rw same e in let less = length-keep-le p ts in rw f (omega (arith, less))
length-keep-lt p m (t ∷ ts) (inr a) e =
    let rest = length-keep-lt p m ts a e in
    elim (Bool-cases (p t)) [
      | inl f ↦ rw f (omega (arith, rest))
      | inr f ↦ rw f (omega (arith, rest))
    ]

-- An event is published, or a handler raises; the bus changes and nothing else.
pub publish_cases :
    (event_id : String) (type : EventType) (payload : Json) (s : Providers)
    → (bus : EventBus) × ((publish event_id type payload s ≡ (ok tt, record s { bus = bus }))
        ⊎ (publish event_id type payload s ≡ (err handler_error, record s { bus = bus })))
unfolding publish
publish_cases event_id type payload s =
    let event : Event = record {
      id = event_id;
      type = type;
      source = "ProviderManager";
      payload = payload;
      correlation_id = none;
      created_at = s.clock;
    } in
    (
      (publish_event event s.bus).0,
      elim (Bool-cases (publish_event event s.bus).1) [
        | inl e ↦ inr (rw e refl)
        | inr e ↦ inl (rw e refl)
      ],
    )

-- The request is counted: the stored record of the provider has the earlier requests that are in the
-- window still, and this one, which are no more than the limit. Or a handler raised, or the limit is
-- zero.
abbrev pub Admitted :
    String → RateLimitConfig → ProviderRecord → Result ProviderError Unit × Providers → Type 0
Admitted name limit r (ok _, s) =
    (lookup name s.providers
      ≡ some (record r { request_times = recent s.clock limit r.request_times ++ s.clock ∷ [] }))
    × (suc (length (recent s.clock limit r.request_times)) ≤ limit.max_requests)
Admitted name limit r (err handler_error, s) = Unit
Admitted name limit r (err value_error, s) = limit.max_requests ≡ 0
Admitted name limit r (err key_error, s) = ⊥
Admitted name limit r (err no_provider, s) = ⊥
Admitted name limit r (err loop_unfinished, s) = ⊥
Admitted name limit r (err (provider_error _), s) = ⊥

-- What was in the window is in it later, or has left it.
recent-recent :
    (now later : ℕ) (limit : RateLimitConfig) (ts : List ℕ)
    → now ≤ later
    → recent later limit (recent now limit ts) ≡ recent later limit ts
unfolding recent keep
recent-recent now later limit [] h = refl
recent-recent now later limit (t ∷ ts) h = elim (Bool-cases (ltb now (t + limit.window_ms))) [
  | inl e ↦ elim (Bool-cases (ltb later (t + limit.window_ms))) [
    | inl f ↦ rw e (rw f (ap (λ l. t ∷ l) (recent-recent now later limit ts h)))
    | inr f ↦ rw e (rw f (recent-recent now later limit ts h))
  ]
  | inr e ↦
      let f : ltb later (t + limit.window_ms) ≡ false = ground (arith, e, h) in
      rw e (rw f (recent-recent now later limit ts h))
]

length-recent_le :
    (now : ℕ) (limit : RateLimitConfig) (ts : List ℕ) → length (recent now limit ts) ≤ length ts
unfolding recent
length-recent_le now limit ts = length-keep-le (λ t. ltb now (t + limit.window_ms)) ts

-- After the wait the earliest request has left the window.
length-recent_lt :
    (now t : ℕ) (ts : List ℕ) (limit : RateLimitConfig)
    → All (λ x. (x ≤ now) × (ltb now (x + limit.window_ms) ≡ true)) (t ∷ ts)
    → length (recent (now + (limit.window_ms - (now - earliest t ts))) limit (t ∷ ts))
      < length (t ∷ ts)
unfolding recent
length-recent_lt now t ts limit h =
    let (m, known, same) = All-of-Any (t ∷ ts) h (earliest-Any t ts) in
    let past : earliest t ts ≤ now = rw same at known.0 in
    let inside : ltb now (earliest t ts + limit.window_ms) ≡ true = rw same at known.1 in
    length-keep-lt
      (λ x. ltb (now + (limit.window_ms - (now - earliest t ts))) (x + limit.window_ms))
      (earliest t ts) (t ∷ ts) (earliest-Any t ts) (ground (arith, past, inside))

pub recent_known :
    (now : ℕ) (limit : RateLimitConfig) (ts : List ℕ)
    → All (λ t. t ≤ now) ts
    → All (λ x. (x ≤ now) × (ltb now (x + limit.window_ms) ≡ true)) (recent now limit ts)
unfolding recent
recent_known now limit ts h = All-keep (λ t. t ≤ now) (λ t. ltb now (t + limit.window_ms)) ts h

rate_limit_loop-Admitted :
    (fuel : ℕ) (event_id name : String) (limit : RateLimitConfig) (base : ProviderRecord)
    (known_times : List ℕ) (s : Providers)
    → ((later : ℕ)
        → s.clock ≤ later
        → recent later limit known_times ≡ recent later limit base.request_times)
    → All (λ t. t ≤ s.clock) known_times
    → length (recent s.clock limit known_times) < fuel
    → Admitted name limit base
        (rate_limit_loop fuel event_id name limit (record base { request_times = known_times }) s)
unfolding rate_limit_loop
rate_limit_loop-Admitted zero event_id name limit base known_times s same past h =
    absurd (omega (arith, h))
rate_limit_loop-Admitted (suc fuel) event_id name limit base known_times s same past h =
    let times : List ℕ = recent s.clock limit known_times in
    let here = same s.clock (omega arith) in
    elim (Bool-cases (ltb (length times) limit.max_requests)) [
      | inl e ↦
          rw (rate_limit_loop, e)
            (
              lookup-put_self name _ s.providers
                  ∙ ap (λ l. some (record base { request_times = l ++ s.clock ∷ [] })) here,
              subst (λ l. suc (length l) ≤ limit.max_requests) here (ground (arith, e)),
            )
      | inr e ↦ elim (List-cases times) [
        | inl n ↦ rw e (rw n (let none_in : length times ≡ 0 = rw n in ground (arith, e, none_in)))
        | inr (t, ts, n) ↦
            let wait : ℕ = limit.window_ms - (s.clock - earliest t ts) in
            let held : ProviderRecord = record base { request_times = times } in
            let held_state : Providers = record s { providers = put name held s.providers } in
            let known = recent_known s.clock limit known_times past in
            let (bus', done) =
              publish_cases event_id provider_rate_limited
                (object (field "provider" (str name) (field "wait_ms" (int (pos wait)) no_fields)))
                held_state in
            let less =
              subst (λ l. length (recent (s.clock + wait) limit l) < length l) (sym n)
                (length-recent_lt s.clock t ts limit (rw n at known)) in
            rw e (
              rw n (elim done [
                | inl run ↦ rw run (
                    rate_limit_loop-Admitted fuel event_id name limit base times
                      (record held_state { bus = bus'; clock = s.clock + wait })
                      (λ c le.
                        recent-recent s.clock c limit known_times (omega (arith, le))
                        ∙ same c (omega (arith, le)))
                      (All-map (λ x k. omega (arith, k.0)) times known) (omega (arith, less, h)))
                | inr run ↦ rw run tt
              ]))
      ]
    ]

-- For a provider with a rate limit whose requests lie in the past, `_apply_rate_limit` ends. The
-- stored record is then as it was, but that its requests are those that are in the window still, and
-- this one, which is counted with the time at which the wait is over; they are no more than the
-- limit. It raises only where an event handler does, or where the limit is zero.
pub apply_rate_limit_lem :
    (event_id : String) (limit : RateLimitConfig) (r : ProviderRecord) (s : Providers)
    → r.rate_limit ≡ some limit
    → All (λ t. t ≤ s.clock) r.request_times
    → Admitted r.name limit r (apply_rate_limit event_id r s)
unfolding apply_rate_limit
apply_rate_limit_lem event_id limit r s e past =
    let few = length-recent_le s.clock limit r.request_times in
    let loop = rate_limit_loop (suc (length r.request_times)) event_id r.name limit r s in
    let run : apply_rate_limit event_id r s ≡ loop =
      ap
        (λ o. elim o as (λ _. Result ProviderError Unit × Providers) [
          | none ↦ (ok tt, s)
          | some l ↦ rate_limit_loop (suc (length r.request_times)) event_id r.name l r s
        ])
        e in
    subst (λ x. Admitted r.name limit r x) (sym run)
      (rate_limit_loop-Admitted (suc (length r.request_times)) event_id r.name limit r
        r.request_times s (λ c _. refl) past (omega (arith, few)))
