-- ===== src/Providers/Waits.antt =====
-- What a wait for the rate limit leaves of a provider's record.
use dub_manga_studio.Common.{
  none, ◌∷◌, [], Option, ℕ, zero, suc, ◌+◌, ◌-◌, ◌≤◌, String, ◌≡◌, refl, some, List, [], ◌∷◌, ◌++◌,
  inl, inr, ltb, Bool-cases, List-cases, arith, All, All-map, length, object, field, str, int, pos,
  no_fields,
}
use dub_manga_studio.Common.Exec.{Result, ok}
use dub_manga_studio.Common.Dict.{lookup, put, lookup-put_self}
use dub_manga_studio.Events.{provider_rate_limited}
use dub_manga_studio.Providers.{
  ProviderError, Providers, earliest, rate_limit_loop, apply_rate_limit,
}
use dub_manga_studio.Providers.Record.{ProviderRecord, RateLimitConfig, recent}
use dub_manga_studio.Providers.Limits.{recent_known, publish_cases}

-- The provider is registered under its name, with its requests in the past and all else as it is in
-- the record `r`.
abbrev pub Stored : ProviderRecord → Providers → Type 0
Stored r s =
    (ts : List ℕ) × (lookup r.name s.providers ≡ some (record r { request_times = ts }))
    × All (λ t. t ≤ s.clock) ts

-- What a wait for the rate limit keeps.
abbrev pub Kept : ProviderRecord → ℕ → Providers → Type 0
Kept r calls t = Stored r t × (t.calls ≡ calls)

All-snoc : (P : ℕ → Type 0) (ts : List ℕ) (t : ℕ) → All P ts → P t → All P (ts ++ t ∷ [])
All-snoc P [] t h p = (p, tt)
All-snoc P (u ∷ us) t h p = (h.0, All-snoc P us t h.1 p)

recent-Past :
    (now : ℕ) (limit : RateLimitConfig) (ts : List ℕ)
    → All (λ t. t ≤ now) ts
    → All (λ t. t ≤ now) (recent now limit ts)
recent-Past now limit ts h =
    All-map (λ t k. k.0) (recent now limit ts) (recent_known now limit ts h)

rate_limit_loop-Kept :
    (fuel : ℕ) (event_id : String) (limit : RateLimitConfig) (r : ProviderRecord) (ts : List ℕ)
    (s : Providers)
    → All (λ t. t ≤ s.clock) ts
    → Stored r s
    → Kept r s.calls
        (rate_limit_loop fuel event_id r.name limit (record r { request_times = ts }) s).1
unfolding rate_limit_loop
rate_limit_loop-Kept zero event_id limit r ts s past stored = (stored, refl)
rate_limit_loop-Kept (suc fuel) event_id limit r ts s past stored =
    let times : List ℕ = recent s.clock limit ts in
    let times_past = recent-Past s.clock limit ts past in
    elim (Bool-cases (ltb (length times) limit.max_requests)) [
      | inl e ↦
          rw (rate_limit_loop, e)
            (
              (
                times ++ s.clock ∷ [],
                lookup-put_self r.name _ s.providers,
                All-snoc (λ t. t ≤ s.clock) times s.clock times_past (omega arith),
              ),
              refl,
            )
      | inr e ↦
          let held : ProviderRecord = record r { request_times = times } in
          let held_state : Providers = record s { providers = put r.name held s.providers } in
          let found = lookup-put_self r.name held s.providers in
          elim (List-cases times) [
            | inl n ↦ rw e (rw n ((times, found, times_past), refl))
            | inr (t, rest, n) ↦
                let wait : ℕ = limit.window_ms - (s.clock - earliest t rest) in
                let later : All (λ x. x ≤ s.clock + wait) times =
                  All-map (λ x k. omega (arith, k)) times times_past in
                let (bus', done) =
                  publish_cases event_id provider_rate_limited
                    (object
                      (field "provider" (str r.name) (field "wait_ms" (int (pos wait)) no_fields)))
                    held_state in
                rw e (
                  rw n (elim done [
                    | inl run ↦ rw run (
                        rate_limit_loop-Kept fuel event_id limit r times
                          (record held_state { bus = bus'; clock = s.clock + wait }) later
                          (times, found, later))
                    | inr run ↦ rw run ((times, found, times_past), refl)
                  ]))
          ]
    ]

pub apply_rate_limit-Kept :
    (event_id : String) (r : ProviderRecord) (ts : List ℕ) (s : Providers)
    → All (λ t. t ≤ s.clock) ts
    → Stored r s
    → Kept r s.calls (apply_rate_limit event_id (record r { request_times = ts }) s).1
unfolding apply_rate_limit
apply_rate_limit-Kept event_id r ts s past stored =
    limited (λ limit. rate_limit_loop-Kept (suc (length ts)) event_id limit r ts s past stored)
      r.rate_limit
  where
    limited :
        ((limit : RateLimitConfig)
          → Kept r s.calls
              (rate_limit_loop
                (suc (length ts))
                event_id
                r.name
                limit
                (record r { request_times = ts })
                s).1)
        → (o : Option RateLimitConfig)
        → Kept r s.calls
            (elim o as (λ _. Result ProviderError Unit × Providers) [
              | none ↦ (ok tt, s)
              | some limit ↦
                  rate_limit_loop
                    (suc (length ts))
                    event_id
                    r.name
                    limit
                    (record r { request_times = ts })
                    s
            ]).1
    limited f none = (stored, refl)
    limited f (some limit) = f limit
