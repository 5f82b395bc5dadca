-- ===== src/Providers/Record.antt =====
-- _ProviderRecord of services/provider_manager.py: what the manager keeps of a provider, and
-- whether it may be chosen.
use dub_manga_studio.Common.{
  ℕ, ◌+◌, String, Bool, true, false, ◌&&◌, not, ℤ, leb_ℤ, Option, none, some, List, ltb, leb,
  leb_str, length, keep, if◌then◌else◌,
}

pub data ProviderHealth : Type 0 where
  healthy degraded unhealthy cooldown : ProviderHealth

abbrev pub status_text : ProviderHealth → String
status_text healthy = "healthy"
status_text degraded = "degraded"
status_text unhealthy = "unhealthy"
status_text cooldown = "cooldown"

pub record RateLimitConfig : Type 0 where
  pub max_requests : ℕ
  pub window_ms : ℕ

pub record ProviderRecord : Type 0 where
  pub name : String
  pub priority : ℤ
  pub retries : ℕ
  pub cooldown_ms : ℕ
  pub rate_limit : Option RateLimitConfig
  pub status : ProviderHealth
  pub failure_count : ℕ
  pub success_count : ℕ
  pub cooldown_until : Option ℕ
  pub circuit_open_until : Option ℕ
  pub circuit_failure_threshold : ℕ
  pub timeout_ms : ℕ
  pub backoff_ms : ℕ
  pub request_times : List ℕ
  pub last_health_check : Option ℕ
  pub last_error : Option String

-- `until and until > now`
abbrev pub is_open : ℕ → Option ℕ → Bool
is_open now none = false
is_open now (some t) = ltb now t

-- `until and until <= now`
abbrev pub is_over : ℕ → Option ℕ → Bool
is_over now none = false
is_over now (some t) = leb t now

abbrev pub is_absent : Option ℕ → Bool
is_absent none = true
is_absent (some _) = false

-- status in {UNHEALTHY, COOLDOWN}
abbrev pub is_down : ProviderHealth → Bool
is_down unhealthy = true
is_down cooldown = true
is_down _ = false

-- [ts for ts in request_times if ts > now - window], without the subtraction
unfoldable pub recent : ℕ → RateLimitConfig → List ℕ → List ℕ
recent now limit times = keep (λ t. ltb now (t + limit.window_ms)) times

-- _rate_limit_exhausted(record, now)
unfoldable pub rate_limit_exhausted : ℕ → ProviderRecord → Bool
rate_limit_exhausted now r = elim r.rate_limit [
  | none ↦ false
  | some limit ↦ leb limit.max_requests (length (recent now limit r.request_times))
]

-- The body of the loop of `choose_provider`: the record, and whether it is a candidate.
unfoldable pub settle : ℕ → ProviderRecord → ProviderRecord × Bool
settle now r =
    if is_open now r.circuit_open_until
    then (record r { status = unhealthy }, false)
    else if is_open now r.cooldown_until
    then (record r { status = cooldown }, false)
    else if is_down r.status
    then (if is_over now r.cooldown_until && not (is_open now r.circuit_open_until)
        then (record r { status = degraded }, not (rate_limit_exhausted now r))
        else if is_absent r.cooldown_until && not (is_open now r.circuit_open_until)
        then (record r { status = degraded }, not (rate_limit_exhausted now r))
        else (r, false))
    else (r, not (rate_limit_exhausted now r))

-- The order of the key (priority, failure_count, provider.name).
unfoldable pub comes_first : ProviderRecord → ProviderRecord → Bool
comes_first p r =
    if leb_ℤ p.priority r.priority
    then (if leb_ℤ r.priority p.priority
        then (if ltb p.failure_count r.failure_count
            then true
            else if ltb r.failure_count p.failure_count
            then false
            else leb_str p.name r.name)
        else true)
    else false
