-- ===== src/Providers/Samples.antt =====
-- Small inputs, tests, and the properties at them.
use dub_manga_studio.Common.{
  ◌+◌, ◌<◌, ◌≤◌, ◌*◌, max, arith, str_eq, if◌then◌else◌, ℕ, String, ◌≡◌, refl, true, false, ℤ, pos,
  Option, none, some, [], ◌∷◌, null, keep, sort_by, leb_str, All, Any, ◌⊎◌,
}
use dub_manga_studio.Common.Exec.{Result, ok, err}
use dub_manga_studio.Common.Dict.{lookup, put, remove, values}
use dub_manga_studio.Events.{EventBus, publish_event, deliver, bounded}
use dub_manga_studio.Providers.{
  Providers, ProviderRequest, ProviderResponse, ProviderError, loop_unfinished, publish,
  register_provider, settle_all, choose_provider, mark_success, failed, mark_failure,
  rate_limit_loop, apply_rate_limit,
}
use dub_manga_studio.Providers.Execution.{Invoke, call, current, sleep, try_attempts, execute_loop}
use dub_manga_studio.Providers.Record.{
  RateLimitConfig, healthy, ProviderRecord, recent, rate_limit_exhausted, settle, comes_first,
}
use dub_manga_studio.Providers.Failures.{mark_failure_lem}
use dub_manga_studio.Providers.Waits.{Stored}
use dub_manga_studio.Providers.Attempts.{Outcome}
use dub_manga_studio.Providers.Exact.{Exact, try_attempts_lem}
use dub_manga_studio.Providers.Limits.{Admitted, apply_rate_limit_lem}
use dub_manga_studio.Providers.Choice.{Earlier, OnlyStatus, available, choose_provider_lem}

abbrev provider : String → ℤ → ProviderRecord
provider name priority = record {
  name = name;
  priority = priority;
  retries = 1;
  cooldown_ms = 30_000;
  rate_limit = some (record { max_requests = 2; window_ms = 1_000 });
  status = healthy;
  failure_count = 0;
  success_count = 0;
  cooldown_until = none;
  circuit_open_until = none;
  circuit_failure_threshold = 3;
  timeout_ms = 120_000;
  backoff_ms = 500;
  request_times = [];
  last_health_check = none;
  last_error = none;
}

program : Unit {0}
unfolding lookup put remove values keep sort_by leb_str publish_event deliver bounded publish
    register_provider settle_all choose_provider mark_success failed mark_failure rate_limit_loop
    apply_rate_limit call current sleep try_attempts execute_loop recent rate_limit_exhausted settle
    comes_first
program = tt

abbrev bus : EventBus
bus = record {
  handlers = λ _. [];
  history = [];
  max_history = 100;
  raise_handler_errors = false;
  calls = [];
}

abbrev two : Providers
two =
    (register_provider "e" (provider "spare" (pos 200))
      (register_provider "e" (provider "main" (pos 100))
        (record { bus = bus; providers = []; clock = 0; calls = 0 })).1).1

abbrev request : ProviderRequest
request = record { operation = "translate"; payload = null }

abbrev only_spare : Invoke
only_spare name _ _ = if str_eq name "main" then err "down" else ok null

abbrev served_by : Result ProviderError ProviderResponse → Option (String × ℕ)
served_by (ok r) = some (r.provider, r.attempts)
served_by (err _) = none

-- Two attempts with a pause of half a second, then the other provider.
failover_test :
    (served_by (execute_loop 3 "e" "" only_spare request two).0 ≡ some ("spare", 1))
    × ((execute_loop 3 "e" "" only_spare request two).1.clock ≡ 500)
    × ((execute_loop 3 "e" "" only_spare request two).1.calls ≡ 3)
unfolding program
failover_test = (refl, refl, refl)

-- Both are down, and the attempts with one take longer than the other stays away: after a dozen
-- providers in turn there is still another to try.
abbrev slow : String → ℤ → ProviderRecord
slow name priority = record (provider name priority) {
  retries = 8;
  backoff_ms = 10_000;
  rate_limit = none;
}

abbrev all_down : Invoke
all_down _ _ _ = err "down"

abbrev both_slow : Providers
both_slow =
    (register_provider "e" (slow "spare" (pos 200))
      (register_provider "e" (slow "main" (pos 100))
        (record { bus = bus; providers = []; clock = 0; calls = 0 })).1).1

endless_test :
    ((execute_loop 12 "e" "" all_down request both_slow).0 ≡ err loop_unfinished)
    × ((execute_loop 12 "e" "" all_down request both_slow).1.calls ≡ 108)
unfolding program
endless_test = (refl, refl)

both_Stored : Stored (slow "main" (pos 100)) both_slow
unfolding program
both_Stored = ([], refl, tt)

try_attempts_lem_example :
    let done = try_attempts "e" "" all_down request (slow "main" (pos 100)) 1 9 both_slow in
    Outcome "e" "" all_down request (slow "main" (pos 100)) 0 1 9 done.0 done.1
    × (((limit : RateLimitConfig) × ((slow "main" (pos 100)).rate_limit ≡ some limit))
        ⊎ Exact "e" "" all_down request (slow "main" (pos 100)) 0 1 8 done.0 done.1)
unfolding program
try_attempts_lem_example =
    try_attempts_lem "e" "" all_down request (slow "main" (pos 100)) both_slow both_Stored

abbrev limited : Providers
limited = record two { clock = 1_700 }

choose_provider_lem_example :
    OnlyStatus limited.providers (choose_provider limited).1.providers
    × ((((choose_provider limited).0 ≡ ok none)
          × All (λ (e : String × ProviderRecord). available 1_700 e.1 ≡ false) limited.providers)
        ⊎ ((r : ProviderRecord) × ((choose_provider limited).0 ≡ ok (some r))
            × (available 1_700 r ≡ true)
            × Any (λ (e : String × ProviderRecord). e.1 ≡ r) (choose_provider limited).1.providers
            × All
                (λ (e : String × ProviderRecord). available 1_700 e.1 ≡ true → Earlier r e.1)
                limited.providers))
choose_provider_lem_example = choose_provider_lem limited

-- A provider that has been asked twice in the last second.
abbrev busy : ProviderRecord
busy = record (provider "main" (pos 100)) { request_times = 1_000 ∷ 1_500 ∷ [] }

-- The wait ends when the first request leaves the window.
waits_test : (apply_rate_limit "e" busy limited).1.clock ≡ 2_000
unfolding program
waits_test = refl

apply_rate_limit_lem_example :
    Admitted "main"
      (record { max_requests = 2; window_ms = 1_000 })
      busy
      (apply_rate_limit "e" busy limited)
apply_rate_limit_lem_example =
    apply_rate_limit_lem "e" (record { max_requests = 2; window_ms = 1_000 }) busy limited refl
      (omega arith, (omega arith, tt))

main_found : lookup "main" two.providers ≡ some (provider "main" (pos 100))
unfolding program
main_found = refl

mark_failure_lem_example :
    (lookup "main" (mark_failure "e" "main" "down" two).1.providers
      ≡ some (failed 0 "down" (provider "main" (pos 100))))
    × ((later : ℕ)
        → later < 0 + 30_000
        → available later (failed 0 "down" (provider "main" (pos 100))) ≡ false)
    × ((later : ℕ)
        → 3 ≤ 0 + 1
        → later < 0 + max (30_000 * 2) 60_000
        → available later (failed 0 "down" (provider "main" (pos 100))) ≡ false)
unfolding program
mark_failure_lem_example =
    mark_failure_lem "e" "main" "down" two (provider "main" (pos 100)) main_found
