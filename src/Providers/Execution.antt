-- ===== src/Providers/Execution.antt =====
-- ProviderManager.execute: the attempts of one request with a provider, and the providers in turn.
use Prim.Native.Nat.{◌^◌}
use dub_manga_studio.Common.{
  ℕ, zero, suc, ◌+◌, ◌-◌, ◌*◌, min, String, Option, none, some, ltb, if◌then◌else◌, Json,
}
use dub_manga_studio.Common.Exec.{Result, ok, err, pure, raise, catch, ◌>>=◌, ◌>>◌}
use dub_manga_studio.Common.Dict.{lookup}
use dub_manga_studio.Providers.{
  ProviderRequest, ProviderResponse, ProviderOp, key_error, no_provider, loop_unfinished,
  provider_error, choose_provider, mark_success, mark_failure, apply_rate_limit, text_of,
}
use dub_manga_studio.Providers.Record.{ProviderRecord}

-- The answer of a provider to its `calls`-th call: a result, or what it raises (a timeout too).
abbrev pub Invoke : Type 0
Invoke = String → ProviderRequest → ℕ → Result String Json

abbrev pub result_of : Result String Json → ProviderOp Json
result_of (ok value) s = (ok value, s)
result_of (err text) s = (err (provider_error text), s)

unfoldable pub call : Invoke → ProviderRequest → String → ProviderOp Json
call invoke request name s =
    result_of (invoke name request s.calls) (record s { calls = s.calls + 1 })

-- The record that is stored under a name now.
unfoldable pub current : String → ProviderOp ProviderRecord
current name s = elim (lookup name s.providers) [ none ↦ (err key_error, s) | some r ↦ (ok r, s) ]

unfoldable pub sleep : ℕ → ProviderOp Unit
sleep time s = (ok tt, record s { clock = s.clock + time })

-- min(backoff * 2 ** (attempt - 1), 10.0) seconds
abbrev pub backoff : ProviderRecord → ℕ → ℕ
backoff r attempt = min (r.backoff_ms * 2 ^ (attempt - 1)) 10_000

-- The `for` loop of `execute` from an attempt on, with the number of attempts that are left; `none`
-- where the last one failed.
unfoldable pub try_attempts :
    String
    → String
    → Invoke
    → ProviderRequest
    → ProviderRecord
    → ℕ
    → ℕ
    → ProviderOp (Option ProviderResponse)
try_attempts event_id handler_text invoke request r attempt zero = pure none
try_attempts event_id handler_text invoke request r attempt (suc left) =
    let again = try_attempts event_id handler_text invoke request r (attempt + 1) left in
    catch
      (do
        stored ← current r.name
        apply_rate_limit event_id stored
        value ← call invoke request r.name
        mark_success r.name
        pure (some (record { provider = r.name; result = value; attempts = attempt })))
      (λ e.
        if ltb 0 left
        then (sleep (backoff r attempt) >> again)
        else (mark_failure event_id r.name (text_of handler_text e) >> pure none))

-- The `while` loop of `execute`, a bounded number of times.
unfoldable pub execute_loop :
    ℕ → String → String → Invoke → ProviderRequest → ProviderOp ProviderResponse
execute_loop zero event_id handler_text invoke request = raise loop_unfinished
execute_loop (suc fuel) event_id handler_text invoke request = do
  let again : ProviderOp ProviderResponse = execute_loop fuel event_id handler_text invoke request
  chosen ← choose_provider
  elim chosen [
    | none ↦ raise no_provider
    | some r ↦ try_attempts event_id handler_text invoke request r 1 (suc r.retries) >>= λ response.
        elim response [ none ↦ again | some found ↦ pure found ]
  ]
