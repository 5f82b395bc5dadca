-- ===== src/Providers/Failures.antt =====
-- ProviderManager._mark_failure: how long a provider that failed is not chosen.
use dub_manga_studio.Common.{
  ℕ, ◌+◌, ◌*◌, ◌≤◌, ◌<◌, max, String, ◌≡◌, true, false, some, inl, inr, Bool-cases, arith, leb,
}
use dub_manga_studio.Common.Dict.{lookup, lookup-put_self}
use dub_manga_studio.Providers.{Providers, failed, mark_failure, publish}
use dub_manga_studio.Providers.Record.{ProviderRecord}
use dub_manga_studio.Providers.Choice.{available}

cooling_down :
    (now later : ℕ) (error : String) (r : ProviderRecord)
    → later < now + r.cooldown_ms
    → available later (failed now error r) ≡ false
unfolding failed
cooling_down now later error r h =
    elim (Bool-cases (leb r.circuit_failure_threshold (r.failure_count + 1))) [
      | inl t ↦ rw (failed, t) (ground (arith, h))
      | inr t ↦ rw (failed, t) (ground (arith, h))
    ]

circuit_open :
    (now later : ℕ) (error : String) (r : ProviderRecord)
    → r.circuit_failure_threshold ≤ r.failure_count + 1
    → later < now + max (r.cooldown_ms * 2) 60_000
    → available later (failed now error r) ≡ false
unfolding failed
circuit_open now later error r many h =
    let t : leb r.circuit_failure_threshold (r.failure_count + 1) ≡ true = ground (arith, many) in
    rw (failed, t) (ground (arith, h))

-- A failure of a registered provider is stored, and the stored record is not available before its
-- cooldown is over; where its failures in a row reach the threshold, not before twice the cooldown,
-- and at least a minute, is over.
pub mark_failure_lem :
    (event_id name error : String) (s : Providers) (r : ProviderRecord)
    → lookup name s.providers ≡ some r
    → (lookup name (mark_failure event_id name error s).1.providers ≡ some (failed s.clock error r))
      × ((later : ℕ)
          → later < s.clock + r.cooldown_ms
          → available later (failed s.clock error r) ≡ false)
      × ((later : ℕ)
          → r.circuit_failure_threshold ≤ r.failure_count + 1
          → later < s.clock + max (r.cooldown_ms * 2) 60_000
          → available later (failed s.clock error r) ≡ false)
unfolding mark_failure publish
mark_failure_lem event_id name error s r found = (
  rw (mark_failure, found) (lookup-put_self name (failed s.clock error r) s.providers),
  (λ later h. cooling_down s.clock later error r h),
  (λ later many h. circuit_open s.clock later error r many h),
)
