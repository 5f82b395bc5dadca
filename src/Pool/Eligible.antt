-- ===== src/Pool/Eligible.antt =====
-- The workers that `_matches` and the check of the capacity let through.
use dub_manga_studio.Common.{
  ◌<◌, ◌↔◌, false, All-keep_inv, All-sort_by_inv, String, ◌≡◌, ◌≢◌, refl, ◌∙◌, true, Option, none,
  some, [], arith, eq_iff, All, All-map, All-both, All-keep, All-sort_by, subst,
}
use dub_manga_studio.Common.Dict.{lookup, values, All-values_inv, All-values}
use dub_manga_studio.Common.Dict.Entries.{All-lookup, lookup-each}
use dub_manga_studio.Pool.{WorkerPool, candidates}
use dub_manga_studio.Plugins.{Query, fits}
use dub_manga_studio.Plugins.Asks.{Asks}
use dub_manga_studio.Plugins.Find.{fits_lem}
use dub_manga_studio.Pool.Worker.{
  WorkerStatus, registered, healthy, degraded, unhealthy, reserved, draining, disconnected, is_out,
  meets_model, WorkerDescriptor, WorkerMatchCriteria, matches, less_loaded, has_capacity,
}
use dub_manga_studio.Pool.Changes.{Inv}

-- A worker that `reserve_worker` may take: stored, matched, and below its limit.
abbrev pub IsCandidate :
    (String → String) → WorkerMatchCriteria → WorkerPool → WorkerDescriptor → Type 0
IsCandidate lower criteria p w =
    (lookup w.worker_id p.workers ≡ some w)
    × (matches lower criteria w ≡ true)
    × (has_capacity w ≡ true)

pub candidates-IsCandidate :
    (lower : String → String) (criteria : WorkerMatchCriteria) (p : WorkerPool)
    → Inv p
    → All (IsCandidate lower criteria p) (candidates lower criteria p)
unfolding candidates
candidates-IsCandidate lower criteria p inv =
    let stored =
      All-map (λ e h. subst (λ k. lookup k p.workers ≡ some e.1) h.1 h.0) p.workers
        (All-both _ _ p.workers (lookup-each p.workers inv.distinct) inv.names) in
    All-sort_by less_loaded _ _ (
      All-map (λ w h. (h.0.0, h.0.1, h.1)) _
        (All-keep _ (λ (w : WorkerDescriptor). has_capacity w) _
          (All-keep (λ w. lookup w.worker_id p.workers ≡ some w) (matches lower criteria)
            (values p.workers)
            (All-values (λ w. lookup w.worker_id p.workers ≡ some w) p.workers stored))))

-- A worker that may be taken, said without the tests of the code: it is stored, it is not unhealthy,
-- disconnected or draining, it holds fewer reservations than its limit, it is for the model that is
-- asked for, if one is, and its model has what the query asks for.
pub record IsEligible (lower : String → String) (criteria : WorkerMatchCriteria) (p : WorkerPool)
    (w : WorkerDescriptor) : Type 0 where
  pub stored : lookup w.worker_id p.workers ≡ some w
  pub healthy_enough : w.status ≢ unhealthy
  pub connected : w.status ≢ disconnected
  pub staying : w.status ≢ draining
  pub room : w.active_reservations < w.max_reservations
  pub for_model : (id : String) → criteria.model_id ≡ some id → w.capabilities.model_id ≡ id
  pub asked :
      Asks lower criteria.language criteria.supports_voice_clone criteria.supports_reference_audio
        criteria.supports_reference_text criteria.supports_streaming criteria.supports_emotions
        criteria.max_vram w.capabilities

is_out_lem :
    (status : WorkerStatus)
    → (is_out status ≡ false)
      ↔ ((status ≢ unhealthy) × (status ≢ disconnected) × (status ≢ draining))
is_out_lem unhealthy = ((λ h. absurd (cc)), (λ h. absurd (h.0 refl)))
is_out_lem disconnected = ((λ h. absurd (cc)), (λ h. absurd (h.1 refl)))
is_out_lem draining = ((λ h. absurd (cc)), (λ h. absurd (h.2 refl)))
is_out_lem registered = ((λ _. ((λ e. cc), (λ e. cc), (λ e. cc))), (λ _. refl))
is_out_lem healthy = ((λ _. ((λ e. cc), (λ e. cc), (λ e. cc))), (λ _. refl))
is_out_lem degraded = ((λ _. ((λ e. cc), (λ e. cc), (λ e. cc))), (λ _. refl))
is_out_lem reserved = ((λ _. ((λ e. cc), (λ e. cc), (λ e. cc))), (λ _. refl))

meets_model_lem :
    (wanted : Option String) (given : String)
    → (meets_model wanted given ≡ true) ↔ ((id : String) → wanted ≡ some id → given ≡ id)
meets_model_lem none given = ((λ _ id e. absurd (cc)), (λ _. refl))
meets_model_lem (some k) given = (
  (λ h id e. let same : k ≡ id = cc in (eq_iff given k).0 h ∙ same),
  (λ h. (eq_iff given k).1 (h k refl)),
)

-- The tests that the criteria share with a query of the registry.
abbrev pub query : WorkerMatchCriteria → Query
query criteria = record {
  language = criteria.language;
  voice_clone = criteria.supports_voice_clone;
  reference_audio = criteria.supports_reference_audio;
  reference_text = criteria.supports_reference_text;
  streaming = criteria.supports_streaming;
  emotions = criteria.supports_emotions;
  max_vram = criteria.max_vram;
}

matches_lem :
    (lower : String → String) (criteria : WorkerMatchCriteria) (w : WorkerDescriptor)
    → (matches lower criteria w ≡ true) ↔ (
        (is_out w.status ≡ false)
        × (meets_model criteria.model_id w.capabilities.model_id ≡ true)
        × (fits lower (query criteria) w.capabilities ≡ true))
unfolding matches fits
matches_lem lower criteria w = (
  (λ h. (ground (arith, h), ground (arith, h), ground (arith, h))),
  (λ h. ground (arith, h.0, h.1, h.2)),
)

pub eligible_lem :
    (lower : String → String) (criteria : WorkerMatchCriteria) (p : WorkerPool)
    (w : WorkerDescriptor)
    → IsCandidate lower criteria p w ↔ IsEligible lower criteria p w
eligible_lem lower criteria p w =
    let tests = matches_lem lower criteria w in
    let status = is_out_lem w.status in
    let model = meets_model_lem criteria.model_id w.capabilities.model_id in
    let caps = fits_lem lower (query criteria) w.capabilities in
    (
      (λ c.
          let (out, for_it, fit) = tests.0 c.1 in
          let (healthy_it, there, stays) = status.0 out in
          record {
            stored = c.0;
            healthy_enough = healthy_it;
            connected = there;
            staying = stays;
            room = ground (arith, c.2);
            for_model = model.0 for_it;
            asked = caps.0 fit;
          }),
      (λ e. (
        e.stored,
        tests.1 (
          status.1 (e.healthy_enough, e.connected, e.staying),
          model.1 e.for_model,
          caps.1 e.asked,
        ),
        (let r = e.room in ground (arith, r)),
      )),
    )

-- No worker that may be taken is left out.
pub candidates-empty :
    (lower : String → String) (criteria : WorkerMatchCriteria) (p : WorkerPool)
    (w : WorkerDescriptor)
    → candidates lower criteria p ≡ []
    → IsCandidate lower criteria p w
    → ⊥
unfolding candidates
candidates-empty lower criteria p w e c =
    let none_left : All (λ _. ⊥) (candidates lower criteria p) = rw e tt in
    let all =
      All-values_inv (λ x. matches lower criteria x ≡ true → has_capacity x ≡ true → ⊥) p.workers
        (All-keep_inv (λ x. has_capacity x ≡ true → ⊥) (matches lower criteria) (values p.workers)
          (All-keep_inv (λ _. ⊥) (λ (x : WorkerDescriptor). has_capacity x) _
            (All-sort_by_inv less_loaded (λ _. ⊥) _ none_left))) in
    All-lookup
      (λ (x : String × WorkerDescriptor).
        matches lower criteria x.1 ≡ true → has_capacity x.1 ≡ true → ⊥)
      w.worker_id w p.workers all c.0 c.1 c.2
