-- ===== src/Batches/Plan.antt =====
-- How `create_plan` cuts the cues into batches.
use dub_manga_studio.Common.{
  ℕ, zero, suc, ◌+◌, ◌-◌, ◌*◌, ◌/◌, ◌≤◌, ◌<◌, min, ◌≡◌, refl, ◌∙◌, some, List, [], ◌∷◌, leb, length,
  Bool-cases, inl, inr, arith, subst,
}
use native.Mathlib.Nat.{suc-mul, add-mul, mul_comm, mul-le-mul_left, lt-div-mul-add}
use dub_manga_studio.Common.Exec.{ok, err}
use dub_manga_studio.Batches.{
  zero_division, Batch, PlanFile, Edition, batches_from, per_batch, create_plan,
}

-- The batches from number `num` on cover the cues from `lo` up to `n`: each begins where the one
-- before it ends, none is empty, and their numbers follow one another.
abbrev pub Covers : ℕ → ℕ → ℕ → List Batch → Type 0
Covers lo n num [] = lo ≡ n
Covers lo n num (b ∷ bs) =
    (b.batch ≡ num + 1)
    × (b.cue_lo ≡ lo)
    × (lo < b.cue_hi)
    × (b.cue_count ≡ b.cue_hi - lo)
    × Covers b.cue_hi n (num + 1) bs

next_mul : (b per : ℕ) → (b + 1) * per ≡ b * per + per
next_mul b per = add-mul b 1 per ∙ omega arith

batches_from-Covers :
    (per n b left : ℕ)
    → 1 ≤ per
    → n ≤ b * per + left * per
    → Covers (min (b * per) n) n b (batches_from per n b left)
unfolding batches_from
batches_from-Covers per n b zero h room = omega (arith, room)
batches_from-Covers per n b (suc left) h room = elim (Bool-cases (leb n (b * per))) [
  | inl t ↦ rw t (ground arith)
  | inr t ↦
      let further = next_mul b per in
      let shorter = suc-mul left per in
      let low : b * per < n = ground arith in
      rw t (
        refl,
        omega (arith, low),
        omega (arith, low, further, h),
        omega (arith, low, further, h),
        batches_from-Covers per n (b + 1) left h (omega (arith, room, further, shorter)),
      )
]

length-batches_from : (per n b left : ℕ) → length (batches_from per n b left) ≤ left
unfolding batches_from
length-batches_from per n b zero = omega arith
length-batches_from per n b (suc left) = ground (arith, length-batches_from per n (b + 1) left)

enough_room : (n m : ℕ) → n ≤ suc m * per_batch n (suc m)
enough_room n m =
    let total = n + suc m - 1 in
    let per = per_batch n (suc m) in
    let above = lt-div-mul-add {a = total} {b = suc m} (omega arith) in
    let scaled = mul-le-mul_left {m = total / suc m} {n = per} (suc m) (omega arith) in
    let swapped = mul_comm (total / suc m) (suc m) in omega (arith, above, scaled, swapped)

-- For at least one main batch, `create_plan` stores and returns a plan of at most that many
-- batches, which cover the cues from the first to the last: each begins where the one before it
-- ends, none is empty, each has its number and its count. For none it divides by zero, and the
-- edition stays as it is.
pub create_plan_lem :
    (now n m : ℕ) (e : Edition)
    → (create_plan now n 0 e ≡ (err zero_division, e))
      × ((plan : PlanFile) × (create_plan now n (suc m) e
            ≡ (ok plan, record e { plan = some plan }))
          × Covers 0 n 0 plan.batches
          × (length plan.batches ≤ suc m)
          × (plan.main_batches ≡ length plan.batches)
          × (plan.total_cues ≡ n))
unfolding create_plan
create_plan_lem now n m e =
    let batches : List Batch = batches_from (per_batch n (suc m)) n 0 (suc m) in
    let plan : PlanFile = record {
      created = now;
      main_batches = length batches;
      total_cues = n;
      batches = batches;
    } in
    let room = enough_room n m in
    let covers =
      batches_from-Covers (per_batch n (suc m)) n 0 (suc m) (omega arith) (omega (arith, room)) in
    (
      refl,
      (
        plan,
        refl,
        subst (λ lo. Covers lo n 0 batches) (omega arith) covers,
        length-batches_from (per_batch n (suc m)) n 0 (suc m),
        refl,
        refl,
      ),
    )
