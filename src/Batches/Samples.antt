-- ===== src/Batches/Samples.antt =====
-- Small inputs, tests, and the properties at them.
use dub_manga_studio.Common.{
  ℕ, ◌≤◌, ◌≡◌, refl, ◌&&◌, Option, none, some, List, [], ◌∷◌, map, ◌==◌, length, keep, sort_by,
  prefixed, if◌then◌else◌,
}
use dub_manga_studio.Common.Exec.{ok, err}
use dub_manga_studio.Batches.{
  Batch, PlanFile, Edition, zero_division, batches_from, create_plan, write_version,
  save_batch_version, load_batch_version, mark, mark_later_needs_context, active_lines,
  assemble_from, assemble_adaptation, join_lines, active_of, text_of, get_batch_text,
}
use dub_manga_studio.Batches.Plan.{Covers, create_plan_lem}
use dub_manga_studio.Batches.Versions.{IsNumbered, new_version, save_batch_version_lem}

program : Unit {0}
unfolding keep sort_by prefixed batches_from create_plan write_version save_batch_version
    load_batch_version mark mark_later_needs_context active_lines assemble_from assemble_adaptation
    join_lines active_of text_of get_batch_text
program = tt

abbrev new_edition : Edition
new_edition = record { plan = none; versions = [] }

-- Seven cues in three batches of three, three and one.
abbrev planned : Edition
planned = (create_plan 10 7 3 new_edition).1

abbrev first : Edition
first = (save_batch_version 11 1 ("a" ∷ "b" ∷ []) "p" "m" planned).1

abbrev second : Edition
second = (save_batch_version 12 3 ("c" ∷ []) "p" "m" first).1

abbrev activate : ℕ → Batch → Batch
activate ver b = record b { active_version = ver; status = "Done" }

abbrev ready : Edition
ready = mark 3 (activate 1) (mark 1 (activate 1) second)

abbrev bounds : Option PlanFile → List (ℕ × ℕ)
bounds none = []
bounds (some plan) = map (λ (b : Batch). (b.cue_lo, b.cue_hi)) plan.batches

plan_test :
    (bounds planned.plan ≡ (0, 3) ∷ (3, 6) ∷ (6, 7) ∷ [])
    × (assemble_adaptation ready ≡ "a" ∷ "b" ∷ "c" ∷ [])
    × (get_batch_text 1 none ready ≡ "a\nb")
    × (get_batch_text 2 none ready ≡ "")
    × ((save_batch_version 13 1 [] "p" "m" ready).0 ≡ 2)
unfolding program
plan_test = (refl, refl, refl, refl, refl)

create_plan_lem_example :
    (create_plan 10 7 0 new_edition ≡ (err zero_division, new_edition))
    × ((plan : PlanFile) × (create_plan 10 7 3 new_edition
          ≡ (ok plan, record new_edition { plan = some plan }))
        × Covers 0 7 0 plan.batches
        × (length plan.batches ≤ 3)
        × (plan.main_batches ≡ length plan.batches)
        × (plan.total_cues ≡ 7))
create_plan_lem_example = create_plan_lem 10 7 2 new_edition

first-IsNumbered : IsNumbered first.versions
unfolding program
first-IsNumbered = (save_batch_version_lem 11 1 ("a" ∷ "b" ∷ []) "p" "m" planned tt).1

save_batch_version_lem_example :
    let (ver, after) = save_batch_version 12 3 ("c" ∷ []) "p" "m" first in
    (load_batch_version 3 ver first.versions ≡ none)
    × IsNumbered after.versions
    × ((b n : ℕ)
        → load_batch_version b n after.versions ≡ (
            if 3 == b && ver == n
            then some (new_version 12 3 ("c" ∷ []) "p" "m" first.versions)
            else load_batch_version b n first.versions))
save_batch_version_lem_example =
    save_batch_version_lem 12 3 ("c" ∷ []) "p" "m" first first-IsNumbered
