-- ===== src/Batches.antt =====
-- src/chatterbox_manga_studio/adapt/batch_manager.py: the plan of a translation in batches of cues,
-- and the saved versions of each batch. The state is the folder of one edition (project and target
-- language); JSON files are read as what was written to them.
pub mod Plan
pub mod Versions
mod Samples
use dub_manga_studio.Common.{
  ℕ, zero, suc, ◌+◌, ◌-◌, ◌*◌, ◌/◌, min, max, String, Bool, true, false, ◌&&◌, Option, none, some,
  List, [], ◌∷◌, ◌++◌, map, ltb, leb, ◌==◌, length, keep, sort_by, str_eq, if◌then◌else◌, prefixed,
}
use dub_manga_studio.Common.Exec.{Result, ok, err}

pub record Batch : Type 0 where
  pub batch : ℕ
  pub cue_lo : ℕ
  pub cue_hi : ℕ
  pub cue_count : ℕ
  pub status : String
  pub active_version : ℕ
  pub provider : String
  pub model : String
  pub context_status : String
  pub error : String

pub record PlanFile : Type 0 where
  pub created : ℕ
  pub main_batches : ℕ
  pub total_cues : ℕ
  pub batches : List Batch

pub record Version : Type 0 where
  pub batch : ℕ
  pub version : ℕ
  pub provider : String
  pub model : String
  pub lines : List String
  pub ts : ℕ

-- `versions` holds the files b<batch>_v<version>.json.
pub record Edition : Type 0 where
  pub plan : Option PlanFile
  pub versions : List Version

pub data PlanError : Type 0 where
  zero_division : PlanError

-- The batch with the number b + 1.
abbrev pub new_batch : ℕ → ℕ → ℕ → Batch
new_batch b lo hi = record {
  batch = b + 1;
  cue_lo = lo;
  cue_hi = hi;
  cue_count = hi - lo;
  status = "Pending";
  active_version = 0;
  provider = "";
  model = "";
  context_status = "OK";
  error = "";
}

-- The loop of `create_plan` from `b` on, with the number of rounds that are left.
unfoldable pub batches_from : ℕ → ℕ → ℕ → ℕ → List Batch
batches_from per n b zero = []
batches_from per n b (suc left) =
    let rest = batches_from per n (b + 1) left in
    if leb n (b * per) then [] else new_batch b (b * per) (min ((b + 1) * per) n) ∷ rest

-- max(1, (n + main_batches - 1) // main_batches)
abbrev pub per_batch : ℕ → ℕ → ℕ
per_batch n main_batches = max 1 ((n + main_batches - 1) / main_batches)

-- create_plan(project_id, target, cues, main_batches), for `n` cues
unfoldable pub create_plan : ℕ → ℕ → ℕ → Edition → Result PlanError PlanFile × Edition
create_plan now n zero e = (err zero_division, e)
create_plan now n (suc m) e =
    let batches = batches_from (per_batch n (suc m)) n 0 (suc m) in
    let plan : PlanFile = record {
      created = now;
      main_batches = length batches;
      total_cues = n;
      batches = batches;
    } in
    (ok plan, record e { plan = some plan })

abbrev is_file : ℕ → ℕ → Version → Bool
is_file batch_no ver v = v.batch == batch_no && v.version == ver

abbrev pub of_batch : ℕ → Version → Bool
of_batch batch_no v = v.batch == batch_no

-- Writing a file: one of the same name is overwritten.
unfoldable pub write_version : Version → List Version → List Version
write_version v [] = v ∷ []
write_version v (w ∷ ws) =
    let rest = write_version v ws in if is_file v.batch v.version w then v ∷ ws else w ∷ rest

-- save_batch_version(project_id, target, batch_no, lines, provider, model)
unfoldable pub save_batch_version : ℕ → ℕ → List String → String → String → Edition → ℕ × Edition
save_batch_version now batch_no lines provider model e =
    let ver = length (keep (of_batch batch_no) e.versions) + 1 in
    (
      ver,
      record e {
        versions =
            write_version
              (record {
                batch = batch_no;
                version = ver;
                provider = provider;
                model = model;
                lines = lines;
                ts = now;
              })
              e.versions;
      },
    )

-- load_batch_version(project_id, target, batch_no, ver)
unfoldable pub load_batch_version : ℕ → ℕ → List Version → Option Version
load_batch_version batch_no ver [] = none
load_batch_version batch_no ver (v ∷ vs) =
    let rest = load_batch_version batch_no ver vs in if is_file batch_no ver v then some v else rest

-- mark(project_id, target, batch_no, **fields), where `change` is the update by the fields
unfoldable pub mark : ℕ → (Batch → Batch) → Edition → Edition
mark batch_no change e = elim e.plan [
  | none ↦ e
  | some plan ↦ record e {
    plan = some (record plan {
      batches = map (λ (b : Batch). if b.batch == batch_no then change b else b) plan.batches;
    });
  }
]

-- mark_later_needs_context(project_id, target, after_batch)
unfoldable pub mark_later_needs_context : ℕ → Edition → Edition
mark_later_needs_context after_batch e = elim e.plan [
  | none ↦ e
  | some plan ↦ record e {
    plan = some (record plan {
      batches =
          map
            (λ (b : Batch).
              if ltb after_batch b.batch && str_eq b.status "Done"
              then record b { context_status = "Needs Context Refresh" }
              else b)
            plan.batches;
    });
  }
]

-- The lines of the active version of a batch.
unfoldable pub active_lines : List Version → Batch → List String
active_lines versions b =
    if b.active_version == 0
    then []
    else elim (load_batch_version b.batch b.active_version versions) [
      | none ↦ []
      | some v ↦ v.lines
    ]

-- The loop of `assemble_adaptation`.
unfoldable pub assemble_from : List Version → List Batch → List String
assemble_from versions [] = []
assemble_from versions (b ∷ bs) = active_lines versions b ++ assemble_from versions bs

-- assemble_adaptation(project_id, target)
unfoldable pub assemble_adaptation : Edition → List String
assemble_adaptation e = elim e.plan [
  | none ↦ []
  | some plan ↦
      assemble_from e.versions (sort_by (λ (a b : Batch). leb a.batch b.batch) plan.batches)
]

-- "\n".join(lines)
unfoldable pub join_lines : List String → String
join_lines [] = ""
join_lines (l ∷ ls) = elim ls [ [] ↦ l | _ ∷ _ ↦ prefixed l (prefixed "\n" (join_lines ls)) ]

-- The active version of a batch, or 0.
unfoldable pub active_of : ℕ → List Batch → ℕ
active_of batch_no [] = 0
active_of batch_no (b ∷ bs) =
    let rest = active_of batch_no bs in if b.batch == batch_no then b.active_version else rest

unfoldable pub text_of : ℕ → ℕ → List Version → String
text_of batch_no ver versions =
    if ver == 0
    then ""
    else elim (load_batch_version batch_no ver versions) [ none ↦ "" | some v ↦ join_lines v.lines ]

-- get_batch_text(project_id, target, batch_no, version)
unfoldable pub get_batch_text : ℕ → Option ℕ → Edition → String
get_batch_text batch_no (some ver) e = text_of batch_no ver e.versions
get_batch_text batch_no none e = elim e.plan [
  | none ↦ ""
  | some plan ↦ text_of batch_no (active_of batch_no plan.batches) e.versions
]
