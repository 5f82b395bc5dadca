-- ===== src/Stageflow.antt =====
-- src/chatterbox_manga_studio/common/stageflow.py: which GPU there is and what it is good for, and the
-- progress of a project in its state file. A file is the state that was last written to it, or
-- `none` where it is missing or cannot be read. What nvidia-smi prints is an argument, `none`
-- where it fails; `upper` is str.upper.
pub mod Progress
mod Samples
use dub_manga_studio.Common.{
  ℕ, suc, String, Bool, true, false, ◌&&◌, ◌||◌, not, Option, none, some, List, [], ◌∷◌, length,
  str_eq, has_prefix, prefixed, if◌then◌else◌, Json,
}
use dub_manga_studio.Common.Dict.{Dict, lookup, put, remove}

-- What `detect_current_gpu` returns.
pub data Gpu : Type 0 where
  t4 l4 a10g a100_40 a100_80 h100 cpu unknown : Gpu

abbrev pub key_of : Gpu → String
key_of t4 = "t4"
key_of l4 = "l4"
key_of a10g = "a10g"
key_of a100_40 = "a100_40"
key_of a100_80 = "a100_80"
key_of h100 = "h100"
key_of cpu = "cpu"
key_of unknown = "unknown"

-- p in s
unfoldable pub has_text : String → String → Bool
has_text p String.[] = has_prefix p String.[]
has_text p (String.◌∷◌ c s) =
    let rest = has_text p s in if has_prefix p (String.◌∷◌ c s) then true else rest

-- detect_current_gpu(), where `out` is the output, stripped
unfoldable pub detect_current_gpu : (String → String) → Option String → Gpu
detect_current_gpu upper none = cpu
detect_current_gpu upper (some printed) =
    let out = upper printed in
    let a100 = if has_text "80" out then a100_80 else a100_40 in
    if str_eq out ""
    then cpu
    else if has_text "H100" out
    then h100
    else if has_text "A100" out
    then a100
    else if has_text "A10G" out || has_text "A10" out
    then a10g
    else if has_text "L4" out
    then l4
    else if has_text "T4" out
    then t4
    else unknown

-- current_gpu_label()
unfoldable pub current_gpu_label : (String → String) → Gpu → String
current_gpu_label upper cpu = "CPU (no GPU)"
current_gpu_label upper unknown = "Unknown GPU"
current_gpu_label upper g = upper (key_of g)

abbrev pub is_cpu : Gpu → Bool
is_cpu cpu = true
is_cpu _ = false

abbrev pub is_unknown : Gpu → Bool
is_unknown unknown = true
is_unknown _ = false

-- `ok` of stage_guidance(stage)
unfoldable pub stage_ok : String → Gpu → Bool
stage_ok stage g =
    if str_eq stage "transcribe"
    then not (is_cpu g)
    else if str_eq stage "dubbing"
    then not (is_cpu g) && not (is_unknown g)
    else true

pub record GpuCheck : Type 0 where
  pub configured : String
  pub detected : String
  pub matches : Bool

-- gpu_config_check(), without its message
unfoldable pub gpu_config_check : Option String → Gpu → GpuCheck
gpu_config_check active_gpu g =
    let configured = elim active_gpu as (λ _. String) [ none ↦ "?" | some key ↦ key ] in
    record {
      configured = configured;
      detected = key_of g;
      matches = str_eq configured (key_of g) || is_unknown g;
    }

pub record StageInfo : Type 0 where
  pub done : Bool
  pub ts : Option ℕ
  pub gpu : Option String

pub record Checkpoint : Type 0 where
  pub value : Json
  pub ts : ℕ

-- state.json: a key that is not there is `none`.
pub record State : Type 0 where
  pub stages : Option (Dict StageInfo)
  pub transcript_fp_at_adaptation : Option String
  pub checkpoints : Option (Dict Checkpoint)

-- _STAGES
abbrev pub all_stages : List String
all_stages = "ingest" ∷ "transcribe" ∷ "adaptation" ∷ "forward" ∷ "dubbing" ∷ "export" ∷ []

-- {s: {"done": False, "ts": None, "gpu": None} for s in _STAGES}
unfoldable pub not_done : List String → Dict StageInfo
not_done [] = []
not_done (s ∷ ss) = (s, record { done = false; ts = none; gpu = none }) ∷ not_done ss

-- load_state(project_id)
unfoldable pub load_state : Option State → State
load_state (some state) = state
load_state none = record {
  stages = some (not_done all_stages);
  transcript_fp_at_adaptation = none;
  checkpoints = none;
}

-- d.get(key, {})
abbrev pub or_empty : {V : Type 0} → Option (Dict V) → Dict V
or_empty none = []
or_empty (some d) = d

-- gpu or label
abbrev pub gpu_or : String → Option String → String
gpu_or label none = label
gpu_or label (some g) = if str_eq g "" then label else g

-- mark_stage(project_id, stage, gpu), where `label` is current_gpu_label()
unfoldable pub mark_stage : ℕ → String → String → Option String → Option State → Option State
mark_stage now label stage gpu file =
    let state = load_state file in
    some (record state {
      stages = some (
          put stage (record { done = true; ts = some now; gpu = some (gpu_or label gpu) })
            (or_empty state.stages));
    })

-- st.get(s, {}).get("done")
abbrev pub is_done : String → State → Bool
is_done s state = elim (lookup s (or_empty state.stages)) as (λ _. Bool) [
  | none ↦ false
  | some info ↦ info.done
]

-- The loop of `next_stage`.
unfoldable pub next_of : State → List String → String
next_of state [] = "done"
next_of state (s ∷ ss) = let rest = next_of state ss in if is_done s state then rest else s

-- next_stage(project_id)
unfoldable pub next_stage : Option State → String
next_stage file = next_of (load_state file) all_stages

-- The start and the end of a cue, rounded, in hundredths.
abbrev pub CueTimes : Type 0
CueTimes = ℕ × ℕ

-- transcript_fingerprint(project_id): `transcript` is `none` where there is none that can be read,
-- `show` is str, and `digest` the first 12 characters of the sha1 of the times.
unfoldable pub transcript_fingerprint :
    (ℕ → String) → (List CueTimes → String) → Option (List CueTimes) → String
transcript_fingerprint show digest none = ""
transcript_fingerprint show digest (some cues) =
    prefixed (show (length cues)) (prefixed ":" (digest cues))

-- record_transcript_fingerprint(project_id), where `fp` is the fingerprint
unfoldable pub record_transcript_fingerprint : String → Option State → Option State
record_transcript_fingerprint fp file =
    some (record (load_state file) { transcript_fp_at_adaptation = some fp })

-- transcript_changed_since_adaptation(project_id)
unfoldable pub transcript_changed_since_adaptation : String → Option State → Bool
transcript_changed_since_adaptation fp file =
    elim (load_state file).transcript_fp_at_adaptation as (λ _. Bool) [
      | none ↦ false
      | some saved ↦ not (str_eq saved "") && not (str_eq fp saved)
    ]

-- checkpoint(project_id, key, value)
unfoldable pub checkpoint : ℕ → String → Json → Option State → Option State
checkpoint now key value file =
    let state = load_state file in
    some (record state {
      checkpoints =
          some (put key (record { value = value; ts = now }) (or_empty state.checkpoints));
    })

-- get_checkpoint(project_id, key, default)
unfoldable pub get_checkpoint : String → Json → Option State → Json
get_checkpoint key default file =
    elim (lookup key (or_empty (load_state file).checkpoints)) as (λ _. Json) [
      | none ↦ default
      | some c ↦ c.value
    ]

-- clear_checkpoint(project_id, key)
unfoldable pub clear_checkpoint : String → Option State → Option State
clear_checkpoint key file =
    let state = load_state file in
    some (record state {
      checkpoints = elim state.checkpoints as (λ _. Option (Dict Checkpoint)) [
        | none ↦ none
        | some d ↦ some (remove key d)
      ];
    })
