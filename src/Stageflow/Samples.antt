-- ===== src/Stageflow/Samples.antt =====
-- The graphics cards of the program, and a project between two stages.
use dub_manga_studio.Common.{
  String, ◌≡◌, refl, true, false, not, ◌&&◌, Option, none, some, [], ◌∷◌, str_eq, has_prefix,
  prefixed, str, null,
}
use dub_manga_studio.Common.Dict.{lookup, put, remove}
use dub_manga_studio.Stageflow.{
  detect_current_gpu, t4, l4, a100_40, a100_80, cpu, unknown, current_gpu_label, stage_ok,
  gpu_config_check, has_text, not_done, State, load_state, mark_stage, is_done, next_of, next_stage,
  transcript_fingerprint, record_transcript_fingerprint, transcript_changed_since_adaptation,
  checkpoint, get_checkpoint, clear_checkpoint, all_stages,
}
use dub_manga_studio.Stageflow.Progress.{IsNext, progress_lem}

program : Unit {0}
unfolding has_prefix prefixed has_text detect_current_gpu current_gpu_label stage_ok
    gpu_config_check not_done load_state mark_stage next_of next_stage transcript_fingerprint
    record_transcript_fingerprint transcript_changed_since_adaptation checkpoint get_checkpoint
    clear_checkpoint lookup put remove
program = tt

abbrev same_text : String → String
same_text s = s

detect_test :
    (detect_current_gpu same_text (some "NVIDIA A100-SXM4-80GB") ≡ a100_80)
    × (detect_current_gpu same_text (some "NVIDIA A100-PCIE-40GB") ≡ a100_40)
    × (detect_current_gpu same_text (some "NVIDIA RTX A1000") ≡ a100_40)
    × (detect_current_gpu same_text (some "NVIDIA L40S") ≡ l4)
    × (detect_current_gpu same_text (some "TESLA T4") ≡ t4)
    × (detect_current_gpu same_text (some "") ≡ cpu)
    × (detect_current_gpu same_text none ≡ cpu)
unfolding program
detect_test = (refl, refl, refl, refl, refl, refl, refl)

guidance_test :
    (stage_ok "dubbing" cpu ≡ false)
    × (stage_ok "transcribe" unknown ≡ true)
    × (stage_ok "export" cpu ≡ true)
    × ((gpu_config_check (some "l4") t4).matches ≡ false)
    × ((gpu_config_check none unknown).matches ≡ true)
    × (current_gpu_label same_text cpu ≡ "CPU (no GPU)")
unfolding program
guidance_test = (refl, refl, refl, refl, refl, refl)

abbrev begun : Option State
begun = some (record {
  stages = some (("ingest", record { done = true; ts = some 5; gpu = some "T4" }) ∷ []);
  transcript_fp_at_adaptation = some "2:aa";
  checkpoints = none;
})

next_test :
    (next_stage none ≡ "ingest")
    × (next_stage begun ≡ "transcribe")
    × (next_stage (mark_stage 7 "T4" "transcribe" none begun) ≡ "adaptation")
    × (transcript_changed_since_adaptation "3:bb" begun ≡ true)
    × (transcript_fingerprint (λ n. "1") (λ cues. "aa") (some ((0, 150) ∷ [])) ≡ "1:aa")
unfolding program
next_test = (refl, refl, refl, refl, refl)

progress_lem_example :
    let marked = load_state (mark_stage 9 "L4" "dubbing" (some "") begun) in
    let saved = checkpoint 9 "dub_progress" (str "12") begun in
    let cleared = clear_checkpoint "dub_progress" saved in
    let recorded = record_transcript_fingerprint "4:cc" begun in
    IsNext (load_state begun) all_stages (next_stage begun)
    × (is_done "dubbing" marked ≡ true)
    × (is_done "export" marked ≡ is_done "export" (load_state begun))
    × (get_checkpoint "dub_progress" (null) saved ≡ str "12")
    × (get_checkpoint "dub_progress" (null) cleared ≡ null)
    × (get_checkpoint "export" (null) cleared ≡ get_checkpoint "export" (null) begun)
    × (get_checkpoint "dub_progress" (null) (some marked)
        ≡ get_checkpoint "dub_progress" (null) begun)
    × (next_stage cleared ≡ next_stage begun)
    × (transcript_changed_since_adaptation "5:dd" recorded
        ≡ (not (str_eq "4:cc" "") && not (str_eq "5:dd" "4:cc")))
unfolding program
progress_lem_example =
    progress_lem begun 9 "L4" "dubbing" "export" (some "") "dub_progress" (str "12") (null) "4:cc"
      "5:dd" refl refl
