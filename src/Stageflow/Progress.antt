-- ===== src/Stageflow/Progress.antt =====
-- What the state file of a project says after the calls that write it.
use dub_manga_studio.Common.{
  ℕ, String, ◌≡◌, refl, sym, ap, subst, true, false, not, ◌&&◌, Option, some, List, [], ◌∷◌, ◌++◌,
  ◌⊎◌, inl, inr, All, str_eq, eq_refl, Json, Bool-cases,
}
use dub_manga_studio.Common.Dict.{Dict, lookup-put_self, put, lookup-put, lookup-remove}
use dub_manga_studio.Stageflow.{
  State, StageInfo, Checkpoint, all_stages, load_state, or_empty, gpu_or, mark_stage, is_done,
  next_of, next_stage, record_transcript_fingerprint, transcript_changed_since_adaptation,
  checkpoint, get_checkpoint, clear_checkpoint,
}

-- The first stage that is not done, or that all are.
abbrev pub IsNext : State → List String → String → Type 0
IsNext state stages s =
    ((s ≡ "done") × All (λ x. is_done x state ≡ true) stages)
    ⊎ ((before : List String) × (after : List String) × (stages ≡ before ++ s ∷ after)
        × All (λ x. is_done x state ≡ true) before
        × (is_done s state ≡ false))

next_of-IsNext : (state : State) (stages : List String) → IsNext state stages (next_of state stages)
unfolding next_of
next_of-IsNext state [] = inl (refl, tt)
next_of-IsNext state (s ∷ ss) = elim (Bool-cases (is_done s state)) [
  | inr e ↦
      let same : next_of state (s ∷ ss) ≡ s = rw e refl in
      subst (λ x. IsNext state (s ∷ ss) x) (sym same) (inr ([], ss, refl, tt, e))
  | inl e ↦
      let same : next_of state (s ∷ ss) ≡ next_of state ss = rw e refl in
      subst (λ x. IsNext state (s ∷ ss) x) (sym same)
        (elim (next_of-IsNext state ss) [
          | inl (q, all) ↦ inl (q, (e, all))
          | inr (before, after, split, all, waits) ↦
              inr (s ∷ before, after, ap (λ xs. s ∷ xs) split, (e, all), waits)
        ])
]

-- What is next depends on the stages only.
next_of_same :
    (a b : State) (stages : List String) → a.stages ≡ b.stages → next_of a stages ≡ next_of b stages
unfolding next_of
next_of_same a b [] same = refl
next_of_same a b (s ∷ ss) same = rw (same, next_of_same a b ss same) refl

-- `next_stage` is the first stage in the order of the program that is not done, or "done" where all
-- are. Marking a stage makes it done, and another stage is done after it exactly when it was
-- before. A checkpoint that is saved is read back, and the default after it is cleared; a save and
-- a clear of one key leave the checkpoint of another as it was, and the next stage too. Marking a
-- stage changes no checkpoint. A fingerprint that is recorded and not empty is the one against
-- which a later transcript counts as changed, and an empty one never says so.
pub progress_lem :
    (file : Option State) (now : ℕ) (label stage other : String) (gpu : Option String)
    (key : String) (value default : Json) (fp later : String)
    → str_eq stage other ≡ false
    → str_eq key other ≡ false
    → let marked = load_state (mark_stage now label stage gpu file) in
      let saved = checkpoint now key value file in
      let cleared = clear_checkpoint key saved in
      let recorded = record_transcript_fingerprint fp file in
      IsNext (load_state file) all_stages (next_stage file)
      × (is_done stage marked ≡ true)
      × (is_done other marked ≡ is_done other (load_state file))
      × (get_checkpoint key default saved ≡ value)
      × (get_checkpoint key default cleared ≡ default)
      × (get_checkpoint other default cleared ≡ get_checkpoint other default file)
      × (get_checkpoint key default (some marked) ≡ get_checkpoint key default file)
      × (next_stage cleared ≡ next_stage file)
      × (transcript_changed_since_adaptation later recorded
          ≡ (not (str_eq fp "") && not (str_eq later fp)))
unfolding next_stage load_state mark_stage checkpoint get_checkpoint clear_checkpoint
    record_transcript_fingerprint transcript_changed_since_adaptation
progress_lem file now label stage other gpu key value default fp later apart apart_key =
    let state : State = load_state file in
    let cleared : State = load_state (clear_checkpoint key (checkpoint now key value file)) in
    let stages : Dict StageInfo = or_empty state.stages in
    let saved : Dict Checkpoint = or_empty state.checkpoints in
    let info : StageInfo = record { done = true; ts = some now; gpu = some (gpu_or label gpu) } in
    let cp : Checkpoint = record { value = value; ts = now } in
    (
      next_of-IsNext state all_stages,
      rw (is_done, lookup-put_self stage info stages) refl,
      rw (is_done, lookup-put stage other info stages) (rw apart refl),
      rw (get_checkpoint, lookup-put_self key cp saved) refl,
      rw (get_checkpoint, lookup-remove key key (put key cp saved)) (rw (eq_refl key) refl),
      rw (get_checkpoint, lookup-remove key other (put key cp saved))
          (rw apart_key (rw (lookup-put key other cp saved) (rw apart_key refl))),
      refl,
      next_of_same cleared state all_stages refl,
      refl,
    )
