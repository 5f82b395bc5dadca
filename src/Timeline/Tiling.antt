-- ===== src/Timeline/Tiling.antt =====
-- The timelines that lay the cues one after the other.
use dub_manga_studio.Common.{
  ℕ, ◌+◌, ◌<◌, String, ◌≡◌, refl, false, Option, List, [], ◌∷◌, ltb, str_eq, Bool-cases, inl, inr,
  arith, subst,
}
use dub_manga_studio.Timeline.{
  Cue, Segment, Timeline, src_duration, locked, audio_or, padded, trimmed, lay, build_cue_locked,
  gap_before, lay_with_gaps, build_cue_locked_with_gaps, build_freeze_pad, build_trim,
  build_full_retime, build_timeline,
}

-- The segments fill the time from `t` to `last`: each starts where the one before it ends, and
-- none is empty.
abbrev pub Tiles : ℕ → ℕ → List Segment → Type 0
Tiles t last [] = t ≡ last
Tiles t last (s ∷ ss) =
    (s.out_start ≡ t) × (0 < s.out_duration) × Tiles (t + s.out_duration) last ss

locked-pos : (c : Cue) → 0 < locked c
unfolding locked src_duration
locked-pos c = ground arith

padded-pos : (c : Cue) → 0 < padded c
unfolding padded src_duration
padded-pos c = ground arith

trimmed-pos : (c : Cue) → 0 < trimmed c
unfolding trimmed audio_or src_duration
trimmed-pos c = ground arith

lay-Tiles :
    (duration : Cue → ℕ)
    → ((c : Cue) → 0 < duration c)
    → (t : ℕ) (cues : List Cue) → Tiles t (lay duration t cues).total (lay duration t cues).segments
unfolding lay
lay-Tiles duration pos t [] = refl
lay-Tiles duration pos t (c ∷ cs) = (refl, pos c, lay-Tiles duration pos (t + duration c) cs)

lay_with_gaps-Tiles :
    (compress keep_after : Option ℕ) (prev_end t : ℕ) (cues : List Cue)
    → Tiles t
        (lay_with_gaps compress keep_after prev_end t cues).total
        (lay_with_gaps compress keep_after prev_end t cues).segments
unfolding lay_with_gaps
lay_with_gaps-Tiles compress keep_after prev_end t [] = refl
lay_with_gaps-Tiles compress keep_after prev_end t (c ∷ cs) =
    let gap = gap_before compress keep_after prev_end c in
    let rest = lay_with_gaps-Tiles compress keep_after c.src_end (t + gap + locked c) cs in
    elim (Bool-cases (ltb 0 gap)) [
      | inl e ↦ rw e (refl, ground arith, (refl, locked-pos c, rest))
      | inr e ↦
          let later : Timeline =
            lay_with_gaps compress keep_after c.src_end (t + gap + locked c) cs in
          let none_left : gap ≡ 0 = ground arith in
          rw e (
            omega (arith, none_left),
            locked-pos c,
            subst (λ u. Tiles u later.total later.segments) (omega (arith, none_left)) rest,
          )
    ]

with_gaps-Tiles :
    (compress keep_after : Option ℕ) (cues : List Cue)
    → Tiles 0
        (build_cue_locked_with_gaps compress keep_after cues).total
        (build_cue_locked_with_gaps compress keep_after cues).segments
unfolding build_cue_locked_with_gaps
with_gaps-Tiles compress keep_after [] = refl
with_gaps-Tiles compress keep_after (c ∷ cs) =
    let rest : Timeline = lay_with_gaps compress keep_after c.src_end (locked c) cs in
    (
      refl,
      locked-pos c,
      subst (λ u. Tiles u rest.total rest.segments) (omega arith)
          (lay_with_gaps-Tiles compress keep_after c.src_end (locked c) cs),
    )

-- In every mode but "Keep Original Timing", and in an unknown one, the segments fill the output
-- from its start to its end: each starts where the one before it ends, none is empty, and the last
-- ends at `total_seconds`.
pub build_timeline-Tiles :
    (mode : String) (compress keep_after : Option ℕ) (cues : List Cue)
    → str_eq mode "Keep Original Timing" ≡ false
    → Tiles 0
        (build_timeline mode compress keep_after cues).total
        (build_timeline mode compress keep_after cues).segments
unfolding build_timeline build_cue_locked build_full_retime build_freeze_pad build_trim
build_timeline-Tiles mode compress keep_after cues other =
    elim (Bool-cases (str_eq mode "Cue-Locked Audio Master Sync")) [
      | inl e ↦ rw (build_timeline, e) (lay-Tiles locked locked-pos 0 cues)
      | inr e ↦ elim (Bool-cases (str_eq mode "Cue-Locked (Keep Natural Pauses)")) [
        | inl f ↦ rw (build_timeline, e) (rw f (with_gaps-Tiles compress keep_after cues))
        | inr f ↦ elim (Bool-cases (str_eq mode "Full Video Retime")) [
          | inl g ↦ rw (build_timeline, e) (rw f (rw g (lay-Tiles locked locked-pos 0 cues)))
          | inr g ↦ elim (Bool-cases (str_eq mode "Freeze/Pad")) [
            | inl h ↦
                rw (build_timeline, e)
                  (rw f (rw g (rw other (rw h (lay-Tiles padded padded-pos 0 cues)))))
            | inr h ↦ elim (Bool-cases (str_eq mode "Trim")) [
              | inl k ↦
                  rw (build_timeline, e)
                    (rw f (rw g (rw other (rw h (rw k (lay-Tiles trimmed trimmed-pos 0 cues))))))
              | inr k ↦
                  rw (build_timeline, e)
                    (rw f (rw g (rw other (rw h (rw k (lay-Tiles locked locked-pos 0 cues))))))
            ]
          ]
        ]
      ]
    ]
