-- ===== src/Timeline/Samples.antt =====
-- Small inputs, tests, and the properties at them.
use dub_manga_studio.Common.{
  ℕ, ◌+◌, ◌≤◌, min, max, ◌≡◌, refl, none, some, [], ◌∷◌, List, map, All, Any, ◌⊎◌,
}
use dub_manga_studio.Timeline.{
  Cue, Segment, src_duration, locked, audio_or, padded, trimmed, lay, build_cue_locked, gap_before,
  lay_with_gaps, build_cue_locked_with_gaps, originals, last_end, build_keep_original,
  build_freeze_pad, build_trim, build_full_retime, build_timeline,
}
use dub_manga_studio.Timeline.Tiling.{Tiles, build_timeline-Tiles}
use dub_manga_studio.Timeline.Original.{shown, shows, span, heard, shown_lem, keep_original_lem}

program : Unit {0}
unfolding src_duration locked audio_or padded trimmed lay build_cue_locked gap_before lay_with_gaps
    build_cue_locked_with_gaps originals last_end build_keep_original build_freeze_pad build_trim
    build_full_retime build_timeline
program = tt

abbrev cues : List Cue
cues =
    record { idx = 0; src_start = 1_000; src_end = 3_000; audio = 2_500; text = "a" }
    ∷ record { idx = 1; src_start = 5_000; src_end = 6_000; audio = 0; text = "b" }
    ∷ []

abbrev lengths : List Segment → List ℕ
lengths = map (λ (s : Segment). s.out_duration)

lengths_test :
    (lengths (build_timeline "Trim" none none cues).segments ≡ 2_000 ∷ 1_000 ∷ [])
    × (lengths
          (build_timeline "Cue-Locked (Keep Natural Pauses)" (some 800) (some 300) cues).segments
        ≡ 2_500 ∷ 300 ∷ 1_000 ∷ [])
    × ((build_timeline "Keep Original Timing" none none cues).total ≡ 6_000)
unfolding program
lengths_test = (refl, refl, refl)

build_timeline-Tiles_example :
    Tiles 0
      (build_timeline "Trim" none none cues).total
      (build_timeline "Trim" none none cues).segments
build_timeline-Tiles_example = build_timeline-Tiles "Trim" none none cues refl

shown_lem_example :
    (shown (build_cue_locked cues).segments ≡ shows heard cues)
    × (shown (build_cue_locked_with_gaps (some 800) none cues).segments ≡ shows heard cues)
    × (shown (build_full_retime cues).segments ≡ shows heard cues)
    × (shown (build_keep_original cues).segments ≡ shows span cues)
    × (shown (build_freeze_pad cues).segments ≡ shows (λ c. max (span c) (heard c)) cues)
    × (shown (build_trim cues).segments ≡ shows (λ c. min (span c) (heard c)) cues)
shown_lem_example = shown_lem (some 800) none cues

keep_original_lem_example :
    let tl = build_keep_original cues in
    All (λ s. s.out_start ≡ s.src_start) tl.segments
    × All (λ s. s.out_start + s.out_duration ≤ tl.total) tl.segments
    × ((tl.total ≡ 0) ⊎ Any (λ s. s.out_start + s.out_duration ≡ tl.total) tl.segments)
keep_original_lem_example = keep_original_lem cues
