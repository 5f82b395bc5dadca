-- ===== src/Timeline.antt =====
-- src/chatterbox_manga_studio/export/timeline.py: where each cue stands in the output. Times are
-- whole milliseconds in place of seconds, and no time is negative: a subtraction that stops at zero
-- is under `max` with a larger number in the source too.
pub mod Tiling
pub mod Original
mod Samples
use dub_manga_studio.Common.{
  ℕ, zero, suc, ◌+◌, ◌-◌, min, max, String, Bool, true, false, Option, none, some, List, [], ◌∷◌,
  ltb, str_eq, if◌then◌else◌,
}

pub record Cue : Type 0 where
  pub idx : ℕ
  pub src_start : ℕ
  pub src_end : ℕ
  pub audio : ℕ
  pub text : String

pub data Kind : Type 0 where
  cue gap : Kind

pub record Segment : Type 0 where
  pub kind : Kind
  pub cue_idx : ℕ
  pub src_start : ℕ
  pub src_end : ℕ
  pub out_start : ℕ
  pub out_duration : ℕ

pub record Timeline : Type 0 where
  pub segments : List Segment
  pub total : ℕ

-- max(0.05, c.src_end - c.src_start)
unfoldable pub src_duration : Cue → ℕ
src_duration c = max 50 (c.src_end - c.src_start)

-- `c.audio_seconds if c.audio_seconds > 0 else max(0.05, ...)`
unfoldable pub locked : Cue → ℕ
unfolding src_duration
locked c = if ltb 0 c.audio then c.audio else src_duration c

-- `c.audio_seconds or src_dur`
unfoldable pub audio_or : Cue → ℕ
unfolding src_duration
audio_or c = if ltb 0 c.audio then c.audio else src_duration c

unfoldable pub padded : Cue → ℕ
unfolding src_duration audio_or
padded c = max (src_duration c) (audio_or c)

unfoldable pub trimmed : Cue → ℕ
unfolding src_duration audio_or
trimmed c = min (src_duration c) (audio_or c)

abbrev pub cue_segment : Cue → ℕ → ℕ → Segment
cue_segment c t duration = record {
  kind = cue;
  cue_idx = c.idx;
  src_start = c.src_start;
  src_end = c.src_end;
  out_start = t;
  out_duration = duration;
}

abbrev pub gap_segment : Cue → ℕ → ℕ → ℕ → Segment
gap_segment c prev_end t duration = record {
  kind = gap;
  cue_idx = c.idx;
  src_start = prev_end;
  src_end = c.src_start;
  out_start = t;
  out_duration = duration;
}

-- The loop that lays the cues one after the other from `t` on, each for its duration.
unfoldable pub lay : (Cue → ℕ) → ℕ → List Cue → Timeline
lay duration t [] = record { segments = []; total = t }
lay duration t (c ∷ cs) =
    let rest = lay duration (t + duration c) cs in
    record { segments = cue_segment c t (duration c) ∷ rest.segments; total = rest.total }

-- build_cue_locked(cues, ...), which ignores the other arguments
unfoldable pub build_cue_locked : List Cue → Timeline
unfolding lay locked
build_cue_locked cues = lay locked 0 cues

-- `keep_after_ms or compress_gaps_ms`
abbrev pub kept_gap : Option ℕ → ℕ → ℕ
kept_gap none limit = limit
kept_gap (some zero) limit = limit
kept_gap (some (suc n)) limit = suc n

-- The gap in front of a cue, after compression.
unfoldable pub gap_before : Option ℕ → Option ℕ → ℕ → Cue → ℕ
gap_before none keep_after prev_end c = c.src_start - prev_end
gap_before (some limit) keep_after prev_end c =
    if ltb limit (c.src_start - prev_end) then kept_gap keep_after limit else c.src_start - prev_end

-- The loop of `build_cue_locked_with_gaps`, from the second cue on.
unfoldable pub lay_with_gaps : Option ℕ → Option ℕ → ℕ → ℕ → List Cue → Timeline
unfolding gap_before locked
lay_with_gaps compress keep_after prev_end t [] = record { segments = []; total = t }
lay_with_gaps compress keep_after prev_end t (c ∷ cs) =
    let gap = gap_before compress keep_after prev_end c in
    let rest = lay_with_gaps compress keep_after c.src_end (t + gap + locked c) cs in
    let cue_part = cue_segment c (t + gap) (locked c) ∷ rest.segments in
    record {
      segments = if ltb 0 gap then gap_segment c prev_end t gap ∷ cue_part else cue_part;
      total = rest.total;
    }

-- build_cue_locked_with_gaps(cues, compress_gaps_ms, keep_after_ms)
unfoldable pub build_cue_locked_with_gaps : Option ℕ → Option ℕ → List Cue → Timeline
unfolding lay_with_gaps locked
build_cue_locked_with_gaps compress keep_after [] = record { segments = []; total = 0 }
build_cue_locked_with_gaps compress keep_after (c ∷ cs) =
    let rest = lay_with_gaps compress keep_after c.src_end (locked c) cs in
    record { segments = cue_segment c 0 (locked c) ∷ rest.segments; total = rest.total }

unfoldable pub originals : List Cue → List Segment
unfolding src_duration
originals [] = []
originals (c ∷ cs) = cue_segment c c.src_start (src_duration c) ∷ originals cs

-- max((s.out_start + s.out_duration for s in segments), default=0.0)
unfoldable pub last_end : List Segment → ℕ
last_end [] = 0
last_end (s ∷ ss) = max (s.out_start + s.out_duration) (last_end ss)

-- build_keep_original(cues)
unfoldable pub build_keep_original : List Cue → Timeline
unfolding originals last_end
build_keep_original cues = record { segments = originals cues; total = last_end (originals cues) }

-- build_freeze_pad(cues)
unfoldable pub build_freeze_pad : List Cue → Timeline
unfolding lay padded
build_freeze_pad cues = lay padded 0 cues

-- build_trim(cues)
unfoldable pub build_trim : List Cue → Timeline
unfolding lay trimmed
build_trim cues = lay trimmed 0 cues

-- build_full_retime(cues)
unfoldable pub build_full_retime : List Cue → Timeline
unfolding build_cue_locked
build_full_retime cues = build_cue_locked cues

-- build_timeline(mode, cues, compress_gaps_ms=, keep_after_ms=), by the table TIMING_BUILDERS
unfoldable pub build_timeline : String → Option ℕ → Option ℕ → List Cue → Timeline
build_timeline mode compress keep_after cues =
    if str_eq mode "Cue-Locked Audio Master Sync"
    then build_cue_locked cues
    else if str_eq mode "Cue-Locked (Keep Natural Pauses)"
    then build_cue_locked_with_gaps compress keep_after cues
    else if str_eq mode "Full Video Retime"
    then build_full_retime cues
    else if str_eq mode "Keep Original Timing"
    then build_keep_original cues
    else if str_eq mode "Freeze/Pad"
    then build_freeze_pad cues
    else if str_eq mode "Trim"
    then build_trim cues
    else build_cue_locked cues
