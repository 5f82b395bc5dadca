-- ===== src/Timeline/Original.antt =====
-- Which cues a timeline shows, how long each is heard, and the timeline that keeps the timing.
use dub_manga_studio.Common.{
  zero, suc, ◌-◌, ◌∙◌, ℕ, ◌+◌, ◌≤◌, min, max, ◌≡◌, refl, Option, List, [], ◌∷◌, map, All, leb, sym,
  subst, ltb, Bool-cases, inl, inr, arith, ap, ◌⊎◌, Any, All-map,
}
use dub_manga_studio.Timeline.{
  Cue, cue, gap, Segment, src_duration, locked, audio_or, padded, trimmed, lay, build_cue_locked,
  gap_before, lay_with_gaps, build_cue_locked_with_gaps, originals, last_end, build_keep_original,
  build_freeze_pad, build_trim, build_full_retime,
}

-- What a segment shows and for how long: the cue, its span in the source, and its duration.
abbrev pub Shown : Type 0
Shown = ℕ × ℕ × ℕ × ℕ

-- The cue segments, without the gaps.
unfoldable pub shown : List Segment → List Shown
shown [] = []
shown (s ∷ ss) =
    let rest = shown ss in
    elim s.kind [ cue ↦ (s.cue_idx, s.src_start, s.src_end, s.out_duration) ∷ rest | gap ↦ rest ]

abbrev pub shows : (Cue → ℕ) → List Cue → List Shown
shows duration cues = map (λ (c : Cue). (c.idx, c.src_start, c.src_end, duration c)) cues

shown-lay :
    (duration : Cue → ℕ) (t : ℕ) (cues : List Cue)
    → shown (lay duration t cues).segments ≡ shows duration cues
unfolding lay shown
shown-lay duration t [] = refl
shown-lay duration t (c ∷ cs) =
    ap (λ (r : List Shown). (c.idx, c.src_start, c.src_end, duration c) ∷ r)
      (shown-lay duration (t + duration c) cs)

shown-lay_with_gaps :
    (compress keep_after : Option ℕ) (prev_end t : ℕ) (cues : List Cue)
    → shown (lay_with_gaps compress keep_after prev_end t cues).segments ≡ shows locked cues
unfolding lay_with_gaps shown
shown-lay_with_gaps compress keep_after prev_end t [] = refl
shown-lay_with_gaps compress keep_after prev_end t (c ∷ cs) =
    let gap = gap_before compress keep_after prev_end c in
    let rest =
      ap (λ (r : List Shown). (c.idx, c.src_start, c.src_end, locked c) ∷ r)
        (shown-lay_with_gaps compress keep_after c.src_end (t + gap + locked c) cs) in
    elim (Bool-cases (ltb 0 gap)) [ inl e ↦ rw e rest | inr e ↦ rw e rest ]

shown-originals : (cues : List Cue) → shown (originals cues) ≡ shows src_duration cues
unfolding originals shown
shown-originals [] = refl
shown-originals (c ∷ cs) =
    ap (λ (r : List Shown). (c.idx, c.src_start, c.src_end, src_duration c) ∷ r)
      (shown-originals cs)

shown-with_gaps :
    (compress keep_after : Option ℕ) (cues : List Cue)
    → shown (build_cue_locked_with_gaps compress keep_after cues).segments ≡ shows locked cues
unfolding build_cue_locked_with_gaps shown
shown-with_gaps compress keep_after [] = refl
shown-with_gaps compress keep_after (c ∷ cs) =
    ap (λ (r : List Shown). (c.idx, c.src_start, c.src_end, locked c) ∷ r)
      (shown-lay_with_gaps compress keep_after c.src_end (locked c) cs)

ℕ-cases : (n : ℕ) → (n ≡ 0) ⊎ ((m : ℕ) × (n ≡ suc m))
ℕ-cases zero = inl refl
ℕ-cases (suc m) = inr (m, refl)

shows_same :
    (f g : Cue → ℕ) (cues : List Cue) → ((c : Cue) → f c ≡ g c) → shows f cues ≡ shows g cues
shows_same f g [] h = refl
shows_same f g (c ∷ cs) h = rw (h c, shows_same f g cs h) refl

-- The length of a cue's span in the source, but at least 50 ms.
abbrev pub span : Cue → ℕ
span c = max 50 (c.src_end - c.src_start)

-- The length of the audio of a cue, and of its span where it has none.
abbrev pub heard : Cue → ℕ
heard c = elim c.audio as (λ _. ℕ) [ zero ↦ span c | suc n ↦ suc n ]

locked-heard : (c : Cue) → locked c ≡ heard c
unfolding locked src_duration
locked-heard c = elim (ℕ-cases c.audio) [
  | inl e ↦ rw (heard, e) (ground (arith, e))
  | inr (n, e) ↦ rw (heard, e) (ground (arith, e))
]

audio_or-heard : (c : Cue) → audio_or c ≡ heard c
unfolding audio_or locked
audio_or-heard c = locked-heard c

-- Every builder shows each cue once, in the order of the list and with its span in the source. The
-- span is at least 50 ms long here, and what is heard is the audio of the cue, or as long as the
-- span where there is none. A cue lasts as long as what is heard (cue-locked, with or without gaps,
-- and full retime), as long as its span (keep original), as the longer of the two (freeze) or as the
-- shorter one (trim).
pub shown_lem :
    (compress keep_after : Option ℕ) (cues : List Cue)
    → (shown (build_cue_locked cues).segments ≡ shows heard cues)
      × (shown (build_cue_locked_with_gaps compress keep_after cues).segments ≡ shows heard cues)
      × (shown (build_full_retime cues).segments ≡ shows heard cues)
      × (shown (build_keep_original cues).segments ≡ shows span cues)
      × (shown (build_freeze_pad cues).segments ≡ shows (λ c. max (span c) (heard c)) cues)
      × (shown (build_trim cues).segments ≡ shows (λ c. min (span c) (heard c)) cues)
unfolding build_cue_locked build_full_retime build_keep_original build_freeze_pad build_trim padded
    trimmed src_duration
shown_lem compress keep_after cues =
    let as_heard = shows_same locked heard cues locked-heard in
    (
      shown-lay locked 0 cues ∙ as_heard,
      shown-with_gaps compress keep_after cues ∙ as_heard,
      shown-lay locked 0 cues ∙ as_heard,
      shown-originals cues,
      shown-lay padded 0 cues
          ∙ shows_same padded _ cues (λ c. ap (λ n. max (span c) n) (audio_or-heard c)),
      shown-lay trimmed 0 cues
          ∙ shows_same trimmed _ cues (λ c. ap (λ n. min (span c) n) (audio_or-heard c)),
    )

-- The latest end of a list of segments is an upper bound that one of them reaches.
within-last_end : (ss : List Segment) → All (λ s. s.out_start + s.out_duration ≤ last_end ss) ss
unfolding last_end
within-last_end [] = tt
within-last_end (s ∷ ss) = (omega arith, All-map (λ x h. omega arith) ss (within-last_end ss))

reaches-last_end :
    (ss : List Segment)
    → (last_end ss ≡ 0) ⊎ Any (λ s. s.out_start + s.out_duration ≡ last_end ss) ss
unfolding last_end
reaches-last_end [] = inl refl
reaches-last_end (s ∷ ss) = elim (Bool-cases (leb (last_end ss) (s.out_start + s.out_duration))) [
  | inl e ↦ inr (inl (ground arith))
  | inr e ↦
      let later : max (s.out_start + s.out_duration) (last_end ss) ≡ last_end ss = ground arith in
      elim (reaches-last_end ss) [
        | inl none_left ↦ absurd (ground (arith, none_left, e))
        | inr a ↦ inr (
            inr (
              subst (λ u. Any (λ (x : Segment). x.out_start + x.out_duration ≡ u) ss) (sym later)
                a))
      ]
]

starts-originals : (cues : List Cue) → All (λ s. s.out_start ≡ s.src_start) (originals cues)
unfolding originals
starts-originals [] = tt
starts-originals (c ∷ cs) = (refl, starts-originals cs)

-- With the original timing each cue starts in the output where it starts in the source, none ends
-- after `total_seconds`, and one ends there, unless the length is zero.
pub keep_original_lem :
    (cues : List Cue)
    → let tl = build_keep_original cues in
      All (λ s. s.out_start ≡ s.src_start) tl.segments
      × All (λ s. s.out_start + s.out_duration ≤ tl.total) tl.segments
      × ((tl.total ≡ 0) ⊎ Any (λ s. s.out_start + s.out_duration ≡ tl.total) tl.segments)
unfolding build_keep_original
keep_original_lem cues =
    (starts-originals cues, within-last_end (originals cues), reaches-last_end (originals cues))
