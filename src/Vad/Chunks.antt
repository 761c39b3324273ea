-- ===== src/Vad/Chunks.antt =====
-- The chunks that `merge_chunks` of m_vad.py makes of the segments with speech.
use live_translation.Common.{
  ◌≡◌, refl, ap, ◌∙◌, ◌⊎◌, inl, inr, true, false, List, [], ◌∷◌, ◌++◌, arith, append_assoc, length,
  Bool-cases,
}
use live_translation.Common.Float.{Floats}
use live_translation.Data.{Chunk}
use live_translation.Vad.{chunk, is_full, merge_from, merge_segments}

-- The segments of the chunks, one chunk after another.
abbrev pub all_segments : {F : Type 0} → List (Chunk F) → List (F × F)
all_segments [] = []
all_segments (c ∷ cs) = c.segments ++ all_segments cs

module _ {F : Type 0} (o : Floats F) where
  open o use {fzero, sub, flt}

  merge_from-segments :
      (size start end : F) (before segments : List (F × F))
      → all_segments (merge_from o size start end before segments) ≡ before ++ segments
  unfolding merge_from
  merge_from-segments size start end before [] = refl
  merge_from-segments size start end before ((a, b) ∷ segments) =
      elim (Bool-cases (is_full o size start end b)) [
        | inl full ↦
            rw full (ap (λ t. before ++ t) (merge_from-segments size a b ((a, b) ∷ []) segments))
        | inr room ↦ rw room (
            merge_from-segments size start b (before ++ (a, b) ∷ []) segments
            ∙ append_assoc before ((a, b) ∷ []) segments)
      ]

  -- Merging loses no segment, repeats none and keeps their order: the chunks, one after another,
  -- hold the segments of the timeline.
  pub merge_segments-segments :
      (size : F) (segments : List (F × F))
      → all_segments (merge_segments o size segments) ≡ segments
  unfolding merge_segments
  merge_segments-segments size [] = refl
  merge_segments-segments size ((a, b) ∷ segments) =
      merge_from-segments size a fzero [] ((a, b) ∷ segments)

  -- The segments end after the time `start`.
  abbrev pub AllEndAfter : F → List (F × F) → Type 0
  AllEndAfter start [] = Unit {0}
  AllEndAfter start ((a, b) ∷ segments) =
      (flt fzero (sub b start) ≡ true) × AllEndAfter start segments

  -- Each segment, and all that follow it, end after it starts.
  abbrev pub IsTimeline : List (F × F) → Type 0
  IsTimeline [] = Unit {0}
  IsTimeline ((a, b) ∷ segments) = AllEndAfter a ((a, b) ∷ segments) × IsTimeline segments

  -- A chunk is no longer than `size`, or it has one segment only.
  abbrev pub Fits : F → Chunk F → Type 0
  Fits size c = (flt size (sub c.end c.start) ≡ false) ⊎ (length c.segments ≡ 1)

  abbrev pub AllFit : F → List (Chunk F) → Type 0
  AllFit size [] = Unit {0}
  AllFit size (c ∷ cs) = Fits size c × AllFit size cs

  merge_from-AllFit :
      (size start end : F) (before segments : List (F × F))
      → flt fzero (sub end start) ≡ true
      → Fits size (chunk o start end before)
      → AllEndAfter start segments
      → IsTimeline segments
      → AllFit size (merge_from o size start end before segments)
  unfolding merge_from
  merge_from-AllFit size start end before [] long fits after timed = (fits, tt)
  merge_from-AllFit size start end before ((a, b) ∷ segments) long fits after timed =
      elim (Bool-cases (is_full o size start end b)) [
        | inl full ↦ rw full (
          fits,
          merge_from-AllFit size a b ((a, b) ∷ []) segments timed.0.0 (inr refl) timed.0.1 timed.1,
        )
        | inr room ↦
            let short : flt size (sub b start) ≡ false = ground arith in
            rw room (
              merge_from-AllFit size start b (before ++ (a, b) ∷ []) segments after.0 (inl short)
                after.1 timed.1)
      ]

  -- Every chunk is no longer than the chunk size, or holds a single segment. Conditions: each
  -- segment of the timeline, and all that follow it, end after it starts, and the first does not
  -- start before 0.
  pub merge_segments-AllFit :
      (size a b : F) (segments : List (F × F))
      → IsTimeline ((a, b) ∷ segments)
      → flt fzero (sub fzero a) ≡ false
      → AllFit size (merge_segments o size ((a, b) ∷ segments))
  unfolding merge_segments merge_from
  merge_segments-AllFit size a b segments timed first =
      let joins : is_full o size a fzero b ≡ false = ground arith in
      rw joins
        (merge_from-AllFit size a b ((a, b) ∷ []) segments timed.0.0 (inr refl) timed.0.1 timed.1)
