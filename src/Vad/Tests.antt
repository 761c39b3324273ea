-- ===== src/Vad/Tests.antt =====
-- Tests of the merging of segments, and the theorems about it at a concrete timeline.
use live_translation.Common.{◌≤◌, ◌≡◌, refl, List, [], ◌∷◌, some, length}
use live_translation.Common.Int.{ℤ, pos, ◌+ℤ◌, ◌-ℤ◌}
use live_translation.Common.Ticks.{ticks}
use live_translation.Vad.{chunk, merge_segments}
use live_translation.Vad.Binarize.{Binarize, regions_of}
use live_translation.Vad.Binarize.Total.{regions_of-total}
use live_translation.Vad.Chunks.{
  all_segments, AllFit, merge_segments-segments, merge_segments-AllFit,
}

abbrev later : List (ℤ × ℤ)
later = (pos 5, pos 9) ∷ (pos 12, pos 40) ∷ (pos 41, pos 44) ∷ []

merge_segments-runs :
    merge_segments ticks (pos 10) ((pos 1, pos 4) ∷ later)
    ≡ chunk ticks (pos 1) (pos 9) ((pos 1, pos 4) ∷ (pos 5, pos 9) ∷ [])
      ∷ chunk ticks (pos 12) (pos 40) ((pos 12, pos 40) ∷ [])
      ∷ chunk ticks (pos 41) (pos 44) ((pos 41, pos 44) ∷ [])
      ∷ []
unfolding merge_segments ◌-ℤ◌
merge_segments-runs = refl

merge_segments-segments_example :
    all_segments (merge_segments ticks (pos 10) ((pos 1, pos 4) ∷ later)) ≡ (pos 1, pos 4) ∷ later
merge_segments-segments_example = merge_segments-segments ticks (pos 10) ((pos 1, pos 4) ∷ later)

merge_segments-AllFit_example :
    AllFit ticks (pos 10) (merge_segments ticks (pos 10) ((pos 1, pos 4) ∷ later))
unfolding ◌-ℤ◌
merge_segments-AllFit_example =
    merge_segments-AllFit ticks (pos 10) (pos 1) (pos 4) later
      (
        (refl, (refl, (refl, (refl, tt)))),
        ((refl, (refl, (refl, tt))), ((refl, (refl, tt)), ((refl, tt), tt))),
      )
      refl

-- A hysteresis between 2 and 3, no padding, and segments of at most 4.
abbrev binarize : Binarize ℤ
binarize = record {
  onset = pos 3;
  offset = pos 2;
  pad_onset = pos 0;
  pad_offset = pos 0;
  min_duration_on = pos 0;
  min_duration_off = pos 0;
  max_duration = pos 4;
}

abbrev frames : List (ℤ × ℤ)
frames =
    (pos 1, pos 5)
    ∷ (pos 2, pos 4)
    ∷ (pos 3, pos 9)
    ∷ (pos 6, pos 7)
    ∷ (pos 7, pos 1)
    ∷ (pos 8, pos 1)
    ∷ []

-- A segment that is too long is divided where the score of its second half is least.
regions_of-frames :
    regions_of ticks binarize ((pos 0, pos 4) ∷ frames)
    ≡ some ((pos 0, pos 2) ∷ (pos 2, pos 6) ∷ (pos 6, pos 8) ∷ [])
unfolding regions_of ◌+ℤ◌ ◌-ℤ◌
regions_of-frames = refl

regions_of-total_example :
    (regions : List (ℤ × ℤ)) × (regions_of ticks binarize ((pos 0, pos 4) ∷ frames) ≡ some regions)
    × (length regions ≤ length ((pos 0, pos 4) ∷ frames))
regions_of-total_example = regions_of-total ticks binarize (pos 0, pos 4) frames
