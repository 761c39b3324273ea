-- ===== src/Vad/Binarize.antt =====
-- `Binarize` of m_vad.py, for one class. A frame is its timestamp and its score; scores are numbers,
-- not NaN. The regions are listed in the order in which they are stored in the annotation. What
-- numpy or a list index raises is `none`.
pub mod Total
use live_translation.Common.{
  ℕ, zero, suc, ◌+◌, ◌/◌, Bool, true, false, ◌||◌, ◌&&◌, not, List, [], ◌∷◌, ◌++◌, Option, none,
  some, filter, drop, length, get_elem?, if◌then◌else◌,
}
use live_translation.Common.Float.{Floats}

pub record Binarize (F : Type 0) : Type 0 where
  pub onset : F
  pub offset : F
  pub pad_onset : F
  pub pad_offset : F
  pub min_duration_on : F
  pub min_duration_off : F
  pub max_duration : F

-- The variables of the loop over the frames.
pub record Scan (F : Type 0) : Type 0 where
  pub start : F
  pub is_active : Bool
  pub curr_scores : List F
  pub curr_timestamps : List F
  pub last : F
  pub regions : List (F × F)

module _ {F : Type 0} (o : Floats F) where
  open o use {fzero, sub, add, flt, feq}

  -- The constructor: `offset or onset`.
  unfoldable pub create : F → Option F → F → F → F → F → F → Binarize F
  create onset offset min_duration_on min_duration_off pad_onset pad_offset max_duration = record {
    onset = onset;
    offset = elim offset [ none ↦ onset | some given ↦ if feq given fzero then onset else given ];
    pad_onset = pad_onset;
    pad_offset = pad_offset;
    min_duration_on = min_duration_on;
    min_duration_off = min_duration_off;
    max_duration = max_duration;
  }

  -- The first index, from `i` on, of a least score, where `best` is the least one so far.
  abbrev pub argmin_from : ℕ → F → ℕ → List F → ℕ
  argmin_from at best i [] = at
  argmin_from at best i (y ∷ ys) =
      let less = argmin_from i y (i + 1) ys in
      let same = argmin_from at best (i + 1) ys in if flt y best then less else same

  -- `np.argmin`
  abbrev pub argmin : List F → Option ℕ
  argmin [] = none
  argmin (y ∷ ys) = some (argmin_from 0 y 1 ys)

  module _ (b : Binarize F) where
    abbrev pub region : F → F → F × F
    region start end = (sub start b.pad_onset, add end b.pad_offset)

    -- The segment is divided at the index `at`, whose timestamp is looked up.
    unfoldable pub divide_at : Scan F → ℕ → Option F → Option (Scan F)
    divide_at s at none = none
    divide_at s at (some min_score_t) = some (record s {
      regions = s.regions ++ region s.start min_score_t ∷ [];
      start = min_score_t;
      curr_scores = drop (at + 1) s.curr_scores;
      curr_timestamps = drop (at + 1) s.curr_timestamps;
    })

    unfoldable pub divide_by : Scan F → ℕ → Option ℕ → Option (Scan F)
    unfolding divide_at
    divide_by s search_after none = none
    divide_by s search_after (some least) =
        let at = search_after + least in divide_at s at (get_elem? s.curr_timestamps at)

    -- The division of a segment that is too long.
    unfoldable pub divide : Scan F → Option (Scan F)
    unfolding divide_by
    divide s =
        let search_after = length s.curr_scores / 2 in
        divide_by s search_after (argmin (drop search_after s.curr_scores))

    abbrev pub append_frame : F → F → Scan F → Scan F
    append_frame t y s = record s {
      curr_scores = s.curr_scores ++ y ∷ [];
      curr_timestamps = s.curr_timestamps ++ t ∷ [];
      last = t;
    }

    abbrev pub appended_frame : F → F → Option (Scan F) → Option (Scan F)
    appended_frame t y none = none
    appended_frame t y (some s) = some (append_frame t y s)

    -- Switching from active to inactive.
    unfoldable pub deactivate : Scan F → F → Scan F
    deactivate s t = record s {
      regions = s.regions ++ region s.start t ∷ [];
      start = t;
      is_active = false;
      curr_scores = [];
      curr_timestamps = [];
    }

    -- A round of the loop.
    unfoldable pub scan_frame : Scan F → F → F → Option (Scan F)
    unfolding divide deactivate
    scan_frame s t y =
        if s.is_active
        then appended_frame t y (
            if flt b.max_duration (sub t s.start)
            then divide s
            else if flt y b.offset
            then some (deactivate s t)
            else some s)
        else if flt b.onset y
        then some (record s { start = t; is_active = true; last = t })
        else some (record s { last = t })

    unfoldable pub continue_scan {ℓ} :
        {R : Type ℓ} → Option (Scan F) → (Scan F → Option R) → Option R
    continue_scan none next = none
    continue_scan (some s) next = next s

    unfoldable pub scan_frames : Scan F → List (F × F) → Option (Scan F)
    unfolding scan_frame continue_scan
    scan_frames s [] = some s
    scan_frames s ((t, y) ∷ frames) = continue_scan (scan_frame s t y) (λ s'. scan_frames s' frames)

    -- The region that is active at the end.
    unfoldable pub finish_scan : Scan F → List (F × F)
    finish_scan s = if s.is_active then s.regions ++ region s.start s.last ∷ [] else s.regions

    -- The loop for a class.
    unfoldable pub regions_of : List (F × F) → Option (List (F × F))
    unfolding scan_frames finish_scan
    regions_of [] = none
    regions_of ((t, y) ∷ frames) =
        continue_scan
          (scan_frames
            (record {
              start = t;
              is_active = flt b.onset y;
              curr_scores = y ∷ [];
              curr_timestamps = t ∷ [];
              last = t;
              regions = [];
            })
            frames)
          (λ s. some (finish_scan s))

    -- What `__call__` does behind the loop: `support` with its collar is pyannote's, and a maximal
    -- duration together with padding or filling is an error.
    unfoldable pub trim :
        (F → List (F × F) → List (F × F)) → F → List (F × F) → Option (List (F × F))
    trim support infinity regions =
        let fills =
          flt fzero b.pad_offset || flt fzero b.pad_onset || flt fzero b.min_duration_off in
        let merged = if fills then support b.min_duration_off regions else regions in
        if fills && flt b.max_duration infinity
        then none
        else some (
            if flt fzero b.min_duration_on
            then filter (λ r. not (flt (sub r.1 r.0) b.min_duration_on)) merged
            else merged)
