-- ===== src/Vad/Binarize/Total.antt =====
-- The loop of `Binarize` in m_vad.py never looks beyond its lists.
use live_translation.Common.{
  ℕ, zero, suc, ◌+◌, ◌/◌, ◌<◌, ◌≤◌, ◌≡◌, refl, true, List, [], ◌∷◌, ◌++◌, some, arith, drop, length,
  length-drop, length-append, get_elem?, Bool-cases, inl, inr,
}
use live_translation.Common.Float.{Floats}
use live_translation.Vad.Binarize.{
  Binarize, Scan, argmin_from, argmin, divide_at, divide_by, divide, append_frame, deactivate,
  scan_frame, continue_scan, scan_frames, finish_scan, regions_of,
}

get_elem?-some {ℓ} :
    {A : Type ℓ} (xs : List A) (i : ℕ) → i < length xs → (a : A) × (get_elem? xs i ≡ some a)
get_elem?-some [] i h = absurd (omega arith)
get_elem?-some (x ∷ xs) zero h = (x, refl)
get_elem?-some (x ∷ xs) (suc i) h = get_elem?-some xs i (omega arith)

one_more {ℓ} : {A : Type ℓ} (xs : List A) (x : A) → length (xs ++ x ∷ []) ≤ length xs + 1
one_more xs x = omega (arith, length-append xs (x ∷ []))

module _ {F : Type 0} (o : Floats F) where
  argmin_from-lt :
      (at i : ℕ) (best : F) (ys : List F) → at < i → argmin_from o at best i ys < i + length ys
  argmin_from-lt at i best [] h = omega arith
  argmin_from-lt at i best (y ∷ ys) h = ground (
    arith,
    argmin_from-lt i (i + 1) y ys (omega arith),
    argmin_from-lt at (i + 1) best ys (omega arith),
  )

  argmin-some : (ys : List F) → 0 < length ys → (i : ℕ) × (argmin o ys ≡ some i) × (i < length ys)
  argmin-some [] h = absurd (omega arith)
  argmin-some (y ∷ ys) h =
      (argmin_from o 0 y 1 ys, refl, omega (arith, argmin_from-lt 0 1 y ys (omega arith)))

  -- The two lists are as long as each other, and not empty.
  abbrev pub IsPaired : Scan F → Type 0
  IsPaired s = (length s.curr_scores ≡ length s.curr_timestamps) × (0 < length s.curr_scores)

  module _ (b : Binarize F) where
    divide-some :
        (s : Scan F)
        → IsPaired s
        → (s' : Scan F) × (divide o b s ≡ some s')
          × (length s'.curr_scores ≡ length s'.curr_timestamps)
          × (length s'.regions ≤ length s.regions + 1)
    unfolding divide divide_by divide_at
    divide-some s (paired, filled) =
        let half = length s.curr_scores / 2 in
        let (i, e, below) =
          argmin-some (drop half s.curr_scores) (omega (arith, length-drop half s.curr_scores)) in
        let (t, e') =
          get_elem?-some s.curr_timestamps (half + i)
            (omega (arith, length-drop half s.curr_scores)) in
        let at = half + i in
        (
          record s {
            regions = s.regions ++ (o.sub s.start b.pad_onset, o.add t b.pad_offset) ∷ [];
            start = t;
            curr_scores = drop (at + 1) s.curr_scores;
            curr_timestamps = drop (at + 1) s.curr_timestamps;
          },
          simp (e, e') refl,
          omega (
            arith,
            paired,
            length-drop (at + 1) s.curr_scores,
            length-drop (at + 1) s.curr_timestamps,
          ),
          one_more s.regions _,
        )

    append-IsPaired :
        (s : Scan F) (t y : F)
        → length s.curr_scores ≡ length s.curr_timestamps
        → IsPaired (append_frame o b t y s)
    append-IsPaired s t y e = (
      omega (
        arith,
        e,
        length-append s.curr_scores (y ∷ []),
        length-append s.curr_timestamps (t ∷ []),
      ),
      omega (arith, length-append s.curr_scores (y ∷ [])),
    )

    scan_frame-some :
        (s : Scan F) (t y : F)
        → IsPaired s
        → (s' : Scan F) × (scan_frame o b s t y ≡ some s')
          × IsPaired s'
          × (length s'.regions ≤ length s.regions + 1)
    unfolding scan_frame deactivate
    scan_frame-some s t y v = elim (Bool-cases s.is_active) [
      | inr inactive ↦ elim (Bool-cases (o.flt b.onset y)) [
        | inl begins ↦ (
          record s { start = t; is_active = true; last = t },
          simp (inactive, begins) refl,
          v,
          omega arith,
        )
        | inr quiet ↦ (record s { last = t }, simp (inactive, quiet) refl, v, omega arith)
      ]
      | inl active ↦ elim (Bool-cases (o.flt b.max_duration (o.sub t s.start))) [
        | inl long ↦
            let (s', e, paired, more) = divide-some s v in
            (
              append_frame o b t y s',
              simp (active, long, e) refl,
              append-IsPaired s' t y paired,
              more,
            )
        | inr short ↦ elim (Bool-cases (o.flt y b.offset)) [
          | inl ends ↦ (
            append_frame o b t y (deactivate o b s t),
            simp (active, short, ends) refl,
            (refl, omega arith),
            one_more s.regions _,
          )
          | inr goes_on ↦ (
            append_frame o b t y s,
            simp (active, short, goes_on) refl,
            append-IsPaired s t y v.0,
            omega arith,
          )
        ]
      ]
    ]

    scan_frames-some :
        (s : Scan F) (frames : List (F × F))
        → IsPaired s
        → (s' : Scan F) × (scan_frames o b s frames ≡ some s')
          × (length s'.regions ≤ length s.regions + length frames)
    unfolding scan_frames continue_scan
    scan_frames-some s [] v = (s, refl, omega arith)
    scan_frames-some s ((t, y) ∷ frames) v =
        let (s', e, v', more) = scan_frame-some s t y v in
        let (s'', e', most) = scan_frames-some s' frames v' in (s'', rw (e, e'), omega arith)

    finish_scan-length : (s : Scan F) → length (finish_scan o b s) ≤ length s.regions + 1
    unfolding finish_scan
    finish_scan-length s = elim (Bool-cases s.is_active) [
      | inl active ↦ rw active (one_more s.regions _)
      | inr inactive ↦ rw inactive (omega arith)
    ]

    -- For a class with one frame or more the loop raises nothing, and it finds at most as many
    -- regions as there are frames.
    pub regions_of-total :
        (frame : F × F) (frames : List (F × F))
        → (regions : List (F × F)) × (regions_of o b (frame ∷ frames) ≡ some regions)
          × (length regions ≤ length (frame ∷ frames))
    unfolding regions_of continue_scan
    regions_of-total (t, y) frames =
        let first : Scan F = record {
          start = t;
          is_active = o.flt b.onset y;
          curr_scores = y ∷ [];
          curr_timestamps = t ∷ [];
          last = t;
          regions = [];
        } in
        let (s, e, most) = scan_frames-some first frames (refl, omega arith) in
        (finish_scan o b s, rw e, omega (arith, most, finish_scan-length s))
