-- ===== src/Pipeline/Wiring/Voice.antt =====
-- The detection of speech finds its fields, and leaves chunks behind where it passes.
use live_translation.Common.{
  ◌==◌, ltb, ℕ, ◌≡◌, refl, true, false, List, [], ◌∷◌, Option, none, some, inl, inr, Bool-cases,
}
use live_translation.Common.Int.{ℤ}
use live_translation.Common.Float.{Floats}
use live_translation.Common.Result.{Result, ok, err, ◌>>=◌}
use live_translation.Data.{AudioData, Fault, Chunk}
use live_translation.Vad.Binarize.{regions_of}
use live_translation.Vad.{
  merge_chunks, merge_segments, or_failed, binarizer, apply, two_dimensional, binarized,
  judge_chunks, is_silent, chunk_size_of, detect, detect_fields,
}
use live_translation.Vad
use live_translation.Whisper.{has_chunks}
use live_translation.ConfirmWords.{TextTables}
use live_translation.Pipeline.{State, Stateless, detect_voice}
use live_translation.Pipeline.Wiring.{Ends, IsConverted, IsSpoken, IsFine, >>=-IsFine}

module _ {A T : Type 0} (o : Floats ℤ) (t : TextTables ℤ) (m : Stateless A T) where
  -- Behind a silent or empty timeline the module exits.
  has_chunks-not_silent :
      (chunks : List (Chunk ℤ)) (latest : ℤ)
      → is_silent o m.pyannote.is_float chunks latest ≡ false
      → has_chunks (some chunks) ≡ true
  has_chunks-not_silent [] latest h = cc
  has_chunks-not_silent (c ∷ cs) latest h = refl

  or_failed-IsFine {ℓ} : {R : Type ℓ} (x : Option R) → IsFine (or_failed o x)
  or_failed-IsFine none = refl
  or_failed-IsFine (some x) = tt

  binarized-IsFine :
      (size : ℤ) (frames : List (ℤ × ℤ)) → IsFine (binarized o m.pyannote size frames)
  unfolding binarized
  binarized-IsFine size [] = refl
  binarized-IsFine size (frame ∷ frames) =
      >>=-IsFine (or_failed o (regions_of o (binarizer o m.pyannote size) (frame ∷ frames))) _
        (or_failed-IsFine _) (λ regions. or_failed-IsFine _)

  merge_chunks-IsFine :
      (size : ℤ) (frames : List (ℤ × ℤ)) → IsFine (merge_chunks o m.pyannote size frames)
  unfolding merge_chunks
  merge_chunks-IsFine size frames = elim (Bool-cases (o.flt o.fzero size)) [
    | inr small ↦ rw (small, merge_chunks) refl
    | inl large ↦
        rw (large, merge_chunks)
          (>>=-IsFine (binarized o m.pyannote size frames)
            (λ active. ok (merge_segments o size (m.pyannote.get_timeline active)))
            (binarized-IsFine size frames) (λ active. tt))
  ]

  apply-IsFine : (audio : A) (sample_rate : ℕ) → IsFine (apply m.pyannote audio sample_rate)
  unfolding apply two_dimensional
  apply-IsFine audio sample_rate =
      let n = m.pyannote.ndim (m.pyannote.tensor audio) in
      elim (Bool-cases (n == 1)) [
        | inl one ↦ simp one tt
        | inr other ↦ elim (Bool-cases (ltb 2 n)) [
          | inl many ↦ simp (other, many) refl
          | inr two ↦ simp (other, two) tt
        ]
      ]

  judge_chunks-Ends :
      (d : AudioData ℤ A) (time : ℤ) (merged : Result Fault (List (Chunk ℤ)))
      → IsConverted d
      → IsFine merged
      → (let q = judge_chunks o m.pyannote m.vad d time merged in Ends IsSpoken q.0 q.1)
  unfolding judge_chunks
  judge_chunks-Ends d time (err fault) h fine = fine
  judge_chunks-Ends d time (ok merged) h fine =
      let latest = o.sub time m.vad.last_time_spoken_offset in
      elim (Bool-cases (is_silent o m.pyannote.is_float merged latest)) [
        | inl silent ↦ rw silent tt
        | inr spoken ↦ rw spoken (has_chunks-not_silent merged latest spoken, h)
      ]

  detect-Ends :
      (d : AudioData ℤ A) (audio : A) (time : ℤ) (sample_rate : ℕ)
      → IsConverted d
      → (let q = detect o m.pyannote m.vad d audio time sample_rate in Ends IsSpoken q.0 q.1)
  unfolding detect
  detect-Ends d audio time sample_rate h =
      let size = chunk_size_of o m.pyannote m.vad time in
      judge_chunks-Ends d time
        (apply m.pyannote audio sample_rate >>= λ frames. merge_chunks o m.pyannote size frames) h
        (>>=-IsFine (apply m.pyannote audio sample_rate) (merge_chunks o m.pyannote size)
          (apply-IsFine audio sample_rate) (merge_chunks-IsFine size))

  detect_fields-Ends :
      (d : AudioData ℤ A) (audio : Option A) (time : Option ℤ) (sample_rate : Option ℕ)
      → IsConverted d
      → d.audio_data ≡ audio
      → d.audio_buffer_time ≡ time
      → d.audio_data_sample_rate ≡ sample_rate
      → (let q = detect_fields o m.pyannote m.vad d audio time sample_rate in Ends IsSpoken q.0 q.1)
  unfolding detect_fields
  detect_fields-Ends d none time sample_rate (x, y, ex, ey, (a, b, ea, eb)) h k l = cc
  detect_fields-Ends d (some audio) none sample_rate (x, y, ex, ey, (a, b, ea, eb)) h k l = cc
  detect_fields-Ends d (some audio) (some time) none (x, y, ex, ey, (a, b, ea, eb)) h k l = cc
  detect_fields-Ends d (some audio) (some time) (some sample_rate) v h k l =
      detect-Ends d audio time sample_rate v

  pub detect_voice-Ends :
      (s : State) (d : AudioData ℤ A)
      → IsConverted d
      → (let q = detect_voice o t m s d in Ends IsSpoken q.1 q.2)
  unfolding detect_voice Vad.execute
  detect_voice-Ends s d h = elim (Bool-cases m.vad.loaded) [
    | inr missing ↦ rw missing refl
    | inl loaded ↦ rw loaded (
        detect_fields-Ends d d.audio_data d.audio_buffer_time d.audio_data_sample_rate h refl refl
          refl)
  ]
