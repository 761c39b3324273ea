-- ===== src/Pipeline/Wiring/Words.antt =====
-- The transcription and the confirmation of words find their fields.
use live_translation.Common.{
  ◌≡◌, refl, not, List, filter, ◌++◌, [], ◌∷◌, Option, none, some, inl, inr, Bool-cases,
}
use live_translation.Common.Int.{ℤ}
use live_translation.Common.Sort.{sorted}
use live_translation.Common.Float.{Floats}
use live_translation.Common.Result.{ok}
use live_translation.Data.{AudioData, Word, TextSegment}
use live_translation.Whisper.{has_chunks, transcribe_audio, transcribe_from, transcribed}
use live_translation.Whisper
use live_translation.ConfirmWords.{
  TextTables, words_of, confirm_segments, confirm_fields, ConfirmWords, is_confirmed, is_old,
  is_probable, by_start, finish,
}
use live_translation.ConfirmWords
use live_translation.ConfirmWords.Overlaps.{without_overlaps, remove_overlaps-without_overlaps}
use live_translation.Pipeline.{State, Stateless, transcribe, confirm}
use live_translation.Pipeline.Wiring.{Ends, IsBuffered, IsSpoken, IsTranscribed, IsConfirmed}

module _ {A T : Type 0} (o : Floats ℤ) (t : TextTables ℤ) (m : Stateless A T) where
  transcribe_from-Ends :
      (d : AudioData ℤ A) (audio : A) (start_after : Option ℤ)
      → IsBuffered d
      → d.audio_buffer_start_after ≡ start_after
      → (let q = transcribe_from o m.models d audio start_after in Ends IsTranscribed q.0 q.1)
  unfolding transcribe_from transcribed
  transcribe_from-Ends d audio none (a, b, ea, eb) h = cc
  transcribe_from-Ends d audio (some start_after) h e = (_, refl, h)

  transcribe_audio-Ends :
      (d : AudioData ℤ A) (audio : Option A)
      → IsSpoken d
      → d.audio_data ≡ audio
      → (let q = transcribe_audio o m.models d audio in Ends IsTranscribed q.0 q.1)
  unfolding transcribe_audio
  transcribe_audio-Ends d none (c, (x, y, ex, ey, h)) e = cc
  transcribe_audio-Ends d (some audio) (c, (x, y, ex, ey, h)) e =
      rw c (transcribe_from-Ends d audio d.audio_buffer_start_after h refl)

  pub transcribe-Ends :
      (s : State) (d : AudioData ℤ A)
      → IsSpoken d
      → (let q = transcribe o t m s d in Ends IsTranscribed q.1 q.2)
  unfolding transcribe Whisper.execute
  transcribe-Ends s d h = elim (Bool-cases m.models.loaded) [
    | inr missing ↦ rw missing refl
    | inl loaded ↦ rw loaded (transcribe_audio-Ends d d.audio_data h refl)
  ]

  pub confirm_all-total :
      (s : ConfirmWords ℤ) (buffer_end : ℤ) (words : List (Word ℤ))
      → (r : ConfirmWords ℤ × List (Word ℤ)) × (ConfirmWords.confirm o t s buffer_end words ≡ ok r)
  unfolding ConfirmWords.confirm
  confirm_all-total s buffer_end words =
      let fresh = filter (λ w. not (is_confirmed o t s w)) words in
      let all = s.confirmed ++ filter (is_old o t s buffer_end) fresh in
      let in_order = sorted (by_start o t) (filter (is_probable o t) all) in
      (
        (finish o t s (without_overlaps o t in_order), fresh),
        rw (remove_overlaps-without_overlaps o t in_order) refl,
      )

  confirm_segments-Ends :
      (s : ConfirmWords ℤ) (d : AudioData ℤ A) (a b : ℤ) (words : List (Word ℤ))
      → (let q = confirm_segments o t s d a b words in Ends IsConfirmed q.1 q.2)
  unfolding confirm_segments
  confirm_segments-Ends s d a b [] = (s.confirmed, [], refl, refl)
  confirm_segments-Ends s d a b (w ∷ ws) =
      let ((s', unconfirmed), e) = confirm_all-total s (o.add a b) (w ∷ ws) in
      rw e (s'.confirmed, unconfirmed, refl, refl)

  confirm_fields-Ends :
      (s : ConfirmWords ℤ) (d : AudioData ℤ A) (segments : Option (List (TextSegment ℤ)))
      (a b : Option ℤ)
      → IsTranscribed d
      → d.transcribed_segments ≡ segments
      → d.audio_buffer_start_after ≡ a
      → d.audio_buffer_time ≡ b
      → (let q = confirm_fields o t s d segments a b in Ends IsConfirmed q.1 q.2)
  unfolding confirm_fields
  confirm_fields-Ends s d none a b (x, ex, (u, v, eu, ev)) h k l = cc
  confirm_fields-Ends s d (some xs) none b (x, ex, (u, v, eu, ev)) h k l = cc
  confirm_fields-Ends s d (some xs) (some a) none (x, ex, (u, v, eu, ev)) h k l = cc
  confirm_fields-Ends s d (some xs) (some a) (some b) v h k l =
      confirm_segments-Ends s d a b (words_of o t xs)

  pub confirm-Ends :
      (s : State) (d : AudioData ℤ A)
      → IsTranscribed d
      → (let q = confirm o t m s d in Ends IsConfirmed q.1 q.2)
  unfolding confirm ConfirmWords.execute
  confirm-Ends s d h =
      confirm_fields-Ends s.confirm_words d d.transcribed_segments d.audio_buffer_start_after
        d.audio_buffer_time h refl refl refl
