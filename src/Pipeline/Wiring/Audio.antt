-- ===== src/Pipeline/Wiring/Audio.antt =====
-- The audio buffer, the rate limiter and the conversion fill the fields of the audio.
use live_translation.Common.{refl, ap, [], ◌∷◌, Option, none, some, arith}
use live_translation.Common.Int.{ℤ}
use live_translation.Common.Float.{Floats}
use live_translation.Data.{AudioData, passed, exited, raised}
use live_translation.AudioBuffer.{execute_data}
use live_translation.AudioBuffer.Output.{Delivers, execute_data-Delivers}
use live_translation.RateLimiter.{RateLimiter}
use live_translation.RateLimiter
use live_translation.Convert.{load_audio_from_binary, store_audio, convert}
use live_translation.Ogg.Bytes.{Bytes}
use live_translation.Convert
use live_translation.ConfirmWords.{TextTables}
use live_translation.Pipeline.{State, Stateless, create_audio_buffer, limit_rate, convert_audio}
use live_translation.Pipeline.Wiring.{Ends, IsBuffered, IsConverted, about_bytes}

module _ {A T : Type 0} (o : Floats ℤ) (t : TextTables ℤ) (m : Stateless A T) where
  pub create_audio_buffer-Ends :
      (s : State) (d : AudioData ℤ A)
      → (let q = create_audio_buffer o t m s d in Ends IsBuffered q.1 q.2)
  unfolding create_audio_buffer
  create_audio_buffer-Ends s d =
      by_case (execute_data o s.audio_buffer d) (execute_data-Delivers o s.audio_buffer d)
    where
      by_case : (q : _) → Delivers d q → Ends IsBuffered q.1 q.2
      by_case (b, d', passed) h = (
        b.start_of_buffer_time,
        b.current_audio_buffer_seconds,
        ap (λ x. x.audio_buffer_start_after) h,
        ap (λ x. x.audio_buffer_time) h,
      )
      by_case (b, d', exited x) h = tt
      by_case (b, d', raised e) h = about_bytes d e h.1

  pub limit_rate-Ends :
      (now : ℤ) (s : State) (d : AudioData ℤ A)
      → IsBuffered d
      → (let q = limit_rate o t m now s d in Ends IsBuffered q.1 q.2)
  unfolding limit_rate RateLimiter.execute
  limit_rate-Ends now s d h = ground arith

  store_audio-Ends :
      (d : AudioData ℤ A) (audio : Option A)
      → IsBuffered d
      → (let q = store_audio m.converter d audio in Ends IsConverted q.0 q.1)
  unfolding store_audio
  store_audio-Ends d none h = refl
  store_audio-Ends d (some audio) h = (audio, m.converter.convert_sample_rate, refl, refl, h)

  convert-Ends :
      (d : AudioData ℤ A) (raw : Bytes)
      → IsBuffered d
      → (let q = convert m.converter d raw in Ends IsConverted q.0 q.1)
  unfolding convert
  convert-Ends d [] h = refl
  convert-Ends d (b ∷ bs) h = store_audio-Ends d (load_audio_from_binary m.converter (b ∷ bs)) h

  pub convert_audio-Ends :
      (s : State) (d : AudioData ℤ A)
      → IsBuffered d
      → (let q = convert_audio o t m s d in Ends IsConverted q.1 q.2)
  unfolding convert_audio Convert.execute
  convert_audio-Ends s d h = convert-Ends d d.raw_audio_data h
