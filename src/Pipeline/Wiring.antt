-- ===== src/Pipeline/Wiring.antt =====
-- What holds of a package between the modules of the pipeline.
pub mod Audio
pub mod Voice
pub mod Words
pub mod Run
use live_translation.Common.{
  ◌==◌, ltb, ℕ, ◌≡◌, refl, ap, Bool, true, false, not, List, filter, ◌++◌, [], ◌∷◌, Option, none,
  some, inl, inr, Bool-cases, arith,
}
use live_translation.Common.Int.{ℤ}
use live_translation.Common.Sort.{sorted}
use live_translation.Common.Float.{Floats}
use live_translation.Common.Result.{Result, ok, err, ◌>>=◌}
use live_translation.Data.{
  AudioData, Outcome, passed, exited, raised, Fault, no_data, no_audio_data, no_transcribed_words,
  no_start_time, no_buffer_time, no_sample_rate, no_model, no_vad_audio, index_out_of_range,
  assertion_failed, conversion_failed, no_frames, binarize_failed, invalid_shape, ogg_error, Chunk,
  Word, TextSegment,
}
use live_translation.AudioBuffer.{execute_data}
use live_translation.AudioBuffer.Output.{IsAboutBytes, Delivers, execute_data-Delivers}
use live_translation.RateLimiter.{RateLimiter}
use live_translation.RateLimiter
use live_translation.Convert.{load_audio_from_binary, store_audio, convert}
use live_translation.Ogg.Bytes.{Bytes}
use live_translation.Convert
use live_translation.Vad.Binarize.{regions_of}
use live_translation.Vad.{
  merge_chunks, merge_segments, or_failed, binarizer, apply, two_dimensional, binarized,
  judge_chunks, is_silent, chunk_size_of, detect, detect_fields,
}
use live_translation.Vad
use live_translation.Whisper.{has_chunks, transcribe_audio, transcribe_from, transcribed}
use live_translation.Whisper
use live_translation.ConfirmWords.{
  TextTables, words_of, confirm_segments, confirm_fields, ConfirmWords, is_confirmed, is_old,
  is_probable, by_start, finish,
}
use live_translation.ConfirmWords
use live_translation.ConfirmWords.Overlaps.{without_overlaps, remove_overlaps-without_overlaps}
use live_translation.Pipeline.{
  State, Stateless, Progress, ◌▷◌, create_audio_buffer, limit_rate, convert_audio, detect_voice,
  transcribe, confirm, run,
}

-- A field that another module should have filled is missing (the data themselves, the times, the rate,
-- the chunks or the segments), or an index is out of range in the list of words.
abbrev pub is_wiring : Fault → Bool
is_wiring no_data = true
is_wiring no_transcribed_words = true
is_wiring no_start_time = true
is_wiring no_buffer_time = true
is_wiring no_sample_rate = true
is_wiring no_vad_audio = true
is_wiring index_out_of_range = true
is_wiring _ = false

module _ {A : Type 0} where
  -- What holds of the package if the modules passed; and what they raise is no fault of the wiring.
  abbrev pub Ends : (AudioData ℤ A → Type 0) → AudioData ℤ A → Outcome → Type 0
  Ends P d passed = P d
  Ends P d (exited m) = Unit {0}
  Ends P d (raised e) = is_wiring e ≡ false

  -- What holds after one module is what the next one may rely on.
  pub ▷-Ends :
      (P Q : AudioData ℤ A → Type 0) (r : Progress A) (next : State → AudioData ℤ A → Progress A)
      → Ends P r.1 r.2
      → ((s : State) (d : AudioData ℤ A) → P d → (let q = next s d in Ends Q q.1 q.2))
      → (let q = r ▷ next in Ends Q q.1 q.2)
  ▷-Ends P Q (s, d, passed) next h step = step s d h
  ▷-Ends P Q (s, d, exited m) next h step = tt
  ▷-Ends P Q (s, d, raised e) next h step = h

  -- The fields that are there behind the audio buffer, the conversion, the detection, and at last.
  abbrev pub IsBuffered : AudioData ℤ A → Type 0
  IsBuffered d =
      (start_after buffer_time : ℤ) × (d.audio_buffer_start_after ≡ some start_after)
      × (d.audio_buffer_time ≡ some buffer_time)

  abbrev pub IsConverted : AudioData ℤ A → Type 0
  IsConverted d =
      (audio : A) × (sample_rate : ℕ) × (d.audio_data ≡ some audio)
      × (d.audio_data_sample_rate ≡ some sample_rate)
      × IsBuffered d

  abbrev pub IsSpoken : AudioData ℤ A → Type 0
  IsSpoken d = (has_chunks d.vad_result ≡ true) × IsConverted d

  abbrev pub IsTranscribed : AudioData ℤ A → Type 0
  IsTranscribed d = (segments : _) × (d.transcribed_segments ≡ some segments) × IsBuffered d

  abbrev pub IsConfirmed : AudioData ℤ A → Type 0
  IsConfirmed d =
      (confirmed unconfirmed : List (Word ℤ)) × (d.confirmed_words ≡ some confirmed)
      × (d.unconfirmed_words ≡ some unconfirmed)

-- A result, or a fault that is not of the wiring.
abbrev pub IsFine {ℓ} : {R : Type ℓ} → Result Fault R → Type 0
IsFine (ok r) = Unit {0}
IsFine (err e) = is_wiring e ≡ false

pub >>=-IsFine {ℓ κ} :
    {R : Type ℓ} {S : Type κ} (r : Result Fault R) (f : R → Result Fault S)
    → IsFine r
    → ((x : R) → IsFine (f x))
    → IsFine (r >>= f)
>>=-IsFine (ok x) f h g = g x
>>=-IsFine (err e) f h g = h

pub about_bytes :
    {A : Type 0} (d : AudioData ℤ A) (e : Fault) → IsAboutBytes d e → is_wiring e ≡ false
about_bytes d no_audio_data h = refl
about_bytes d (ogg_error e) h = refl
about_bytes d no_data h = absurd h
about_bytes d no_transcribed_words h = absurd h
about_bytes d no_start_time h = absurd h
about_bytes d no_buffer_time h = absurd h
about_bytes d no_sample_rate h = absurd h
about_bytes d no_model h = absurd h
about_bytes d no_vad_audio h = absurd h
about_bytes d index_out_of_range h = absurd h
about_bytes d assertion_failed h = absurd h
about_bytes d conversion_failed h = absurd h
about_bytes d binarize_failed h = absurd h
about_bytes d no_frames h = absurd h
about_bytes d invalid_shape h = absurd h
