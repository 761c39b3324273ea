-- ===== src/Pipeline.antt =====
-- The pipeline that main.py builds: the modules in the order of its controllers, on one package. A
-- module whose outcome is not `passed` ends the package. Floats are numbers that stand for them, as
-- in the audio buffer.
pub mod Wiring
pub mod Confirmed
mod Tests
use live_translation.Common.{ℕ, List, Option}
use live_translation.Common.Int.{ℤ}
use live_translation.Common.Float.{Floats}
use live_translation.Data.{AudioData, Outcome, passed, exited, raised}
use live_translation.AudioBuffer.{AudioBuffer, execute_data}
use live_translation.RateLimiter.{RateLimiter}
use live_translation.RateLimiter
use live_translation.Convert.{Converter}
use live_translation.Convert
use live_translation.Vad.{Vad, Pyannote}
use live_translation.Vad
use live_translation.Whisper.{Models}
use live_translation.Whisper
use live_translation.ConfirmWords.{ConfirmWords, TextTables}
use live_translation.ConfirmWords

-- The modules that keep a state between packages.
pub record State : Type 0 where
  pub audio_buffer : AudioBuffer
  pub rate_limiter : RateLimiter ℤ
  pub confirm_words : ConfirmWords ℤ

-- The modules that keep none, and what they call.
pub record Stateless (A T : Type 0) : Type 0 where
  pub converter : Converter A
  pub vad : Vad ℤ
  pub pyannote : Pyannote ℤ A T
  pub models : Models ℤ A

-- The modules, the package, and how the last call ended.
abbrev pub Progress : Type 0 → Type 0
Progress A = State × AudioData ℤ A × Outcome

module _ {A : Type 0} where
  infixl 4 ◌▷◌
  -- The next module, if the one before it passed.
  abbrev pub ◌▷◌ : Progress A → (State → AudioData ℤ A → Progress A) → Progress A
  (s, d, passed) ▷ next = next s d
  (s, d, exited m) ▷ next = (s, d, exited m)
  (s, d, raised e) ▷ next = (s, d, raised e)

module _ {A T : Type 0} (o : Floats ℤ) (t : TextTables ℤ) (m : Stateless A T) where
  unfoldable pub create_audio_buffer : State → AudioData ℤ A → Progress A
  create_audio_buffer s d =
      let (b, d', outcome) = execute_data o s.audio_buffer d in
      (record s { audio_buffer = b }, d', outcome)

  unfoldable pub limit_rate : ℤ → State → AudioData ℤ A → Progress A
  limit_rate now s d =
      let (r, outcome) = RateLimiter.execute o s.rate_limiter now in
      (record s { rate_limiter = r }, d, outcome)

  unfoldable pub convert_audio : State → AudioData ℤ A → Progress A
  convert_audio s d = let (d', outcome) = Convert.execute m.converter d in (s, d', outcome)

  unfoldable pub detect_voice : State → AudioData ℤ A → Progress A
  detect_voice s d = let (d', outcome) = Vad.execute o m.pyannote m.vad d in (s, d', outcome)

  unfoldable pub transcribe : State → AudioData ℤ A → Progress A
  transcribe s d = let (d', outcome) = Whisper.execute o m.models d in (s, d', outcome)

  unfoldable pub confirm : State → AudioData ℤ A → Progress A
  confirm s d =
      let (w, d', outcome) = ConfirmWords.execute o t s.confirm_words d in
      (record s { confirm_words = w }, d', outcome)

  -- The four controllers, for a package that arrives at time `now`.
  unfoldable pub run : ℤ → State → AudioData ℤ A → Progress A
  unfolding create_audio_buffer limit_rate convert_audio detect_voice transcribe confirm
  run now s d =
      create_audio_buffer s d ▷ limit_rate now ▷ convert_audio ▷ detect_voice ▷ transcribe ▷ confirm
