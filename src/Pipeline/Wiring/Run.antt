-- ===== src/Pipeline/Wiring/Run.antt =====
-- Each module of the pipeline finds the fields that it asks for, because the modules before it have
-- filled them.
use live_translation.Common.Int.{ℤ}
use live_translation.Common.Float.{Floats}
use live_translation.Data.{AudioData}
use live_translation.ConfirmWords.{TextTables}
use live_translation.Pipeline.{
  State, Stateless, ◌▷◌, create_audio_buffer, limit_rate, convert_audio, detect_voice, transcribe,
  confirm, run,
}
use live_translation.Pipeline.Wiring.{
  Ends, ▷-Ends, IsBuffered, IsConverted, IsSpoken, IsTranscribed, IsConfirmed,
}
use live_translation.Pipeline.Wiring.Audio.{
  create_audio_buffer-Ends, limit_rate-Ends, convert_audio-Ends,
}
use live_translation.Pipeline.Wiring.Voice.{detect_voice-Ends}
use live_translation.Pipeline.Wiring.Words.{transcribe-Ends, confirm-Ends}

module _ {A T : Type 0} (o : Floats ℤ) (t : TextTables ℤ) (m : Stateless A T) where
  -- Whatever the state and the package, a package that passes through all modules has confirmed and
  -- unconfirmed words. No module raises because the start, the length or the sample rate of the
  -- audio, the speech chunks or the segments are missing, nor does the removal of overlapping words
  -- index out of range. What a module may raise is that there are no bytes or no audio, an error of
  -- ogg.py, that the conversion fails, that a model is not loaded, that the waveform has more than
  -- two dimensions, that the chunk size is not positive, that the model gives no frame, or another
  -- failure of the binarization.
  pub run-Ends :
      (now : ℤ) (s : State) (d : AudioData ℤ A)
      → (let q = run o t m now s d in Ends IsConfirmed q.1 q.2)
  unfolding run
  run-Ends now s d =
      let buffered = create_audio_buffer o t m s d in
      let limited = buffered ▷ limit_rate o t m now in
      let converted = limited ▷ convert_audio o t m in
      let spoken = converted ▷ detect_voice o t m in
      let transcribed = spoken ▷ transcribe o t m in
      let h = create_audio_buffer-Ends o t m s d in
      let h1 =
        ▷-Ends IsBuffered IsBuffered buffered (limit_rate o t m now) h
          (limit_rate-Ends o t m now) in
      let h2 =
        ▷-Ends IsBuffered IsConverted limited (convert_audio o t m) h1 (convert_audio-Ends o t m) in
      let h3 =
        ▷-Ends IsConverted IsSpoken converted (detect_voice o t m) h2 (detect_voice-Ends o t m) in
      let h4 = ▷-Ends IsSpoken IsTranscribed spoken (transcribe o t m) h3 (transcribe-Ends o t m) in
      ▷-Ends IsTranscribed IsConfirmed transcribed (confirm o t m) h4 (confirm-Ends o t m)
