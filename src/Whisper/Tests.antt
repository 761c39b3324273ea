-- ===== src/Whisper/Tests.antt =====
-- The theorem about the transcription module at a model that hears one word.
use live_translation.Common.{ℕ, true, false, List, [], ◌∷◌, none, some}
use live_translation.Common.Int.{ℤ, pos, negsuc}
use live_translation.Common.Ticks.{ticks}
use live_translation.Data.{TextSegment, AudioData}
use live_translation.ConfirmWords.{TextTables}
use live_translation.Whisper.{Models, execute}
use live_translation.Whisper.Words.{IsShifted, execute-IsShifted}

abbrev tables : TextTables ℤ
tables = record {
  lower = λ text. text;
  is_symbol = λ c. false;
  ratio = λ a b. pos 7;
  minus_one = negsuc 0;
  seven_tenths = pos 7;
  two_tenths = pos 2;
}

abbrev heard : List (TextSegment ℤ)
heard =
    record {
      text = 97 ∷ [];
      start = pos 1;
      end = pos 2;
      words =
          some (record { word = 97 ∷ []; start = pos 1; end = pos 2; probability = pos 5 } ∷ []);
      probability = none;
    }
    ∷ []

-- Audio is a number.
abbrev models : Models ℤ ℕ
models = record {
  loaded = true;
  batching = false;
  has_batched = false;
  transcribe = λ audio. heard;
  transcribe_batched = λ audio chunks. [];
}

abbrev received : AudioData ℤ ℕ
received = record {
  raw_audio_data = [];
  audio_buffer = none;
  audio_buffer_time = none;
  audio_buffer_start_after = some (pos 30);
  audio_data = some 1;
  audio_data_sample_rate = none;
  vad_result = none;
  language = none;
  transcribed_segments = none;
  confirmed_words = none;
  unconfirmed_words = none;
  translations = none;
}

execute-IsShifted_example : IsShifted ticks tables models received (execute ticks models received)
execute-IsShifted_example = execute-IsShifted ticks tables models received
