-- ===== src/ConfirmWords/Tests.antt =====
-- Tests of the confirmation of words, and the theorems about it at concrete words.
use live_translation.Common.{ℕ, ◌≡◌, refl, false, List, [], ◌∷◌, none, some, arith}
use live_translation.Common.Int.{ℤ, pos, negsuc, ◌+ℤ◌, ◌-ℤ◌}
use live_translation.Common.Result.{ok}
use live_translation.Common.Sort.{sorted}
use live_translation.Common.Ticks.{ticks, ticks-IsOrdered}
use live_translation.Data.{Word, AudioData}
use live_translation.ConfirmWords.{
  TextTables, ConfirmWords, overlaps, remove_overlaps, remove_indices, overlap_indices, pop_at,
  execute, finish,
}
use live_translation.ConfirmWords.Overlaps.{without_overlaps, remove_overlaps-without_overlaps}
use live_translation.ConfirmWords.Invariant.{IsClean, execute-IsClean}

-- Texts are similar if they are equal; probabilities are in tenths.
abbrev tables : TextTables ℤ
tables = record {
  lower = λ text. text;
  is_symbol = λ c. false;
  ratio = λ a b. pos 7;
  minus_one = negsuc 0;
  seven_tenths = pos 7;
  two_tenths = pos 2;
}

abbrev word_at : ℕ → ℤ → ℤ → Word ℤ
word_at c start end = record { word = c ∷ []; start = start; end = end; probability = pos 5 }

abbrev words : List (Word ℤ)
words = word_at 97 (pos 0) (pos 5) ∷ word_at 97 (pos 3) (pos 6) ∷ word_at 98 (pos 6) (pos 8) ∷ []

remove_overlaps-words :
    remove_overlaps ticks tables words
    ≡ ok (word_at 97 (pos 3) (pos 6) ∷ word_at 98 (pos 6) (pos 8) ∷ [])
unfolding remove_overlaps overlap_indices overlaps remove_indices pop_at
remove_overlaps-words = refl

remove_overlaps-without_overlaps_example :
    remove_overlaps ticks tables words ≡ ok (without_overlaps ticks tables words)
remove_overlaps-without_overlaps_example = remove_overlaps-without_overlaps ticks tables words

-- A module that confirms what is older than one tick, and keeps ten words.
abbrev confirmer : ConfirmWords ℤ
confirmer = record {
  offset = pos 0;
  max_confirmed_words = 10;
  confirm_if_older_then = pos 1;
  confirmed = word_at 99 (pos 0) (pos 1) ∷ [];
  confirmed_end_time = pos 1;
}

abbrev received : AudioData ℤ ℕ
received = record {
  raw_audio_data = [];
  audio_buffer = none;
  audio_buffer_time = some (pos 20);
  audio_buffer_start_after = some (pos 0);
  audio_data = none;
  audio_data_sample_rate = none;
  vad_result = none;
  language = none;
  transcribed_segments = some (
      record { text = []; start = pos 0; end = pos 8; words = some words; probability = none }
      ∷ []);
  confirmed_words = none;
  unconfirmed_words = none;
  translations = none;
}

confirmer-IsClean : IsClean ticks tables ticks-IsOrdered confirmer
confirmer-IsClean = record { in_order = tt; probable = (refl, tt); bounded = λ h. ground arith }

execute-words :
    (execute ticks tables confirmer received).0.confirmed
    ≡ word_at 99 (pos 0) (pos 1) ∷ word_at 97 (pos 3) (pos 6) ∷ word_at 98 (pos 6) (pos 8) ∷ []
unfolding execute finish remove_overlaps overlap_indices overlaps remove_indices pop_at ◌+ℤ◌ ◌-ℤ◌
    sorted
execute-words = refl

execute-IsClean_example :
    IsClean ticks tables ticks-IsOrdered (execute ticks tables confirmer received).0
execute-IsClean_example =
    execute-IsClean ticks tables ticks-IsOrdered confirmer received confirmer-IsClean
