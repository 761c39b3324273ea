-- ===== src/Evaluation/Tests.antt =====
-- Tests of the word error rate, and the theorems about it at concrete words.
mod DelaysOf
mod Stream
use live_translation.Common.{
  ℕ, ◌+◌, ◌≡◌, refl, true, false, List, [], ◌∷◌, ◌++◌, map, none, some, length, arith,
}
use live_translation.Common.Int.{ℤ, pos, negsuc, ◌+ℤ◌, ◌-ℤ◌}
use live_translation.Common.Result.{ok}
use live_translation.Common.Sort.{sorted}
use live_translation.Common.Ticks.{ticks}
use live_translation.Ogg.Bytes.{Bytes, byte_at}
use live_translation.Ogg.Page.{Page, from_bytes}
use live_translation.Ogg.Page.Format.{Fields, encode, page_of}
use live_translation.Ogg.Split.{split_ogg_data_into_pages, pages_from, page_at, no_header}
use live_translation.Ogg.IdHeader.{IdHeader}
use live_translation.Ogg.IdHeader
use live_translation.Ogg.Audio.{
  Audio, open_audio, extract_id_header, extract_comment_header, comment_header_pages,
  with_durations,
}
use live_translation.Data.{Word}
use live_translation.ConfirmWords.{TextTables, clean}
use live_translation.Evaluation.{
  Opcode, equal, replace, Matching, Statistics, compute_statistics, stripped, compare_words,
  align_all, align, add_deltas, zipped, pairs_from, statistics_of, error_rate, mean_abs,
}
use live_translation.Evaluation.Counts.{
  AreOpcodes, Counted, compute_statistics-Counted, compute_statistics-no_errors,
}
use live_translation.Evaluation.Delay.{
  LivePackage, delays_of, package_round, words_round, confirmed_round, remove_each, remove,
  add_delays, is_found, is_match, is_similar, Delays,
}
use live_translation.Evaluation.Delay.Removal.{IsEquality}
use live_translation.Evaluation.Delay.Unmatched.{Takes, delays_of-Takes, is_confirmed, AreTimed}
use live_translation.Evaluation.Playback.{Action, simulate_live_audio_stream, returned}
use live_translation.Evaluation.Playback.Complete.{
  sent_by, slept_by, simulate_live_audio_stream_complete,
}

abbrev pub word_at : ℕ → ℕ → Word ℤ
word_at c start = record {
  word = c ∷ [];
  start = pos start;
  end = pos (start + 2);
  probability = pos 5;
}

-- The transcript a b c d e, and the live words a x d f g: the longer part `b c` is replaced by `x`.
abbrev pub transcript : List (Word ℤ)
transcript = word_at 97 0 ∷ word_at 98 2 ∷ word_at 99 4 ∷ word_at 100 6 ∷ word_at 101 8 ∷ []

abbrev pub live : List (Word ℤ)
live = word_at 97 1 ∷ word_at 120 3 ∷ word_at 100 6 ∷ []

abbrev matching_as : List Opcode → Matching ℤ
matching_as ops = record {
  get_opcodes = λ a b. ops;
  strip = λ text. text;
  total = λ xs. pos 0;
  of_int = pos;
}

abbrev matching : Matching ℤ
matching = matching_as (
    record { tag = equal; i1 = 0; i2 = 1; j1 = 0; j2 = 1 }
    ∷ record { tag = replace; i1 = 1; i2 = 3; j1 = 1; j2 = 2 }
    ∷ record { tag = equal; i1 = 3; i2 = 4; j1 = 2; j2 = 3 }
    ∷ [])

-- Only one of the two replaced words is a substitution, and no word counts as deleted.
compute_statistics-surplus :
    compute_statistics ticks matching live transcript
    ≡ ok (record {
      deletions = [];
      substitutions = (word_at 98 2, word_at 120 3) ∷ [];
      insertions = [];
      wer = pos 0;
      avg_delta_start = pos 0;
      avg_delta_end = pos 0;
    })
unfolding compute_statistics compare_words align_all align zipped pairs_from add_deltas
    statistics_of error_rate mean_abs
compute_statistics-surplus = refl

abbrev pub head_word : Word ℤ
head_word = word_at 97 1

abbrev live_tail : List (Word ℤ)
live_tail = word_at 120 3 ∷ word_at 100 6 ∷ []

abbrev transcript_tail : List (Word ℤ)
transcript_tail = word_at 98 2 ∷ word_at 99 4 ∷ word_at 100 6 ∷ word_at 101 8 ∷ []

matching-AreOpcodes : AreOpcodes ticks matching head_word (word_at 97 0) live_tail transcript_tail
matching-AreOpcodes = (
  record {
    at_i = refl;
    at_j = refl;
    grows_i = omega arith;
    grows_j = omega arith;
    inside_a = omega arith;
    inside_b = omega arith;
    right = refl;
  },
  (
    record {
      at_i = refl;
      at_j = refl;
      grows_i = omega arith;
      grows_j = omega arith;
      inside_a = omega arith;
      inside_b = omega arith;
      right = (omega arith, omega arith);
    },
    (
      record {
        at_i = refl;
        at_j = refl;
        grows_i = omega arith;
        grows_j = omega arith;
        inside_a = omega arith;
        inside_b = omega arith;
        right = refl;
      },
      (refl, refl),
    ),
  ),
)

compute_statistics-Counted_example :
    (s : Statistics ℤ) × (compute_statistics ticks matching live transcript ≡ ok s)
    × Counted ticks matching head_word (word_at 97 0) live_tail transcript_tail s
compute_statistics-Counted_example =
    compute_statistics-Counted ticks matching head_word (word_at 97 0) live_tail transcript_tail
      matching-AreOpcodes

-- Live words that read as the transcript does.
abbrev same : Matching ℤ
same = matching_as (record { tag = equal; i1 = 0; i2 = 2; j1 = 0; j2 = 2 } ∷ [])

abbrev no_errors : Statistics ℤ
no_errors = record {
  deletions = [];
  substitutions = [];
  insertions = [];
  wer = pos 0;
  avg_delta_start = pos 0;
  avg_delta_end = pos 0;
}

same-AreOpcodes :
    AreOpcodes ticks same head_word (word_at 97 0) (word_at 98 3 ∷ []) (word_at 98 2 ∷ [])
same-AreOpcodes = (
  record {
    at_i = refl;
    at_j = refl;
    grows_i = omega arith;
    grows_j = omega arith;
    inside_a = omega arith;
    inside_b = omega arith;
    right = refl;
  },
  (refl, refl),
)

compute_statistics-same :
    compute_statistics ticks same (head_word ∷ word_at 98 3 ∷ []) (word_at 97 0 ∷ word_at 98 2 ∷ [])
    ≡ ok no_errors
unfolding compute_statistics compare_words align_all align zipped pairs_from add_deltas
    statistics_of error_rate mean_abs
compute_statistics-same = refl

compute_statistics-no_errors_example :
    stripped ticks same (word_at 97 0 ∷ word_at 98 2 ∷ [])
    ≡ stripped ticks same (head_word ∷ word_at 98 3 ∷ [])
compute_statistics-no_errors_example =
    compute_statistics-no_errors ticks same head_word (word_at 97 0) (word_at 98 3 ∷ [])
      (word_at 98 2 ∷ []) no_errors same-AreOpcodes compute_statistics-same refl
