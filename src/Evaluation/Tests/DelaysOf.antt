-- ===== src/Evaluation/Tests/DelaysOf.antt =====
-- Tests of the delays of the confirmed words, and the theorem about them at concrete packages.
use live_translation.Common.{ℕ, ◌≡◌, refl, true, false, List, [], ◌∷◌, none, some, arith}
use live_translation.Common.Int.{ℤ, pos, negsuc, ◌+ℤ◌, ◌-ℤ◌}
use live_translation.Common.Result.{ok}
use live_translation.Common.Ticks.{ticks}
use live_translation.Data.{Word}
use live_translation.ConfirmWords.{TextTables, clean}
use live_translation.Evaluation.Delay.{
  LivePackage, delays_of, package_round, words_round, confirmed_round, remove_each, remove,
  add_delays, is_found, is_match, is_similar, Delays,
}
use live_translation.Evaluation.Delay.Removal.{IsEquality}
use live_translation.Evaluation.Delay.Unmatched.{Takes, delays_of-Takes, is_confirmed, AreTimed}
use live_translation.Evaluation.Tests.{word_at, transcript, live, head_word}

-- Texts are similar if they are equal.
abbrev tables : TextTables ℤ
tables = record {
  lower = λ text. text;
  is_symbol = λ c. false;
  ratio = λ a b. pos 7;
  minus_one = negsuc 0;
  seven_tenths = negsuc 0;
  two_tenths = pos 2;
}

abbrev package_of : List (Word ℤ) → LivePackage ℤ ℕ
package_of words = record {
  contents = some (record {
    raw_audio_data = [];
    audio_buffer = none;
    audio_buffer_time = some (pos 10);
    audio_buffer_start_after = some (pos 0);
    audio_data = none;
    audio_data_sample_rate = none;
    vad_result = none;
    language = none;
    transcribed_segments = none;
    confirmed_words = some words;
    unconfirmed_words = none;
    translations = none;
  });
  start_time = pos 10;
  end_time = pos 12;
}

-- Two packages: `a` is confirmed in both, and taken out by the first.
abbrev live_dps : List (LivePackage ℤ ℕ)
live_dps = package_of (head_word ∷ []) ∷ package_of live ∷ []

ticks_feq_refl : (a : ℤ) → ticks.feq a a ≡ true
ticks_feq_refl a = ground arith

ticks_fle_left : (a b c : ℤ) → ticks.feq a b ≡ true → ticks.fle a c ≡ ticks.fle b c
ticks_fle_left a b c h = ground arith

ticks_fle_right : (a b c : ℤ) → ticks.feq a b ≡ true → ticks.fle c a ≡ ticks.fle c b
ticks_fle_right a b c h = ground arith

ticks-IsEquality : IsEquality ticks
ticks-IsEquality = record {
  feq_refl = ticks_feq_refl;
  fle_left = ticks_fle_left;
  fle_right = ticks_fle_right;
}

delays_of-live_dps :
    delays_of ticks tables (pos 1) live_dps (transcript, [])
    ≡ ok (word_at 98 2 ∷ word_at 99 4 ∷ word_at 101 8 ∷ [], pos 10 ∷ pos 4 ∷ [])
unfolding delays_of package_round words_round confirmed_round remove_each remove add_delays is_found
    is_match is_similar clean ◌+ℤ◌ ◌-ℤ◌
delays_of-live_dps = refl

delays_of-Takes_example :
    (delays' : Delays ℤ) × (delays_of ticks tables (pos 1) live_dps (transcript, []) ≡ ok delays')
    × Takes ticks tables
        (pos 1)
        (is_confirmed ticks tables (pos 1) live_dps)
        (AreTimed live_dps)
        (transcript, [])
        delays'
delays_of-Takes_example =
    delays_of-Takes ticks tables (pos 1) ticks-IsEquality live_dps (transcript, [])
