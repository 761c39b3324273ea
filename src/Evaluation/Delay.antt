-- ===== src/Evaluation/Delay.antt =====
-- `time_difference` and `stats` of simulate_live_audio_stream.py. The tables of Unicode and difflib,
-- and the functions of the module `statistics`, are parameters.
pub mod Removal
pub mod Unmatched
use live_translation.Common.{
  Bool, true, false, ◌&&◌, not, Option, none, some, List, [], ◌∷◌, ◌++◌, map, filter, if◌then◌else◌,
}
use live_translation.Common.Result.{Result, ok, err, ◌>>=◌}
use live_translation.Common.Float.{Floats}
use live_translation.Ogg.Utf8.{Text}
use live_translation.Ogg.Bytes.{bytes_eq}
use live_translation.Data.{Word, AudioData}
use live_translation.ConfirmWords.{TextTables, clean}
use live_translation.Evaluation.{
  EvaluationError, no_data_found, no_such_index, Statistics, Matching, compute_statistics,
}

-- What is read of a `DataPackage`.
pub record LivePackage (F A : Type 0) : Type 0 where
  pub contents : Option (AudioData F A)
  pub start_time : F
  pub end_time : F

-- `mean` and `stdev` of the module `statistics`.
pub record Moments (F : Type 0) : Type 0 where
  pub mean : List F → F
  pub stdev : List F → F

-- The `ValueError` of `transcript_list.remove`, and what `stats` raises.
pub data DelayError : Type 0 where
  not_in_list : DelayError
  evaluation : EvaluationError → DelayError

abbrev pub evaluated {ℓ} : {A : Type ℓ} → Result EvaluationError A → Result DelayError A
evaluated (ok a) = ok a
evaluated (err e) = err (evaluation e)

-- The words left of the transcript, and the time differences so far.
abbrev pub Delays : Type 0 → Type 0
Delays F = List (Word F) × List F

-- `live_dps[-1].data.confirmed_words`, or the error.
unfoldable pub last_words :
    {F A : Type 0} → List (LivePackage F A) → Result DelayError (List (Word F))
last_words [] = err (evaluation no_such_index)
last_words (live_dp ∷ []) = elim live_dp.contents [
  | none ↦ err (evaluation no_data_found)
  | some d ↦ elim d.confirmed_words [
    | none ↦ err (evaluation no_data_found)
    | some words ↦ ok words
  ]
]
last_words (live_dp ∷ next ∷ live_dps) = last_words (next ∷ live_dps)

module _ {F : Type 0} (o : Floats F) (t : TextTables F) where
  open o use {add, sub, fle, feq}

  unfoldable pub is_similar : Text → Text → F → Bool
  is_similar word1 word2 max_diff_percantage =
      if feq max_diff_percantage t.minus_one
      then bytes_eq (clean o t word1) (clean o t word2)
      else fle max_diff_percantage (t.ratio (clean o t word1) (clean o t word2))

  -- The `==` of the dataclass.
  abbrev pub word_eq : Word F → Word F → Bool
  word_eq x y =
      bytes_eq x.word y.word
      && feq x.start y.start
      && feq x.end y.end
      && feq x.probability y.probability

  unfoldable pub is_match : F → Word F → Word F → Bool
  unfolding is_similar
  is_match offset tword lw =
      fle (sub lw.start offset) tword.start
      && fle tword.start (add lw.end offset)
      && is_similar lw.word tword.word t.seven_tenths

  -- `next((lw for lw in ...), None) is not None`
  unfoldable pub is_found : F → List (Word F) → Word F → Bool
  unfolding is_match
  is_found offset [] tword = false
  is_found offset (lw ∷ lws) tword =
      let later = is_found offset lws tword in if is_match offset tword lw then true else later

  -- `xs.remove(word)`: the first element that is equal.
  unfoldable pub remove : Word F → List (Word F) → Result DelayError (List (Word F))
  remove word [] = err not_in_list
  remove word (x ∷ xs) = if word_eq x word then ok xs else (do rest ← remove word xs; ok (x ∷ rest))

  unfoldable pub remove_each : List (Word F) → List (Word F) → Result DelayError (List (Word F))
  unfolding remove
  remove_each [] xs = ok xs
  remove_each (word ∷ to_remove) xs = do rest ← remove word xs; remove_each to_remove rest

  -- From the test of the times to the end of the round.
  unfoldable pub add_delays : F → Option F → Option F → List (Word F) → List F → List F
  add_delays processing_time (some start_after) (some buffer_time) correct_diff_words diff =
      let output_time = add (add start_after buffer_time) processing_time in
      diff ++ map (λ w. sub output_time w.end) correct_diff_words
  add_delays processing_time _ _ correct_diff_words diff = diff

  abbrev pub clean_word : Word F → Word F
  clean_word w = record w { word = clean o t w.word }

  abbrev pub cleaned : List (Word F) → List (Word F)
  cleaned words = map clean_word words

  module _ {A : Type 0} where
    -- A round for a package with confirmed words.
    unfoldable pub confirmed_round :
        F → F → AudioData F A → List (Word F) → Delays F → Result DelayError (Delays F)
    unfolding remove_each is_found add_delays
    confirmed_round offset processing_time d live_words_confirmed (transcript_list, diff) = do
      let correct_diff_words = filter (is_found offset live_words_confirmed) transcript_list
      left ← remove_each correct_diff_words transcript_list
      ok (
        left,
        add_delays processing_time d.audio_buffer_start_after d.audio_buffer_time correct_diff_words
            diff,
      )

    unfoldable pub words_round :
        F → F → AudioData F A → Option (List (Word F)) → Delays F → Result DelayError (Delays F)
    unfolding confirmed_round
    words_round offset processing_time d none delays = ok delays
    words_round offset processing_time d (some words) delays =
        confirmed_round offset processing_time d words delays

    unfoldable pub package_round :
        F → F → Option (AudioData F A) → Delays F → Result DelayError (Delays F)
    unfolding words_round
    package_round offset processing_time none delays = ok delays
    package_round offset processing_time (some d) delays =
        words_round offset processing_time d d.confirmed_words delays

    unfoldable pub delays_of : F → List (LivePackage F A) → Delays F → Result DelayError (Delays F)
    unfolding package_round
    delays_of offset [] delays = ok delays
    delays_of offset (live_dp ∷ live_dps) delays = do
      delays' ←
          package_round offset (sub live_dp.end_time live_dp.start_time) live_dp.contents delays
      delays_of offset live_dps delays'

module _ {F : Type 0} (o : Floats F) (q : Moments F) where
  open o use {fzero, sub, fabs}

  unfoldable pub mean_absolute_deviation : List F → F
  mean_absolute_deviation xs = q.mean (map (λ x. fabs (sub x (q.mean xs))) xs)

  -- The three results for the differences; `stdev` needs two.
  unfoldable pub summary : List F → F × F × F
  unfolding mean_absolute_deviation
  summary [] = (fzero, fzero, fzero)
  summary (x ∷ []) = (q.mean (x ∷ []), fzero, mean_absolute_deviation (x ∷ []))
  summary (x ∷ y ∷ ys) =
      (q.mean (x ∷ y ∷ ys), q.stdev (x ∷ y ∷ ys), mean_absolute_deviation (x ∷ y ∷ ys))

module _ {F A : Type 0} (o : Floats F) (t : TextTables F) (q : Moments F) where
  unfoldable pub time_difference :
      F → List (LivePackage F A) → List (Word F) → Result DelayError (F × F × F)
  unfolding delays_of summary
  time_difference offset live_dps transcript = do
    delays ← delays_of o t offset live_dps (transcript, [])
    ok (summary o q delays.1)

  unfoldable pub stats :
      Matching F
      → F
      → List (LivePackage F A)
      → List (Word F)
      → Result DelayError (Statistics F × Statistics F × F × F × F)
  unfolding time_difference last_words
  stats m offset live_dps transcript = do
    (mean_diff, std_dev, mad) ← time_difference offset live_dps transcript
    live_words ← last_words live_dps
    diff ← evaluated (compute_statistics o m live_words transcript)
    diff2 ← evaluated (compute_statistics o m (cleaned o t live_words) (cleaned o t transcript))
    ok (diff, diff2, mean_diff, std_dev, mad)
