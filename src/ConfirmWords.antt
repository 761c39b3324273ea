-- ===== src/ConfirmWords.antt =====
-- m_confirm_words.py. Floats, and the tables of Unicode and of difflib that `is_similar` looks
-- into, are parameters.
pub mod Overlaps
pub mod Invariant
mod Tests
use live_translation.Common.{
  ℕ, zero, suc, ◌+◌, ◌-◌, Bool, true, false, ◌&&◌, not, List, [], ◌∷◌, ◌++◌, map, Option, none,
  some, ◌==◌, ltb, length, drop, filter, if◌then◌else◌,
}
use live_translation.Common.Result.{Result, ok, err, ◌>>=◌}
use live_translation.Common.Sort.{sorted}
use live_translation.Common.Float.{Floats}
use live_translation.Ogg.Utf8.{Text}
use live_translation.Ogg.Bytes.{bytes_eq}
use live_translation.Data.{
  Word, TextSegment, AudioData, Outcome, passed, raised, Fault, no_transcribed_words, no_start_time,
  no_buffer_time, index_out_of_range,
}

-- `str.lower`, the test for the Unicode categories P and S, `SequenceMatcher(None, a, b).ratio()`,
-- and the float literals of the file: -1.0, 0.7, 0.2 and 0.0.
pub record TextTables (F : Type 0) : Type 0 where
  pub lower : Text → Text
  pub is_symbol : ℕ → Bool
  pub ratio : Text → Text → F
  pub minus_one : F
  pub seven_tenths : F
  pub two_tenths : F

pub record ConfirmWords (F : Type 0) : Type 0 where
  pub offset : F
  pub max_confirmed_words : ℕ
  pub confirm_if_older_then : F
  pub confirmed : List (Word F)
  pub confirmed_end_time : F

-- `self._confirmed.pop(i)`
unfoldable pub pop_at {ℓ} : {A : Type ℓ} → ℕ → List A → Result Fault (List A)
pop_at i [] = err index_out_of_range
pop_at zero (x ∷ xs) = ok xs
pop_at (suc i) (x ∷ xs) = do rest ← pop_at i xs; ok (x ∷ rest)

-- The `while` loop: each round takes the first index, and moves the others down by one. As many
-- rounds as there are indices.
unfoldable pub remove_indices {ℓ} : {A : Type ℓ} → ℕ → List ℕ → List A → Result Fault (List A)
remove_indices zero to_remove xs = ok xs
remove_indices (suc rounds) [] xs = ok xs
remove_indices (suc rounds) (i ∷ to_remove) xs = do
  left ← pop_at i xs
  remove_indices rounds (map (λ x. x - 1) to_remove) left

-- `xs[-n:]`, which is the whole list for `n = 0`.
unfoldable pub last_n {ℓ} : {A : Type ℓ} → ℕ → List A → List A
last_n n xs = if n == 0 then xs else drop (length xs - n) xs

-- `if len(xs) > n: xs = xs[-n:]`
unfoldable pub limit {ℓ} : {A : Type ℓ} → ℕ → List A → List A
unfolding last_n
limit n xs = if ltb n (length xs) then last_n n xs else xs

module _ {F : Type 0} (o : Floats F) (t : TextTables F) where
  open o use {add, sub, fabs, flt, fle, feq}

  -- `remove_symbols(word.lower())`
  unfoldable pub clean : Text → Text
  clean word = filter (λ c. not (t.is_symbol c)) (t.lower word)

  unfoldable pub is_similar : Text → Text → F → Bool
  unfolding clean
  is_similar word1 word2 max_diff_percantage =
      if feq max_diff_percantage t.minus_one
      then bytes_eq (clean word1) (clean word2)
      else fle max_diff_percantage (t.ratio (clean word1) (clean word2))

  unfoldable pub find_word : F → F → List (Word F) → F → Option (Word F)
  find_word start end [] offset = none
  find_word start end (word ∷ words) offset =
      if fle (fabs (sub word.start start)) offset && fle (fabs (sub word.end end)) offset
      then some word
      else find_word start end words offset

  -- The words of all the segments that have some.
  unfoldable pub words_of : List (TextSegment F) → List (Word F)
  words_of [] = []
  words_of (segment ∷ segments) = elim segment.words [
    | none ↦ words_of segments
    | some words ↦ words ++ words_of segments
  ]

  -- Python's sort asks only whether the later element is less.
  abbrev pub by_start : Word F → Word F → Bool
  by_start x y = not (flt y.start x.start)

  -- Two neighbours that overlap in time and are similar.
  unfoldable pub overlaps : Word F → Word F → Bool
  unfolding is_similar
  overlaps x y = if flt y.start x.end then is_similar x.word y.word t.seven_tenths else false

  -- The indices, from `i` on, of the words that overlap their successor.
  unfoldable pub overlap_indices : ℕ → List (Word F) → List ℕ
  overlap_indices i [] = []
  overlap_indices i (x ∷ []) = []
  overlap_indices i (x ∷ y ∷ ys) =
      let rest = overlap_indices (i + 1) (y ∷ ys) in if overlaps x y then i ∷ rest else rest

  unfoldable pub remove_overlaps : List (Word F) → Result Fault (List (Word F))
  remove_overlaps words =
      let to_remove = overlap_indices 0 words in remove_indices (length to_remove) to_remove words

  -- Whether a word began before the end of the confirmed words.
  abbrev pub is_confirmed : ConfirmWords F → Word F → Bool
  is_confirmed s word = flt word.start (sub s.confirmed_end_time s.offset)

  abbrev pub is_old : ConfirmWords F → F → Word F → Bool
  is_old s buffer_end word = fle s.confirm_if_older_then (sub buffer_end word.end)

  -- `word.probability >= 0.2`
  abbrev pub is_probable : Word F → Bool
  is_probable word = fle t.two_tenths word.probability

  -- The end of the last confirmed word, or what was known.
  unfoldable pub end_of : List (Word F) → F → F
  end_of [] known = known
  end_of (x ∷ []) known = x.end
  end_of (x ∷ y ∷ ys) known = end_of (y ∷ ys) known

  -- From the new confirmed words to the end of `execute`.
  unfoldable pub finish : ConfirmWords F → List (Word F) → ConfirmWords F
  unfolding limit
  finish s words =
      let limited = limit s.max_confirmed_words words in
      record s {
        confirmed = limit s.max_confirmed_words limited;
        confirmed_end_time = end_of limited s.confirmed_end_time;
      }

  -- `execute` on new words: the new state, and the unconfirmed words. (Were an index out of range,
  -- the exception would leave the list partly cleaned; `remove_overlaps` never raises.)
  unfoldable pub confirm :
      ConfirmWords F → F → List (Word F) → Result Fault (ConfirmWords F × List (Word F))
  unfolding remove_overlaps finish
  confirm s buffer_end new_words = do
    let new_unconfirmed = filter (λ w. not (is_confirmed s w)) new_words
    let extended = s.confirmed ++ filter (is_old s buffer_end) new_unconfirmed
    let probable = filter is_probable extended
    words ← remove_overlaps (sorted by_start probable)
    ok (finish s words, new_unconfirmed)

  module _ {A : Type 0} where
    abbrev pub reported :
        ConfirmWords F
        → AudioData F A
        → Result Fault (ConfirmWords F × List (Word F))
        → ConfirmWords F × AudioData F A × Outcome
    reported s d (err e) = (s, d, raised e)
    reported s d (ok (s', unconfirmed)) = (
      s',
      record d { confirmed_words = some s'.confirmed; unconfirmed_words = some unconfirmed },
      passed,
    )

    -- `execute` once the fields of the package are there.
    unfoldable pub confirm_segments :
        ConfirmWords F
        → AudioData F A
        → F
        → F
        → List (Word F)
        → ConfirmWords F × AudioData F A × Outcome
    unfolding confirm
    confirm_segments s d start_after buffer_time [] = reported s d (ok (s, []))
    confirm_segments s d start_after buffer_time (w ∷ ws) =
        reported s d (confirm s (add start_after buffer_time) (w ∷ ws))

    -- The fields of the package, in the order in which they are looked at.
    unfoldable pub confirm_fields :
        ConfirmWords F
        → AudioData F A
        → Option (List (TextSegment F))
        → Option F
        → Option F
        → ConfirmWords F × AudioData F A × Outcome
    unfolding confirm_segments words_of
    confirm_fields s d none start_after buffer_time = (s, d, raised no_transcribed_words)
    confirm_fields s d (some segments) none buffer_time = (s, d, raised no_start_time)
    confirm_fields s d (some segments) (some start_after) none = (s, d, raised no_buffer_time)
    confirm_fields s d (some segments) (some start_after) (some buffer_time) =
        confirm_segments s d start_after buffer_time (words_of segments)

    -- `execute`, on `dp.data`.
    unfoldable pub execute :
        ConfirmWords F → AudioData F A → ConfirmWords F × AudioData F A × Outcome
    unfolding confirm_fields
    execute s d =
        confirm_fields s d d.transcribed_segments d.audio_buffer_start_after d.audio_buffer_time
