-- ===== src/Evaluation.antt =====
-- `compute_statistics` of simulate_live_audio_stream.py, which compares the confirmed words with a
-- transcript. `difflib`, `str.strip`, `sum` and the conversion of an int are parameters.
pub mod Opcodes
pub mod Adds
pub mod Counts
pub mod Delay
pub mod Playback
mod Tests
use live_translation.Common.{
  ℕ, zero, suc, ◌+◌, ◌-◌, Option, none, some, List, [], ◌∷◌, ◌++◌, map, length, get_elem?, take,
  drop, filter, ◌==◌, if◌then◌else◌, min,
}
use live_translation.Common.Result.{Result, ok, err, ◌>>=◌}
use live_translation.Common.Float.{Floats}
use live_translation.Ogg.Utf8.{Text}
use live_translation.Data.{Word}

pub data Tag : Type 0 where
  equal replace delete insert : Tag

-- One tuple of `get_opcodes`.
pub record Opcode : Type 0 where
  pub tag : Tag
  pub i1 : ℕ
  pub i2 : ℕ
  pub j1 : ℕ
  pub j2 : ℕ

-- The two `ValueError`s on empty lists, and the `IndexError` of `new_transcript[idx]` and `live[idx]`.
pub data EvaluationError : Type 0 where
  live_empty transcript_empty no_data_found no_such_index : EvaluationError

pub record Statistics (F : Type 0) : Type 0 where
  pub deletions : List (Word F)
  pub substitutions : List (Word F × Word F)
  pub insertions : List (Word F)
  pub wer : F
  pub avg_delta_start : F
  pub avg_delta_end : F

-- `SequenceMatcher(None, a, b).get_opcodes()`, `s.strip()`, `sum(xs)`, and an int read as a float.
pub record Matching (F : Type 0) : Type 0 where
  pub get_opcodes : List Text → List Text → List Opcode
  pub strip : Text → Text
  pub total : List F → F
  pub of_int : ℕ → F

-- The lists that the loop over the opcodes fills.
pub record Alignment (F : Type 0) : Type 0 where
  pub deletion_list : List (Word F)
  pub substitution_list : List (Word F × Word F)
  pub insertion_list : List (Word F)
  pub delta_starts : List F
  pub delta_ends : List F

abbrev pub empty_alignment : {F : Type 0} → Alignment F
empty_alignment = record {
  deletion_list = [];
  substitution_list = [];
  insertion_list = [];
  delta_starts = [];
  delta_ends = [];
}

-- `xs[i:j]`
abbrev pub part {ℓ} : {A : Type ℓ} → List A → ℕ → ℕ → List A
part xs i j = take (j - i) (drop i xs)

abbrev pub found {ℓ} : {A : Type ℓ} → Option A → Result EvaluationError A
found none = err no_such_index
found (some x) = ok x

-- `[(xs[i], ys[j]) for i, j in zip(range(i1, i2), range(j1, j2))]`, with the number of pairs.
unfoldable pub pairs_from {ℓ} :
    {A : Type ℓ} → List A → List A → ℕ → ℕ → ℕ → Result EvaluationError (List (A × A))
pairs_from xs ys zero i j = ok []
pairs_from xs ys (suc n) i j = do
  x ← found (get_elem? xs i)
  y ← found (get_elem? ys j)
  rest ← pairs_from xs ys n (i + 1) (j + 1)
  ok ((x, y) ∷ rest)

unfoldable pub zipped {ℓ} :
    {A : Type ℓ} → List A → List A → Opcode → Result EvaluationError (List (A × A))
unfolding pairs_from
zipped xs ys op = pairs_from xs ys (min (op.i2 - op.i1) (op.j2 - op.j1)) op.i1 op.j1

module _ {F : Type 0} (o : Floats F) (m : Matching F) where
  open o use {fzero, sub, div, fabs, fle}
  open m use {of_int, total}

  -- `len(xs)` words in error out of `n`, and the mean of the absolute values.
  unfoldable pub error_rate : ℕ → ℕ → F
  error_rate errors zero = fzero
  error_rate errors (suc n) = div (of_int errors) (of_int (suc n))

  unfoldable pub mean_abs : List F → F
  mean_abs [] = fzero
  mean_abs (d ∷ ds) = div (total (map fabs (d ∷ ds))) (of_int (length (d ∷ ds)))

  -- The time differences of matching words, live minus transcript.
  unfoldable pub add_deltas : List (Word F × Word F) → Alignment F → Alignment F
  add_deltas pairs a = record a {
    delta_starts = a.delta_starts ++ map (λ p. sub p.1.start p.0.start) pairs;
    delta_ends = a.delta_ends ++ map (λ p. sub p.1.end p.0.end) pairs;
  }

  -- One round of the loop over the opcodes.
  unfoldable pub align :
      List (Word F)
      → List (Word F)
      → Tag
      → Opcode
      → Alignment F
      → Result EvaluationError (Alignment F)
  unfolding zipped add_deltas
  align new_transcript live equal op a = do
    pairs ← zipped new_transcript live op
    ok (add_deltas pairs a)
  align new_transcript live replace op a = do
    pairs ← zipped new_transcript live op
    ok (record a { substitution_list = a.substitution_list ++ pairs })
  align new_transcript live delete op a =
      ok (record a { deletion_list = a.deletion_list ++ part new_transcript op.i1 op.i2 })
  align new_transcript live insert op a =
      ok (record a { insertion_list = a.insertion_list ++ part live op.j1 op.j2 })

  unfoldable pub align_all :
      List (Word F)
      → List (Word F)
      → List Opcode
      → Alignment F
      → Result EvaluationError (Alignment F)
  unfolding align
  align_all new_transcript live [] a = ok a
  align_all new_transcript live (op ∷ ops) a = do
    a' ← align new_transcript live op.tag op a
    align_all new_transcript live ops a'

  -- `live[-1]`
  abbrev pub last_word : Word F → List (Word F) → Word F
  last_word w [] = w
  last_word w (x ∷ xs) = last_word x xs

  -- The words of the transcript that end by the end of the last live word.
  abbrev pub until : Word F → List (Word F) → List (Word F)
  until last_live_word transcript = filter (λ w. fle w.end last_live_word.end) transcript

  abbrev pub stripped : List (Word F) → List Text
  stripped words = map (λ w. m.strip w.word) words

  abbrev pub opcodes_of : List (Word F) → List (Word F) → List Opcode
  opcodes_of new_transcript live = m.get_opcodes (stripped new_transcript) (stripped live)

  unfoldable pub statistics_of : ℕ → Alignment F → Statistics F
  unfolding error_rate mean_abs
  statistics_of n a = record {
    deletions = a.deletion_list;
    substitutions = a.substitution_list;
    insertions = a.insertion_list;
    wer =
        error_rate (length a.substitution_list + length a.deletion_list + length a.insertion_list)
          n;
    avg_delta_start = mean_abs a.delta_starts;
    avg_delta_end = mean_abs a.delta_ends;
  }

  unfoldable pub compare_words :
      List (Word F) → List (Word F) → Result EvaluationError (Statistics F)
  unfolding align_all statistics_of
  compare_words live new_transcript = do
    a ← align_all new_transcript live (opcodes_of new_transcript live) empty_alignment
    ok (statistics_of (length new_transcript) a)

  unfoldable pub compute_statistics :
      List (Word F) → List (Word F) → Result EvaluationError (Statistics F)
  unfolding compare_words
  compute_statistics [] transcript = err live_empty
  compute_statistics (w ∷ ws) [] = err transcript_empty
  compute_statistics (w ∷ ws) (t ∷ ts) = compare_words (w ∷ ws) (until (last_word w ws) (t ∷ ts))
