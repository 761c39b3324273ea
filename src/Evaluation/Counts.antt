-- ===== src/Evaluation/Counts.antt =====
-- What the word error rate counts, for opcodes as difflib documents them.
use live_translation.Common.{◌+◌, ◌≡◌, refl, sym, ◌∙◌, List, ◌∷◌, length, arith}
use live_translation.Common.Result.{ok}
use live_translation.Common.Float.{Floats}
use live_translation.Data.{Word}
use live_translation.Evaluation.{
  Opcode, Statistics, Matching, empty_alignment, last_word, until, stripped, opcodes_of,
  statistics_of, error_rate, compare_words, compute_statistics,
}
use live_translation.Evaluation.Opcodes.{
  substituted_words, deleted_words, inserted_words, concat_over, Tiles, agreed, unpaired_transcript,
  unpaired_live, substituted, deleted, inserted, sum_over, Tiles-Account, Tiles-equal,
}
use live_translation.Evaluation.Adds.{align_all-Adds, length-texts_x, length-texts_y}

module _ {F : Type 0} (o : Floats F) (m : Matching F) (w t : Word F) (ws ts : List (Word F)) where
  -- The words that are compared.
  abbrev pub live_words : List (Word F)
  live_words = w ∷ ws

  abbrev pub new_transcript : List (Word F)
  new_transcript = until o m (last_word o m w ws) (t ∷ ts)

  abbrev pub opcodes : List Opcode
  opcodes = opcodes_of o m new_transcript live_words

  -- difflib's opcodes for these words are as they are documented.
  abbrev pub AreOpcodes : Type 0
  AreOpcodes = Tiles (stripped o m new_transcript) (stripped o m live_words) 0 0 opcodes

  -- What the statistics count, and that they count it over the right number of words.
  pub record Counted (s : Statistics F) : Type 0 where
    pub substitutions_are :
        s.substitutions ≡ concat_over (substituted_words new_transcript live_words) opcodes
    pub deletions_are : s.deletions ≡ concat_over (deleted_words new_transcript) opcodes
    pub insertions_are : s.insertions ≡ concat_over (inserted_words live_words) opcodes
    pub substitutions_counted : length s.substitutions ≡ sum_over substituted opcodes
    pub deletions_counted : length s.deletions ≡ sum_over deleted opcodes
    pub insertions_counted : length s.insertions ≡ sum_over inserted opcodes
    pub transcript_accounted :
        sum_over agreed opcodes
          + length s.substitutions
          + length s.deletions
          + sum_over unpaired_transcript opcodes
        ≡ length new_transcript
    pub live_accounted :
        sum_over agreed opcodes
          + length s.substitutions
          + length s.insertions
          + sum_over unpaired_live opcodes
        ≡ length live_words
    pub rate :
        s.wer
        ≡ error_rate o m
            (length s.substitutions + length s.deletions + length s.insertions)
            (length new_transcript)

  -- For opcodes as difflib documents them (they go over both lists without a gap, `equal` parts are
  -- equal, `delete` and `insert` take from one list only), neither list empty, the statistics are
  -- computed: no index is out of range. The deletions are the words of the transcript, up to the end
  -- of the last live word, in the parts tagged `delete`; the insertions are the live words in the
  -- parts tagged `insert`; the substitutions are the pairs of the two parts tagged `replace`, from
  -- their starts until one of them ends. Together with the words of equal parts and the surplus of
  -- the longer part of a replacement, they make up the number of words of the transcript, and alike
  -- of the live words. The surplus is in no count: the word error rate is the number of
  -- substitutions, deletions and insertions over the number of words of the transcript.
  pub compute_statistics-Counted :
      AreOpcodes
      → (s : Statistics F) × (compute_statistics o m live_words (t ∷ ts) ≡ ok s) × Counted s
  unfolding compute_statistics compare_words statistics_of
  compute_statistics-Counted tiles =
      let (a, e, adds) =
        align_all-Adds o m new_transcript live_words 0 0 opcodes empty_alignment tiles in
      let account =
        Tiles-Account (stripped o m new_transcript) (stripped o m live_words) 0 0 opcodes tiles in
      let nx = length-texts_x o m new_transcript live_words in
      let ny = length-texts_y o m new_transcript live_words in
      (
        statistics_of o m (length new_transcript) a,
        rw e refl,
        record {
          substitutions_are = adds.pairs_are;
          deletions_are = adds.deletions_are;
          insertions_are = adds.insertions_are;
          substitutions_counted = omega (arith, adds.pairs_added);
          deletions_counted = omega (arith, adds.deletions_added);
          insertions_counted = omega (arith, adds.insertions_added);
          transcript_accounted =
              omega (arith, adds.pairs_added, adds.deletions_added, account.of_a, nx);
          live_accounted = omega (arith, adds.pairs_added, adds.insertions_added, account.of_b, ny);
          rate = refl;
        },
      )

  -- Under the same condition, statistics with no substitution, deletion or insertion mean that the
  -- stripped live words are the stripped words of the transcript up to the end of the last one.
  pub compute_statistics-no_errors :
      (s : Statistics F)
      → AreOpcodes
      → compute_statistics o m live_words (t ∷ ts) ≡ ok s
      → length s.substitutions + length s.deletions + length s.insertions ≡ 0
      → stripped o m new_transcript ≡ stripped o m live_words
  compute_statistics-no_errors s tiles e h =
      let (s', e', c) = compute_statistics-Counted tiles in
      let same : s' ≡ s = let both = sym e' ∙ e in cc in
      let h' : length s'.substitutions + length s'.deletions + length s'.insertions ≡ 0 =
        rw same h in
      Tiles-equal (stripped o m new_transcript) (stripped o m live_words) 0 0 opcodes tiles
        (omega (arith, c.substitutions_counted, c.deletions_counted, c.insertions_counted))
