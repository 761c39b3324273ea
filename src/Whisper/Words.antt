-- ===== src/Whisper/Words.antt =====
-- The words that m_faster_whisper.py hands on to m_confirm_words.py.
use live_translation.Common.{
  ◌≡◌, refl, sym, true, false, ◌&&◌, not, List, [], ◌∷◌, ◌++◌, Option, none, some, map, map-append,
  Bool-cases, inl, inr, arith, if◌then◌else◌,
}
use live_translation.Common.Float.{Floats}
use live_translation.Data.{
  Word, TextSegment, AudioData, Outcome, passed, exited, raised, Fault, no_model, no_audio_data,
  no_vad_audio, no_start_time,
}
use live_translation.ConfirmWords.{TextTables, words_of}
use live_translation.Whisper.{
  Models, has_chunks, shift_word, shift_words, shift_segment, segments_of, transcribed,
  transcribe_from, transcribe_audio, execute,
}

module _ {F : Type 0} (o : Floats F) (t : TextTables F) where
  -- A word, as late in the stream as the buffer starts.
  abbrev pub moved : F → Word F → Word F
  moved by w = record {
    word = w.word;
    start = o.add w.start by;
    end = o.add w.end by;
    probability = w.probability;
  }

  words_of-shift :
      (start_after : F) (segments : List (TextSegment F))
      → words_of o t (map (shift_segment o start_after) segments)
        ≡ map (moved start_after) (words_of o t segments)
  unfolding words_of shift_segment shift_words shift_word
  words_of-shift start_after [] = refl
  words_of-shift start_after (segment ∷ segments) =
      by_words segment.words (words_of-shift start_after segments)
    where
      by_words :
          (words : Option (List (Word F)))
          → words_of o t (map (shift_segment o start_after) segments)
            ≡ map (moved start_after) (words_of o t segments)
          → shift_words o start_after words
              ++ words_of o t (map (shift_segment o start_after) segments)
            ≡ map (moved start_after) (elim words [
              | none ↦ words_of o t segments
              | some ws ↦ ws ++ words_of o t segments
            ])
      by_words none rest = rest
      by_words (some ws) rest =
          rw rest (sym (map-append (moved start_after) ws (words_of o t segments)))

  module _ {A : Type 0} (models : Models F A) where
    -- Why the module raises.
    abbrev pub IsMissing : AudioData F A → Fault → Type 0
    IsMissing d no_model = models.loaded ≡ false
    IsMissing d no_audio_data = d.audio_data ≡ none
    IsMissing d no_vad_audio = (models.batching ≡ true) × (has_chunks d.vad_result ≡ false)
    IsMissing d no_start_time = d.audio_buffer_start_after ≡ none
    IsMissing d _ = ⊥

    -- The segments that a package gets from a model.
    pub record Transcribes (d d' : AudioData F A) : Type 0 where
      pub audio : A
      pub start_after : F
      pub segments : List (TextSegment F)
      pub has_audio : d.audio_data ≡ some audio
      pub has_start : d.audio_buffer_start_after ≡ some start_after
      pub only_segments : d' ≡ record d { transcribed_segments = some segments }
      pub words_moved :
          words_of o t segments
          ≡ map (moved start_after) (
              words_of o t (
                if models.batching && models.has_batched
                then models.transcribe_batched audio d.vad_result
                else models.transcribe audio))

    abbrev pub IsShifted : AudioData F A → AudioData F A × Outcome → Type 0
    IsShifted d (d', passed) = Transcribes d d'
    IsShifted d (d', exited m) = ⊥
    IsShifted d (d', raised e) = (d' ≡ d) × IsMissing d e

    transcribe_from-IsShifted :
        (d : AudioData F A) (audio : A) (start : Option F)
        → d.audio_data ≡ some audio
        → d.audio_buffer_start_after ≡ start
        → IsShifted d (transcribe_from o models d audio start)
    unfolding transcribe_from transcribed segments_of
    transcribe_from-IsShifted d audio none h k = (refl, k)
    transcribe_from-IsShifted d audio (some start_after) h k = record {
      audio = audio;
      start_after = start_after;
      segments = map (shift_segment o start_after) (segments_of o models audio d.vad_result);
      has_audio = h;
      has_start = k;
      only_segments = refl;
      words_moved = words_of-shift start_after (segments_of o models audio d.vad_result);
    }

    transcribe_audio-IsShifted :
        (d : AudioData F A) (audio : Option A)
        → d.audio_data ≡ audio
        → IsShifted d (transcribe_audio o models d audio)
    unfolding transcribe_audio
    transcribe_audio-IsShifted d none h = (refl, h)
    transcribe_audio-IsShifted d (some audio) h =
        elim (Bool-cases (not (has_chunks d.vad_result) && models.batching)) [
          | inl silent ↦ simp silent (refl, (ground arith, ground arith))
          | inr spoken ↦
              simp spoken (transcribe_from-IsShifted d audio d.audio_buffer_start_after h refl)
        ]

    -- For every package: the module either passes, and then the package had audio and a start time
    -- and gets nothing but the segments, whose words are those of the model (the batched one, on
    -- the speech chunks, if it is used and there), in order, with the start time added to the start
    -- and the end of each; or it raises, and the package stays as it was, because the model is not
    -- loaded, there is no audio, there are no speech chunks for a model that works in batches, or
    -- there is no start time.
    pub execute-IsShifted : (d : AudioData F A) → IsShifted d (execute o models d)
    unfolding execute
    execute-IsShifted d = elim (Bool-cases models.loaded) [
      | inr missing ↦ simp missing (refl, refl)
      | inl loaded ↦ simp loaded (transcribe_audio-IsShifted d d.audio_data refl)
    ]
