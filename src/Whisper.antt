-- ===== src/Whisper.antt =====
-- `execute` of m_faster_whisper.py. The two models are parameters: from the audio, and with the
-- speech chunks in the batched one, to segments. Their `TextSegment`s have no `words` when the
-- model gives none.
pub mod Words
mod Tests
use live_translation.Common.{
  Bool, true, false, ◌&&◌, not, List, [], ◌∷◌, Option, none, some, map, if◌then◌else◌,
}
use live_translation.Common.Float.{Floats}
use live_translation.Data.{
  Word, TextSegment, Chunk, AudioData, Outcome, passed, raised, no_model, no_audio_data,
  no_vad_audio, no_start_time,
}

-- `if not dp.data.vad_result`
abbrev pub has_chunks : {F : Type 0} → Option (List (Chunk F)) → Bool
has_chunks none = false
has_chunks (some []) = false
has_chunks (some (c ∷ cs)) = true

pub record Models (F A : Type 0) : Type 0 where
  pub loaded : Bool
  pub batching : Bool
  pub has_batched : Bool
  pub transcribe : A → List (TextSegment F)
  pub transcribe_batched : A → Option (List (Chunk F)) → List (TextSegment F)

module _ {F : Type 0} (o : Floats F) where
  open o use {add}

  unfoldable pub shift_word : F → Word F → Word F
  shift_word start_after word = record word {
    start = add word.start start_after;
    end = add word.end start_after;
  }

  -- `if segment.words`
  unfoldable pub shift_words : F → Option (List (Word F)) → List (Word F)
  unfolding shift_word
  shift_words start_after none = []
  shift_words start_after (some words) = map (shift_word start_after) words

  -- The probability of a segment is not copied.
  unfoldable pub shift_segment : F → TextSegment F → TextSegment F
  unfolding shift_words
  shift_segment start_after segment = record {
    text = segment.text;
    start = add segment.start start_after;
    end = add segment.end start_after;
    words = some (shift_words start_after segment.words);
    probability = none;
  }

  module _ {A : Type 0} (models : Models F A) where
    unfoldable pub segments_of : A → Option (List (Chunk F)) → List (TextSegment F)
    segments_of audio vad_result =
        if models.batching && models.has_batched
        then models.transcribe_batched audio vad_result
        else models.transcribe audio

    -- The end of `execute`, once the fields of the package are there.
    unfoldable pub transcribed : AudioData F A → A → F → AudioData F A
    unfolding segments_of shift_segment
    transcribed d audio start_after = record d {
      transcribed_segments =
          some (map (shift_segment start_after) (segments_of audio d.vad_result));
    }

    unfoldable pub transcribe_from : AudioData F A → A → Option F → AudioData F A × Outcome
    unfolding transcribed
    transcribe_from d audio none = (d, raised no_start_time)
    transcribe_from d audio (some start_after) = (transcribed d audio start_after, passed)

    unfoldable pub transcribe_audio : AudioData F A → Option A → AudioData F A × Outcome
    unfolding transcribe_from
    transcribe_audio d none = (d, raised no_audio_data)
    transcribe_audio d (some audio) =
        if not (has_chunks d.vad_result) && models.batching
        then (d, raised no_vad_audio)
        else transcribe_from d audio d.audio_buffer_start_after

    -- `execute`, on `dp.data`; the module keeps no state.
    unfoldable pub execute : AudioData F A → AudioData F A × Outcome
    unfolding transcribe_audio
    execute d = if not models.loaded then (d, raised no_model) else transcribe_audio d d.audio_data
