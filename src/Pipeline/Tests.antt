-- ===== src/Pipeline/Tests.antt =====
-- Tests of the pipeline, and the theorem about it at a concrete package.
use live_translation.Common.{ℕ, ◌≡◌, refl, true, false, [], ◌∷◌, none, some, length, arith}
use live_translation.Common.Int.{ℤ, pos, negsuc, ◌+ℤ◌, ◌-ℤ◌}
use live_translation.Common.Sort.{sorted}
use live_translation.Common.Ticks.{ticks, ticks-IsOrdered}
use live_translation.Ogg.Bytes.{Bytes, byte_at}
use live_translation.Ogg.Page.{Page, from_bytes}
use live_translation.Ogg.Page.Format.{Fields, encode, page_of}
use live_translation.Data.{Word, AudioData}
use live_translation.AudioBuffer.{AudioBuffer, execute_data, buffer_page, append_page}
use live_translation.RateLimiter
use live_translation.Convert.{load_audio_from_binary, store_audio, convert}
use live_translation.Convert
use live_translation.Vad.{
  merge_segments, merge_from, last_time_spoken, detect, detect_fields, apply, two_dimensional,
  merge_chunks, judge_chunks, binarized, binarizer,
}
use live_translation.Vad
use live_translation.Whisper.{
  segments_of, transcribe_audio, transcribe_from, transcribed, shift_segment, shift_words,
  shift_word,
}
use live_translation.Whisper
use live_translation.ConfirmWords.{
  TextTables, words_of, confirm_segments, confirm_fields, remove_overlaps, remove_indices,
  overlap_indices, pop_at, overlaps, finish, limit, end_of,
}
use live_translation.ConfirmWords
use live_translation.Ogg.Audio.{calculate_page_duration, samples_between}
use live_translation.Pipeline.{
  State, Stateless, create_audio_buffer, limit_rate, convert_audio, detect_voice, transcribe,
  confirm, run,
}
use live_translation.Pipeline.Wiring.{Ends, IsConfirmed}
use live_translation.Pipeline.Wiring.Run.{run-Ends}
use live_translation.Pipeline.Confirmed.{KeepsClean, AllClean, run-AllClean}

abbrev fields_at : ℕ → ℕ → Bytes → Fields
fields_at number granule payload = record {
  version = 0;
  header_type = 0;
  granule_position = granule;
  serial_number = 7;
  page_sequence_number = number;
  crc_checksum = 5;
  segment_table = length payload ∷ [];
  payload = payload;
}

abbrev header_page : Page
header_page = page_of (fields_at 0 0 (1 ∷ []))

-- A tick is a sample; the buffer holds four, and its headers are known.
abbrev buffer : AudioBuffer
buffer = record {
  last_n_seconds = 30;
  min_n_seconds = 0;
  audio_data_buffer = page_of (fields_at 2 4 (8 ∷ [])) ∷ [];
  current_audio_buffer_seconds = pos 4;
  header_buffer = [];
  header_pages = some (header_page ∷ []);
  sample_rate = 48000;
  start_of_buffer_time = pos 0;
}

abbrev state : State
state = record {
  audio_buffer = buffer;
  rate_limiter = record { flowrate_per_second = pos 0; last_package_time = pos 0 };
  confirm_words = record {
    offset = pos 0;
    max_confirmed_words = 50;
    confirm_if_older_then = pos 1;
    confirmed = [];
    confirmed_end_time = pos 0;
  };
}

abbrev word : Word ℤ
word = record { word = 97 ∷ []; start = pos 0; end = pos 3; probability = pos 5 }

-- Speech in the last four samples, transcribed as one word.
abbrev modules : Stateless Bytes Bytes
modules = record {
  converter = record {
    convert_sample_rate = 16000;
    ffmpeg = λ rate bytes. (0, bytes);
    waveform = λ out. some out;
  };
  vad = record { max_chunk_size = pos 30; last_time_spoken_offset = pos 3; loaded = true };
  pyannote = record {
    tensor = λ audio. audio;
    ndim = λ tensor. 1;
    unsqueeze = λ tensor. tensor;
    segmentation =
        λ tensor rate. (pos 1, pos 0) ∷ (pos 2, pos 5) ∷ (pos 4, pos 7) ∷ (pos 6, pos 4) ∷ [];
    support = λ collar regions. regions;
    get_timeline = λ regions. regions;
    is_float = λ x. true;
    half = pos 3;
    infinity = pos 1000;
  };
  models = record {
    loaded = true;
    batching = true;
    has_batched = false;
    transcribe = λ audio.
        record {
          text = [];
          start = pos 0;
          end = pos 3;
          words = some (word ∷ []);
          probability = none;
        }
        ∷ [];
    transcribe_batched = λ audio chunks. [];
  };
}

abbrev tables : TextTables ℤ
tables = record {
  lower = λ text. text;
  is_symbol = λ c. false;
  ratio = λ a b. pos 7;
  minus_one = negsuc 0;
  seven_tenths = pos 7;
  two_tenths = pos 2;
}

abbrev received : AudioData ℤ Bytes
received = record {
  raw_audio_data = encode (fields_at 3 6 (9 ∷ []));
  audio_buffer = none;
  audio_buffer_time = none;
  audio_buffer_start_after = none;
  audio_data = none;
  audio_data_sample_rate = none;
  vad_result = none;
  language = none;
  transcribed_segments = none;
  confirmed_words = none;
  unconfirmed_words = none;
  translations = none;
}

-- The package passes, and its word is old enough to be confirmed.
run-received :
    (run ticks tables modules (pos 9) state received).1.confirmed_words ≡ some (word ∷ [])
unfolding run create_audio_buffer limit_rate convert_audio detect_voice transcribe confirm
    execute_data buffer_page append_page calculate_page_duration samples_between RateLimiter.execute
    Convert.execute convert load_audio_from_binary store_audio Vad.execute detect_fields detect
    merge_segments merge_from last_time_spoken Whisper.execute transcribe_audio transcribe_from
    transcribed segments_of shift_segment shift_words shift_word ConfirmWords.execute confirm_fields
    confirm_segments words_of ConfirmWords.confirm remove_overlaps remove_indices overlap_indices
    finish limit end_of sorted encode page_of from_bytes byte_at ◌+ℤ◌ ◌-ℤ◌
run-received = refl

run-Ends_example :
    (let q = run ticks tables modules (pos 9) state received in Ends IsConfirmed q.1 q.2)
run-Ends_example = run-Ends ticks tables modules (pos 9) state received

state-KeepsClean : KeepsClean ticks tables modules ticks-IsOrdered state
state-KeepsClean = record { in_order = tt; probable = tt; bounded = λ h. omega arith }

run-AllClean_example :
    AllClean ticks tables modules ticks-IsOrdered state
      ((pos 9, received) ∷ (pos 12, record received { raw_audio_data = [] }) ∷ [])
run-AllClean_example =
    run-AllClean ticks tables modules ticks-IsOrdered
      ((pos 9, received) ∷ (pos 12, record received { raw_audio_data = [] }) ∷ []) state
      state-KeepsClean
