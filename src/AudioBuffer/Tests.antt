-- ===== src/AudioBuffer/Tests.antt =====
-- The theorems about the audio buffer at a buffer that waits for its second page.
use live_translation.Common.{ℕ, ◌≡◌, refl, [], ◌∷◌, none, some, arith}
use live_translation.Common.Int.{pos, ◌+ℤ◌, ◌-ℤ◌, zero_add_ℤ, sub_zero_ℤ}
use live_translation.Common.Ticks.{ticks}
use live_translation.Ogg.Bytes.{Bytes, byte_at}
use live_translation.Ogg.Page.{from_bytes}
use live_translation.Ogg.Page.Format.{Fields, encode, page_of}
use live_translation.Data.{passed}
use live_translation.AudioBuffer.{AudioBuffer, Package, buffer_page, execute_data}
use live_translation.AudioBuffer.Output.{IsZeroExact, buffer_page-first_overflows}

abbrev fields_at : ℕ → ℕ → Fields
fields_at granule number = record {
  version = 0;
  header_type = 0;
  granule_position = granule;
  serial_number = 1;
  page_sequence_number = number;
  crc_checksum = 0;
  segment_table = 2 ∷ [];
  payload = 8 ∷ 9 ∷ [];
}

abbrev page_bytes : ℕ → ℕ → Bytes
page_bytes granule number = encode (fields_at granule number)

abbrev received : Package ℕ
received = record {
  raw_audio_data = page_bytes 200 3;
  audio_buffer = none;
  audio_buffer_time = none;
  audio_buffer_start_after = none;
  audio_data = none;
  audio_data_sample_rate = none;
  vad_result = none;
  language = none;
  transcribed_segments = none;
  confirmed_words = none;
  unconfirmed_words = none;
  translations = none;
}

-- A hundred samples a second, a window of three seconds, and a page of one second.
abbrev buffer : AudioBuffer
buffer = record {
  last_n_seconds = 3;
  min_n_seconds = 1;
  audio_data_buffer = page_of (fields_at 100 2) ∷ [];
  current_audio_buffer_seconds = pos 48000;
  header_buffer = 1 ∷ 2 ∷ [];
  header_pages = some (page_of (fields_at 0 0) ∷ page_of (fields_at 0 1) ∷ []);
  sample_rate = 100;
  start_of_buffer_time = pos 0;
}

execute_data-buffer :
    (execute_data ticks buffer received).0.current_audio_buffer_seconds ≡ pos 96000
unfolding execute_data buffer_page from_bytes encode page_of ◌+ℤ◌ ◌-ℤ◌ byte_at
execute_data-buffer = refl

abbrev empty_buffer : AudioBuffer
empty_buffer = record buffer { audio_data_buffer = []; current_audio_buffer_seconds = pos 0 }

ticks_zero : (n : ℕ) → ticks.quotient (pos 0) n ≡ pos 0
unfolding ◌-ℤ◌ ◌+ℤ◌
ticks_zero n = ground arith

ticks-IsZeroExact : IsZeroExact ticks
unfolding ◌-ℤ◌ ◌+ℤ◌
ticks-IsZeroExact = record {
  zero_add = zero_add_ℤ;
  sub_zero = sub_zero_ℤ;
  zero_quotient = ticks_zero;
}

-- The page of four seconds is passed on as the header bytes alone.
buffer_page-first_overflows_example :
    let (b', d', outcome) = buffer_page ticks empty_buffer received (page_of (fields_at 400 2)) in
    (outcome ≡ passed)
    × (b'.audio_data_buffer ≡ [])
    × (d'.raw_audio_data ≡ 1 ∷ 2 ∷ [])
    × (b'.current_audio_buffer_seconds ≡ pos 192000)
unfolding page_of ◌-ℤ◌
buffer_page-first_overflows_example =
    buffer_page-first_overflows ticks empty_buffer received (page_of (fields_at 400 2))
      ticks-IsZeroExact refl refl refl refl refl refl
