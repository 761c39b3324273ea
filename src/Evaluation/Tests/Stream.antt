-- ===== src/Evaluation/Tests/Stream.antt =====
-- Tests of the simulated live stream, and the theorem about it at a concrete file.
use live_translation.Common.{
  ℕ, Bool, ◌≡◌, refl, List, [], ◌∷◌, ◌++◌, map, none, some, length, arith,
}
use live_translation.Common.Int.{ℤ, pos, leb_ℤ, ◌-ℤ◌}
use live_translation.Common.Ticks.{ticks}
use live_translation.Common.Result.{ok}
use live_translation.Common.Sort.{sorted}
use live_translation.Ogg.Bytes.{Bytes, byte_at}
use live_translation.Ogg.Page.{Page, from_bytes}
use live_translation.Ogg.Page.Format.{Fields, encode, page_of}
use live_translation.Ogg.Split.{split_ogg_data_into_pages, pages_from, page_at, no_header}
use live_translation.Ogg.IdHeader.{IdHeader}
use live_translation.Ogg.IdHeader
use live_translation.Ogg.Audio.{
  Audio, open_audio, extract_id_header, extract_comment_header, comment_header_pages,
  with_durations,
}
use live_translation.Evaluation.Playback.{Action, simulate_live_audio_stream, returned}
use live_translation.Evaluation.Playback.Complete.{
  AreInTurn, sent_by, slept_by, simulate_live_audio_stream_complete,
}

-- A file of an id header for 48000 samples a second, and two pages of audio.
abbrev page_fields : ℕ → ℕ → Bytes → Fields
page_fields number granule payload = record {
  version = 0;
  header_type = 0;
  granule_position = granule;
  serial_number = 7;
  page_sequence_number = number;
  crc_checksum = 5;
  segment_table = length payload ∷ [];
  payload = payload;
}

abbrev id_payload : Bytes
id_payload =
    b'O' ∷ b'p' ∷ b'u' ∷ b's' ∷ b'H' ∷ b'e' ∷ b'a' ∷ b'd' ∷ 1 ∷ 2 ∷ 56 ∷ 1 ∷ 128 ∷ 187 ∷ 0 ∷ 0 ∷ 0
    ∷ 0 ∷ 0 ∷ []

abbrev id_page : Page
id_page = page_of (page_fields 0 0 id_payload)

abbrev audio_pages : List Page
audio_pages = page_of (page_fields 1 960 (8 ∷ [])) ∷ page_of (page_fields 2 2880 (9 ∷ 9 ∷ [])) ∷ []

abbrev file : Bytes
file =
    encode (page_fields 0 0 id_payload)
    ++ encode (page_fields 1 960 (8 ∷ []))
    ++ encode (page_fields 2 2880 (9 ∷ 9 ∷ []))

abbrev id_header : IdHeader
id_header = record {
  page = id_page;
  version = 1;
  channel_count = 2;
  pre_skip = 312;
  input_sample_rate = 48000;
  output_gain = pos 0;
  mapping_family = 0;
  optional_mapping_table = [];
}

abbrev opened : Audio
opened = record {
  ogg_data = file;
  pages = id_page ∷ audio_pages;
  id_header = some id_header;
  comment_header = none;
  duration = pos 0;
}

-- Up to ten seconds can be slept.
abbrev can_sleep : ℤ → Bool
can_sleep duration = leb_ℤ duration (pos 480000)

open_audio-file : open_audio ticks file ≡ ok opened
unfolding open_audio split_ogg_data_into_pages encode page_of sorted pages_from no_header page_at
    from_bytes byte_at extract_id_header extract_comment_header comment_header_pages with_durations
    IdHeader.from_page
open_audio-file = refl

simulate_live_audio_stream_complete_example :
    (actions : List Action) × (simulate_live_audio_stream ticks can_sleep file
      ≡ (actions, returned))
    × AreInTurn actions
    × (sent_by actions ≡ map (λ p. p.raw_data) (id_page ∷ audio_pages))
    × (slept_by actions ≡ pos 0 ∷ pos 960 ∷ pos 1920 ∷ [])
unfolding encode page_of ◌-ℤ◌
simulate_live_audio_stream_complete_example =
    simulate_live_audio_stream_complete ticks can_sleep file opened id_header id_page audio_pages
      open_audio-file refl refl (λ h. absurd (omega (arith, h)))
      (refl, refl, (refl, refl, (refl, refl, tt)))
