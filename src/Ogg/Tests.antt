-- ===== src/Ogg/Tests.antt =====
-- Tests of the Ogg and Opus parsers, and the theorems about them at concrete streams.
use live_translation.Common.{ℕ, ◌≡◌, refl, List, [], ◌∷◌, ◌++◌, some, arith, map, take, length}
use live_translation.Common.Result.{ok}
use live_translation.Common.Sort.{sorted, IsSorted}
use mathlib.Core.List.{Perm}
use live_translation.Ogg.Bytes.{Bytes, little, byte_at}
use live_translation.Ogg.Utf8.{decode}
use live_translation.Ogg.Page.{Page, from_bytes}
use live_translation.Ogg.Page.Format.{Fields, encode, page_of, from_bytes-encode}
use live_translation.Ogg.Split.{
  no_header, page_at, pages_from, by_sequence_number, split_ogg_data_into_pages,
}
use live_translation.Ogg.Split.Total.{Pieces, split_ogg_data_into_pages-total}
use live_translation.Ogg.Split.Concat.{encode_all, split_ogg_data_into_pages-encode}
use live_translation.Ogg.CommentHeader.{joined_data, from_pages}
use live_translation.Ogg.CommentHeader.Format.{from_pages-encode}
use live_translation.Ogg.CommentHeader.Format
use live_translation.Ogg.Audio.{continued_pages, comment_header_pages, page_durations}
use live_translation.Ogg.Audio.Duration.{page_durations-total}
use live_translation.Common.Ticks.{ticks}
use live_translation.Common.Int.{pos, ◌-ℤ◌, ◌+ℤ◌}
use live_translation.Ogg.Audio.Headers.{HeaderRun, comment_header_pages-HeaderRun}

abbrev fields_at : ℕ → ℕ → Bytes → Fields
fields_at number granule payload = record {
  version = 0;
  header_type = 0;
  granule_position = granule;
  serial_number = 70000;
  page_sequence_number = number;
  crc_checksum = 5;
  segment_table = length payload ∷ [];
  payload = payload;
}

-- The comment header with the vendor "ab" and the single comment "c".
abbrev tags : Bytes
tags = Format.encode (b'a' ∷ b'b' ∷ []) ((b'c' ∷ []) ∷ [])

abbrev second : Fields
second = fields_at 1 960 (8 ∷ 9 ∷ [])

abbrev first : Fields
first = fields_at 0 480 (7 ∷ [])

from_bytes-encode_example : from_bytes (encode second) little ≡ ok (page_of second)
from_bytes-encode_example = from_bytes-encode second (record {
  granule = omega arith;
  serial = omega arith;
  sequence = omega arith;
  crc = omega arith;
  laced = refl;
})

-- Written in the wrong order, and followed by two bytes that are no page.
split_ogg_data_into_pages-swapped :
    split_ogg_data_into_pages (encode_all (second ∷ first ∷ []) ++ 1 ∷ 2 ∷ [])
    ≡ ok (page_of first ∷ page_of second ∷ [])
unfolding split_ogg_data_into_pages encode_all encode page_of sorted pages_from no_header page_at
    from_bytes byte_at
split_ogg_data_into_pages-swapped = refl

split_ogg_data_into_pages-encode_example :
    split_ogg_data_into_pages (encode_all (second ∷ first ∷ []) ++ 1 ∷ 2 ∷ [])
    ≡ ok (sorted by_sequence_number (map page_of (second ∷ first ∷ [])))
unfolding no_header
split_ogg_data_into_pages-encode_example =
    split_ogg_data_into_pages-encode (second ∷ first ∷ []) (1 ∷ 2 ∷ [])
      (
        record {
          granule = omega arith;
          serial = omega arith;
          sequence = omega arith;
          crc = omega arith;
          laced = refl;
        },
        (
          record {
            granule = omega arith;
            serial = omega arith;
            sequence = omega arith;
            crc = omega arith;
            laced = refl;
          },
          tt,
        ),
      )
      refl

-- A stream that is cut off inside its second page.
abbrev cut_off : Bytes
cut_off = encode_all (first ∷ []) ++ take 28 (encode second)

split_ogg_data_into_pages-total_example :
    (pages stream : List Page) × (split_ogg_data_into_pages cut_off ≡ ok pages)
    × Pieces cut_off stream
    × Perm pages stream
    × IsSorted by_sequence_number pages
split_ogg_data_into_pages-total_example = split_ogg_data_into_pages-total cut_off

abbrev tags_page : Page
tags_page = page_of (fields_at 1 0 tags)

from_pages-encode_example :
    from_pages (tags_page ∷ [])
    ≡ ok (record {
      pages = tags_page ∷ [];
      vendor_string_length = 2;
      vendor_string = 97 ∷ 98 ∷ [];
      user_comments = (99 ∷ []) ∷ [];
    })
unfolding joined_data page_of Format.encode decode
from_pages-encode_example =
    from_pages-encode (tags_page ∷ []) (b'a' ∷ b'b' ∷ []) (97 ∷ 98 ∷ []) ((b'c' ∷ []) ∷ [])
      ((99 ∷ []) ∷ []) [] refl (omega arith) refl (omega arith) (omega arith, refl, tt)

abbrev audio_page : Page
audio_page = page_of (fields_at 2 960 (8 ∷ 9 ∷ []))

page_durations-total_example :
    page_durations ticks 48000 (tags_page ∷ audio_page ∷ [])
    ≡ ok (tags_page ∷ record audio_page { duration = pos 960 } ∷ [], pos 960)
unfolding page_of ◌-ℤ◌ ◌+ℤ◌
page_durations-total_example =
    page_durations-total ticks 48000 tags_page (audio_page ∷ []) (ground arith)

-- The header is found with the audio page behind it.
found_pages :
    comment_header_pages (tags_page ∷ audio_page ∷ []) ≡ some (tags_page ∷ audio_page ∷ [])
unfolding comment_header_pages continued_pages page_of Format.encode
found_pages = refl

comment_header_pages-HeaderRun_example :
    HeaderRun (tags_page ∷ audio_page ∷ []) (tags_page ∷ audio_page ∷ [])
comment_header_pages-HeaderRun_example =
    comment_header_pages-HeaderRun (tags_page ∷ audio_page ∷ []) (tags_page ∷ audio_page ∷ [])
      found_pages
