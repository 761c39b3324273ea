-- ===== src/Ogg/Page.antt =====
-- `OggS_Page` of ogg.py. Page `data` is called `page_data` here. A duration is a float: a
-- number that stands for it.
pub mod Format
use live_translation.Common.{ℕ, ◌+◌, ◌≡◌, ◌||◌, not, List, [], ◌∷◌, ltb, length}
use live_translation.Common.Int.{ℤ, pos}
use live_translation.Common.Result.{Result, ok, err, ◌>>=◌, ◌>>◌, raise_if}
use live_translation.Ogg.Bytes.{
  Bytes, Error, invalid_page, Endianness, little, slice, byte_at, bytes_eq, sum, from_bytes_int,
}

pub record Page : Type 0 where
  pub raw_data : Bytes
  pub endianness : Endianness
  pub capture_pattern : Bytes
  pub version : ℕ
  pub header_type : ℕ
  pub granule_position : ℕ
  pub serial_number : ℕ
  pub page_sequence_number : ℕ
  pub crc_checksum : ℕ
  pub segment_count : ℕ
  pub segment_table : Bytes
  pub page_size : ℕ
  pub duration : ℤ
  pub page_data : Bytes

-- b'OggS'
abbrev pub oggs : Bytes
oggs = b'O' ∷ b'g' ∷ b'g' ∷ b'S' ∷ []

-- The attributes that `_from_bytes` sets, from the three bytes that it indexes.
unfoldable pub header_fields : Bytes → Endianness → ℕ → ℕ → ℕ → Page
header_fields raw endianness version header_type segment_count =
    let segment_table = slice raw 27 (27 + segment_count) in
    let page_size = 27 + length segment_table + sum segment_table in
    record {
      raw_data = raw;
      endianness = endianness;
      capture_pattern = slice raw 0 4;
      version = version;
      header_type = header_type;
      granule_position = from_bytes_int endianness (slice raw 6 14);
      serial_number = from_bytes_int endianness (slice raw 14 18);
      page_sequence_number = from_bytes_int endianness (slice raw 18 22);
      crc_checksum = from_bytes_int endianness (slice raw 22 26);
      segment_count = segment_count;
      segment_table = segment_table;
      page_size = page_size;
      duration = pos 0;
      page_data = slice raw (27 + segment_count) page_size;
    }

-- The constructor: `__post_init__` calls `_from_bytes`.
unfoldable pub from_bytes : Bytes → Endianness → Result Error Page
unfolding header_fields
from_bytes raw endianness = do
  raise_if (ltb (length raw) 27 || not (bytes_eq (slice raw 0 4) oggs)) invalid_page
  version ← byte_at raw 4
  header_type ← byte_at raw 5
  segment_count ← byte_at raw 26
  ok (header_fields raw endianness version header_type segment_count)
