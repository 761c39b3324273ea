-- ===== src/Ogg/Page/Format.antt =====
-- The page layout of RFC 3533, as the comment at the top of ogg.py tabulates it, and what
-- `OggS_Page` reads from a page laid out so.
use live_translation.Common.{
  drop-drop, ℕ, ◌+◌, ◌-◌, ◌<◌, ◌≡◌, refl, [], ◌∷◌, ◌++◌, arith, length, length-append, append_assoc,
  ap, le→not-ltb,
}
use live_translation.Common.Int.{pos}
use live_translation.Common.Result.{ok}
use live_translation.Ogg.Bytes.{
  Bytes, little, slice, byte_at, sum, to_little, field_limit, from_little-to_little, drop-append,
  take-append, take_all,
}
use live_translation.Ogg.Page.{Page, from_bytes, oggs}

pub record Fields : Type 0 where
  pub version : ℕ
  pub header_type : ℕ
  pub granule_position : ℕ
  pub serial_number : ℕ
  pub page_sequence_number : ℕ
  pub crc_checksum : ℕ
  pub segment_table : Bytes
  pub payload : Bytes

-- Each number fits its field, and the lacing values add up to the length of the payload.
pub record IsLaidOut (f : Fields) : Type 0 where
  pub granule : f.granule_position < field_limit 8
  pub serial : f.serial_number < field_limit 4
  pub sequence : f.page_sequence_number < field_limit 4
  pub crc : f.crc_checksum < field_limit 4
  pub laced : sum f.segment_table ≡ length f.payload

abbrev pub header_bytes : Fields → Bytes
header_bytes f =
    oggs
    ++ f.version ∷ f.header_type ∷ to_little 8 f.granule_position
    ++ to_little 4 f.serial_number
    ++ to_little 4 f.page_sequence_number
    ++ to_little 4 f.crc_checksum
    ++ length f.segment_table ∷ []

unfoldable pub encode : Fields → Bytes
encode f = header_bytes f ++ f.segment_table ++ f.payload

-- The page object that those bytes stand for.
unfoldable pub page_of : Fields → Page
unfolding encode
page_of f = record {
  raw_data = encode f;
  endianness = little;
  capture_pattern = oggs;
  version = f.version;
  header_type = f.header_type;
  granule_position = f.granule_position;
  serial_number = f.serial_number;
  page_sequence_number = f.page_sequence_number;
  crc_checksum = f.crc_checksum;
  segment_count = length f.segment_table;
  segment_table = f.segment_table;
  page_size = length (encode f);
  duration = pos 0;
  page_data = f.payload;
}

pub length-encode :
    (f : Fields) → length (encode f) ≡ 27 + length f.segment_table + length f.payload
unfolding encode
length-encode f = omega (
  arith,
  length-append (header_bytes f ++ f.segment_table) f.payload,
  length-append (header_bytes f) f.segment_table,
)

module _ (h table payload : Bytes) (long : length h ≡ 27) where
  -- The segment table stands behind the fixed header.
  slice_table : slice (h ++ table ++ payload) 27 (27 + length table) ≡ table
  slice_table =
      let e : 27 + length table - 27 ≡ length table = omega arith in
      rw (e, append_assoc, drop-append 27 h (table ++ payload) (omega arith))
        (take-append (length table) table payload refl)

  -- The payload stands behind the table, up to the page's end.
  slice_payload :
      (size : ℕ)
      → size ≡ 27 + length table + length payload
      → slice (h ++ table ++ payload) (27 + length table) size ≡ payload
  slice_payload size e =
      let n : size - (27 + length table) ≡ length payload = omega arith in
      rw
        (
          n,
          append_assoc,
          ← drop-drop 27 (length table) (h ++ (table ++ payload)),
          drop-append 27 h (table ++ payload) (omega arith),
          drop-append (length table) table payload refl,
        )
        (take_all payload)

-- Parsing a page that is laid out by the table of the format gives back every one of its fields,
-- its segment table and its payload.
pub from_bytes-encode : (f : Fields) → IsLaidOut f → from_bytes (encode f) little ≡ ok (page_of f)
unfolding from_bytes encode page_of byte_at
from_bytes-encode f v =
    rw
      (
        slice_table (header_bytes f) f.segment_table f.payload refl,
        slice_payload (header_bytes f) f.segment_table f.payload refl
            (27 + length f.segment_table + sum f.segment_table) (omega arith),
        from_little-to_little 8 f.granule_position v.granule,
        from_little-to_little 4 f.serial_number v.serial,
        from_little-to_little 4 f.page_sequence_number v.sequence,
        from_little-to_little 4 f.crc_checksum v.crc,
        le→not-ltb (length (encode f)) 27 (omega (arith, length-encode f)),
      )
      (ap ok (
        same_size (27 + length f.segment_table + sum f.segment_table)
          (omega (arith, length-encode f))))
  where
    same_size :
        (n : ℕ)
        → n ≡ length (encode f)
        → ◌≡◌ {A = Page} (record (page_of f) { page_size = n }) (page_of f)
    same_size n e = rw e
