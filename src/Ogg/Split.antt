-- ===== src/Ogg/Split.antt =====
-- `Ogg_OPUS_Audio._split_ogg_data_into_pages` of ogg.py. The loop runs on fuel: each round moves
-- the offset on by 27 at least, so one round more than there are bytes is enough.
pub mod Total
pub mod Concat
use live_translation.Common.{
  ℕ, zero, suc, ◌+◌, Bool, ◌||◌, not, List, [], ◌∷◌, ltb, leb, length, if◌then◌else◌,
}
use live_translation.Common.Result.{Result, ok, err, ◌>>=◌}
use live_translation.Common.Sort.{sorted}
use live_translation.Ogg.Bytes.{Bytes, Error, out_of_fuel, little, slice, byte_at, bytes_eq, sum}
use live_translation.Ogg.Page.{Page, from_bytes, oggs}

-- `len(header) < 27 or header[0:4] != b'OggS'`
unfoldable pub no_header : Bytes → Bool
no_header header = ltb (length header) 27 || not (bytes_eq (slice header 0 4) oggs)

-- The rest of a round of the loop: the page at the offset, and its size.
unfoldable pub page_at : Bytes → ℕ → Result Error (ℕ × Page)
page_at ogg_data offset = do
  page_segments ← byte_at (slice ogg_data offset (offset + 27)) 26
  let segment_table = slice ogg_data (offset + 27) (offset + 27 + page_segments)
  let page_size = 27 + page_segments + sum segment_table
  ogg_page ← from_bytes (slice ogg_data offset (offset + page_size)) little
  ok (page_size, ogg_page)

-- The `while` loop: the pages in the order of the data.
unfoldable pub pages_from : ℕ → Bytes → ℕ → Result Error (List Page)
pages_from zero ogg_data offset = err out_of_fuel
pages_from (suc fuel) ogg_data offset =
    if not (ltb offset (length ogg_data))
    then ok []
    else if no_header (slice ogg_data offset (offset + 27))
    then ok []
    else do
      (page_size, ogg_page) ← page_at ogg_data offset
      pages ← pages_from fuel ogg_data (offset + page_size)
      ok (ogg_page ∷ pages)

-- The sort key is the page sequence number.
abbrev pub by_sequence_number : Page → Page → Bool
by_sequence_number p q = leb p.page_sequence_number q.page_sequence_number

unfoldable pub split_ogg_data_into_pages : Bytes → Result Error (List Page)
split_ogg_data_into_pages ogg_data = do
  pages ← pages_from (length ogg_data + 1) ogg_data 0
  ok (sorted by_sequence_number pages)
