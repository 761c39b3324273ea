-- ===== src/Ogg/IdHeader.antt =====
-- `OPUS_Id_Header` of ogg.py.
use live_translation.Common.{ℕ, [], ◌∷◌, ltb, length, drop, if◌then◌else◌}
use live_translation.Common.Int.{ℤ, pos, sub_ℕ}
use live_translation.Common.Result.{Result, ok, ◌>>=◌}
use live_translation.Ogg.Bytes.{Bytes, Error, slice, byte_at, from_little}
use live_translation.Ogg.Page.{Page}

pub record IdHeader : Type 0 where
  pub page : Page
  pub version : ℕ
  pub channel_count : ℕ
  pub pre_skip : ℕ
  pub input_sample_rate : ℕ
  pub output_gain : ℤ
  pub mapping_family : ℕ
  pub optional_mapping_table : Bytes

-- b'OpusHead'
abbrev pub opus_head : Bytes
opus_head = b'O' ∷ b'p' ∷ b'u' ∷ b's' ∷ b'H' ∷ b'e' ∷ b'a' ∷ b'd' ∷ []

-- `int.from_bytes(data, 'little', signed=True)` of two bytes.
unfoldable pub signed_16 : Bytes → ℤ
signed_16 xs = let n = from_little xs in if ltb n 0x8000 then pos n else sub_ℕ n 0x1_0000

-- The constructor: `__post_init__` calls `_from_page`.
unfoldable pub from_page : Page → Result Error IdHeader
unfolding signed_16
from_page page = do
  let content = page.page_data
  version ← byte_at content 8
  channel_count ← byte_at content 9
  mapping_family ← byte_at content 18
  ok (record {
    page = page;
    version = version;
    channel_count = channel_count;
    pre_skip = from_little (slice content 10 12);
    input_sample_rate = from_little (slice content 12 16);
    output_gain = signed_16 (slice content 16 18);
    mapping_family = mapping_family;
    optional_mapping_table = if ltb 19 (length content) then drop 19 content else [];
  })
