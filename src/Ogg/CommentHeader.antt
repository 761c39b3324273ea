-- ===== src/Ogg/CommentHeader.antt =====
-- `OPUS_Comment_Header` of ogg.py.
pub mod Format
use live_translation.Common.{
  ℕ, zero, suc, ◌+◌, ◌-◌, ◌≡◌, Bool, not, List, [], ◌∷◌, ◌++◌, ltb, length,
}
use live_translation.Common.Result.{Result, ok, err, ◌>>=◌, ◌>>◌, raise_if}
use live_translation.Ogg.Bytes.{
  Bytes, Error, invalid_comment_header, end_in_comment_length, end_in_comment, slice, starts_with,
  from_little,
}
use live_translation.Ogg.Utf8.{Text, decode}
use live_translation.Ogg.Page.{Page}

pub record CommentHeader : Type 0 where
  pub pages : List Page
  pub vendor_string_length : ℕ
  pub vendor_string : Text
  pub user_comments : List Text

-- b'OpusTags'
abbrev pub opus_tags : Bytes
opus_tags = b'O' ∷ b'p' ∷ b'u' ∷ b's' ∷ b'T' ∷ b'a' ∷ b'g' ∷ b's' ∷ []

-- `b''.join(page.data for page in pages)`
unfoldable pub joined_data : List Page → Bytes
joined_data [] = []
joined_data (p ∷ ps) = p.page_data ++ joined_data ps

-- The `for` loop over the user comments: rounds left, data, offset.
unfoldable pub comments_from : ℕ → Bytes → ℕ → Result Error (List Text)
comments_from zero content offset = ok []
comments_from (suc n) content offset = do
  raise_if (ltb (length content) (offset + 4)) end_in_comment_length
  let user_comment_length = from_little (slice content offset (offset + 4))
  let start = offset + 4
  raise_if (ltb (length content) (start + user_comment_length)) end_in_comment
  user_comment ← decode (slice content start (start + user_comment_length))
  user_comments ← comments_from n content (start + user_comment_length)
  ok (user_comment ∷ user_comments)

-- The constructor: `__post_init__` calls `_from_pages`.
unfoldable pub from_pages : List Page → Result Error CommentHeader
from_pages pages = do
  let content = joined_data pages
  raise_if (not (starts_with content opus_tags)) invalid_comment_header
  let vendor_string_length = from_little (slice content 8 12)
  vendor_string ← decode (slice content 12 (12 + vendor_string_length))
  let offset = 12 + vendor_string_length
  let user_comment_list_length = from_little (slice content offset (offset + 4))
  user_comments ← comments_from user_comment_list_length content (offset + 4)
  ok (record {
    pages = pages;
    vendor_string_length = vendor_string_length;
    vendor_string = vendor_string;
    user_comments = user_comments;
  })
