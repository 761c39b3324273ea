-- ===== src/Ogg/CommentHeader/Format.antt =====
-- The comment header's layout (RFC 7845, section 5.2), and what `OPUS_Comment_Header` reads from it.
use live_translation.Common.{
  drop-drop, ℕ, ◌+◌, ◌<◌, ◌≡◌, refl, sym, ap, ◌∙◌, List, [], ◌∷◌, ◌++◌, arith, length,
  length-append, length-drop, true, take, drop, append_assoc, le→not-ltb,
}
use live_translation.Common.Result.{ok}
use live_translation.Ogg.Bytes.{
  Bytes, slice, starts_with, to_little, from_little, field_limit, from_little-to_little,
  drop-append, take-append, slice-offset,
}
use live_translation.Ogg.Utf8.{Text, decode}
use live_translation.Ogg.Page.{Page}
use live_translation.Ogg.CommentHeader.{opus_tags, joined_data, comments_from, from_pages}

-- A string with its length in front.
unfoldable pub encode_string : Bytes → Bytes
encode_string s = to_little 4 (length s) ++ s

unfoldable pub encode_strings : List Bytes → Bytes
unfolding encode_string
encode_strings [] = []
encode_strings (s ∷ ss) = encode_string s ++ encode_strings ss

unfoldable pub encode : Bytes → List Bytes → Bytes
unfolding encode_string encode_strings
encode vendor comments =
    opus_tags
    ++ (encode_string vendor ++ (to_little 4 (length comments) ++ encode_strings comments))

-- The strings fit their length fields and are UTF-8 for the given texts.
abbrev pub AllEncode : List Bytes → List Text → Type 0
AllEncode [] [] = Unit {0}
AllEncode [] (t ∷ ts) = ⊥
AllEncode (s ∷ ss) [] = ⊥
AllEncode (s ∷ ss) (t ∷ ts) = (length s < field_limit 4) × (decode s ≡ ok t) × AllEncode ss ts

module _ (xs : Bytes) (o : ℕ) (s tail : Bytes) (at : drop o xs ≡ encode_string s ++ tail) where
  string_split : drop o xs ≡ to_little 4 (length s) ++ (s ++ tail)
  unfolding encode_string
  string_split = at ∙ append_assoc (to_little 4 (length s)) s tail

  -- The length field at an offset at which a string is laid out.
  string_length : length s < field_limit 4 → from_little (slice xs o (o + 4)) ≡ length s
  string_length h =
      ap from_little (
        slice-offset xs o 4
        ∙ ap (take 4) string_split
        ∙ take-append 4 (to_little 4 (length s)) (s ++ tail) (omega arith))
      ∙ from_little-to_little 4 (length s) h

  after_length : drop (o + 4) xs ≡ s ++ tail
  after_length =
      sym (drop-drop o 4 xs)
      ∙ ap (drop 4) string_split
      ∙ drop-append 4 (to_little 4 (length s)) (s ++ tail) (omega arith)

  string_bytes : slice xs (o + 4) (o + 4 + length s) ≡ s
  string_bytes =
      slice-offset xs (o + 4) (length s)
      ∙ ap (take (length s)) after_length
      ∙ take-append (length s) s tail refl

  after_string : drop (o + 4 + length s) xs ≡ tail
  after_string =
      sym (drop-drop (o + 4) (length s) xs)
      ∙ ap (drop (length s)) after_length
      ∙ drop-append (length s) s tail refl

  string_within : length xs ≡ o + 4 + length s + length tail
  string_within =
      let d = length-drop o xs in
      omega (
        arith,
        d,
        ap length string_split,
        length-append (to_little 4 (length s)) (s ++ tail),
        length-append s tail,
      )

comments_from-encode :
    (xs : Bytes) (o : ℕ) (ss : List Bytes) (ts : List Text) (tail : Bytes)
    → drop o xs ≡ encode_strings ss ++ tail
    → AllEncode ss ts
    → comments_from (length ss) xs o ≡ ok ts
unfolding comments_from encode_strings
comments_from-encode xs o [] [] tail at v = refl
comments_from-encode xs o [] (t ∷ ts) tail at v = absurd v
comments_from-encode xs o (s ∷ ss) [] tail at v = absurd v
comments_from-encode xs o (s ∷ ss) (t ∷ ts) tail at (short, text, others) =
    let next = encode_strings ss ++ tail in
    let at' : drop o xs ≡ encode_string s ++ next =
      at ∙ append_assoc (encode_string s) (encode_strings ss) tail in
    let n = string_within xs o s next at' in
    rw (
      le→not-ltb (length xs) (o + 4) (omega arith),
      string_length xs o s next at' short,
      le→not-ltb (length xs) (o + 4 + length s) (omega arith),
      string_bytes xs o s next at',
      text,
      comments_from-encode xs (o + 4 + length s) ss ts tail (after_string xs o s next at') others,
    )

-- A comment header that is laid out by the format, whatever follows it on its pages, is read back
-- with its vendor string and all its user comments, in order.
pub from_pages-encode :
    (pages : List Page) (vendor : Bytes) (v : Text) (ss : List Bytes) (ts : List Text)
    (rest : Bytes)
    → joined_data pages ≡ encode vendor ss ++ rest
    → length vendor < field_limit 4
    → decode vendor ≡ ok v
    → length ss < field_limit 4
    → AllEncode ss ts
    → from_pages pages
      ≡ ok (record {
        pages = pages;
        vendor_string_length = length vendor;
        vendor_string = v;
        user_comments = ts;
      })
unfolding from_pages encode
from_pages-encode pages vendor v ss ts rest at short text few each =
    let xs = joined_data pages in
    let more = (to_little 4 (length ss) ++ encode_strings ss) ++ rest in
    let start : drop 8 xs ≡ encode_string vendor ++ more =
      ap (drop 8) at ∙ append_assoc (encode_string vendor) _ rest in
    let after = after_string xs 8 vendor more start in
    let o = 12 + length vendor in
    let after' : drop o xs ≡ to_little 4 (length ss) ++ (encode_strings ss ++ rest) =
      after ∙ append_assoc (to_little 4 (length ss)) (encode_strings ss) rest in
    let count : from_little (slice xs o (o + 4)) ≡ length ss =
      ap from_little (
        slice-offset xs o 4
        ∙ ap (take 4) after'
        ∙ take-append 4 (to_little 4 (length ss)) (encode_strings ss ++ rest) (omega arith))
      ∙ from_little-to_little 4 (length ss) few in
    let body : drop (o + 4) xs ≡ encode_strings ss ++ rest =
      sym (drop-drop o 4 xs)
      ∙ ap (drop 4) after'
      ∙ drop-append 4 (to_little 4 (length ss)) (encode_strings ss ++ rest) (omega arith) in
    let tagged : starts_with xs opus_tags ≡ true = ap (λ t. starts_with t opus_tags) at in
    rw (
      tagged,
      string_length xs 8 vendor more start short,
      string_bytes xs 8 vendor more start,
      text,
      count,
      comments_from-encode xs (o + 4) ss ts rest body each,
    )
