-- ===== src/Ogg/Audio.antt =====
-- `Ogg_OPUS_Audio` of ogg.py: the two headers looked up among the pages, and the durations.
pub mod Headers
pub mod Duration
use live_translation.Common.{
  ℕ, ◌%◌, ◌≡◌, Bool, true, false, ◌&&◌, List, [], ◌∷◌, ◌++◌, Option, none, some, ◌==◌, not,
  if◌then◌else◌,
}
use live_translation.Common.Int.{ℤ, pos, sub_ℕ, ◌+ℤ◌}
use live_translation.Common.Result.{Result, ok, err, ◌>>=◌, ◌>>◌, raise_if}
use live_translation.Common.Float.{Floats}
use live_translation.Ogg.Bytes.{Bytes, Error, index_error, zero_division, starts_with}
use live_translation.Ogg.Page.{Page}
use live_translation.Ogg.Split.{split_ogg_data_into_pages}
use live_translation.Ogg.IdHeader.{IdHeader, opus_head}
use live_translation.Ogg.IdHeader
use live_translation.Ogg.CommentHeader.{CommentHeader, opus_tags}
use live_translation.Ogg.CommentHeader

-- A float is a number that stands for it. The page of a header object is kept as it was parsed, with
-- duration zero: nothing reads a header page's duration.
pub record Audio : Type 0 where
  pub ogg_data : Bytes
  pub pages : List Page
  pub id_header : Option IdHeader
  pub comment_header : Option CommentHeader
  pub duration : ℤ

unfoldable pub extract_id_header : List Page → Result Error (Option IdHeader)
extract_id_header [] = ok none
extract_id_header (page ∷ pages) =
    if starts_with page.page_data opus_head
    then (do opus_id_header ← IdHeader.from_page page; ok (some opus_id_header))
    else extract_id_header pages

-- `page.header_type & 0x01 == 0`
abbrev pub is_fresh : Page → Bool
is_fresh page = (page.header_type % 2) == 0

-- The loop once the comment header has started; `none` if it is not completed.
unfoldable pub continued_pages : List Page → Option (List Page)
continued_pages [] = none
continued_pages (page ∷ pages) =
    if is_fresh page
    then some (page ∷ [])
    else elim (continued_pages pages) [ none ↦ none | some rest ↦ some (page ∷ rest) ]

-- The whole loop of `_extract_comment_header`.
unfoldable pub comment_header_pages : List Page → Option (List Page)
unfolding continued_pages
comment_header_pages [] = none
comment_header_pages (page ∷ pages) =
    if page.page_sequence_number == 1 && starts_with page.page_data opus_tags
    then elim (continued_pages pages) [ none ↦ none | some rest ↦ some (page ∷ rest) ]
    else comment_header_pages pages

unfoldable pub extract_comment_header : List Page → Result Error (Option CommentHeader)
unfolding comment_header_pages
extract_comment_header pages = elim (comment_header_pages pages) [
  | none ↦ ok none
  | some found ↦ do
    opus_comment_header ← CommentHeader.from_pages found
    ok (some opus_comment_header)
]

module _ (o : Floats ℤ) where
  -- `samples / sample_rate` of one page.
  unfoldable pub samples_between : ℕ → ℕ → ℕ → Result Error ℤ
  samples_between current previous sample_rate =
      if sample_rate == 0
      then err zero_division
      else ok (o.quotient (sub_ℕ current previous) sample_rate)

  -- `calculate_page_duration`, the function at the end of ogg.py.
  unfoldable pub calculate_page_duration : ℕ → Option ℕ → ℕ → Result Error ℤ
  unfolding samples_between
  calculate_page_duration current none sample_rate = ok o.fzero
  calculate_page_duration current (some previous) sample_rate =
      samples_between current previous sample_rate

  -- The loop of `_calculate_page_duration` over `pages[1:]`: the pages with their durations, and
  -- `complete_duration`.
  unfoldable pub durations_from : ℕ → ℕ → ℤ → List Page → Result Error (List Page × ℤ)
  unfolding samples_between
  durations_from sample_rate previous complete_duration [] = ok ([], complete_duration)
  durations_from sample_rate previous complete_duration (page ∷ pages) = do
    duration ← samples_between page.granule_position previous sample_rate
    (later, total) ←
        durations_from sample_rate page.granule_position (o.add complete_duration duration) pages
    ok (record page { duration = duration } ∷ later, total)

  -- `_calculate_page_duration` for a stream with both headers.
  unfoldable pub page_durations : ℕ → List Page → Result Error (List Page × ℤ)
  unfolding durations_from
  page_durations sample_rate [] = err index_error
  page_durations sample_rate (page ∷ pages) = do
    (later, complete_duration) ← durations_from sample_rate page.granule_position o.fzero pages
    ok (page ∷ later, complete_duration)

  unfoldable pub with_durations :
      Option IdHeader → Option CommentHeader → List Page → Result Error (List Page × ℤ)
  unfolding page_durations
  with_durations (some id_header) (some comment_header) pages =
      page_durations id_header.input_sample_rate pages
  with_durations _ _ pages = ok (pages, o.fzero)

  -- The constructor.
  unfoldable pub open_audio : Bytes → Result Error Audio
  unfolding with_durations
  open_audio ogg_data = do
    pages ← split_ogg_data_into_pages ogg_data
    id_header ← extract_id_header pages
    comment_header ← extract_comment_header pages
    (timed, duration) ← with_durations id_header comment_header pages
    ok (record {
      ogg_data = ogg_data;
      pages = timed;
      id_header = id_header;
      comment_header = comment_header;
      duration = duration;
    })
