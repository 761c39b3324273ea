-- ===== src/AudioBuffer.antt =====
-- m_create_audio_buffer.py. A time is a float: a number that stands for it, on which the code works by
-- the operations of floats only.
pub mod Output
mod Tests
use live_translation.Common.{
  ℕ, zero, suc, ◌+◌, ◌*◌, ◌≡◌, Bool, true, false, ◌&&◌, List, [], ◌∷◌, ◌++◌, Option, none, some,
  ◌==◌, leb, ltb, if◌then◌else◌,
}
use live_translation.Common.Int.{ℤ}
use live_translation.Common.Float.{Floats}
use live_translation.Common.Result.{Result, ok, err, ◌>>=◌}
use live_translation.Ogg.Bytes.{Bytes, Error, little, index_error}
use live_translation.Ogg.Page.{Page, from_bytes}
use live_translation.Ogg.Split.Total.{raws}
use live_translation.Ogg.IdHeader.{IdHeader}
use live_translation.Ogg.CommentHeader.{CommentHeader}
use live_translation.Ogg.Audio.{Audio, open_audio, calculate_page_duration}
use live_translation.Data.{
  AudioData, Outcome, passed, exited, raised, no_header_pages, no_message, no_data, no_audio_data,
  ogg_error,
}

pub record AudioBuffer : Type 0 where
  pub last_n_seconds : ℕ
  pub min_n_seconds : ℕ
  pub audio_data_buffer : List Page
  pub current_audio_buffer_seconds : ℤ
  pub header_buffer : Bytes
  pub header_pages : Option (List Page)
  pub sample_rate : ℕ
  pub start_of_buffer_time : ℤ

abbrev pub is_empty {ℓ} : {B : Type ℓ} → List B → Bool
is_empty [] = true
is_empty (x ∷ xs) = false

-- `self._audio_data_buffer[-1]`'s granule position, or 0.
abbrev pub previous_granule : List Page → ℕ
previous_granule [] = 0
previous_granule (p ∷ []) = p.granule_position
previous_granule (p ∷ q ∷ qs) = previous_granule (q ∷ qs)

-- `audio_data_buffer[0]`'s granule position, or that of the popped page.
abbrev pub next_granule : List Page → ℕ → ℕ
next_granule [] popped = popped
next_granule (p ∷ ps) popped = p.granule_position

abbrev pub popped : List Page → List Page
popped [] = []
popped (page ∷ pages) = pages

-- `[OggS_Page(page.raw_data) for page in comment_header.pages]`
unfoldable pub reparse : List Page → Result Error (List Page)
reparse [] = ok []
reparse (p ∷ ps) = do page ← from_bytes p.raw_data little; pages ← reparse ps; ok (page ∷ pages)

-- `if not self._header_pages`
abbrev pub has_headers : AudioBuffer → Bool
has_headers b = elim b.header_pages [
  | none ↦ false
  | some pages ↦ elim pages [ [] ↦ false | p ∷ ps ↦ true ]
]

abbrev pub Package : Type 0 → Type 0
Package A = AudioData ℤ A

module _ {A : Type 0} where
  -- The package that is passed on: the headers and the pages of the buffer.
  abbrev pub filled : AudioBuffer → Package A → Package A
  filled b d = record d {
    raw_audio_data = b.header_buffer ++ raws b.audio_data_buffer;
    audio_buffer_time = some b.current_audio_buffer_seconds;
    audio_buffer_start_after = some b.start_of_buffer_time;
  }

  -- Where a computation raises, the object `b` stays as it was then.
  abbrev pub or_raise {ℓ} :
      {B : Type ℓ}
      → Result Error B
      → AudioBuffer
      → Package A
      → (B → AudioBuffer × Package A × Outcome)
      → AudioBuffer × Package A × Outcome
  or_raise (ok v) b d next = next v
  or_raise (err e) b d next = (b, d, raised (ogg_error e))

module _ (o : Floats ℤ) where
  -- The constructor.
  unfoldable pub create : ℕ → ℕ → AudioBuffer
  create last_n_seconds min_n_seconds = record {
    last_n_seconds = last_n_seconds;
    min_n_seconds = min_n_seconds;
    audio_data_buffer = [];
    current_audio_buffer_seconds = o.fzero;
    header_buffer = [];
    header_pages = none;
    sample_rate = 0;
    start_of_buffer_time = o.fzero;
  }

  -- The page that `pop(0)` takes off the buffer lasts until the page behind it.
  unfoldable pub pop_duration : ℕ → List Page → Result Error ℤ
  unfolding calculate_page_duration
  pop_duration sample_rate [] = err index_error
  pop_duration sample_rate (page ∷ pages) =
      calculate_page_duration o (next_granule pages page.granule_position)
        (some page.granule_position) sample_rate

  -- `self._current_audio_buffer_seconds >= seconds`
  abbrev pub holds_seconds : AudioBuffer → ℕ → Bool
  holds_seconds b seconds = o.fle (o.of_nat seconds) b.current_audio_buffer_seconds

  module _ {A : Type 0} where
    -- The oldest page leaves the buffer.
    unfoldable pub pop_page : AudioBuffer → Package A → AudioBuffer × Package A × Outcome
    unfolding pop_duration
    pop_page b d =
        let left = record b { audio_data_buffer = popped b.audio_data_buffer } in
        or_raise (pop_duration b.sample_rate b.audio_data_buffer) left d λ duration.
          let b' = record left {
            current_audio_buffer_seconds = o.sub b.current_audio_buffer_seconds duration;
            start_of_buffer_time = o.add b.start_of_buffer_time duration;
          } in
          (b', filled b' d, passed)

    -- The end of `execute`: the page is appended, and the buffer is passed on if it is long enough.
    unfoldable pub append_page :
        AudioBuffer → Package A → Page → ℤ → AudioBuffer × Package A × Outcome
    unfolding pop_page
    append_page old d page duration =
        let b = record old {
          audio_data_buffer = old.audio_data_buffer ++ page ∷ [];
          current_audio_buffer_seconds = o.add old.current_audio_buffer_seconds duration;
        } in
        if o.flt o.fzero duration && holds_seconds b b.min_n_seconds
        then (if holds_seconds b b.last_n_seconds then pop_page b d else (b, filled b d, passed))
        else (b, d, exited no_message)

    -- `execute` once the header pages are known.
    unfoldable pub buffer_page : AudioBuffer → Package A → Page → AudioBuffer × Package A × Outcome
    unfolding append_page calculate_page_duration
    buffer_page b d page =
        or_raise
          (calculate_page_duration o page.granule_position
            (some (previous_granule b.audio_data_buffer)) b.sample_rate)
          b d (append_page b d page)

    -- What follows the search for the headers in the bytes received so far.
    unfoldable pub keep_headers :
        AudioBuffer
        → Package A
        → Page
        → Option IdHeader
        → Option CommentHeader
        → AudioBuffer × Package A × Outcome
    unfolding buffer_page
    keep_headers b d page (some id_header) (some comment_header) =
        let timed = record b {
          sample_rate = id_header.input_sample_rate;
          header_pages = some [];
        } in
        or_raise (from_bytes id_header.page.raw_data little) timed d λ first.
          or_raise (reparse comment_header.pages)
            (record timed { header_pages = some (first ∷ []) }) d
            λ others. buffer_page (record timed { header_pages = some (first ∷ others) }) d page
    keep_headers b d page _ _ = (b, d, exited no_header_pages)

    unfoldable pub find_headers : AudioBuffer → Package A → Page → AudioBuffer × Package A × Outcome
    unfolding keep_headers
    find_headers old d page =
        let b = record old { header_buffer = old.header_buffer ++ d.raw_audio_data } in
        or_raise (open_audio o b.header_buffer) b d
          λ audio. keep_headers b d page audio.id_header audio.comment_header

    unfoldable pub execute_data : AudioBuffer → Package A → AudioBuffer × Package A × Outcome
    unfolding buffer_page find_headers
    execute_data b d =
        if is_empty d.raw_audio_data
        then (b, d, raised no_audio_data)
        else or_raise (from_bytes d.raw_audio_data little) b d
            λ page. if has_headers b then buffer_page b d page else find_headers b d page

    -- `execute`, on `dp.data`.
    unfoldable pub execute :
        AudioBuffer → Option (Package A) → AudioBuffer × Option (Package A) × Outcome
    unfolding execute_data
    execute b none = (b, none, raised no_data)
    execute b (some d) = let (b', d', outcome) = execute_data b d in (b', some d', outcome)
