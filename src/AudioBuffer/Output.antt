-- ===== src/AudioBuffer/Output.antt =====
-- What `execute` of m_create_audio_buffer.py passes on.
use live_translation.Common.{
  ℕ, ◌≡◌, refl, ap, true, false, ◌&&◌, [], ◌∷◌, ◌++◌, Option, none, some, ◌==◌, inl, inr,
  Bool-cases, append-nil,
}
use live_translation.Common.Int.{ℤ, pos, sub_ℕ_zero, sub_ℕ_self}
use live_translation.Common.Float.{Floats}
use live_translation.Common.Result.{Result-cases}
use live_translation.Ogg.Bytes.{little}
use live_translation.Ogg.Page.{Page, from_bytes}
use live_translation.Ogg.Audio.{open_audio}
use live_translation.Ogg.IdHeader.{IdHeader}
use live_translation.Ogg.CommentHeader.{CommentHeader}
use live_translation.Data.{Outcome, passed, exited, raised, Fault, no_audio_data, ogg_error}
use live_translation.AudioBuffer.{
  AudioBuffer, Package, previous_granule, pop_duration, pop_page, append_page, buffer_page, filled,
  reparse, keep_headers, find_headers, execute_data, holds_seconds, is_empty, has_headers,
}

-- There are no bytes, or ogg.py raised something.
abbrev pub IsAboutBytes : {A : Type 0} → Package A → Fault → Type 0
IsAboutBytes d no_audio_data = is_empty d.raw_audio_data ≡ true
IsAboutBytes d (ogg_error e) = Unit {0}
IsAboutBytes d _ = ⊥

module _ {A : Type 0} where
  -- A call that passes hands on the headers and the pages of the buffer, with the buffer's times;
  -- any other call leaves the package alone.
  abbrev pub Delivers : Package A → AudioBuffer × Package A × Outcome → Type 0
  Delivers d (b', d', passed) = d' ≡ filled b' d
  Delivers d (b', d', exited m) = d' ≡ d
  Delivers d (b', d', raised e) = (d' ≡ d) × IsAboutBytes d e

-- What IEEE 754 says of zero as the operand of a sum, a difference and a quotient.
pub record IsZeroExact (o : Floats ℤ) : Type 0 where
  pub zero_add : (a : ℤ) → o.add o.fzero a ≡ a
  pub sub_zero : (a : ℤ) → o.sub a o.fzero ≡ a
  pub zero_quotient : (n : ℕ) → o.quotient (pos 0) n ≡ o.fzero

module _ {A : Type 0} (o : Floats ℤ) where
  pop_page-Delivers : (b : AudioBuffer) (d : Package A) → Delivers d (pop_page o b d)
  unfolding pop_page
  pop_page-Delivers b d = elim (Result-cases (pop_duration o b.sample_rate b.audio_data_buffer)) [
    | inl (c, e) ↦ rw e refl
    | inr (x, e) ↦ rw e (refl, tt)
  ]

  append_page-Delivers :
      (b : AudioBuffer) (d : Package A) (page : Page) (c : ℤ)
      → Delivers d (append_page o b d page c)
  unfolding append_page
  append_page-Delivers b d page c =
      let b' = record b {
        audio_data_buffer = b.audio_data_buffer ++ page ∷ [];
        current_audio_buffer_seconds = o.add b.current_audio_buffer_seconds c;
      } in
      elim (Bool-cases (o.flt o.fzero c && holds_seconds o b' b.min_n_seconds)) [
        | inr short ↦ rw short refl
        | inl long ↦ elim (Bool-cases (holds_seconds o b' b.last_n_seconds)) [
          | inl full ↦ rw (long, full) (pop_page-Delivers b' d)
          | inr room ↦ rw (long, room) refl
        ]
      ]

  buffer_page-Delivers :
      (b : AudioBuffer) (d : Package A) (page : Page) → Delivers d (buffer_page o b d page)
  unfolding buffer_page
  buffer_page-Delivers b d page = elim (Bool-cases (b.sample_rate == 0)) [
    | inl z ↦ rw z (refl, tt)
    | inr n ↦ rw n (append_page-Delivers b d page _)
  ]

  keep_headers-Delivers :
      (b : AudioBuffer) (d : Package A) (page : Page) (h : Option IdHeader)
      (c : Option CommentHeader)
      → Delivers d (keep_headers o b d page h c)
  unfolding keep_headers
  keep_headers-Delivers b d page none c = refl
  keep_headers-Delivers b d page (some h) none = refl
  keep_headers-Delivers b d page (some h) (some c) =
      elim (Result-cases (from_bytes h.page.raw_data little)) [
        | inr (x, e) ↦ rw e (refl, tt)
        | inl (first, e) ↦ elim (Result-cases (reparse c.pages)) [
          | inr (x, e') ↦ rw (e, e') (refl, tt)
          | inl (others, e') ↦
              rw (e, e')
                (buffer_page-Delivers
                  (record b {
                    sample_rate = h.input_sample_rate;
                    header_pages = some (first ∷ others);
                  })
                  d page)
        ]
      ]

  find_headers-Delivers :
      (b : AudioBuffer) (d : Package A) (page : Page) → Delivers d (find_headers o b d page)
  unfolding find_headers
  find_headers-Delivers b d page =
      elim (Result-cases (open_audio o (b.header_buffer ++ d.raw_audio_data))) [
        | inr (x, e) ↦ rw e (refl, tt)
        | inl (audio, e) ↦ rw e (
            keep_headers-Delivers (record b { header_buffer = b.header_buffer ++ d.raw_audio_data })
              d page audio.id_header audio.comment_header)
      ]

  pub execute_data-Delivers : (b : AudioBuffer) (d : Package A) → Delivers d (execute_data o b d)
  unfolding execute_data
  execute_data-Delivers b d = elim (Bool-cases (is_empty d.raw_audio_data)) [
    | inl nothing ↦ rw nothing (refl, nothing)
    | inr some_bytes ↦ elim (Result-cases (from_bytes d.raw_audio_data little)) [
      | inr (x, e) ↦ rw (some_bytes, e) (refl, tt)
      | inl (page, e) ↦ elim (Bool-cases (has_headers b)) [
        | inl known ↦ rw (some_bytes, e, known) (buffer_page-Delivers b d page)
        | inr unknown ↦ rw (some_bytes, e, unknown) (find_headers-Delivers b d page)
      ]
    ]
  ]

  -- A first page whose time, the quotient of its granule position and the sample rate, fills the
  -- window of `last_n_seconds` leaves the buffer again in the same call: the package that is passed
  -- on holds the header bytes and no page, and the time that the buffer claims to hold is still
  -- that of the page. Conditions: the rate is not zero, the time is more than zero and not less
  -- than `min_n_seconds`, and zero is exact in sums, differences and quotients of floats.
  pub buffer_page-first_overflows :
      (b : AudioBuffer) (d : Package A) (page : Page)
      → IsZeroExact o
      → b.audio_data_buffer ≡ []
      → b.current_audio_buffer_seconds ≡ o.fzero
      → (b.sample_rate == 0) ≡ false
      → o.flt o.fzero (o.quotient (pos page.granule_position) b.sample_rate) ≡ true
      → o.fle (o.of_nat b.min_n_seconds) (o.quotient (pos page.granule_position) b.sample_rate)
        ≡ true
      → o.fle (o.of_nat b.last_n_seconds) (o.quotient (pos page.granule_position) b.sample_rate)
        ≡ true
      → let (b', d', outcome) = buffer_page o b d page in
        (outcome ≡ passed)
        × (b'.audio_data_buffer ≡ [])
        × (d'.raw_audio_data ≡ b.header_buffer)
        × (b'.current_audio_buffer_seconds ≡ o.quotient (pos page.granule_position) b.sample_rate)
  unfolding buffer_page append_page pop_page pop_duration
  buffer_page-first_overflows b d page zeros empty zero_time rate some_time least most =
      let g = page.granule_position in
      let last_granule : previous_granule b.audio_data_buffer ≡ 0 = ap previous_granule empty in
      let one : b.audio_data_buffer ++ page ∷ [] ≡ page ∷ [] = ap (λ t. t ++ page ∷ []) empty in
      simp
        (
          rate,
          last_granule,
          zero_time,
          one,
          sub_ℕ_zero g,
          zeros.zero_add (o.quotient (pos g) b.sample_rate),
          some_time,
          least,
          most,
          sub_ℕ_self g,
          zeros.zero_quotient b.sample_rate,
          zeros.sub_zero (o.quotient (pos g) b.sample_rate),
          append-nil b.header_buffer,
        )
        (refl, refl, refl, refl)
