-- ===== src/Ogg/Split/Total.antt =====
-- The page loop always ends with a list of pages, which are the data cut into consecutive pieces.
use mathlib.Core.List.{Perm}
use live_translation.Common.{
  drop-drop, ℕ, zero, suc, ◌+◌, ◌-◌, ◌≤◌, ◌<◌, ◌≡◌, refl, ap, ◌∙◌, inl, inr, true, false, List, [],
  ◌∷◌, ◌++◌, arith, ltb, length, take, drop, take-append-drop, append_assoc, length-take,
  Bool-cases, le→not-ltb,
}
use live_translation.Common.Result.{ok}
use live_translation.Common.Sort.{sorted, IsSorted, sorted-IsSorted, sorted-perm}
use live_translation.Ogg.Bytes.{
  Bytes, little, slice, byte_at-some, bytes_eq, sum, take_short, drop_past, slice-offset,
}
use live_translation.Ogg.Page.{Page, from_bytes, header_fields, oggs}
use live_translation.Ogg.Split.{
  no_header, page_at, pages_from, by_sequence_number, split_ogg_data_into_pages,
}

-- The bytes that the pages were read from, one after another.
abbrev pub raws : List Page → Bytes
raws [] = []
raws (p ∷ ps) = p.raw_data ++ raws ps

-- Each page is what its own bytes parse to.
abbrev pub AllParsed : List Page → Type 0
AllParsed [] = Unit {0}
AllParsed (p ∷ ps) = (from_bytes p.raw_data little ≡ ok p) × AllParsed ps

-- Pages in stream order, followed by bytes at which no header stands.
pub record Pieces (d : Bytes) (pages : List Page) : Type 0 where
  pub rest : Bytes
  pub whole : raws pages ++ rest ≡ d
  pub ended : no_header (slice rest 0 27) ≡ true
  pub parsed : AllParsed pages

no_header-false :
    (d : Bytes)
    → no_header (slice d 0 27) ≡ false
    → (27 ≤ length d) × (bytes_eq (take 4 d) oggs ≡ true)
unfolding no_header
no_header-false d h =
    let e = take_short 4 27 d (omega arith) in let n = length-take 27 d in ground arith

-- A piece of 27 bytes or more that begins with the capture pattern is a page.
from_bytes-total :
    (raw : Bytes)
    → 27 ≤ length raw
    → bytes_eq (take 4 raw) oggs ≡ true
    → (p : Page) × (from_bytes raw little ≡ ok p) × (p.raw_data ≡ raw)
unfolding from_bytes
from_bytes-total raw n m =
    let (v, ev) = byte_at-some raw 4 (omega arith) in
    let (t, et) = byte_at-some raw 5 (omega arith) in
    let (s, es) = byte_at-some raw 26 (omega arith) in
    (header_fields raw little v t s, rw (le→not-ltb (length raw) 27 n, m, ev, et, es), refl)

page_at-total :
    (xs : Bytes) (o : ℕ)
    → no_header (slice xs o (o + 27)) ≡ false
    → (size : ℕ) × (p : Page) × (page_at xs o ≡ ok (size, p))
      × (27 ≤ size)
      × (from_bytes p.raw_data little ≡ ok p)
      × (p.raw_data ≡ take size (drop o xs))
unfolding page_at
page_at-total xs o h =
    let d = drop o xs in
    let h' : no_header (take 27 d) ≡ false = rw (slice-offset xs o 27) at h in
    let (n, m) = no_header-false d h' in
    let (s, es) = byte_at-some (take 27 d) 26 (omega (arith, length-take 27 d)) in
    let size = 27 + s + sum (slice xs (o + 27) (o + 27 + s)) in
    let (p, ep, er) =
      from_bytes-total (take size d) (omega (arith, length-take size d))
        (rw (take_short 4 size d (omega arith)) m) in
    (size, p, rw (slice-offset xs o 27, es, slice-offset xs o size, ep), omega arith, rw er ep, er)

-- Where the loop ends, no page is left.
end-Pieces : (d : Bytes) → no_header (slice d 0 27) ≡ true → Pieces d []
end-Pieces d h = record { rest = d; whole = refl; ended = h; parsed = tt }

no-Pieces : (xs : Bytes) (o : ℕ) → ltb o (length xs) ≡ false → Pieces (drop o xs) []
unfolding no_header
no-Pieces xs o h = end-Pieces (drop o xs) (rw (drop_past o xs (ground arith)))

-- A page in front of the pieces of what follows it.
cons-Pieces :
    (size : ℕ) (d : Bytes) (p : Page) (pages : List Page)
    → p.raw_data ≡ take size d
    → from_bytes p.raw_data little ≡ ok p
    → Pieces (drop size d) pages
    → Pieces d (p ∷ pages)
cons-Pieces size d p pages e parsed v = record {
  rest = v.rest;
  whole =
      append_assoc p.raw_data (raws pages) v.rest
      ∙ ap (λ t. p.raw_data ++ t) v.whole
      ∙ ap (λ t. t ++ drop size d) e
      ∙ take-append-drop size d;
  ended = v.ended;
  parsed = (parsed, v.parsed);
}

pages_from-total :
    (fuel : ℕ) (xs : Bytes) (o : ℕ)
    → length xs - o < fuel
    → (pages : List Page) × (pages_from fuel xs o ≡ ok pages) × Pieces (drop o xs) pages
unfolding pages_from
pages_from-total zero xs o h = absurd (omega arith)
pages_from-total (suc fuel) xs o h = elim (Bool-cases (ltb o (length xs))) [
  | inr past ↦ rw past ([], refl, no-Pieces xs o past)
  | inl inside ↦ elim (Bool-cases (no_header (slice xs o (o + 27)))) [
    | inl none_left ↦
        rw (inside, none_left) ([], refl, end-Pieces _ (rw (slice-offset xs o 27) at none_left))
    | inr header ↦
        let (size, p, e, long, parsed, raw) = page_at-total xs o header in
        let (pages, e', v) = pages_from-total fuel xs (o + size) (ground arith) in
        let v' : Pieces (drop size (drop o xs)) pages = rw (drop-drop o size xs) v in
        rw (inside, header, e, e') (p ∷ pages, refl, cons-Pieces size _ p pages raw parsed v')
  ]
]

-- Whatever the bytes are, splitting them raises nothing and does not run out of fuel: they are a
-- sequence of pages, each parsed from its own bytes, followed by bytes that begin no page, and the
-- result holds exactly these pages, ordered by page sequence number.
pub split_ogg_data_into_pages-total :
    (ogg_data : Bytes)
    → (pages stream : List Page) × (split_ogg_data_into_pages ogg_data ≡ ok pages)
      × Pieces ogg_data stream
      × Perm pages stream
      × IsSorted by_sequence_number pages
unfolding split_ogg_data_into_pages
split_ogg_data_into_pages-total ogg_data =
    let (stream, e, v) = pages_from-total (length ogg_data + 1) ogg_data 0 (omega arith) in
    (
      sorted by_sequence_number stream,
      stream,
      rw e,
      v,
      sorted-perm by_sequence_number stream,
      sorted-IsSorted by_sequence_number (λ p q h. ground arith) stream,
    )
