-- ===== src/Ogg/Split/Concat.antt =====
-- Splitting a stream that is written page after page.
use live_translation.Common.{
  drop-drop, ℕ, zero, suc, ◌+◌, ◌-◌, ◌≤◌, ◌<◌, ◌≡◌, refl, sym, ap, subst, ◌∙◌, true, false, ◌||◌,
  not, List, [], ◌∷◌, ◌++◌, arith, ltb, length, take, drop, append_assoc, length-append, map,
  length-take, Bool-cases, le→not-ltb, lt→ltb, length-drop, inl, inr,
}
use live_translation.Common.Result.{ok}
use live_translation.Common.Sort.{sorted}
use live_translation.Ogg.Bytes.{
  Bytes, little, slice, byte_at, byte_at-some, byte_at-take, bytes_eq, sum, take-append, take_short,
  slice-offset, take-append_left, drop-append_left, drop-append,
}
use live_translation.Ogg.Page.{Page, from_bytes, header_fields, oggs}
use live_translation.Ogg.Page.Format.{
  Fields, IsLaidOut, encode, page_of, length-encode, from_bytes-encode,
}
use live_translation.Ogg.Split.{
  no_header, page_at, pages_from, by_sequence_number, split_ogg_data_into_pages,
}
use live_translation.Ogg.Split.Total.{raws, AllParsed}

-- The page's bytes go as far as its segment table says.
abbrev pub IsComplete : Page → Type 0
IsComplete p = length p.raw_data ≡ 27 + p.segment_count + sum p.segment_table

abbrev pub AllComplete : List Page → Type 0
AllComplete [] = Unit {0}
AllComplete (p ∷ ps) = IsComplete p × AllComplete ps

-- What a successful parse says of the bytes.
record Parsed (raw : Bytes) (p : Page) : Type 0 where
  long : 27 ≤ length raw
  magic : bytes_eq (take 4 raw) oggs ≡ true
  count : byte_at raw 26 ≡ ok p.segment_count
  table : p.segment_table ≡ take p.segment_count (drop 27 raw)
  raw_kept : p.raw_data ≡ raw

header_fields-Parsed :
    (raw : Bytes) (v t s : ℕ) (p : Page)
    → 27 ≤ length raw
    → bytes_eq (take 4 raw) oggs ≡ true
    → byte_at raw 26 ≡ ok s
    → header_fields raw little v t s ≡ p
    → Parsed raw p
unfolding header_fields
header_fields-Parsed raw v t s p n m c e =
    subst (Parsed raw) e
      (record { long = n; magic = m; count = c; table = slice-offset raw 27 s; raw_kept = refl })

from_bytes-Parsed : (raw : Bytes) (p : Page) → from_bytes raw little ≡ ok p → Parsed raw p
unfolding from_bytes
from_bytes-Parsed raw p e =
    elim (Bool-cases (ltb (length raw) 27 || not (bytes_eq (take 4 raw) oggs))) [
      | inl bad ↦ absurd (let e' = rw bad at e in ground arith)
      | inr good ↦
          let n : 27 ≤ length raw = ground arith in
          let m : bytes_eq (take 4 raw) oggs ≡ true = ground arith in
          at_bytes n m good (byte_at-some raw 4 (omega arith)) (byte_at-some raw 5 (omega arith))
            (byte_at-some raw 26 (omega arith))
    ]
  where
    at_bytes :
        27 ≤ length raw
        → bytes_eq (take 4 raw) oggs ≡ true
        → ltb (length raw) 27 || not (bytes_eq (take 4 raw) oggs) ≡ false
        → (v : ℕ) × (byte_at raw 4 ≡ ok v)
        → (t : ℕ) × (byte_at raw 5 ≡ ok t)
        → (s : ℕ) × (byte_at raw 26 ≡ ok s)
        → Parsed raw p
    at_bytes n m good (v, ev) (t, et) (s, es) =
        let e' = rw (good, ev, et, es) at e in header_fields-Parsed raw v t s p n m es (cc)

-- At a complete page the loop's round reads that page and its size, whatever follows it.
page_at_complete :
    (xs : Bytes) (o : ℕ) (p : Page) (tail : Bytes)
    → drop o xs ≡ p.raw_data ++ tail
    → from_bytes p.raw_data little ≡ ok p
    → IsComplete p
    → (no_header (slice xs o (o + 27)) ≡ false) × (page_at xs o ≡ ok (length p.raw_data, p))
unfolding page_at no_header
page_at_complete xs o p tail at parsed whole =
    let raw = p.raw_data in
    let r = from_bytes-Parsed raw p parsed in
    let n : 27 ≤ length raw = r.long in
    let head : slice xs o (o + 27) ≡ take 27 raw =
      slice-offset xs o 27 ∙ ap (take 27) at ∙ take-append_left 27 raw tail n in
    let short : take 4 (take 27 raw) ≡ take 4 raw = take_short 4 27 raw (omega arith) in
    let count : byte_at (slice xs o (o + 27)) 26 ≡ ok p.segment_count =
      rw (head, byte_at-take 27 26 raw (omega arith)) r.count in
    let s = p.segment_count in
    let table : slice xs (o + 27) (o + 27 + s) ≡ p.segment_table =
      slice-offset xs (o + 27) s
      ∙ ap (take s) (sym (drop-drop o 27 xs) ∙ ap (drop 27) at ∙ drop-append_left 27 raw tail n)
      ∙ take-append_left s (drop 27 raw) tail (omega (arith, whole, length-drop 27 raw))
      ∙ sym r.table in
    let piece : slice xs o (o + length raw) ≡ raw =
      slice-offset xs o (length raw)
      ∙ ap (take (length raw)) at
      ∙ take-append (length raw) raw tail refl in
    (
      rw (head, short, r.magic)
          (rw (le→not-ltb (length (take 27 raw)) 27 (omega (arith, length-take 27 raw)))),
      rw (count, table, ← whole, piece, parsed),
    )

pages_from-raws :
    (fuel : ℕ) (xs : Bytes) (o : ℕ) (ps : List Page) (rest : Bytes)
    → length xs - o < fuel
    → drop o xs ≡ raws ps ++ rest
    → AllParsed ps
    → AllComplete ps
    → no_header (slice rest 0 27) ≡ true
    → pages_from fuel xs o ≡ ok ps
unfolding pages_from
pages_from-raws zero xs o ps rest h at parsed whole ended = absurd (omega arith)
pages_from-raws (suc fuel) xs o [] rest h at parsed whole ended =
    let last : no_header (slice xs o (o + 27)) ≡ true =
      ap no_header (slice-offset xs o 27 ∙ ap (take 27) at) ∙ ended in
    rw last (ground arith)
pages_from-raws (suc fuel) xs o (p ∷ ps) rest h at parsed whole ended =
    let at' : drop o xs ≡ p.raw_data ++ (raws ps ++ rest) =
      at ∙ append_assoc p.raw_data (raws ps) rest in
    let (header, read) = page_at_complete xs o p (raws ps ++ rest) at' parsed.0 whole.0 in
    let n = length p.raw_data in
    let long : n ≡ 27 + p.segment_count + sum p.segment_table = whole.0 in
    let inside : ltb o (length xs) ≡ true = lt→ltb o (length xs) (
      omega (arith, ap length at', length-append p.raw_data (raws ps ++ rest), length-drop o xs)) in
    let next : drop (o + n) xs ≡ raws ps ++ rest =
      sym (drop-drop o n xs) ∙ ap (drop n) at' ∙ drop-append n p.raw_data (raws ps ++ rest) refl in
    rw (inside, header, read)
      (rw (pages_from-raws fuel xs (o + n) ps rest (ground arith) next parsed.1 whole.1 ended))

-- Complete pages that stand one after another, followed by bytes that begin no page, are split
-- into exactly these pages, put in the order of their page sequence numbers.
pub split_ogg_data_into_pages-raws :
    (ps : List Page) (rest : Bytes)
    → AllParsed ps
    → AllComplete ps
    → no_header (slice rest 0 27) ≡ true
    → split_ogg_data_into_pages (raws ps ++ rest) ≡ ok (sorted by_sequence_number ps)
unfolding split_ogg_data_into_pages
split_ogg_data_into_pages-raws ps rest parsed whole ended = rw (
    pages_from-raws (length (raws ps ++ rest) + 1) (raws ps ++ rest) 0 ps rest (omega arith) refl
      parsed whole ended)

-- Pages as the format lays them out, one after another.
unfoldable pub encode_all : List Fields → Bytes
encode_all [] = []
encode_all (f ∷ fs) = encode f ++ encode_all fs

abbrev pub AllLaidOut : List Fields → Type 0
AllLaidOut [] = Unit {0}
AllLaidOut (f ∷ fs) = IsLaidOut f × AllLaidOut fs

page_of-parts :
    (fs : List Fields)
    → AllLaidOut fs
    → (raws (map page_of fs) ≡ encode_all fs)
      × AllParsed (map page_of fs)
      × AllComplete (map page_of fs)
unfolding encode_all page_of
page_of-parts [] v = (refl, tt, tt)
page_of-parts (f ∷ fs) v =
    let (e, parsed, whole) = page_of-parts fs v.1 in
    let laced = v.0.laced in
    (
      ap (λ t. encode f ++ t) e,
      (from_bytes-encode f v.0, parsed),
      (omega (arith, length-encode f), whole),
    )

-- A stream that is written page by page in the format, behind which no page header stands, is
-- read back as these pages, ordered by page sequence number.
pub split_ogg_data_into_pages-encode :
    (fs : List Fields) (rest : Bytes)
    → AllLaidOut fs
    → no_header (slice rest 0 27) ≡ true
    → split_ogg_data_into_pages (encode_all fs ++ rest)
      ≡ ok (sorted by_sequence_number (map page_of fs))
split_ogg_data_into_pages-encode fs rest v ended =
    let (e, parsed, whole) = page_of-parts fs v in
    rw (← e) (split_ogg_data_into_pages-raws (map page_of fs) rest parsed whole ended)
