-- ===== src/Ogg/Utf8.antt =====
-- `bytes.decode('utf-8')` with the default, strict error handler. A text is its code points.
use live_translation.Common.{
  ℕ, zero, suc, ◌+◌, ◌-◌, ◌*◌, Bool, ◌&&◌, ◌||◌, List, [], ◌∷◌, ltb, leb, length, if◌then◌else◌,
}
use live_translation.Common.Result.{Result, ok, err, ◌>>=◌}
use live_translation.Ogg.Bytes.{Bytes, Error, unicode_error, out_of_fuel}

abbrev pub Text : Type 0
Text = List ℕ

is_continuation : ℕ → Bool
is_continuation b = leb 0x80 b && ltb b 0xc0

-- Two bytes: U+0080 to U+07FF.
two_bytes : ℕ → Bytes → Result Error (ℕ × Bytes)
unfolding is_continuation
two_bytes a [] = err unicode_error
two_bytes a (b ∷ bs) =
    if leb 0xc2 a && is_continuation b
    then ok ((a - 0xc0) * 64 + (b - 0x80), bs)
    else err unicode_error

-- Three bytes: U+0800 to U+FFFF, without the surrogates.
three_bytes : ℕ → Bytes → Result Error (ℕ × Bytes)
unfolding is_continuation
three_bytes a (b ∷ c ∷ bs) =
    let code = (a - 0xe0) * 4096 + (b - 0x80) * 64 + (c - 0x80) in
    if is_continuation b
      && is_continuation c
      && leb 0x800 code
      && (ltb code 0xd800 || leb 0xe000 code)
    then ok (code, bs)
    else err unicode_error
three_bytes a _ = err unicode_error

-- Four bytes: U+10000 to U+10FFFF.
four_bytes : ℕ → Bytes → Result Error (ℕ × Bytes)
unfolding is_continuation
four_bytes a (b ∷ c ∷ d ∷ bs) =
    let code = (a - 0xf0) * 262144 + (b - 0x80) * 4096 + (c - 0x80) * 64 + (d - 0x80) in
    if is_continuation b
      && is_continuation c
      && is_continuation d
      && leb 0x10000 code
      && ltb code 0x110000
    then ok (code, bs)
    else err unicode_error
four_bytes a _ = err unicode_error

-- The first code point, and the bytes behind it.
first_code : ℕ → Bytes → Result Error (ℕ × Bytes)
unfolding two_bytes three_bytes four_bytes
first_code a bs =
    if ltb a 0x80
    then ok (a, bs)
    else if ltb a 0xe0
    then two_bytes a bs
    else if ltb a 0xf0
    then three_bytes a bs
    else if ltb a 0xf8
    then four_bytes a bs
    else err unicode_error

decode_from : ℕ → Bytes → Result Error Text
unfolding first_code
decode_from fuel [] = ok []
decode_from zero (b ∷ bs) = err out_of_fuel
decode_from (suc fuel) (b ∷ bs) = do
  (code, rest) ← first_code b bs
  codes ← decode_from fuel rest
  ok (code ∷ codes)

-- Each round takes a byte at least.
unfoldable pub decode : Bytes → Result Error Text
unfolding decode_from
decode bs = decode_from (length bs) bs
