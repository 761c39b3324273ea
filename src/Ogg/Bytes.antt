-- ===== src/Ogg/Bytes.antt =====
-- Python's `bytes`, as ogg.py uses them: slices, `startswith`, indexing and `int.from_bytes`.
use live_translation.Common.{
  ℕ, zero, suc, ◌+◌, ◌-◌, ◌*◌, ◌/◌, ◌%◌, ◌≤◌, ◌<◌, ◌≡◌, refl, ap, Bool, true, false, ◌&&◌, List, [],
  ◌∷◌, ◌++◌, reverse, Option, none, some, arith, ◌==◌, length, take, drop, get_elem?, length-append,
  length-drop, length-take,
}
use live_translation.Common.Result.{Result, ok, err}

abbrev pub Bytes : Type 0
Bytes = List ℕ

-- The exceptions of ogg.py, `ValueError`s told apart by their message. `out_of_fuel` is of the
-- model, for a loop that has not ended.
pub data Error : Type 0 where
  invalid_page invalid_comment_header end_in_comment_length end_in_comment : Error
  index_error unicode_error zero_division out_of_fuel : Error

-- `data[i:j]` for `i <= j`.
abbrev pub slice : Bytes → ℕ → ℕ → Bytes
slice xs i j = take (j - i) (drop i xs)

-- `data[i]`.
pub data_at : Option ℕ → Result Error ℕ
data_at none = err index_error
data_at (some b) = ok b

unfoldable pub byte_at : Bytes → ℕ → Result Error ℕ
unfolding data_at
byte_at xs i = data_at (get_elem? xs i)

abbrev pub bytes_eq : Bytes → Bytes → Bool
bytes_eq [] [] = true
bytes_eq [] (y ∷ ys) = false
bytes_eq (x ∷ xs) [] = false
bytes_eq (x ∷ xs) (y ∷ ys) = (x == y) && bytes_eq xs ys

-- `data.startswith(prefix)`.
abbrev pub starts_with : Bytes → Bytes → Bool
starts_with xs [] = true
starts_with [] (y ∷ ys) = false
starts_with (x ∷ xs) (y ∷ ys) = (x == y) && starts_with xs ys

abbrev pub sum : Bytes → ℕ
sum [] = 0
sum (x ∷ xs) = x + sum xs

pub data Endianness : Type 0 where
  little big : Endianness

-- `int.from_bytes(data, 'little')`.
abbrev pub from_little : Bytes → ℕ
from_little [] = 0
from_little (x ∷ xs) = x + 256 * from_little xs

abbrev pub from_bytes_int : Endianness → Bytes → ℕ
from_bytes_int little xs = from_little xs
from_bytes_int big xs = from_little (reverse xs)

-- The layout of an n-byte little-endian field, lowest byte first.
abbrev pub to_little : ℕ → ℕ → Bytes
to_little zero k = []
to_little (suc n) k = k % 256 ∷ to_little n (k / 256)

-- 256 ^ n.
abbrev pub field_limit : ℕ → ℕ
field_limit zero = 1
field_limit (suc n) = 256 * field_limit n

pub from_little-to_little : (n k : ℕ) → k < field_limit n → from_little (to_little n k) ≡ k
from_little-to_little zero k h = omega arith
from_little-to_little (suc n) k h = omega (arith, from_little-to_little n (k / 256) (omega arith))

pub length-to_little : (n k : ℕ) → length (to_little n k) ≡ n
length-to_little zero k = refl
length-to_little (suc n) k = ap suc (length-to_little n (k / 256))

pub drop-append : (n : ℕ) (xs ys : Bytes) → n ≡ length xs → drop n (xs ++ ys) ≡ ys
drop-append zero [] ys h = refl
drop-append zero (x ∷ xs) ys h = absurd (omega arith)
drop-append (suc n) [] ys h = absurd (omega arith)
drop-append (suc n) (x ∷ xs) ys h = drop-append n xs ys (omega arith)

pub take-append : (n : ℕ) (xs ys : Bytes) → n ≡ length xs → take n (xs ++ ys) ≡ xs
take-append zero [] ys h = refl
take-append zero (x ∷ xs) ys h = absurd (omega arith)
take-append (suc n) [] ys h = absurd (omega arith)
take-append (suc n) (x ∷ xs) ys h = ap (◌∷◌ x) (take-append n xs ys (omega arith))

-- The first `n` bytes of a list that holds as many.
pub take_short : (k n : ℕ) (xs : Bytes) → k ≤ n → take k (take n xs) ≡ take k xs
take_short zero n xs h = refl
take_short (suc k) zero xs h = absurd (omega arith)
take_short (suc k) (suc n) [] h = refl
take_short (suc k) (suc n) (x ∷ xs) h = ap (◌∷◌ x) (take_short k n xs (omega arith))

pub byte_at-some : (xs : Bytes) (i : ℕ) → i < length xs → (b : ℕ) × (byte_at xs i ≡ ok b)
unfolding byte_at
byte_at-some [] i h = absurd (omega arith)
byte_at-some (x ∷ xs) zero h = (x, refl)
byte_at-some (x ∷ xs) (suc i) h = byte_at-some xs i (omega arith)

pub byte_at-take : (n i : ℕ) (xs : Bytes) → i < n → byte_at (take n xs) i ≡ byte_at xs i
unfolding byte_at
byte_at-take zero i xs h = absurd (omega arith)
byte_at-take (suc n) i [] h = refl
byte_at-take (suc n) zero (x ∷ xs) h = refl
byte_at-take (suc n) (suc i) (x ∷ xs) h = byte_at-take n i xs (omega arith)

pub ruleset lengths = (arith, length-append, length-drop, length-take, length-to_little)

pub take_all : (xs : Bytes) → take (length xs) xs ≡ xs
take_all [] = refl
take_all (x ∷ xs) = ap (◌∷◌ x) (take_all xs)

pub drop_past : (n : ℕ) (xs : Bytes) → length xs ≤ n → drop n xs ≡ []
drop_past zero [] h = refl
drop_past zero (x ∷ xs) h = absurd (omega arith)
drop_past (suc n) [] h = refl
drop_past (suc n) (x ∷ xs) h = drop_past n xs (omega arith)

-- A slice at an offset is one at the start of what follows the offset.
pub slice-offset : (xs : Bytes) (o n : ℕ) → slice xs o (o + n) ≡ take n (drop o xs)
slice-offset xs o n = let e : o + n - o ≡ n = omega arith in rw e

pub take-append_left : (n : ℕ) (xs ys : Bytes) → n ≤ length xs → take n (xs ++ ys) ≡ take n xs
take-append_left zero xs ys h = refl
take-append_left (suc n) [] ys h = absurd (omega arith)
take-append_left (suc n) (x ∷ xs) ys h = ap (◌∷◌ x) (take-append_left n xs ys (omega arith))

pub drop-append_left : (n : ℕ) (xs ys : Bytes) → n ≤ length xs → drop n (xs ++ ys) ≡ drop n xs ++ ys
drop-append_left zero xs ys h = refl
drop-append_left (suc n) [] ys h = absurd (omega arith)
drop-append_left (suc n) (x ∷ xs) ys h = drop-append_left n xs ys (omega arith)
