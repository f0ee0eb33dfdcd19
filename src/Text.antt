-- ===== src/Text.antt =====
-- Texts of the standard library as their UTF-8 bytes: `std::str::from_utf8`, comparison and search.
pub mod Order
use winrt_rs.Base.{
  ℕ, zero, suc, ◌+◌, ◌-◌, ◌*◌, ◌/◌, ◌%◌, ◌^◌, ◌++◌, Bool, true, false, ◌&&◌, Option, none, some,
  List, [], ◌∷◌, ltb, leb, ◌==◌, if◌then◌else◌, unwrap_none, out_of_range, Result, ok, panic,
}
use Prim.Native.Nat.{compare, Ordering}
use Prim.Native.String.{String}
use Prim.Native.Char.{code}
use mathlib.Core.Option

abbrev pub Text : Type 0
Text = List ℕ

-- The bytes of an ASCII literal.
abbrev pub ascii : String → Text
ascii String.[] = []
ascii (String.◌∷◌ c s) = code c ∷ ascii s

-- A first byte: how many bytes follow, and the range of the next one.
unfoldable pub lead : ℕ → Option (ℕ × ℕ × ℕ)
lead b =
    if ltb b 0x80
    then some (0, 0x80, 0xBF)
    else if ltb b 0xC2
    then none
    else if ltb b 0xE0
    then some (1, 0x80, 0xBF)
    else if b == 0xE0
    then some (2, 0xA0, 0xBF)
    else if b == 0xED
    then some (2, 0x80, 0x9F)
    else if ltb b 0xF0
    then some (2, 0x80, 0xBF)
    else if b == 0xF0
    then some (3, 0x90, 0xBF)
    else if ltb b 0xF4
    then some (3, 0x80, 0xBF)
    else if b == 0xF4
    then some (3, 0x80, 0x8F)
    else none

-- `pending` bytes are still to come, and the next of them lies between `low` and `high`.
unfoldable pub utf8_from : (pending low high : ℕ) → List ℕ → Bool
utf8_from zero low high [] = true
utf8_from (suc n) low high [] = false
utf8_from zero low high (b ∷ bs) = elim (lead b) [
  | none ↦ false
  | some (n, low', high') ↦ utf8_from n low' high' bs
]
utf8_from (suc n) low high (b ∷ bs) = (leb low b && leb b high) && utf8_from n 0x80 0xBF bs

-- `std::str::from_utf8(bytes).unwrap()`.
unfoldable pub from_utf8 : List ℕ → Result Text
from_utf8 bytes = if utf8_from 0 0x80 0xBF bytes then ok bytes else panic unwrap_none

-- A character from 0x10000 on is a pair of units.
unfoldable pub utf16_units : (code : ℕ) → List ℕ
utf16_units code =
    if ltb code 0x1_0000
    then code ∷ []
    else (0xD800 + (code - 0x1_0000) / 2 ^ 10) ∷ (0xDC00 + (code - 0x1_0000) % 2 ^ 10) ∷ []

-- `pending` bytes are still to come of a character, whose bits so far are `code`.
unfoldable pub utf16_from : (pending code : ℕ) → List ℕ → List ℕ
utf16_from pending code [] = []
utf16_from zero code (b ∷ bs) = elim (lead b) [
  | none ↦ []
  | some (n, low, high) ↦ elim n [
    | zero ↦ b ∷ utf16_from zero 0 bs
    | suc m ↦ utf16_from (suc m) (b % 2 ^ (5 - m)) bs
  ]
]
utf16_from (suc zero) code (b ∷ bs) = utf16_units (code * 2 ^ 6 + b % 2 ^ 6) ++ utf16_from zero 0 bs
utf16_from (suc (suc n)) code (b ∷ bs) = utf16_from (suc n) (code * 2 ^ 6 + b % 2 ^ 6) bs

-- `text.encode_utf16()`.
unfoldable pub encode_utf16 : Text → List ℕ
encode_utf16 text = utf16_from 0 0 text

-- `text.chars()`: `pending` bytes are still to come of a character, whose bits so far are `code`.
unfoldable pub chars_from : (pending code : ℕ) → List ℕ → List ℕ
chars_from pending code [] = []
chars_from zero code (b ∷ bs) = elim (lead b) [
  | none ↦ []
  | some (n, low, high) ↦ elim n [
    | zero ↦ b ∷ chars_from zero 0 bs
    | suc m ↦ chars_from (suc m) (b % 2 ^ (5 - m)) bs
  ]
]
chars_from (suc zero) code (b ∷ bs) = (code * 2 ^ 6 + b % 2 ^ 6) ∷ chars_from zero 0 bs
chars_from (suc (suc n)) code (b ∷ bs) = chars_from (suc n) (code * 2 ^ 6 + b % 2 ^ 6) bs

unfoldable pub chars : Text → List ℕ
chars text = chars_from 0 0 text

-- The last `count` groups of six bits of a character, each in a byte.
unfoldable pub following : (count code : ℕ) → List ℕ
following zero code = []
following (suc count) code = (0x80 + code / 2 ^ (6 * count) % 2 ^ 6) ∷ following count code

-- `text.push(c)`, for each character of a list.
unfoldable pub from_chars : List ℕ → Text
from_chars [] = []
from_chars (c ∷ cs) =
    (if ltb c 0x80
      then c ∷ []
      else if ltb c 0x800
      then (0xC0 + c / 2 ^ 6) ∷ following 1 c
      else if ltb c 0x1_0000
      then (0xE0 + c / 2 ^ 12) ∷ following 2 c
      else (0xF0 + c / 2 ^ 18) ∷ following 3 c)
    ++ from_chars cs

-- `&text[n..]`, which panics within a character.
unfoldable pub slice_text : (n : ℕ) → Text → Result Text
slice_text zero text = ok text
slice_text (suc n) [] = panic out_of_range
slice_text (suc n) (b ∷ bs) = elim n [ zero ↦ starts_char bs | suc m ↦ slice_text n bs ]
  where
    starts_char : Text → Result Text
    starts_char [] = ok []
    starts_char (c ∷ cs) = if c / 0x40 == 2 then panic out_of_range else ok (c ∷ cs)

-- `a < b` on texts, which the order of a `BTreeMap` goes by.
unfoldable pub text_lt : Text → Text → Bool
text_lt [] [] = false
text_lt [] (_ ∷ _) = true
text_lt (_ ∷ _) [] = false
text_lt (x ∷ xs) (y ∷ ys) =
    let rest = text_lt xs ys in
    elim (compare x y) [ Ordering.lt ↦ true | Ordering.eq ↦ rest | Ordering.gt ↦ false ]

unfoldable pub starts_with : Text → Text → Bool
starts_with text [] = true
starts_with [] (_ ∷ _) = false
starts_with (x ∷ xs) (p ∷ ps) = x == p && starts_with xs ps

-- `text.find(c)` for an ASCII `c`: what stands before it, and what stands behind.
unfoldable pub split_first : ℕ → Text → Option (Text × Text)
split_first c [] = none
split_first c (x ∷ xs) =
    let rest = split_first c xs in
    if x == c then some ([], xs) else Option.map (λ p. (x ∷ p.0, p.1)) rest

-- `text.split(c)`, the parts in their order.
unfoldable pub split : ℕ → Text → List Text
split c [] = [] ∷ []
split c (x ∷ xs) = if x == c then [] ∷ split c xs else longer x (split c xs)
  where
    longer : ℕ → List Text → List Text
    longer x [] = []
    longer x (part ∷ rest) = (x ∷ part) ∷ rest

-- `text.rfind(c)`.
unfoldable pub split_last : ℕ → Text → Option (Text × Text)
split_last c [] = none
split_last c (x ∷ xs) = elim (split_last c xs) [
  | some (front, back) ↦ some (x ∷ front, back)
  | none ↦ if x == c then some ([], xs) else none
]
