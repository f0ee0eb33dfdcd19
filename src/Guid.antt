-- ===== src/Guid.antt =====
-- src/guid.rs: `Guid`, its text form and the parser of that form.
pub mod RoundTrip
use winrt_rs.Base.{
  ℕ, zero, suc, ◌+◌, ◌-◌, ◌*◌, ◌/◌, ◌%◌, ◌^◌, ◌&&◌, List, [], ◌∷◌, ◌++◌, ltb, leb, ◌==◌,
  if◌then◌else◌, length, get_or, unwrap_none, assertion, explicit, Result, ok, panic, ◌>>=◌, ◌>>◌,
  guard, u8_mod, u16_mod, u32_mod, checked,
}
use winrt_rs.Text.{Text}

pub record Guid : Type 0 where
  pub data1 : ℕ
  pub data2 : ℕ
  pub data3 : ℕ
  pub data4 : List ℕ

abbrev pub from_values : (data1 data2 data3 : ℕ) → List ℕ → Guid
from_values data1 data2 data3 data4 = record {
  data1 = data1;
  data2 = data2;
  data3 = data3;
  data4 = data4;
}

-- An upper-case digit, and a number that fits them in `width` digits, as `{:08X?}` writes it.
unfoldable pub hex_digit : ℕ → ℕ
hex_digit d = if ltb d 10 then 0x30 + d else 0x41 + (d - 10)

unfoldable pub hex : (width : ℕ) → ℕ → Text
hex zero n = []
hex (suc width) n = hex_digit (n / 16 ^ width % 16) ∷ hex width n

-- `self.data4[i]`; the array has eight bytes.
abbrev pub byte_of : Guid → ℕ → ℕ
byte_of guid i = get_or guid.data4 i 0

unfoldable pub fmt : Guid → Text
fmt guid =
    hex 8 guid.data1
    ++ (0x2D
        ∷ (hex 4 guid.data2
            ++ (0x2D
                ∷ (hex 4 guid.data3
                    ++ (0x2D
                        ∷ (hex 2 (byte_of guid 0)
                            ++ (hex 2 (byte_of guid 1)
                                ++ (0x2D
                                    ∷ (hex 2 (byte_of guid 2)
                                        ++ (hex 2 (byte_of guid 3)
                                            ++ (hex 2 (byte_of guid 4)
                                                ++ (hex 2 (byte_of guid 5)
                                                    ++ (hex 2 (byte_of guid 6)
                                                        ++ hex 2 (byte_of guid 7))))))))))))))

-- The readers take the bytes that are left, and return those behind what they read.
unfoldable pub digit_value : ℕ → Result ℕ
digit_value value =
    if leb 0x30 value && leb value 0x39
    then ok (value - 0x30)
    else if leb 0x41 value && leb value 0x46
    then ok (10 + value - 0x41)
    else if leb 0x61 value && leb value 0x66
    then ok (10 + value - 0x61)
    else panic explicit

unfoldable pub next_byte : List ℕ → Result (ℕ × List ℕ)
next_byte [] = panic unwrap_none
next_byte (b ∷ rest) = ok (b, rest)

-- `next_u8`; the wider ones convert its value.
unfoldable pub next_u8 : List ℕ → Result (ℕ × List ℕ)
next_u8 bytes = do (value, rest) ← next_byte bytes; digit ← digit_value value; ok (digit, rest)

-- `sum + next() * 16 + next()`, in a word of the given size.
unfoldable pub add_pair : (modulus sum : ℕ) → List ℕ → Result (ℕ × List ℕ)
add_pair modulus sum bytes = do
  (high, rest) ← next_u8 bytes
  tens ← checked modulus (high * 16)
  partial ← checked modulus (sum + tens)
  (low, rest') ← next_u8 rest
  whole ← checked modulus (partial + low)
  ok (whole, rest')

-- `(next() * 16 + next()) << bits`, added to the sum.
unfoldable pub add_shifted : (modulus sum bits : ℕ) → List ℕ → Result (ℕ × List ℕ)
add_shifted modulus sum bits bytes = do
  (pair, rest) ← add_pair modulus 0 bytes
  whole ← checked modulus (sum + pair * 2 ^ bits % modulus)
  ok (whole, rest)

unfoldable pub next_word : List ℕ → Result (ℕ × List ℕ)
next_word bytes = do
  (a0, rest0) ← add_shifted u32_mod 0 24 bytes
  (a1, rest1) ← add_shifted u32_mod a0 16 rest0
  (a2, rest2) ← add_shifted u32_mod a1 8 rest1
  add_pair u32_mod a2 rest2

unfoldable pub next_half : List ℕ → Result (ℕ × List ℕ)
next_half bytes = do (a0, rest) ← add_shifted u16_mod 0 8 bytes; add_pair u16_mod a0 rest

unfoldable pub next_pair : List ℕ → Result (ℕ × List ℕ)
next_pair bytes = add_pair u8_mod 0 bytes

-- `assert!(bytes.next().unwrap() == b'-')`.
unfoldable pub dash : List ℕ → Result (List ℕ)
dash bytes = do (value, rest) ← next_byte bytes; guard (value == 0x2D) assertion; ok rest

unfoldable pub from : Text → Result Guid
from value = do
  guard (length value == 36) assertion
  (a, r0) ← next_word value
  r1 ← dash r0
  (b, r2) ← next_half r1
  r3 ← dash r2
  (c, r4) ← next_half r3
  r5 ← dash r4
  (d, r6) ← next_pair r5
  (e, r7) ← next_pair r6
  r8 ← dash r7
  (f, r9) ← next_pair r8
  (g, r10) ← next_pair r9
  (h, r11) ← next_pair r10
  (i, r12) ← next_pair r11
  (j, r13) ← next_pair r12
  (k, r14) ← next_pair r13
  ok (from_values a b c (d ∷ e ∷ f ∷ g ∷ h ∷ i ∷ j ∷ k ∷ []))
