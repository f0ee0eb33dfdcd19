-- ===== src/Blob.antt =====
-- crates/winmd/src/blob.rs: `Blob`, a place in a file, and the calls that read on from it. A call
-- that takes `&mut self` returns the blob as it leaves it.
pub mod Unsigned
pub mod Modifiers
pub mod Ends
pub mod Values
use winrt_rs.Base.{
  ℕ, zero, suc, ◌+◌, ◌-◌, ◌*◌, ◌%◌, ◌^◌, bit_and, bit_or, Bool, true, false, not, ◌&&◌, List, ltb,
  leb, ◌==◌, if◌then◌else◌, length, get_elem?, take, drop, out_of_range, stuck, Result, ok, panic,
  ◌>>=◌, ◌>>◌, guard, require, u32_mod, usize_mod, checked,
}
use winrt_rs.File.View.{le, slice_from}
use winrt_rs.File.Load.{WinmdFile}
use winrt_rs.Reader.{TypeReader, file_at}
use winrt_rs.Text.{Text, from_utf8}

pub record Blob : Type 0 where
  pub reader : TypeReader
  pub file_index : ℕ
  pub offset : ℕ

abbrev pub new : TypeReader → (file_index offset : ℕ) → Blob
new reader file_index offset = record { reader = reader; file_index = file_index; offset = offset }

unfoldable pub file : Blob → Result WinmdFile
file blob = file_at blob.reader blob.file_index

unfoldable pub bytes : Blob → Result (List ℕ)
bytes blob = file blob >>= λ f. slice_from f.bytes blob.offset

-- `self.offset += n`.
unfoldable pub advance : Blob → ℕ → Result Blob
advance blob n = do
  offset ← checked usize_mod (blob.offset + n)
  ok (record blob { offset = offset })

-- A byte as `u32`, shifted to the left.
unfoldable pub shl32 : ℕ → ℕ → ℕ
shl32 byte bits = byte * 2 ^ bits % u32_mod

unfoldable pub byte_at : List ℕ → ℕ → Result ℕ
byte_at view i = require (get_elem? view i) out_of_range

-- `peek_unsigned` on the bytes from the offset on.
unfoldable pub unsigned_at : List ℕ → Result (ℕ × ℕ)
unsigned_at view = do
  b0 ← byte_at view 0
  if bit_and b0 0x80 == 0
      then ok (b0, 1)
      else if bit_and b0 0xC0 == 0x80
      then (byte_at view 1 >>= λ b1. ok (bit_or (shl32 (bit_and b0 0x3F) 8) b1, 2))
      else (byte_at view 1 >>= λ b1. byte_at view 2 >>= λ b2. byte_at view 3 >>= λ b3.
          ok (
            bit_or (bit_or (bit_or (shl32 (bit_and b0 0x1F) 24) (shl32 b1 16)) (shl32 b2 8)) b3,
            4,
          ))

unfoldable pub peek_unsigned : Blob → Result (ℕ × ℕ)
peek_unsigned blob = bytes blob >>= unsigned_at

unfoldable pub read_unsigned : Blob → Result (ℕ × Blob)
read_unsigned blob = do
  (value, offset) ← peek_unsigned blob
  blob' ← advance blob offset
  ok (value, blob')

unfoldable pub read_expected : Blob → ℕ → Result (Bool × Blob)
read_expected blob expected = do
  (value, offset) ← peek_unsigned blob
  if value == expected
      then (advance blob offset >>= λ blob'. ok (true, blob'))
      else ok (false, blob)

-- The loop; each round moves on by at least two bytes, so that one more than the number of bytes is enough.
unfoldable pub modifiers_loop : ℕ → Blob → Result Blob
modifiers_loop zero blob = panic stuck
modifiers_loop (suc fuel) blob = do
  (value, offset) ← peek_unsigned blob
  elim (not (value == 32) && not (value == 31)) [
    | true ↦ ok blob
    | false ↦ do
      past_tag ← advance blob offset
      (_, past_type) ← read_unsigned past_tag
      modifiers_loop fuel past_type
  ]

unfoldable pub read_modifiers : Blob → Result Blob
read_modifiers blob = file blob >>= λ f. modifiers_loop (length f.bytes + 1) blob

-- `self.offset - len` is the offset behind the length.
unfoldable pub read_str : Blob → Result (Text × Blob)
read_str blob = do
  (len, past_len) ← read_unsigned blob
  end ← advance past_len len
  f ← file end
  guard (leb end.offset (length f.bytes)) out_of_range
  text ← from_utf8 (take len (drop (end.offset - len) f.bytes))
  ok (text, end)

-- `from_le_bytes(self.bytes()[..n])`, and `self.offset += n`.
unfoldable pub read_bits : ℕ → Blob → Result (ℕ × Blob)
read_bits n blob = do
  view ← bytes blob
  guard (leb n (length view)) out_of_range
  end ← advance blob n
  ok (le n (take n view), end)

-- The value of a signed number of `width` bits: `bits`, or below zero.
pub data ℤ : Type 0 where
  pos : ℕ → ℤ
  negsuc : ℕ → ℤ

unfoldable pub signed : (width bits : ℕ) → ℤ
signed width bits =
    if ltb bits (2 ^ (width - 1)) then ℤ.pos bits else ℤ.negsuc (2 ^ width - bits - 1)

unfoldable pub read_signed : ℕ → Blob → Result (ℤ × Blob)
read_signed n blob = do (bits, end) ← read_bits n blob; ok (signed (8 * n) bits, end)

unfoldable pub read_i8 : Blob → Result (ℤ × Blob)
read_i8 = read_signed 1

unfoldable pub read_u8 : Blob → Result (ℕ × Blob)
read_u8 = read_bits 1

unfoldable pub read_i16 : Blob → Result (ℤ × Blob)
read_i16 = read_signed 2

unfoldable pub read_u16 : Blob → Result (ℕ × Blob)
read_u16 = read_bits 2

unfoldable pub read_i32 : Blob → Result (ℤ × Blob)
read_i32 = read_signed 4

unfoldable pub read_u32 : Blob → Result (ℕ × Blob)
read_u32 = read_bits 4

unfoldable pub read_i64 : Blob → Result (ℤ × Blob)
read_i64 = read_signed 8

unfoldable pub read_u64 : Blob → Result (ℕ × Blob)
read_u64 = read_bits 8
