-- ===== src/HString.antt =====
-- src/hstring.rs: `HString`, a handle to a counted string of 16-bit units. The process heap is a list
-- of blocks by their addresses; a block that was freed is `none`. What `HeapAlloc` does is an
-- argument: whether it grants a block, and what stands in a new one.
pub mod Memory
pub mod Written
pub mod Handles
use winrt_rs.Base.{
  ℕ, ◌+◌, ◌-◌, ◌*◌, ◌/◌, ◌%◌, bit_and, Bool, true, false, not, Option, none, some, List, [], ◌∷◌,
  ◌++◌, ltb, leb, ◌==◌, if◌then◌else◌, length, get_elem?, set, take, drop, replicate, bytes_eq,
  assertion, dangling, explicit, Result, ok, ◌>>=◌, ◌>>◌, guard, require, u32_mod, add32,
}
use winrt_rs.Text.{Text, encode_utf16}
use winrt_rs.RefCount
use winrt_rs.RefCount.{RefCount, addref, release}

-- `units` is the buffer that `data` points to: the string, and what stands behind it in the block.
pub record Header : Type 0 where
  pub flags : ℕ
  pub len : ℕ
  pub units : List ℕ
  pub count : RefCount

abbrev pub Memory : Type 0
Memory = List (Option Header)

pub record HString : Type 0 where
  pub ptr : Option ℕ

abbrev pub reference_flag : ℕ
reference_flag = 1

-- `size_of::<Header>()`, and the offset of `buffer_start` in it.
abbrev pub header_size : ℕ
header_size = 32

abbrev pub buffer_offset : ℕ
buffer_offset = 28

abbrev pub new : HString
new = record { ptr = none }

-- What stands at an address.
unfoldable pub cell : Memory → ℕ → Option Header
cell memory p = elim (get_elem? memory p) [ none ↦ none | some block ↦ block ]

unfoldable pub header_at : Memory → ℕ → Result Header
header_at memory p = require (cell memory p) dangling

-- `std::slice::from_raw_parts(data, len)`.
unfoldable pub units_at : Memory → ℕ → Result (List ℕ)
units_at memory p = do
  header ← header_at memory p
  guard (leb header.len (length header.units)) dangling
  ok (take header.len header.units)

unfoldable pub is_empty : HString → Bool
is_empty string = elim (string.ptr) [ none ↦ true | some p ↦ false ]

unfoldable pub len : Memory → HString → Result ℕ
len memory string = elim (string.ptr) [
  | none ↦ ok 0
  | some p ↦ header_at memory p >>= λ header. ok header.len
]

unfoldable pub as_wide : Memory → HString → Result (List ℕ)
as_wide memory string = elim (string.ptr) [ none ↦ ok [] | some p ↦ units_at memory p ]

unfoldable pub clear : HString → Memory → Result (HString × Memory)
clear string memory = elim (string.ptr) [
  | none ↦ ok (string, memory)
  | some p ↦ do
    header ← header_at memory p
    guard (bit_and header.flags reference_flag == 0) assertion
    (remaining, count) ← release header.count
    ok (new, set memory p (if remaining == 0 then none else some (record header { count = count })))
]

-- `clear`, and then the place at which another call puts a handle.
unfoldable pub set_abi : HString → Memory → Result (HString × Memory)
set_abi = clear

unfoldable pub eq : Memory → HString → HString → Result Bool
eq memory string other = do
  first ← as_wide memory string
  second ← as_wide memory other
  ok (bytes_eq first second)

-- `PartialEq<&str>`.
unfoldable pub eq_str : Memory → HString → Text → Result Bool
eq_str memory string other = do
  wide ← as_wide memory string
  ok (bytes_eq wide (encode_utf16 other))

-- The loop: each unit goes to its place, and the length goes up with it.
unfoldable pub write_units : (index : ℕ) → List ℕ → Header → Result Header
write_units index [] header = ok header
write_units index (wide ∷ rest) header = do
  guard (ltb index (length header.units)) dangling
  len ← add32 (index % u32_mod) 1
  write_units (index + 1) rest (record header { units = set header.units index wide; len = len })

module _ (grants : Memory → (bytes : ℕ) → Bool) (blank : ℕ) where
  unfoldable pub alloc : (len : ℕ) → Memory → Result (ℕ × Memory)
  alloc len memory = do
    guard (not (len == 0)) assertion
    guard (grants memory (header_size + 2 * len)) explicit
    ok (length memory, memory ++ (some header ∷ []))
    where
      header : Header
      header = record {
        flags = 0;
        len = len;
        units = replicate ((header_size + 2 * len - buffer_offset) / 2) blank;
        count = RefCount.new 1;
      }

  unfoldable pub duplicate : ℕ → Memory → Result (ℕ × Memory)
  duplicate p memory = do
    header ← header_at memory p
    elim (bit_and header.flags reference_flag == 0) [
      | true ↦ do
        (_, count) ← addref header.count
        ok (p, set memory p (some (record header { count = count })))
      | false ↦ do
        (copy, memory') ← alloc header.len memory
        target ← header_at memory' copy
        guard (leb (header.len + 1) (length header.units)) dangling
        guard (leb (header.len + 1) (length target.units)) dangling
        ok (
          copy,
          set memory' copy (
              some (record target {
                units = take (header.len + 1) header.units ++ drop (header.len + 1) target.units;
              })),
        )
    ]

  unfoldable pub clone : HString → Memory → Result (HString × Memory)
  clone string memory = elim (string.ptr) [
    | none ↦ ok (new, memory)
    | some p ↦ duplicate p memory >>= λ r. ok (record { ptr = some r.0 }, r.1)
  ]

  -- `From<&str>`; the length of the text is cut to 32 bits.
  unfoldable pub from : Text → Memory → Result (HString × Memory)
  from [] memory = ok (new, memory)
  from (b ∷ value) memory = do
    (p, memory') ← alloc (length (b ∷ value) % u32_mod) memory
    header ← header_at memory' p
    written ← write_units 0 (encode_utf16 (b ∷ value)) header
    guard (ltb written.len (length written.units)) dangling
    ok (
      record { ptr = some p },
      set memory' p (some (record written { units = set written.units written.len 0 })),
    )
