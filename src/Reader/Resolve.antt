-- ===== src/Reader/Resolve.antt =====
-- crates/winmd/src/type_reader.rs: `TypeReader::blob`, and the look-up of a type by its names.
use winrt_rs.Base.{
  ℕ, ◌+◌, ◌-◌, ◌/◌, ◌^◌, bit_and, Option, none, some, List, [], ◌∷◌, map, leb, ◌==◌, if◌then◌else◌,
  length, get_elem?, take, drop, bytes_eq, out_of_range, explicit, Result, ok, panic, ◌>>=◌, ◌>>◌,
  guard, require, u8_mod, checked, add32,
}
use winrt_rs.Row.{Row, TypeDef}
use winrt_rs.Text.{Text}
use winrt_rs.Blob
use winrt_rs.Blob.{Blob}
use winrt_rs.Reader.{TypeReader, file_at, u32}

-- `&file.bytes[first..last]`, of which only the bytes are looked at.
unfoldable pub slice : List ℕ → (first last : ℕ) → Result (List ℕ)
slice bytes first last = do
  guard (leb first last) out_of_range
  guard (leb last (length bytes)) out_of_range
  ok (take (last - first) (drop first bytes))

-- By the first byte of a blob, the number of bytes of its size, and the bits that belong to the size.
unfoldable pub size_bytes : ℕ → Result (ℕ × ℕ)
size_bytes initial =
    if leb (initial / 2 ^ 5) 3
    then ok (bit_and initial 0x7F, 1)
    else if leb (initial / 2 ^ 5) 5
    then ok (bit_and initial 0x3F, 2)
    else if initial / 2 ^ 5 == 6
    then ok (bit_and initial 0x1F, 4)
    else panic explicit

-- `blob_size.checked_shl(8).unwrap_or(0) + byte` on a `u8`: the shift by 8 is out of its range.
unfoldable pub add_size_byte : ℕ → ℕ → Result ℕ
add_size_byte blob_size byte = checked u8_mod (0 + byte)

unfoldable pub add_size_bytes : ℕ → List ℕ → Result ℕ
add_size_bytes blob_size [] = ok blob_size
add_size_bytes blob_size (byte ∷ rest) = do
  blob_size' ← add_size_byte blob_size byte
  add_size_bytes blob_size' rest

unfoldable pub blob : TypeReader → Row → ℕ → Result Blob
blob reader row column = do
  file ← file_at reader row.file_index
  start ← u32 reader row column
  offset ← add32 file.blobs start
  initial_byte ← require (get_elem? file.bytes offset) out_of_range
  (blob_size, blob_size_bytes) ← size_bytes initial_byte
  more ← slice file.bytes (offset + 1) (offset + blob_size_bytes)
  _ ← add_size_bytes blob_size more
  ok (Blob.new reader row.file_index (offset + blob_size_bytes))

-- `BTreeMap::get` on the entries of a map.
unfoldable pub get {ℓ} : {A : Type ℓ} → List (Text × A) → Text → Option A
get [] key = none
get ((k, value) ∷ rest) key =
    let later = get rest key in if bytes_eq k key then some value else later

-- A name is a namespace and the name in it.
abbrev pub Name : Type 0
Name = Text × Text

unfoldable pub resolve_type_def : TypeReader → Name → Result TypeDef
resolve_type_def reader (namespace, type_name) = elim (get reader.types namespace) [
  | none ↦ panic explicit
  | some types ↦ require (get types type_name) explicit
]

-- `self.types[namespace].values()`.
unfoldable pub namespace_types : TypeReader → Text → Result (List TypeDef)
namespace_types reader namespace = do
  types ← require (get reader.types namespace) out_of_range
  ok (map (λ entry. entry.1) types)

unfoldable pub namespaces : TypeReader → List Text
namespaces reader = map (λ entry. entry.0) reader.types
