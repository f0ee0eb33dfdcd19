-- ===== src/Codes.antt =====
-- crates/winmd/macros/src/lib.rs and crates/winmd/src/codes.rs: `type_code`, and the six enums that
-- it is written on. A variant is named after the table of its row.
pub mod RoundTrip
pub mod Widths
use winrt_rs.Base.{
  ℕ, ◌+◌, ◌-◌, ◌*◌, ◌/◌, ◌%◌, ◌^◌, bit_and, bit_or, Option, none, some, List, [], ◌∷◌, ◌==◌,
  if◌then◌else◌, explicit, stuck, Result, ok, ◌>>=◌, ◌>>◌, require, u32_mod, add32, sub,
}
use winrt_rs.File.TableId.{TableIndex, position}
use winrt_rs.Row
use winrt_rs.Row.{Row}
use winrt_rs.Reader.{TypeReader, u32}

-- The enums, by their names.
pub data TypeCode : Type 0 where
  type_def_or_ref : TypeCode
  type_or_method_def : TypeCode
  has_attribute : TypeCode
  member_ref_parent : TypeCode
  has_constant : TypeCode
  attribute_type : TypeCode

-- The argument of `type_code`.
abbrev pub bits : TypeCode → ℕ
bits TypeCode.type_def_or_ref = 2
bits TypeCode.type_or_method_def = 1
bits TypeCode.has_attribute = 5
bits TypeCode.member_ref_parent = 3
bits TypeCode.has_constant = 2
bits TypeCode.attribute_type = 3

-- The variants as they are declared, some with a discriminant.
abbrev pub declared : TypeCode → List (TableIndex × Option ℕ)
declared TypeCode.type_def_or_ref =
    (TableIndex.type_def, none) ∷ (TableIndex.type_ref, none) ∷ (TableIndex.type_spec, none) ∷ []
declared TypeCode.type_or_method_def =
    (TableIndex.type_def, none) ∷ (TableIndex.method_def, none) ∷ []
declared TypeCode.has_attribute =
    (TableIndex.method_def, none)
    ∷ (TableIndex.field, none)
    ∷ (TableIndex.type_ref, none)
    ∷ (TableIndex.type_def, none)
    ∷ (TableIndex.param, none)
    ∷ (TableIndex.interface_impl, none)
    ∷ (TableIndex.member_ref, none)
    ∷ (TableIndex.type_spec, some 13)
    ∷ (TableIndex.generic_param, some 19)
    ∷ []
declared TypeCode.member_ref_parent =
    (TableIndex.type_def, none)
    ∷ (TableIndex.type_ref, none)
    ∷ (TableIndex.method_def, some 3)
    ∷ (TableIndex.type_spec, none)
    ∷ []
declared TypeCode.has_constant = (TableIndex.field, none) ∷ (TableIndex.param, none) ∷ []
declared TypeCode.attribute_type =
    (TableIndex.method_def, some 2) ∷ (TableIndex.member_ref, none) ∷ []

-- The macro's loop: a discriminant sets the count, which goes up by one behind each variant.
unfoldable pub enumerators : ℕ → List (TableIndex × Option ℕ) → List (ℕ × TableIndex)
enumerators enumerator [] = []
enumerators enumerator ((variant, none) ∷ rest) =
    (enumerator, variant) ∷ enumerators (enumerator + 1) rest
enumerators enumerator ((variant, some value) ∷ rest) =
    (value, variant) ∷ enumerators (value + 1) rest

unfoldable pub variants : TypeCode → List (ℕ × TableIndex)
variants enum = enumerators 0 (declared enum)

-- A value of one of the enums: the variant, and the row in it.
pub record Coded : Type 0 where
  pub variant : TableIndex
  pub row : Row

-- The arms of the two `match` expressions.
unfoldable pub variant_of : ℕ → List (ℕ × TableIndex) → Option TableIndex
variant_of tag [] = none
variant_of tag ((enumerator, variant) ∷ rest) =
    let later = variant_of tag rest in if tag == enumerator then some variant else later

unfoldable pub enumerator_of : TableIndex → List (ℕ × TableIndex) → Option ℕ
enumerator_of index [] = none
enumerator_of index ((enumerator, variant) ∷ rest) =
    let later = enumerator_of index rest in
    if position index == position variant then some enumerator else later

unfoldable pub decode : TypeCode → (code file : ℕ) → Result Coded
decode enum code file = do
  index ← sub (code / 2 ^ bits enum) 1
  variant ← require (variant_of (bit_and code (2 ^ bits enum - 1)) (variants enum)) explicit
  ok (record { variant = variant; row = Row.new index variant file })

-- A shift to the left drops the high bits. Each variant has an arm.
unfoldable pub encode : TypeCode → Coded → Result ℕ
encode enum value = do
  place ← add32 value.row.index 1
  enumerator ← require (enumerator_of value.variant (variants enum)) stuck
  ok (bit_or (place * 2 ^ bits enum % u32_mod) enumerator)

-- crates/winmd/src/type_reader.rs: `TypeReader::decode`.
unfoldable pub decode_cell : TypeCode → TypeReader → Row → ℕ → Result Coded
decode_cell enum reader row column =
    u32 reader row column >>= λ code. decode enum code row.file_index
