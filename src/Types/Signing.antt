-- ===== src/Types/Signing.antt =====
-- crates/winmd/src/types/type_name.rs and type_kind.rs: the signatures of types, of which the guids of
-- generic types are made. What the crate `sha1` makes of some bytes is an argument: twenty bytes. The
-- fuel is the depth of generic arguments, default interfaces and fields.
pub mod Version
use winrt_rs.Base.{
  ℕ, zero, suc, ◌+◌, ◌*◌, bit_and, bit_or, Bool, true, false, ◌||◌, Option, none, some, List, [],
  ◌∷◌, ◌++◌, ◌==◌, if◌then◌else◌, get_or, explicit, unwrap_none, stuck, Result, ok, panic, ◌>>=◌,
  require,
}
use winrt_rs.Row.{Field}
use winrt_rs.Text.{Text, ascii}
use winrt_rs.Reader.{TypeReader}
use winrt_rs.Tables.{type_def_fields, field_constants, constant_value_type}
use winrt_rs.Types.{
  TypeName, namespace_of, name_of, generics_of, def_of, no_generics, TypeKind, to_list,
}
use winrt_rs.Types.TypeGuid.{TypeGuid, GuidConstant, from_type_def, fmt}
use winrt_rs.Types.Reading.{from_field}
use winrt_rs.Types.Required.{RequiredInterfaces, is_default, insert_required}

-- `namespace.name`.
abbrev pub full_name : TypeName → Text
full_name name = namespace_of name ++ (ascii "." ++ name_of name)

-- The first default interface.
unfoldable pub find_default : RequiredInterfaces → Option TypeName
find_default [] = none
find_default ((name, kind) ∷ rest) = elim (is_default kind) [
  | true ↦ some name
  | false ↦ find_default rest
]

-- A semicolon before each text.
unfoldable pub joined : (TypeKind → Result Text) → List TypeKind → Result Text
joined sign [] = ok []
joined sign (k ∷ ks) = do first ← sign k; rest ← joined sign ks; ok (ascii ";" ++ (first ++ rest))

module _ (reader : TypeReader) where
  -- The type of the constants of the first field that has one.
  unfoldable pub enum_type_of : List Field → Result Text
  enum_type_of [] = panic explicit
  enum_type_of (field ∷ rest) = field_constants reader field >>= λ constants. elim constants [
    | [] ↦ enum_type_of rest
    | constant ∷ others ↦ constant_value_type reader constant >>= λ tag.
        if tag == 0x08
        then ok (ascii "i4")
        else if tag == 0x09
        then ok (ascii "u4")
        else panic explicit
  ]

  unfoldable pub enum_type : TypeName → Result Text
  enum_type name = type_def_fields reader (def_of name) >>= enum_type_of

  unfoldable pub enum_signature : TypeName → Result Text
  enum_signature name = do
    value ← enum_type name
    ok (ascii "enum(" ++ (full_name name ++ (ascii ";" ++ (value ++ ascii ")"))))

  module _ (nesting : ℕ) (sign : TypeKind → Result Text) where
    unfoldable pub interface_signature : TypeName → Result Text
    interface_signature name = do
      guid ← from_type_def reader (def_of name)
      let head = ascii "{" ++ (fmt guid ++ ascii "}") in
          elim (no_generics name) [
            | true ↦ ok head
            | false ↦ joined sign (to_list (generics_of name)) >>= λ args.
                ok (ascii "pinterface(" ++ (head ++ (args ++ ascii ")")))
          ]

    unfoldable pub class_signature : TypeName → Result Text
    class_signature name = do
      map ← insert_required reader nesting nesting name []
      default ← require (find_default map) unwrap_none
      value ← interface_signature default
      ok (ascii "rc(" ++ (full_name name ++ (ascii ";" ++ (value ++ ascii ")"))))

    unfoldable pub fields_signature : List Field → Result Text
    fields_signature [] = ok []
    fields_signature (field ∷ rest) = do
      k ← from_field reader nesting field
      first ← sign k
      later ← fields_signature rest
      ok (ascii ";" ++ (first ++ later))

    unfoldable pub struct_signature : TypeName → Result Text
    struct_signature name = do
      fields ← type_def_fields reader (def_of name)
      values ← fields_signature fields
      ok (ascii "struct(" ++ (full_name name ++ (values ++ ascii ")")))

    unfoldable pub delegate_signature : TypeName → Result Text
    delegate_signature name = elim (no_generics name) [
      | true ↦ interface_signature name >>= λ value. ok (ascii "delegate(" ++ (value ++ ascii ")"))
      | false ↦ interface_signature name
    ]

    -- The `match` of `TypeKind::signature`.
    unfoldable pub signature_by : TypeKind → Result Text
    signature_by TypeKind.bool = ok (ascii "b1")
    signature_by TypeKind.char = ok (ascii "c2")
    signature_by TypeKind.i8 = ok (ascii "i1")
    signature_by TypeKind.u8 = ok (ascii "u1")
    signature_by TypeKind.i16 = ok (ascii "i2")
    signature_by TypeKind.u16 = ok (ascii "u2")
    signature_by TypeKind.i32 = ok (ascii "i4")
    signature_by TypeKind.u32 = ok (ascii "u4")
    signature_by TypeKind.i64 = ok (ascii "i8")
    signature_by TypeKind.u64 = ok (ascii "u8")
    signature_by TypeKind.f32 = ok (ascii "f4")
    signature_by TypeKind.f64 = ok (ascii "f8")
    signature_by TypeKind.string = ok (ascii "string")
    signature_by TypeKind.object = ok (ascii "cinterface(IInspectable)")
    signature_by TypeKind.guid = ok (ascii "g16")
    signature_by (TypeKind.class name) = class_signature name
    signature_by (TypeKind.interface name) = interface_signature name
    signature_by (TypeKind.enum name) = enum_signature name
    signature_by (TypeKind.struct name) = struct_signature name
    signature_by (TypeKind.delegate name) = delegate_signature name
    signature_by (TypeKind.generic name) = panic explicit

  module _ (nesting : ℕ) where
    unfoldable pub signature : (fuel : ℕ) → TypeKind → Result Text
    signature zero k = panic stuck
    signature (suc fuel) k = signature_by nesting (signature fuel) k

-- Bytes as a number, the first of them the most significant.
unfoldable pub be : List ℕ → ℕ → ℕ
be [] value = value
be (b ∷ bs) value = be bs (value * 256 + b)

abbrev pub namespace_guid : List ℕ
namespace_guid =
    0x11 ∷ 0xf4 ∷ 0x7a ∷ 0xd5 ∷ 0x7b ∷ 0x73 ∷ 0x42 ∷ 0xc0 ∷ 0xab ∷ 0xae ∷ 0x87 ∷ 0x8b ∷ 0x1e ∷ 0x16
    ∷ 0xad ∷ 0xee ∷ []

-- The guid of a digest: with the version 5, and the variant of the standard. A digest has twenty bytes.
unfoldable pub from_digest : List ℕ → TypeGuid
from_digest bytes =
    let at : ℕ → ℕ = λ i. get_or bytes i 0 in
    let third = be (at 6 ∷ at 7 ∷ []) 0 in
    record {
      constants =
          GuidConstant.u32 (be (at 0 ∷ at 1 ∷ at 2 ∷ at 3 ∷ []) 0)
          ∷ GuidConstant.u16 (be (at 4 ∷ at 5 ∷ []) 0)
          ∷ GuidConstant.u16 (bit_or (bit_and third 0x0FFF) 0x5000)
          ∷ GuidConstant.u8 (bit_or (bit_and (at 8) 0x3F) 0x80)
          ∷ GuidConstant.u8 (at 9)
          ∷ GuidConstant.u8 (at 10)
          ∷ GuidConstant.u8 (at 11)
          ∷ GuidConstant.u8 (at 12)
          ∷ GuidConstant.u8 (at 13)
          ∷ GuidConstant.u8 (at 14)
          ∷ GuidConstant.u8 (at 15)
          ∷ [];
    }

-- `TypeName::guid`.
unfoldable pub guid :
    (sha1 : List ℕ → List ℕ) (reader : TypeReader) (nesting fuel : ℕ)
    → TypeName
    → (generics : Bool) → Result TypeGuid
guid sha1 reader nesting fuel name generics = elim (no_generics name || generics) [
  | true ↦ from_type_def reader (def_of name)
  | false ↦ interface_signature reader nesting (signature reader nesting fuel) name >>= λ text.
      ok (from_digest (sha1 (namespace_guid ++ text)))
]
