-- ===== src/Types/Reading.antt =====
-- crates/winmd/src/types/type_kind.rs and type_name.rs: the names and kinds that the metadata tells of.
-- The blobs are blobs of the reader that the calls are given. A kind is read from one, where a type that is a specification leads to another blob: the fuel is
-- the depth of that nesting.
use winrt_rs.Base.{
  ℕ, zero, suc, true, false, ◌||◌, Option, none, some, ◌==◌, if◌then◌else◌, get_elem?, out_of_range,
  explicit, stuck, Result, ok, panic, ◌>>=◌, require, traverse,
}
use winrt_rs.File.TableId.{TableIndex}
use winrt_rs.Row.{TypeDef, TypeRef, TypeSpec, Field}
use winrt_rs.Text.{ascii}
use winrt_rs.Flags.{TypeCategory}
use winrt_rs.Blob.{Blob, read_unsigned, read_expected, read_modifiers}
use winrt_rs.Codes.{TypeCode, Coded, decode}
use winrt_rs.Reader.{TypeReader}
use winrt_rs.Reader.Resolve.{resolve_type_def}
use winrt_rs.Tables.{
  type_ref_name, type_def_name, type_def_generics, generic_param_name, type_spec_sig,
  type_def_or_ref_resolve, field_sig,
}
use winrt_rs.Tables.Attributes.{same_name, type_def_category}
use winrt_rs.Types.{
  TypeName, type_name, TypeKind, TypeKinds, no_kinds, kind, to_list, from_list, def_of,
}

unfoldable pub kind_of_category : TypeCategory → TypeName → TypeKind
kind_of_category TypeCategory.interface name = TypeKind.interface name
kind_of_category TypeCategory.class name = TypeKind.class name
kind_of_category TypeCategory.enum name = TypeKind.enum name
kind_of_category TypeCategory.struct name = TypeKind.struct name
kind_of_category TypeCategory.delegate name = TypeKind.delegate name

-- The kinds that one number tells of.
unfoldable pub plain_kind : (tag : ℕ) → Option TypeKind
plain_kind tag =
    if tag == 0x02
    then some TypeKind.bool
    else if tag == 0x03
    then some TypeKind.char
    else if tag == 0x04
    then some TypeKind.i8
    else if tag == 0x05
    then some TypeKind.u8
    else if tag == 0x06
    then some TypeKind.i16
    else if tag == 0x07
    then some TypeKind.u16
    else if tag == 0x08
    then some TypeKind.i32
    else if tag == 0x09
    then some TypeKind.u32
    else if tag == 0x0A
    then some TypeKind.i64
    else if tag == 0x0B
    then some TypeKind.u64
    else if tag == 0x0C
    then some TypeKind.f32
    else if tag == 0x0D
    then some TypeKind.f64
    else if tag == 0x0E
    then some TypeKind.string
    else if tag == 0x1C
    then some TypeKind.object
    else none

module _ (reader : TypeReader) where
  -- `TypeKind::from_type_name`.
  unfoldable pub from_type_name : TypeName → Result TypeKind
  from_type_name name = do
    category ← type_def_category reader (def_of name)
    ok (kind_of_category category name)

  -- `TypeName::from_type_def`.
  unfoldable pub name_from_type_def : TypeDef → Result TypeName
  name_from_type_def def = do
    (namespace, name) ← type_def_name reader def
    params ← type_def_generics reader def
    generics ←
        traverse (λ param. generic_param_name reader param >>= λ name. ok (TypeKind.generic name))
          params
    ok (type_name namespace name (from_list generics) def)

  unfoldable pub name_from_type_ref : TypeRef → Result TypeName
  name_from_type_ref type_ref = do
    found ← type_ref_name reader type_ref
    def ← resolve_type_def reader found
    name_from_type_def def

  -- `TypeKind::from_type_def`.
  unfoldable pub from_type_def : TypeDef → Result TypeKind
  from_type_def def = name_from_type_def def >>= from_type_name

  unfoldable pub from_type_ref : TypeRef → Result TypeKind
  from_type_ref type_ref = do
    found ← type_ref_name reader type_ref
    elim (same_name found (ascii "System", ascii "Guid")) [
      | true ↦ ok TypeKind.guid
      | false ↦ resolve_type_def reader found >>= from_type_def
    ]

  -- `read` reads a kind from a blob.
  module _ (read : Blob → Result (TypeKind × Blob)) where
    -- The arguments of a generic type. The capacity of the vector is taken to be the one asked for.
    unfoldable pub read_args : (count : ℕ) → Blob → Result (TypeKinds × Blob)
    read_args zero blob = ok (no_kinds, blob)
    read_args (suc count) blob = do
      (arg, blob') ← read blob
      (args, end) ← read_args count blob'
      ok (kind arg args, end)

    unfoldable pub from_type_spec_blob : Blob → Result (TypeName × Blob)
    from_type_spec_blob blob = do
      (_, blob1) ← read_unsigned blob
      (code, blob2) ← read_unsigned blob1
      coded ← decode TypeCode.type_def_or_ref code blob.file_index
      def ← type_def_or_ref_resolve reader coded
      (count, blob3) ← read_unsigned blob2
      (args, end) ← read_args count blob3
      (namespace, name) ← type_def_name reader def
      ok (type_name namespace name args def, end)

    unfoldable pub name_from_type_spec : TypeSpec → Result TypeName
    name_from_type_spec spec = do
      blob ← type_spec_sig reader spec
      (_, blob') ← read_unsigned blob
      (name, _) ← from_type_spec_blob blob'
      ok name

    -- `TypeName::from_type_def_or_ref`, and then that of `TypeKind`.
    unfoldable pub name_from_type_def_or_ref : Coded → Result TypeName
    name_from_type_def_or_ref code = elim (code.variant) [
      | TableIndex.type_ref ↦ name_from_type_ref (record { row = code.row })
      | TableIndex.type_def ↦ name_from_type_def (record { row = code.row })
      | TableIndex.type_spec ↦ name_from_type_spec (record { row = code.row })
      | _ ↦ panic stuck
    ]

    unfoldable pub from_type_def_or_ref : Coded → Result TypeKind
    from_type_def_or_ref code = elim (code.variant) [
      | TableIndex.type_ref ↦ from_type_ref (record { row = code.row })
      | TableIndex.type_def ↦ from_type_def (record { row = code.row })
      | TableIndex.type_spec ↦
          name_from_type_spec (record { row = code.row }) >>= λ name. ok (TypeKind.interface name)
      | _ ↦ panic stuck
    ]

  module _ (generics : TypeKinds) where
    -- The `match` of `from_blob`.
    unfoldable pub kind_by_tag :
        (read : Blob → Result (TypeKind × Blob)) → (tag : ℕ) → Blob → Result (TypeKind × Blob)
    kind_by_tag read tag blob = elim (plain_kind tag) [
      | some k ↦ ok (k, blob)
      | none ↦
          if tag == 0x11 || tag == 0x12
          then (read_unsigned blob >>= λ c.
              decode TypeCode.type_def_or_ref c.0 blob.file_index >>= λ code.
              from_type_def_or_ref read code >>= λ k. ok (k, c.1))
          else if tag == 0x13
          then (read_unsigned blob >>= λ i.
              require (get_elem? (to_list generics) i.0) out_of_range >>= λ k. ok (k, i.1))
          else if tag == 0x15
          then (from_type_spec_blob read blob >>= λ n. from_type_name n.0 >>= λ k. ok (k, n.1))
          else panic explicit
    ]

    unfoldable pub from_blob : (fuel : ℕ) → Blob → Result (TypeKind × Blob)
    from_blob zero blob = panic stuck
    from_blob (suc fuel) blob = do
      (_, blob1) ← read_expected blob 0x1D
      blob2 ← read_modifiers blob1
      (tag, blob3) ← read_unsigned blob2
      kind_by_tag (from_blob fuel) tag blob3

  unfoldable pub from_field : (fuel : ℕ) → Field → Result TypeKind
  from_field fuel field = do
    blob ← field_sig reader field
    (_, blob1) ← read_unsigned blob
    blob2 ← read_modifiers blob1
    (k, _) ← from_blob no_kinds fuel blob2
    ok k
