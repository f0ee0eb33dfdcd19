-- ===== src/Tables.antt =====
-- crates/winmd/src/tables: what a row of each table gives by its columns.
pub mod Attribute
pub mod Attributes
pub mod Parent
pub mod Args
use winrt_rs.Base.{
  ℕ, true, false, List, map, if◌then◌else◌, set, explicit, Result, ok, panic, ◌>>=◌, ◌>>◌, add32,
}
use winrt_rs.File.TableId.{TableIndex}
use winrt_rs.Row.{
  Row, TypeDef, TypeRef, TypeSpec, MethodDef, Field, Param, InterfaceImpl, MemberRef, GenericParam,
  Constant,
}
use winrt_rs.Text.{Text, ascii, starts_with}
use winrt_rs.Blob.{Blob}
use winrt_rs.Reader.{TypeReader, u32, str, list}
use winrt_rs.Reader.Search.{equal_range, upper_bound}
use winrt_rs.Reader.Resolve.{Name, blob, resolve_type_def}
use winrt_rs.Codes.{TypeCode, Coded, encode, decode_cell}
use winrt_rs.Flags.{MethodFlags, TypeFlags, ParamFlags, MethodCategory, special}

-- The rows of `table` whose cell in `column` is the code of the variant.
unfoldable pub coded_range :
    TypeReader → Row → TableIndex → (column : ℕ) → TypeCode → TableIndex → Result (List Row)
coded_range reader row index column enum variant = do
  code ← encode enum (record { variant = variant; row = row })
  equal_range reader row.file_index index column code

unfoldable pub names : TypeReader → Row → (namespace name : ℕ) → Result Name
names reader row namespace name = do
  first ← str reader row namespace
  second ← str reader row name
  ok (first, second)

module _ (reader : TypeReader) where
  unfoldable pub type_ref_name : TypeRef → Result Name
  type_ref_name def = names reader def.row 2 1

  unfoldable pub type_ref_resolve : TypeRef → Result TypeDef
  type_ref_resolve def = type_ref_name def >>= resolve_type_def reader

  unfoldable pub type_spec_sig : TypeSpec → Result Blob
  type_spec_sig spec = blob reader spec.row 0

  unfoldable pub constant_value_type : Constant → Result ℕ
  constant_value_type constant = u32 reader constant.row 0

  unfoldable pub constant_value : Constant → Result Blob
  constant_value constant = blob reader constant.row 2

  unfoldable pub field_name : Field → Result Text
  field_name field = str reader field.row 1

  unfoldable pub field_sig : Field → Result Blob
  field_sig field = blob reader field.row 2

  unfoldable pub field_constants : Field → Result (List Constant)
  field_constants field = do
    rows ← coded_range reader field.row TableIndex.constant 1 TypeCode.has_constant TableIndex.field
    ok (map (λ row. record { row = row }) rows)

  unfoldable pub generic_param_name : GenericParam → Result Text
  generic_param_name param = str reader param.row 3

  unfoldable pub interface_impl_interface : InterfaceImpl → Result Coded
  interface_impl_interface impl = decode_cell TypeCode.type_def_or_ref reader impl.row 1

  unfoldable pub member_ref_parent : MemberRef → Result Coded
  member_ref_parent member = decode_cell TypeCode.member_ref_parent reader member.row 0

  unfoldable pub member_ref_name : MemberRef → Result Text
  member_ref_name member = str reader member.row 1

  unfoldable pub param_flags : Param → Result ParamFlags
  param_flags param = u32 reader param.row 0 >>= λ bits. ok (record { bits = bits })

  unfoldable pub param_sequence : Param → Result ℕ
  param_sequence param = u32 reader param.row 1

  unfoldable pub param_name : Param → Result Text
  param_name param = str reader param.row 2

  unfoldable pub method_def_flags : MethodDef → Result MethodFlags
  method_def_flags method = u32 reader method.row 2 >>= λ bits. ok (record { bits = bits })

  unfoldable pub method_def_parent : MethodDef → Result TypeDef
  method_def_parent method = do
    row ← upper_bound reader method.row.file_index TableIndex.type_def 6 method.row.index
    ok (record { row = row })

  unfoldable pub method_def_params : MethodDef → Result (List Param)
  method_def_params method = do
    rows ← list reader method.row TableIndex.param 5
    ok (map (λ row. record { row = row }) rows)

  unfoldable pub method_def_name : MethodDef → Result Text
  method_def_name method = str reader method.row 3

  unfoldable pub method_def_sig : MethodDef → Result Blob
  method_def_sig method = blob reader method.row 4

  unfoldable pub method_def_category : MethodDef → Result MethodCategory
  method_def_category method = do
    flags ← method_def_flags method
    elim (special flags) [
      | false ↦ ok MethodCategory.normal
      | true ↦ method_def_name method >>= λ name. ok (category_of name)
    ]
    where
      category_of : Text → MethodCategory
      category_of name =
          if starts_with name (ascii "get")
          then MethodCategory.get
          else if starts_with name (ascii "put")
          then MethodCategory.set
          else if starts_with name (ascii "add")
          then MethodCategory.add
          else if starts_with name (ascii "remove")
          then MethodCategory.remove
          else MethodCategory.normal

  unfoldable pub type_def_flags : TypeDef → Result TypeFlags
  type_def_flags def = u32 reader def.row 0 >>= λ bits. ok (record { bits = bits })

  unfoldable pub type_def_name : TypeDef → Result Name
  type_def_name def = names reader def.row 2 1

  unfoldable pub type_def_extends : TypeDef → Result Coded
  type_def_extends def = decode_cell TypeCode.type_def_or_ref reader def.row 3

  unfoldable pub type_def_fields : TypeDef → Result (List Field)
  type_def_fields def = do
    rows ← list reader def.row TableIndex.field 4
    ok (map (λ row. record { row = row }) rows)

  unfoldable pub type_def_methods : TypeDef → Result (List MethodDef)
  type_def_methods def = do
    rows ← list reader def.row TableIndex.method_def 5
    ok (map (λ row. record { row = row }) rows)

  unfoldable pub type_def_generics : TypeDef → Result (List GenericParam)
  type_def_generics def = do
    rows ←
        coded_range reader def.row TableIndex.generic_param 2 TypeCode.type_or_method_def
          TableIndex.type_def
    ok (map (λ row. record { row = row }) rows)

  unfoldable pub type_def_interfaces : TypeDef → Result (List InterfaceImpl)
  type_def_interfaces def = do
    place ← add32 def.row.index 1
    rows ← equal_range reader def.row.file_index TableIndex.interface_impl 0 place
    ok (map (λ row. record { row = row }) rows)

  -- crates/winmd/src/codes.rs: the methods of `TypeDefOrRef`.
  unfoldable pub type_def_or_ref_name : Coded → Result Name
  type_def_or_ref_name value = elim (value.variant) [
    | TableIndex.type_def ↦ type_def_name (record { row = value.row })
    | TableIndex.type_ref ↦ type_ref_name (record { row = value.row })
    | _ ↦ panic explicit
  ]

  unfoldable pub type_def_or_ref_resolve : Coded → Result TypeDef
  type_def_or_ref_resolve value = elim (value.variant) [
    | TableIndex.type_def ↦ ok (record { row = value.row })
    | TableIndex.type_ref ↦ type_ref_resolve (record { row = value.row })
    | _ ↦ panic explicit
  ]
