-- ===== src/Tables/Attributes.antt =====
-- crates/winmd/src/tables: the attributes of a type, a method and an implemented interface, and what
-- a type is by them.
use winrt_rs.Base.{
  Bool, true, false, ◌&&◌, Option, none, some, List, [], ◌∷◌, map, if◌then◌else◌, bytes_eq,
  unwrap_none, assertion, Result, ok, ◌>>=◌, ◌>>◌, guard, require,
}
use winrt_rs.File.TableId.{TableIndex}
use winrt_rs.Row.{Row, TypeDef, MethodDef, InterfaceImpl, Attribute}
use winrt_rs.Text.{ascii}
use winrt_rs.Reader.{TypeReader}
use winrt_rs.Reader.Resolve.{Name}
use winrt_rs.Codes.{TypeCode}
use winrt_rs.Flags.{TypeCategory, windows_runtime, interface_flag}
use winrt_rs.Tables.{coded_range, type_def_flags, type_def_extends, type_def_or_ref_name}
use winrt_rs.Tables.Attribute.{name}

abbrev pub same_name : Name → Name → Bool
same_name (namespace, name) (namespace', name') =
    bytes_eq namespace namespace' && bytes_eq name name'

module _ (reader : TypeReader) where
  -- The rows of the custom attributes whose parent is the row.
  unfoldable pub attributes_of : Row → TableIndex → Result (List Attribute)
  attributes_of row variant = do
    rows ← coded_range reader row TableIndex.custom_attribute 0 TypeCode.has_attribute variant
    ok (map (λ found. record { row = found }) rows)

  unfoldable pub method_def_attributes : MethodDef → Result (List Attribute)
  method_def_attributes method = attributes_of method.row TableIndex.method_def

  unfoldable pub type_def_attributes : TypeDef → Result (List Attribute)
  type_def_attributes def = attributes_of def.row TableIndex.type_def

  unfoldable pub interface_impl_attributes : InterfaceImpl → Result (List Attribute)
  interface_impl_attributes impl = attributes_of impl.row TableIndex.interface_impl

  -- `find(|attribute| attribute.name(reader) == name)`: names are read up to the first that is equal.
  unfoldable pub find : List Attribute → Name → Result (Option Attribute)
  find [] wanted = ok none
  find (attribute ∷ rest) wanted = do
    found ← name reader attribute
    elim (same_name found wanted) [ true ↦ ok (some attribute) | false ↦ find rest wanted ]

  unfoldable pub any : List Attribute → Name → Result Bool
  any [] wanted = ok false
  any (attribute ∷ rest) wanted = do
    found ← name reader attribute
    elim (same_name found wanted) [ true ↦ ok true | false ↦ any rest wanted ]

  unfoldable pub method_def_find_attribute : MethodDef → Name → Result (Option Attribute)
  method_def_find_attribute method wanted =
      method_def_attributes method >>= λ attributes. find attributes wanted

  unfoldable pub interface_impl_has_attribute : InterfaceImpl → Name → Result Bool
  interface_impl_has_attribute impl wanted =
      interface_impl_attributes impl >>= λ attributes. any attributes wanted

  unfoldable pub type_def_has_attribute : TypeDef → Name → Result Bool
  type_def_has_attribute def wanted =
      type_def_attributes def >>= λ attributes. any attributes wanted

  unfoldable pub type_def_attribute : TypeDef → Name → Result Attribute
  type_def_attribute def wanted = do
    attributes ← type_def_attributes def
    found ← find attributes wanted
    require found unwrap_none

  -- The types that `TypeReader::new` passes over.
  unfoldable pub type_def_ignore : TypeDef → Result Bool
  type_def_ignore def = do
    flags ← type_def_flags reader def
    elim (windows_runtime flags) [
      | false ↦ ok true
      | true ↦ elim (interface_flag flags) [
        | true ↦ ok false
        | false ↦ do
          base ← type_def_extends reader def
          base_name ← type_def_or_ref_name reader base
          elim (same_name base_name (ascii "System", ascii "ValueType")) [
            | true ↦
                type_def_has_attribute def
                  (ascii "Windows.Foundation.Metadata", ascii "ApiContractAttribute")
            | false ↦ ok (same_name base_name (ascii "System", ascii "Attribute"))
          ]
      ]
    ]

  unfoldable pub category_of_base : Name → TypeCategory
  category_of_base base =
      if same_name base (ascii "System", ascii "Enum")
      then TypeCategory.enum
      else if same_name base (ascii "System", ascii "MulticastDelegate")
      then TypeCategory.delegate
      else if same_name base (ascii "System", ascii "ValueType")
      then TypeCategory.struct
      else TypeCategory.class

  -- `debug_assert!` is one of a build with assertions.
  unfoldable pub type_def_category : TypeDef → Result TypeCategory
  type_def_category def = do
    flags ← type_def_flags reader def
    guard (windows_runtime flags) assertion
    elim (interface_flag flags) [
      | true ↦ ok TypeCategory.interface
      | false ↦ do
        base ← type_def_extends reader def
        base_name ← type_def_or_ref_name reader base
        ok (category_of_base base_name)
    ]
