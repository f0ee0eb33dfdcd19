-- ===== src/Types/Definitions/Made.antt =====
-- crates/winmd/src/types: class.rs, interface.rs, enum.rs, struct.rs, delegate.rs and type.rs: how the types
-- are made of the metadata. `fuel` bounds the chain of the bases of a class.
use winrt_rs.Base.{
  ℕ, zero, suc, Bool, true, false, Option, none, some, List, [], ◌∷◌, ◌++◌, ◌==◌, if◌then◌else◌,
  bytes_eq, unwrap_none, explicit, stuck, Result, ok, panic, ◌>>=◌, require, traverse,
}
use winrt_rs.Row.{TypeDef, MethodDef, Field, Constant, Attribute}
use winrt_rs.Text.{Text, ascii}
use winrt_rs.Flags.{TypeCategory}
use winrt_rs.Case.{MethodKind}
use winrt_rs.Blob.{read_i32, read_u32}
use winrt_rs.Reader.{TypeReader}
use winrt_rs.Reader.Resolve.{Name, resolve_type_def}
use winrt_rs.Tables.{
  type_def_fields, type_def_methods, type_def_extends, type_def_or_ref_name, field_name,
  field_constants, constant_value, constant_value_type, method_def_name,
}
use winrt_rs.Tables.Attribute
use winrt_rs.Tables.Attribute.{AttributeArg, args}
use winrt_rs.Tables.Attributes.{same_name, type_def_attributes, type_def_category}
use winrt_rs.Types.{TypeName, type_name, no_kinds, generics_of}
use winrt_rs.Types.TypeGuid
use winrt_rs.Types.TypeGuid.{TypeGuid}
use winrt_rs.Types.Reading.{name_from_type_def, from_field}
use winrt_rs.Types.Required.{InterfaceKind}
use winrt_rs.Types.Method.{to_snake, from_method_def}
use winrt_rs.Types.Interfaces
use winrt_rs.Types.Interfaces.{RequiredInterface, append_default, append_required}
use winrt_rs.Types.Definitions.{Class, Interface, EnumConstant, Enum, Struct, Delegate, WinrtType}

-- `attribute_factory`: the first argument that is a type.
unfoldable pub first_type : List (Text × AttributeArg) → Option TypeDef
first_type [] = none
first_type ((label, AttributeArg.type_def def) ∷ rest) = some def
first_type ((label, _) ∷ rest) = first_type rest

unfoldable pub attribute_factory : TypeReader → Attribute → Result (Option TypeDef)
attribute_factory reader attribute = args reader attribute >>= λ values. ok (first_type values)

module _ (reader : TypeReader) where
  -- The constants of one field.
  unfoldable pub enum_constants : Field → List Constant → Result (List (Text × EnumConstant))
  enum_constants field [] = ok []
  enum_constants field (constant ∷ constants) = do
    name ← field_name reader field
    value ← constant_value reader constant
    tag ← constant_value_type reader constant
    first ←
        if tag == 0x08
        then (read_i32 value >>= λ r. ok (EnumConstant.i32 r.0))
        else if tag == 0x09
        then (read_u32 value >>= λ r. ok (EnumConstant.u32 r.0))
        else panic explicit
    rest ← enum_constants field constants
    ok ((name, first) ∷ rest)

  unfoldable pub enum_fields : List Field → Result (List (Text × EnumConstant))
  enum_fields [] = ok []
  enum_fields (field ∷ fields) = do
    constants ← field_constants reader field
    first ← enum_constants field constants
    rest ← enum_fields fields
    ok (first ++ rest)

  unfoldable pub enum_from : TypeDef → Result Enum
  enum_from def = do
    name ← name_from_type_def reader def
    rows ← type_def_fields reader def
    fields ← enum_fields rows
    ok (record { name = name; fields = fields })

  -- `find(|method| method.name(reader) == "Invoke")`.
  unfoldable pub find_invoke : List MethodDef → Result (Option MethodDef)
  find_invoke [] = ok none
  find_invoke (method ∷ rest) = do
    name ← method_def_name reader method
    elim (bytes_eq name (ascii "Invoke")) [ true ↦ ok (some method) | false ↦ find_invoke rest ]

  module _ (is_uppercase is_lowercase : ℕ → Bool) (to_lowercase : ℕ → List ℕ)
      (sha1 : List ℕ → List ℕ) (nesting : ℕ) where
    unfoldable pub struct_from : TypeDef → Result Struct
    struct_from def = do
      name ← name_from_type_def reader def
      rows ← type_def_fields reader def
      fields ←
          traverse
            (λ field. do
              text ← field_name reader field
              snake ← to_snake is_uppercase is_lowercase to_lowercase reader text MethodKind.normal
              k ← from_field reader nesting field
              ok (snake, k))
            rows
      ok (record { name = name; fields = fields })

    unfoldable pub delegate_from : TypeDef → Result Delegate
    delegate_from def = do
      name ← name_from_type_def reader def
      rows ← type_def_methods reader def
      found ← find_invoke rows
      invoke ← require found unwrap_none
      method ←
          from_method_def is_uppercase is_lowercase to_lowercase reader nesting (generics_of name)
            invoke
      guid ← TypeGuid.from_type_def reader def
      ok (record { name = name; method = method; guid = guid })

    -- An interface of `def` itself, of the kind.
    unfoldable pub own_interface : TypeDef → InterfaceKind → Result RequiredInterface
    own_interface def kind = do
      required ←
          Interfaces.from_type_def is_uppercase is_lowercase to_lowercase sha1 reader nesting def
      ok (record required { kind = kind })

    unfoldable pub interface_from : TypeDef → Result Interface
    interface_from def = do
      name ← name_from_type_def reader def
      first ← own_interface def InterfaceKind.default
      interfaces ←
          append_required is_uppercase is_lowercase to_lowercase sha1 reader nesting name
            (first ∷ [])
      ok (record { name = name; interfaces = interfaces })

    -- The loop over the bases, up to `System.Object`.
    unfoldable pub bases_from :
        (fuel : ℕ)
        → TypeDef
        → List RequiredInterface
        → Result (List TypeName × List RequiredInterface)
    bases_from zero base interfaces = panic stuck
    bases_from (suc fuel) base interfaces = do
      code ← type_def_extends reader base
      full ← type_def_or_ref_name reader code
      elim (same_name full (ascii "System", ascii "Object")) [
        | true ↦ ok ([], interfaces)
        | false ↦ do
          next ← resolve_type_def reader full
          let name = type_name full.0 full.1 no_kinds next in
              append_required is_uppercase is_lowercase to_lowercase sha1 reader nesting name
                interfaces
              >>= λ interfaces'. bases_from fuel next interfaces' >>= λ r. ok (name ∷ r.0, r.1)
      ]

    -- The interfaces that the attributes of a class name, and whether it has a default constructor.
    unfoldable pub factories_from :
        List Attribute
        → List RequiredInterface
        → (default_constructor : Bool) → Result (List RequiredInterface × Bool)
    factories_from [] interfaces default_constructor = ok (interfaces, default_constructor)
    factories_from (attribute ∷ rest) interfaces default_constructor = do
      full ← Attribute.name reader attribute
      elim (same_name full (ascii "Windows.Foundation.Metadata", ascii "StaticAttribute")) [
        | true ↦ do
          found ← attribute_factory reader attribute
          def ← require found unwrap_none
          required ← own_interface def InterfaceKind.statics
          factories_from rest (interfaces ++ (required ∷ [])) default_constructor
        | false ↦
            elim (same_name full
              (ascii "Windows.Foundation.Metadata", ascii "ActivatableAttribute")) [
                | true ↦ attribute_factory reader attribute >>= λ found. elim found [
                  | some def ↦ own_interface def InterfaceKind.statics >>= λ required.
                      factories_from rest (interfaces ++ (required ∷ [])) default_constructor
                  | none ↦ factories_from rest interfaces true
                ]
                | false ↦ factories_from rest interfaces default_constructor
              ]
      ]

    unfoldable pub class_from : (fuel : ℕ) → TypeDef → Result Class
    class_from fuel def = do
      name ← name_from_type_def reader def
      own ← append_default is_uppercase is_lowercase to_lowercase sha1 reader nesting name []
      (bases, inherited) ← bases_from fuel def own
      attributes ← type_def_attributes reader def
      (interfaces, default_constructor) ← factories_from attributes inherited false
      ok (record {
        name = name;
        bases = bases;
        interfaces = interfaces;
        default_constructor = default_constructor;
      })

    -- `Type::from_type_def`.
    unfoldable pub type_from : (fuel : ℕ) → TypeDef → Result WinrtType
    type_from fuel def = type_def_category reader def >>= λ category. elim category [
      | TypeCategory.interface ↦ interface_from def >>= λ t. ok (WinrtType.interface t)
      | TypeCategory.class ↦ class_from fuel def >>= λ t. ok (WinrtType.class t)
      | TypeCategory.enum ↦ enum_from def >>= λ t. ok (WinrtType.enum t)
      | TypeCategory.struct ↦ struct_from def >>= λ t. ok (WinrtType.struct t)
      | TypeCategory.delegate ↦ delegate_from def >>= λ t. ok (WinrtType.delegate t)
    ]

    -- `TypeReader::resolve_type`; `type_info` and `into_type` are `type_from` itself.
    unfoldable pub resolve_type : (fuel : ℕ) → Name → Result WinrtType
    resolve_type fuel name = resolve_type_def reader name >>= type_from fuel
