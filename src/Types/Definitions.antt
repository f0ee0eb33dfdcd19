-- ===== src/Types/Definitions.antt =====
-- crates/winmd/src/types: class.rs, interface.rs, enum.rs, struct.rs, delegate.rs and type.rs: the types
-- themselves, and the definitions that they depend on.
pub mod Made
use winrt_rs.Base.{ℕ, Bool, List, [], ◌∷◌, ◌++◌, map, if◌then◌else◌}
use winrt_rs.Row.{TypeDef, Attribute}
use winrt_rs.Text.{Text}
use winrt_rs.Flags.{TypeCategory}
use winrt_rs.Case.{MethodKind}
use winrt_rs.Blob.{ℤ}
use winrt_rs.Reader.{TypeReader}
use winrt_rs.Reader.Resolve.{resolve_type_def}
use winrt_rs.Tables.{
  type_def_fields, type_def_methods, type_def_extends, type_def_or_ref_name, field_name,
  field_constants, constant_value, constant_value_type, method_def_name,
}
use winrt_rs.Tables.Attribute
use winrt_rs.Tables.Attribute.{AttributeArg, args}
use winrt_rs.Tables.Attributes.{same_name, type_def_attributes, type_def_category}
use winrt_rs.Types.{TypeName, def_of, TypeKind, dependencies, kind_dependencies}
use winrt_rs.Types.TypeGuid
use winrt_rs.Types.TypeGuid.{TypeGuid}
use winrt_rs.Types.Reading.{name_from_type_def, from_field}
use winrt_rs.Types.Required.{is_default}
use winrt_rs.Types.Method.{Method, method_dependencies}
use winrt_rs.Types.Interfaces
use winrt_rs.Types.Interfaces.{RequiredInterface}

pub record Class : Type 0 where
  pub name : TypeName
  pub bases : List TypeName
  pub interfaces : List RequiredInterface
  pub default_constructor : Bool

pub record Interface : Type 0 where
  pub name : TypeName
  pub interfaces : List RequiredInterface

pub data EnumConstant : Type 0 where
  u32 : ℕ → EnumConstant
  i32 : ℤ → EnumConstant

pub record Enum : Type 0 where
  pub name : TypeName
  pub fields : List (Text × EnumConstant)

pub record Struct : Type 0 where
  pub name : TypeName
  pub fields : List (Text × TypeKind)

pub record Delegate : Type 0 where
  pub name : TypeName
  pub method : Method
  pub guid : TypeGuid

-- `Type`.
pub data WinrtType : Type 0 where
  class : Class → WinrtType
  interface : Interface → WinrtType
  enum : Enum → WinrtType
  struct : Struct → WinrtType
  delegate : Delegate → WinrtType

abbrev pub type_name_of : WinrtType → TypeName
type_name_of (WinrtType.class t) = t.name
type_name_of (WinrtType.interface t) = t.name
type_name_of (WinrtType.enum t) = t.name
type_name_of (WinrtType.struct t) = t.name
type_name_of (WinrtType.delegate t) = t.name

-- The dependencies of each sort of type, and of a type.
unfoldable pub names_dependencies : List RequiredInterface → List TypeDef
names_dependencies [] = []
names_dependencies (required ∷ rest) = dependencies required.name ++ names_dependencies rest

abbrev pub class_dependencies : Class → List TypeDef
class_dependencies t = names_dependencies t.interfaces ++ map def_of t.bases

unfoldable pub methods_dependencies : List Method → List TypeDef
methods_dependencies [] = []
methods_dependencies (method ∷ rest) = method_dependencies method ++ methods_dependencies rest

unfoldable pub interfaces_dependencies : List RequiredInterface → List TypeDef
interfaces_dependencies [] = []
interfaces_dependencies (required ∷ rest) =
    dependencies required.name
    ++ ((if is_default required.kind then methods_dependencies required.methods else [])
        ++ interfaces_dependencies rest)

unfoldable pub fields_dependencies : List (Text × TypeKind) → List TypeDef
fields_dependencies [] = []
fields_dependencies ((name, k) ∷ rest) = kind_dependencies k ++ fields_dependencies rest

unfoldable pub type_dependencies : WinrtType → List TypeDef
type_dependencies (WinrtType.class t) = class_dependencies t
type_dependencies (WinrtType.interface t) = interfaces_dependencies t.interfaces
type_dependencies (WinrtType.enum t) = []
type_dependencies (WinrtType.struct t) = fields_dependencies t.fields
type_dependencies (WinrtType.delegate t) = method_dependencies t.method
