-- ===== src/Types.antt =====
-- crates/winmd/src/types/type_kind.rs and type_name.rs: `TypeKind` and `TypeName`, and what is read off
-- them. The list of kinds that a name holds is a type of its own.
pub mod Order
pub mod TypeGuid
pub mod Required
pub mod Signing
pub mod Method
pub mod Interfaces
pub mod Definitions
pub mod Reading
pub mod Signature
use winrt_rs.Base.{Bool, true, false, List, [], ◌∷◌, ◌++◌}
use winrt_rs.Row.{TypeDef}
use winrt_rs.Text.{Text, ascii}

mutual
  pub data TypeName : Type 0 where
    type_name : (namespace name : Text) → (generics : TypeKinds) → (def : TypeDef) → TypeName

  pub data TypeKind : Type 0 where
    bool : TypeKind
    char : TypeKind
    i8 : TypeKind
    u8 : TypeKind
    i16 : TypeKind
    u16 : TypeKind
    i32 : TypeKind
    u32 : TypeKind
    i64 : TypeKind
    u64 : TypeKind
    f32 : TypeKind
    f64 : TypeKind
    string : TypeKind
    object : TypeKind
    guid : TypeKind
    class : TypeName → TypeKind
    interface : TypeName → TypeKind
    enum : TypeName → TypeKind
    struct : TypeName → TypeKind
    delegate : TypeName → TypeKind
    generic : Text → TypeKind

  pub data TypeKinds : Type 0 where
    no_kinds : TypeKinds
    kind : TypeKind → TypeKinds → TypeKinds

-- The fields of a name.
abbrev pub namespace_of : TypeName → Text
namespace_of (type_name namespace name generics def) = namespace

abbrev pub name_of : TypeName → Text
name_of (type_name namespace name generics def) = name

abbrev pub generics_of : TypeName → TypeKinds
generics_of (type_name namespace name generics def) = generics

abbrev pub def_of : TypeName → TypeDef
def_of (type_name namespace name generics def) = def

abbrev pub no_generics : TypeName → Bool
no_generics (type_name namespace name no_kinds def) = true
no_generics (type_name namespace name (kind k ks) def) = false

-- The kinds as a list of the library, and back.
abbrev pub to_list : TypeKinds → List TypeKind
to_list no_kinds = []
to_list (kind k ks) = k ∷ to_list ks

abbrev pub from_list : List TypeKind → TypeKinds
from_list [] = no_kinds
from_list (k ∷ ks) = kind k (from_list ks)

-- The names of the types at run time.
unfoldable mutual
  pub runtime_name : TypeName → Text
  runtime_name (type_name namespace name generics def) =
      (namespace ++ (ascii "." ++ name)) ++ runtime_generics generics

  pub runtime_generics : TypeKinds → Text
  runtime_generics no_kinds = []
  runtime_generics (kind k ks) =
      ascii "<" ++ (kind_runtime_name k ++ (runtime_rest ks ++ ascii ">"))

  pub runtime_rest : TypeKinds → Text
  runtime_rest no_kinds = []
  runtime_rest (kind k ks) = ascii ", " ++ (kind_runtime_name k ++ runtime_rest ks)

  pub kind_runtime_name : TypeKind → Text
  kind_runtime_name bool = ascii "Boolean"
  kind_runtime_name char = ascii "Char16"
  kind_runtime_name i8 = ascii "Int8"
  kind_runtime_name u8 = ascii "UInt8"
  kind_runtime_name i16 = ascii "Int16"
  kind_runtime_name u16 = ascii "UInt16"
  kind_runtime_name i32 = ascii "Int32"
  kind_runtime_name u32 = ascii "UInt32"
  kind_runtime_name i64 = ascii "Int64"
  kind_runtime_name u64 = ascii "UInt64"
  kind_runtime_name f32 = ascii "Single"
  kind_runtime_name f64 = ascii "Double"
  kind_runtime_name string = ascii "String"
  kind_runtime_name object = ascii "Object"
  kind_runtime_name guid = ascii "Guid"
  kind_runtime_name (class name) = runtime_name name
  kind_runtime_name (interface name) = runtime_name name
  kind_runtime_name (enum name) = runtime_name name
  kind_runtime_name (struct name) = runtime_name name
  kind_runtime_name (delegate name) = runtime_name name
  kind_runtime_name (generic name) = name

-- The definitions that a name or a kind mentions.
unfoldable mutual
  pub dependencies : TypeName → List TypeDef
  dependencies (type_name namespace name generics def) = def ∷ dependencies_of generics

  pub dependencies_of : TypeKinds → List TypeDef
  dependencies_of no_kinds = []
  dependencies_of (kind k ks) = kind_dependencies k ++ dependencies_of ks

  pub kind_dependencies : TypeKind → List TypeDef
  kind_dependencies (class name) = dependencies name
  kind_dependencies (interface name) = dependencies name
  kind_dependencies (enum name) = dependencies name
  kind_dependencies (struct name) = dependencies name
  kind_dependencies (delegate name) = dependencies name
  kind_dependencies _ = []

unfoldable pub blittable : TypeKind → Bool
blittable string = false
blittable object = false
blittable guid = false
blittable (class name) = false
blittable (interface name) = false
blittable (struct name) = false
blittable (delegate name) = false
blittable (enum name) = false
blittable (generic name) = false
blittable _ = true
