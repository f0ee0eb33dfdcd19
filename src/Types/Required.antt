-- ===== src/Types/Required.antt =====
-- crates/winmd/src/types/required_interfaces.rs: the interfaces that a type requires, at first or at
-- second hand, in the order of their names. `nesting` is the fuel for the signatures of generic
-- interfaces; the other fuel is the depth of the interfaces that require others.
pub mod Hierarchy
pub mod Complete
pub mod OneName
pub mod Inserted
use winrt_rs.Base.{ℕ, zero, suc, Bool, true, false, List, [], ◌∷◌, stuck, Result, ok, panic, ◌>>=◌}
use winrt_rs.Base.Maps.{contains_key, insert}
use winrt_rs.Row.{InterfaceImpl, Attribute}
use winrt_rs.Text.{ascii}
use winrt_rs.Reader.{TypeReader}
use winrt_rs.Tables.{interface_impl_interface, type_def_interfaces}
use winrt_rs.Tables.Attribute.{name}
use winrt_rs.Tables.Attributes.{same_name, interface_impl_attributes}
use winrt_rs.Types.{TypeName, generics_of, def_of}
use winrt_rs.Types.Order.Lawful.{name_order}
use winrt_rs.Types.Reading.{name_from_type_def_or_ref, from_blob}

pub data InterfaceKind : Type 0 where
  default : InterfaceKind
  non_default : InterfaceKind
  overrides : InterfaceKind
  statics : InterfaceKind

abbrev pub RequiredInterfaces : Type 0
RequiredInterfaces = List (TypeName × InterfaceKind)

-- The test `kind == InterfaceKind::Default`.
abbrev pub is_default : InterfaceKind → Bool
is_default InterfaceKind.default = true
is_default _ = false

module _ (reader : TypeReader) where
  unfoldable pub kind_by : List Attribute → Result InterfaceKind
  kind_by [] = ok InterfaceKind.non_default
  kind_by (attribute ∷ rest) = do
    found ← name reader attribute
    elim (same_name found (ascii "Windows.Foundation.Metadata", ascii "DefaultAttribute")) [
      | true ↦ ok InterfaceKind.default
      | false ↦ kind_by rest
    ]

  -- The function `kind`.
  unfoldable pub kind_of : InterfaceImpl → Result InterfaceKind
  kind_of required = interface_impl_attributes reader required >>= kind_by

  -- `required` inserts what a name requires.
  unfoldable pub insert_type_name :
      (required : TypeName → RequiredInterfaces → Result RequiredInterfaces)
      → TypeName
      → InterfaceKind
      → RequiredInterfaces
      → Result RequiredInterfaces
  insert_type_name required name kind map = elim (contains_key name_order name map) [
    | false ↦ required name map >>= λ map'. ok (insert name_order name kind map')
    | true ↦ elim (is_default kind) [ true ↦ ok (insert name_order name kind map) | false ↦ ok map ]
  ]

  module _ (nesting : ℕ) where
    -- The name and the kind of a row of the table of interfaces.
    unfoldable pub interface_name : TypeName → InterfaceImpl → Result TypeName
    interface_name name required = do
      code ← interface_impl_interface reader required
      name_from_type_def_or_ref reader (from_blob reader (generics_of name) nesting) code

    unfoldable pub insert_each :
        (required : TypeName → RequiredInterfaces → Result RequiredInterfaces)
        → TypeName
        → List InterfaceImpl
        → RequiredInterfaces
        → Result RequiredInterfaces
    insert_each required name [] map = ok map
    insert_each required name (row ∷ rows) map = do
      found ← interface_name name row
      kind ← kind_of row
      map' ← insert_type_name required found kind map
      insert_each required name rows map'

    unfoldable pub insert_required :
        (fuel : ℕ) → TypeName → RequiredInterfaces → Result RequiredInterfaces
    insert_required zero name map = panic stuck
    insert_required (suc fuel) name map = do
      rows ← type_def_interfaces reader (def_of name)
      insert_each (insert_required fuel) name rows map
