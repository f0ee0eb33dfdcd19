-- ===== src/Types/Interfaces.antt =====
-- crates/winmd/src/types/required_interface.rs: an interface that a type requires, with its methods.
-- The last section chooses the methods that a type has of all its interfaces.
pub mod Calls
use winrt_rs.Base.{
  ℕ, Bool, true, false, not, List, [], ◌∷◌, ◌++◌, if◌then◌else◌, bytes_eq, Result, ok, ◌>>=◌,
  traverse,
}
use winrt_rs.Row.{TypeDef}
use winrt_rs.Text.{Text, ascii}
use winrt_rs.Reader.{TypeReader}
use winrt_rs.Tables.{type_def_methods}
use winrt_rs.Types.{TypeName, generics_of, def_of, no_generics}
use winrt_rs.Types.TypeGuid
use winrt_rs.Types.TypeGuid.{TypeGuid}
use winrt_rs.Types.Reading.{name_from_type_def}
use winrt_rs.Types.Required.{InterfaceKind, RequiredInterfaces, is_default, insert_required}
use winrt_rs.Types.Signing.{guid}
use winrt_rs.Types.Method.{Method, from_method_def}

pub record RequiredInterface : Type 0 where
  pub name : TypeName
  pub guid : TypeGuid
  pub methods : List Method
  pub kind : InterfaceKind

-- Whether a set of texts has the text.
abbrev pub contains : List Text → Text → Bool
contains [] text = false
contains (first ∷ rest) text = if bytes_eq first text then true else contains rest text

-- The loop of `rename_collisions`; `names` are those that were seen before.
unfoldable pub rename_within : (names : List Text) → List Method → List Method
rename_within names [] = []
rename_within names (method ∷ rest) = elim (contains names method.name) [
  | true ↦ record method { name = method.name ++ ascii "2" } ∷ rename_within names rest
  | false ↦ method ∷ rename_within (method.name ∷ names) rest
]

unfoldable pub rename_collisions : List Method → List Method
rename_collisions methods = rename_within [] methods

module _ (is_uppercase is_lowercase : ℕ → Bool) (to_lowercase : ℕ → List ℕ) (sha1 : List ℕ → List ℕ)
    (reader : TypeReader) (nesting : ℕ) where
  unfoldable pub methods_of : TypeName → TypeDef → Result (List Method)
  methods_of name def = do
    rows ← type_def_methods reader def
    methods ←
        traverse
          (from_method_def is_uppercase is_lowercase to_lowercase reader nesting (generics_of name))
          rows
    ok (rename_collisions methods)

  unfoldable pub from_type_def : TypeDef → Result RequiredInterface
  from_type_def def = do
    name ← name_from_type_def reader def
    guid ← TypeGuid.from_type_def reader def
    methods ← methods_of name def
    ok (record { name = name; guid = guid; methods = methods; kind = InterfaceKind.non_default })

  unfoldable pub from_type_name_and_kind :
      TypeName → InterfaceKind → (generics : Bool) → Result RequiredInterface
  from_type_name_and_kind name kind generics = do
    id ← guid sha1 reader nesting nesting name generics
    methods ← methods_of name (def_of name)
    ok (record { name = name; guid = id; methods = methods; kind = kind })

  -- The loop of `append_default`, in which a default interface goes to the front.
  unfoldable pub append_defaults :
      (generics : Bool)
      → RequiredInterfaces
      → List RequiredInterface
      → Result (List RequiredInterface)
  append_defaults generics [] interfaces = ok interfaces
  append_defaults generics ((name, kind) ∷ rest) interfaces = do
    required ← from_type_name_and_kind name kind generics
    append_defaults generics rest (elim (is_default kind) [
      | true ↦ required ∷ interfaces
      | false ↦ interfaces ++ (required ∷ [])
    ])

  unfoldable pub append_default :
      TypeName → List RequiredInterface → Result (List RequiredInterface)
  append_default name interfaces = do
    map ← insert_required reader nesting nesting name []
    append_defaults (not (no_generics name)) map interfaces

  -- A default interface of another type is none of this one.
  abbrev pub weaker : InterfaceKind → InterfaceKind
  weaker InterfaceKind.default = InterfaceKind.non_default
  weaker InterfaceKind.non_default = InterfaceKind.non_default
  weaker InterfaceKind.overrides = InterfaceKind.overrides
  weaker InterfaceKind.statics = InterfaceKind.statics

  unfoldable pub append_all :
      (generics : Bool)
      → RequiredInterfaces
      → List RequiredInterface
      → Result (List RequiredInterface)
  append_all generics [] interfaces = ok interfaces
  append_all generics ((name, kind) ∷ rest) interfaces = do
    required ← from_type_name_and_kind name (weaker kind) generics
    append_all generics rest (interfaces ++ (required ∷ []))

  unfoldable pub append_required :
      TypeName → List RequiredInterface → Result (List RequiredInterface)
  append_required name interfaces = do
    map ← insert_required reader nesting nesting name []
    append_all (not (no_generics name)) map interfaces

-- How a method is called.
pub data Call : Type 0 where
  through_default : Method → Call
  through : Method → RequiredInterface → Call
  static : Method → RequiredInterface → Call

abbrev pub call_of : RequiredInterface → Method → InterfaceKind → Call
call_of interface method InterfaceKind.default = through_default method
call_of interface method InterfaceKind.non_default = through method interface
call_of interface method InterfaceKind.overrides = through method interface
call_of interface method InterfaceKind.statics = static method interface

-- The loops of `to_method_tokens`: the calls, of which it then writes the code.
unfoldable pub methods_calls :
    RequiredInterface → List Method → (names : List Text) → List Call × List Text
methods_calls interface [] names = ([], names)
methods_calls interface (method ∷ rest) names = elim (contains names method.name) [
  | true ↦ methods_calls interface rest names
  | false ↦
      let later = methods_calls interface rest (method.name ∷ names) in
      (call_of interface method interface.kind ∷ later.0, later.1)
]

unfoldable pub interfaces_calls : List RequiredInterface → (names : List Text) → List Call
interfaces_calls [] names = []
interfaces_calls (interface ∷ rest) names =
    let (calls, names') = methods_calls interface interface.methods names in
    calls ++ interfaces_calls rest names'

unfoldable pub to_method_calls : List RequiredInterface → List Call
to_method_calls interfaces = interfaces_calls interfaces []
