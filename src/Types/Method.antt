-- ===== src/Types/Method.antt =====
-- crates/winmd/src/types/method.rs and param.rs: a method, as the metadata tells of it. `nesting` is
-- the fuel for the signatures of the types, and what the standard library tells of a character is an
-- argument, as in Case.
use winrt_rs.Base.{
  ℕ, bit_and, Bool, true, false, not, Option, none, some, List, [], ◌∷◌, ◌++◌, ◌==◌, if◌then◌else◌,
  Result, ok, ◌>>=◌,
}
use winrt_rs.Row
use winrt_rs.Row.{MethodDef, TypeDef}
use winrt_rs.Text.{Text, ascii, chars, from_chars, slice_text, starts_with}
use winrt_rs.Flags.{special, input}
use winrt_rs.Case
use winrt_rs.Case.{MethodKind}
use winrt_rs.Blob.{Blob, peek_unsigned, read_unsigned, read_expected, read_modifiers}
use winrt_rs.Reader.{TypeReader}
use winrt_rs.Tables.{
  method_def_flags, method_def_name, method_def_sig, method_def_params, param_sequence, param_name,
  param_flags,
}
use winrt_rs.Tables.Attribute.{AttributeArg, args}
use winrt_rs.Tables.Attributes.{method_def_find_attribute}
use winrt_rs.Types.{TypeKind, TypeKinds, kind_dependencies}
use winrt_rs.Types.Reading.{from_blob}

pub record Param : Type 0 where
  pub name : Text
  pub kind : TypeKind
  pub array : Bool
  pub input : Bool
  pub by_ref : Bool

pub record Method : Type 0 where
  pub name : Text
  pub kind : MethodKind
  pub params : List Param
  pub return_type : Option Param

-- `Method::dependencies`.
unfoldable pub param_dependencies : List Param → List TypeDef
param_dependencies [] = []
param_dependencies (param ∷ rest) = kind_dependencies param.kind ++ param_dependencies rest

unfoldable pub method_dependencies : Method → List TypeDef
method_dependencies method = elim (method.return_type) [
  | some value ↦ kind_dependencies value.kind ++ param_dependencies method.params
  | none ↦ param_dependencies method.params
]

-- The first argument that is a text.
unfoldable pub first_text : List (Text × AttributeArg) → Option Text
first_text [] = none
first_text ((label, AttributeArg.string text) ∷ rest) = some text
first_text ((label, _) ∷ rest) = first_text rest

-- The mark of an array, which is left for `from_blob` to read, and the kind.
unfoldable pub array_and_kind :
    TypeReader → (nesting : ℕ) → TypeKinds → Blob → Result (Bool × TypeKind × Blob)
array_and_kind reader nesting generics blob = do
  (value, _) ← peek_unsigned blob
  (k, end) ← from_blob reader generics nesting blob
  ok (value == 0x1D, k, end)

unfoldable pub return_param :
    TypeReader → (nesting : ℕ) → TypeKinds → Blob → Result (Option Param × Blob)
return_param reader nesting generics blob = do
  (void, blob') ← read_expected blob 0x01
  elim (void) [
    | true ↦ ok (none, blob')
    | false ↦ array_and_kind reader nesting generics blob' >>= λ r.
        ok (some (record { name = []; kind = r.1; array = r.0; input = false; by_ref = true }), r.2)
  ]

-- The count of generic parameters, for a method that has some.
unfoldable pub skip_generics : (flags : ℕ) → Blob → Result Blob
skip_generics flags blob =
    if not (bit_and flags 0x10 == 0) then (read_unsigned blob >>= λ r. ok r.1) else ok blob

module _ (is_uppercase is_lowercase : ℕ → Bool) (to_lowercase : ℕ → List ℕ)
    (reader : TypeReader) where
  -- `to_snake` on a text.
  unfoldable pub to_snake : Text → MethodKind → Result Text
  to_snake text kind =
      Case.to_snake is_uppercase is_lowercase to_lowercase (chars text) kind >>= λ cs.
      ok (from_chars cs)

  -- `Method::name`.
  unfoldable pub plain_name : MethodDef → Result Text
  plain_name method = do
    found ←
        method_def_find_attribute reader method
          (ascii "Windows.Foundation.Metadata", ascii "OverloadAttribute")
    elim (found) [
      | none ↦ own_name
      | some attribute ↦ args reader attribute >>= λ values. elim (first_text values) [
        | some text ↦ to_snake text MethodKind.normal
        | none ↦ own_name
      ]
    ]
    where
      own_name : Result Text
      own_name = method_def_name reader method >>= λ name. to_snake name MethodKind.normal

  -- The name of a method that gets, sets, adds or removes: what stands behind the preamble.
  unfoldable pub special_name : Text → Result (Text × MethodKind)
  special_name name =
      if starts_with name (ascii "get")
      then behind 4 MethodKind.get
      else if starts_with name (ascii "put")
      then behind 4 MethodKind.set
      else if starts_with name (ascii "add")
      then behind 4 MethodKind.add
      else if starts_with name (ascii "remove")
      then behind 7 MethodKind.remove
      else ok (ascii "invoke", MethodKind.normal)
    where
      behind : ℕ → MethodKind → Result (Text × MethodKind)
      behind n kind = slice_text n name >>= λ part. to_snake part kind >>= λ snake. ok (snake, kind)

  unfoldable pub method_name : MethodDef → Result (Text × MethodKind)
  method_name method = do
    flags ← method_def_flags reader method
    elim (special flags) [
      | true ↦ method_def_name reader method >>= special_name
      | false ↦ plain_name method >>= λ name. ok (name, MethodKind.normal)
    ]

  module _ (nesting : ℕ) (generics : TypeKinds) where
    -- One parameter, whose row is not that of the value that the method returns.
    unfoldable pub read_param : Row.Param → Blob → Result (Param × Blob)
    read_param row blob = do
      text ← param_name reader row
      name ← to_snake text MethodKind.normal
      flags ← param_flags reader row
      blob1 ← read_modifiers blob
      (by_ref, blob2) ← read_expected blob1 0x10
      (array, k, end) ← array_and_kind reader nesting generics blob2
      ok (
        record { name = name; kind = k; array = array; input = input flags; by_ref = by_ref },
        end,
      )

    -- `return_type.is_none() || param.sequence(reader) != 0`.
    unfoldable pub counts : (returns : Bool) → Row.Param → Result Bool
    counts returns row = elim returns [
      | false ↦ ok true
      | true ↦ param_sequence reader row >>= λ place. ok (not (place == 0))
    ]

    unfoldable pub read_params : (returns : Bool) → List Row.Param → Blob → Result (List Param)
    read_params returns [] blob = ok []
    read_params returns (row ∷ rows) blob = do
      counted ← counts returns row
      elim (counted) [
        | false ↦ read_params returns rows blob
        | true ↦ do
          (param, blob') ← read_param row blob
          rest ← read_params returns rows blob'
          ok (param ∷ rest)
      ]

    unfoldable pub from_method_def : MethodDef → Result Method
    from_method_def method = do
      (name, kind) ← method_name method
      blob ← method_def_sig reader method
      (flags, blob1) ← read_unsigned blob
      blob2 ← skip_generics flags blob1
      (_, blob3) ← read_unsigned blob2
      blob4 ← read_modifiers blob3
      (_, blob5) ← read_expected blob4 0x10
      (return_type, blob6) ← return_param reader nesting generics blob5
      rows ← method_def_params reader method
      params ← read_params (elim return_type [ some value ↦ true | none ↦ false ]) rows blob6
      ok (record { name = name; kind = kind; params = params; return_type = return_type })
