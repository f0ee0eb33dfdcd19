-- ===== src/Namespace.antt =====
-- crates/winmd/src/types/namespace.rs, crates/winmd/src/lib.rs and the modules of
-- crates/winmd/src/type_namespaces.rs: the paths of the generated code. A text is the list of its
-- characters, as in Case; what the standard library tells of a character is an argument, and so is
-- what the crate proc_macro2 takes for an identifier.
pub mod Resolves
use winrt_rs.Base.{
  ℕ, Bool, List, [], ◌∷◌, ◌++◌, if◌then◌else◌, length, replicate, bytes_eq, Result, ok, panic,
  explicit, ◌>>=◌, traverse,
}
use winrt_rs.Text.{Text, ascii, split}
use winrt_rs.Case.{MethodKind, to_snake}
use Prim.Native.String.{String}

-- `quote::format_ident!` panics on a text that is no identifier, such as `r#self`; which texts are, the
-- crate proc_macro2 tells.
module _ (is_ident : Text → Bool) where
  unfoldable pub ident_of : Text → Result Text
  ident_of text = if is_ident text then ok text else panic explicit

  -- An identifier, which is raw unless it is `Self`.
  unfoldable pub format_ident : Text → Result Text
  format_ident name =
      if bytes_eq name (ascii "Self")
      then ident_of (name ++ ascii "_")
      else ident_of (ascii "r#" ++ name)

  unfoldable pub format_abi_ident : Text → Result Text
  format_abi_ident name = ident_of (ascii "abi_" ++ name)

-- A part of a path: `super::`, or an identifier and `::`.
pub data PathToken : Type 0 where
  super : PathToken
  ident : Text → PathToken

-- The loop over both iterators, as long as the next items agree: what is left of them.
unfoldable pub skip_common : (source destination : List Text) → List Text × List Text
skip_common [] destination = ([], destination)
skip_common (s ∷ source) [] = (s ∷ source, [])
skip_common (s ∷ source) (d ∷ destination) =
    let later = skip_common source destination in
    if bytes_eq s d then later else (s ∷ source, d ∷ destination)

module _ (is_ident : Text → Bool) (is_uppercase is_lowercase : ℕ → Bool)
    (to_lowercase : ℕ → List ℕ) where
  -- The name of the module of one part of a namespace.
  unfoldable pub module_name : Text → Result Text
  module_name part = do
    name ← to_snake is_uppercase is_lowercase to_lowercase part MethodKind.normal
    format_ident is_ident name

  unfoldable pub to_namespace_tokens : (destination source : Text) → Result (List PathToken)
  to_namespace_tokens destination source =
      let (up, down) = skip_common (split 0x2E source) (split 0x2E destination) in
      traverse (λ part. module_name part >>= λ name. ok (ident name)) down >>= λ idents.
      ok (replicate (length up) super ++ idents)
