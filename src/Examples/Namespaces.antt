-- ===== src/Examples/Namespaces.antt =====
-- A path between two modules of the generated code.
use winrt_rs.Base.{
  ℕ, ◌≡◌, refl, Bool, not, ◌||◌, some, List, [], ◌∷◌, bytes_eq, explicit, ok, panic, Returns,
}
use mathlib.Core.List.{reverse}
use winrt_rs.Text.{ascii, split}
use winrt_rs.Case.{preamble, breaks, push_rest, to_snake}
use winrt_rs.Namespace.{
  super, ident, skip_common, ident_of, format_ident, module_name, to_namespace_tokens,
}
use winrt_rs.Namespace.Resolves.{resolve, modules_of, to_namespace_tokens-resolve}
use winrt_rs.Examples.Cases.{is_upper, is_lower, to_lower}

-- No raw identifiers, besides texts of other characters.
abbrev is_ident : List ℕ → Bool
is_ident text = not (
    bytes_eq text (ascii "r#")
    || bytes_eq text (ascii "r#_")
    || bytes_eq text (ascii "r#self")
    || bytes_eq text (ascii "r#super")
    || bytes_eq text (ascii "r#crate"))

-- A namespace part `Self` has no module.
no_module : module_name is_ident is_upper is_lower to_lower (ascii "Self") ≡ panic explicit
unfolding module_name format_ident ident_of to_snake preamble push_rest breaks
no_module = refl

abbrev from : List (List ℕ)
from = ascii "r#windows" ∷ ascii "r#ui" ∷ ascii "r#core" ∷ []

abbrev to : List (List ℕ)
to = ascii "r#windows" ∷ ascii "r#foundation" ∷ []

from_here : modules_of is_ident is_upper is_lower to_lower (ascii "Windows.UI.Core") ≡ ok from
unfolding split module_name format_ident ident_of to_snake preamble push_rest breaks
from_here = refl

to_here : modules_of is_ident is_upper is_lower to_lower (ascii "Windows.Foundation") ≡ ok to
unfolding split module_name format_ident ident_of to_snake preamble push_rest breaks
to_here = refl

path :
    to_namespace_tokens is_ident is_upper is_lower to_lower
      (ascii "Windows.Foundation")
      (ascii "Windows.UI.Core")
    ≡ ok (super ∷ super ∷ ident (ascii "r#foundation") ∷ [])
unfolding to_namespace_tokens skip_common split module_name format_ident ident_of to_snake preamble
    push_rest breaks
path = refl

to_namespace_tokens-resolve_example :
    Returns
      (to_namespace_tokens is_ident is_upper is_lower to_lower
        (ascii "Windows.Foundation")
        (ascii "Windows.UI.Core"))
      (λ path. resolve (reverse from) path ≡ some (reverse to))
to_namespace_tokens-resolve_example =
    to_namespace_tokens-resolve is_ident is_upper is_lower to_lower (ascii "Windows.Foundation")
      (ascii "Windows.UI.Core") from to from_here to_here
