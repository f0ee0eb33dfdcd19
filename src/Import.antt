-- ===== src/Import.antt =====
-- crates/macros/src/lib.rs: the macro `import`, from its tokens to the tree of types. What the file
-- system tells of a dependency is an argument, and so is the lower-case form of a character.
pub mod Written
pub mod Whole
use winrt_rs.Base.{
  ℕ, Bool, true, false, ◌||◌, ◌&&◌, List, [], ◌∷◌, ◌++◌, ◌==◌, if◌then◌else◌, bytes_eq, explicit,
  Result, ok, panic, ◌>>=◌,
}
use winrt_rs.Text.{Text, ascii, chars, from_chars}
use winrt_rs.Row.{TypeDef}
use winrt_rs.Reader.{TypeReader}
use winrt_rs.Limits.{TypeLimits, set_insert}
use winrt_rs.Limits
use winrt_rs.Tree.{TypeTree, default}
use winrt_rs.Types.Definitions.{WinrtType}
use winrt_rs.Stage.{from_limits, into_tree}

-- `TokenTree`; a group counts only as a token of another sort.
pub data TokenTree : Type 0 where
  ident : Text → TokenTree
  literal : Text → TokenTree
  punct : (char : ℕ) → TokenTree
  group : TokenTree

pub data ImportCategory : Type 0 where
  none : ImportCategory
  dependency : ImportCategory
  namespace : ImportCategory

abbrev pub quote : ℕ
quote = 0x22

-- `trim_matches('"')`: at the front, and at the end.
unfoldable pub trim_start : Text → Text
trim_start [] = []
trim_start (c ∷ cs) = let later = trim_start cs in if c == quote then later else c ∷ cs

unfoldable pub trim_end : Text → Text
trim_end [] = []
trim_end (c ∷ cs) = elim (trim_end cs) [
  | [] ↦ if c == quote then [] else c ∷ []
  | d ∷ ds ↦ c ∷ d ∷ ds
]

unfoldable pub trim_quotes : Text → Text
trim_quotes text = trim_end (trim_start text)

unfoldable pub category_of : Text → Result ImportCategory
category_of word =
    if bytes_eq word (ascii "dependencies")
    then ok ImportCategory.dependency
    else if bytes_eq word (ascii "modules")
    then ok ImportCategory.namespace
    else panic explicit

-- What is found: the paths, and the names of the namespaces.
abbrev pub Found : Type 0
Found = List Text × List Text

-- The elements of a set, added to another one.
unfoldable pub set_append : List Text → List Text → List Text
set_append [] set = set
set_append (x ∷ xs) set = set_append xs (set_insert x set)

module _ (to_lowercase : ℕ → List ℕ) (to_dependencies : Text → Result (List Text)) where
  unfoldable pub rough_chars : List ℕ → List ℕ
  rough_chars [] = []
  rough_chars (c ∷ cs) =
      let later = rough_chars cs in
      if c == quote || c == 0x5F then later else to_lowercase c ++ later

  unfoldable pub namespace_literal_to_rough_namespace : Text → Text
  namespace_literal_to_rough_namespace text = from_chars (rough_chars (chars text))

  -- A literal, in a category.
  unfoldable pub take_literal : ImportCategory → Text → Found → Result Found
  take_literal ImportCategory.none text found = panic explicit
  take_literal ImportCategory.dependency text (dependencies, modules) = do
    paths ← to_dependencies (trim_quotes text)
    ok (set_append paths dependencies, modules)
  take_literal ImportCategory.namespace text (dependencies, modules) =
      ok (dependencies, set_insert (namespace_literal_to_rough_namespace text) modules)

  -- The loop of `parse_import_stream`; a colon right behind a word is passed over.
  unfoldable pub parse_tokens :
      ImportCategory → (behind_word : Bool) → List TokenTree → Found → Result Found
  parse_tokens category behind_word [] found = ok found
  parse_tokens category behind_word (TokenTree.ident word ∷ rest) found =
      category_of word >>= λ next. parse_tokens next true rest found
  parse_tokens category behind_word (TokenTree.literal text ∷ rest) found =
      take_literal category text found >>= λ found'. parse_tokens category false rest found'
  parse_tokens category behind_word (TokenTree.punct c ∷ rest) found =
      let past = parse_tokens category false rest found in
      if behind_word && c == 0x3A then past else panic explicit
  parse_tokens category behind_word (TokenTree.group ∷ rest) found = panic explicit

  unfoldable pub parse_import_stream : List TokenTree → Result Found
  parse_import_stream tokens = parse_tokens ImportCategory.none false tokens ([], [])

-- The namespaces, inserted into the limits.
unfoldable pub insert_all : (Text → Text) → TypeReader → List Text → TypeLimits → Result TypeLimits
insert_all lower reader [] limits = ok limits
insert_all lower reader (name ∷ names) limits =
    Limits.insert lower reader name limits >>= insert_all lower reader names

-- `import`, up to the tree of which it writes the code. `lower` is `str::to_lowercase`.
unfoldable pub import_tree :
    (to_lowercase : ℕ → List ℕ) (to_dependencies : Text → Result (List Text)) (lower : Text → Text)
    (type_info : TypeDef → Result WinrtType) (reader : TypeReader) (fuel : ℕ)
    → List TokenTree
    → Result (TypeTree WinrtType)
import_tree to_lowercase to_dependencies lower type_info reader fuel tokens = do
  (dependencies, namespaces) ← parse_import_stream to_lowercase to_dependencies tokens
  limits ← insert_all lower reader namespaces (record { namespaces = [] })
  stage ← from_limits type_info reader fuel limits
  into_tree stage default
