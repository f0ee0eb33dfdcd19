-- ===== src/Import/Written.antt =====
-- The tokens of `import`, as they are written, and what they ask for.
use winrt_rs.Base.{
  ℕ, ◌≡◌, refl, Bool, true, false, List, [], ◌∷◌, ◌++◌, map, inl, inr, Result-cases, Result, ok,
  ◌>>=◌,
}
use winrt_rs.Text.{Text, ascii}
use winrt_rs.Limits.{set_insert}
use winrt_rs.Import.{
  TokenTree, ImportCategory, Found, category_of, trim_quotes, set_append,
  namespace_literal_to_rough_namespace, take_literal, parse_tokens, parse_import_stream,
}

-- A part of the macro's argument: whether it asks for modules or for dependencies, whether a colon is
-- behind the word, and the literals.
pub record Part : Type 0 where
  pub modules : Bool
  pub colon : Bool
  pub literals : List Text

abbrev pub word : Bool → Text
word true = ascii "modules"
word false = ascii "dependencies"

abbrev pub colon_tokens : Bool → List TokenTree
colon_tokens true = TokenTree.punct 0x3A ∷ []
colon_tokens false = []

unfoldable pub written : List Part → List TokenTree
written [] = []
written (part ∷ rest) =
    TokenTree.ident (word part.modules)
    ∷ (colon_tokens part.colon ++ (map TokenTree.literal part.literals ++ written rest))

module _ (to_lowercase : ℕ → List ℕ) (to_dependencies : Text → Result (List Text)) where
  -- What the literals of one part add: the names of the modules, or the paths of the dependencies.
  unfoldable pub asks : (modules : Bool) → List Text → Found → Result Found
  asks modules [] found = ok found
  asks true (text ∷ rest) (dependencies, names) = asks true rest (
    dependencies,
    set_insert (namespace_literal_to_rough_namespace to_lowercase to_dependencies text) names,
  )
  asks false (text ∷ rest) (dependencies, names) = do
    paths ← to_dependencies (trim_quotes text)
    asks false rest (set_append paths dependencies, names)

  unfoldable pub all_asks : List Part → Found → Result Found
  all_asks [] found = ok found
  all_asks (part ∷ rest) found = asks part.modules part.literals found >>= all_asks rest

  abbrev category : Bool → ImportCategory
  category true = ImportCategory.namespace
  category false = ImportCategory.dependency

  literals-asks :
      (k : Found → Result Found) (rest : List TokenTree) (modules : Bool)
      → ((b : Bool) (found : Found)
          → parse_tokens to_lowercase to_dependencies (category modules) b rest found ≡ k found)
      → (literals : List Text) (b : Bool) (found : Found)
      → parse_tokens to_lowercase to_dependencies
          (category modules)
          b
          (map TokenTree.literal literals ++ rest)
          found
        ≡ (asks modules literals found >>= k)
  unfolding parse_tokens asks take_literal
  literals-asks k rest true parsed [] b found = parsed b found
  literals-asks k rest false parsed [] b found = parsed b found
  literals-asks k rest true parsed (text ∷ literals) b (dependencies, names) =
      literals-asks k rest true parsed literals false (
        dependencies,
        set_insert (namespace_literal_to_rough_namespace to_lowercase to_dependencies text) names,
      )
  literals-asks k rest false parsed (text ∷ literals) b (dependencies, names) =
      elim (Result-cases (to_dependencies (trim_quotes text))) [
        | inr (e, fails) ↦ rw fails refl
        | inl (paths, there) ↦ rw there (
            literals-asks k rest false parsed literals false (set_append paths dependencies, names))
      ]

  parts-asks :
      (parts : List Part) (before : ImportCategory) (b : Bool) (found : Found)
      → parse_tokens to_lowercase to_dependencies before b (written parts) found
        ≡ all_asks parts found
  unfolding parse_tokens written all_asks category_of
  parts-asks [] before b found = refl
  parts-asks (part ∷ rest) before b found = one part.modules part.colon (parts-asks rest)
    where
      one :
          (modules colon : Bool)
          → ((c : ImportCategory) (b : Bool) (f : Found)
              → parse_tokens to_lowercase to_dependencies c b (written rest) f ≡ all_asks rest f)
          → parse_tokens to_lowercase to_dependencies before b
              (TokenTree.ident (word modules)
                ∷ (colon_tokens colon ++ (map TokenTree.literal part.literals ++ written rest)))
              found
            ≡ (asks modules part.literals found >>= all_asks rest)
      one true true later =
          literals-asks (all_asks rest) (written rest) true (later (category true)) part.literals
            false found
      one true false later =
          literals-asks (all_asks rest) (written rest) true (later (category true)) part.literals
            true found
      one false true later =
          literals-asks (all_asks rest) (written rest) false (later (category false)) part.literals
            false found
      one false false later =
          literals-asks (all_asks rest) (written rest) false (later (category false)) part.literals
            true found

  -- On the tokens of some parts, each a word, perhaps a colon, and literals, `parse_import_stream` finds
  -- what the parts ask for one after the other, or panics where a dependency is not found.
  pub parse_import_stream-written :
      (parts : List Part)
      → parse_import_stream to_lowercase to_dependencies (written parts) ≡ all_asks parts ([], [])
  unfolding parse_import_stream
  parse_import_stream-written parts = parts-asks parts ImportCategory.none false ([], [])
