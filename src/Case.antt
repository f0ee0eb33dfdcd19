-- ===== src/Case.antt =====
-- crates/winmd/src/case.rs: `to_snake`. A text is the list of its characters; what the standard
-- library tells of a character is an argument.
pub mod Words
pub mod Pushed
use winrt_rs.Base.{
  ℕ, ◌+◌, Bool, true, false, ◌&&◌, ◌||◌, List, [], ◌∷◌, ◌++◌, ltb, length, Result, ok, panic,
  assertion,
}
use Prim.Native.String.{String}
use winrt_rs.Text.{ascii}

-- crates/winmd/src/types/method.rs: `MethodKind`.
pub data MethodKind : Type 0 where
  normal : MethodKind
  get : MethodKind
  set : MethodKind
  add : MethodKind
  remove : MethodKind

unfoldable pub preamble : MethodKind → List ℕ
preamble MethodKind.set = ascii "set_"
preamble MethodKind.remove = ascii "remove_"
preamble _ = []

abbrev pub underscore : ℕ
underscore = 0x5F

module _ (is_uppercase is_lowercase : ℕ → Bool) (to_lowercase : ℕ → List ℕ) where
  -- Whether an underscore goes before an upper-case character.
  unfoldable pub breaks : (previous next since_last_underscore : ℕ) → Bool
  breaks previous next since_last_underscore =
      is_lowercase previous || (is_lowercase next && ltb 1 since_last_underscore)

  -- What is pushed from the second character on. The list starts with the previous character; the
  -- last one is only made lower case.
  unfoldable pub push_rest : (since_last_underscore : ℕ) → List ℕ → List ℕ
  push_rest since [] = []
  push_rest since (previous ∷ []) = []
  push_rest since (previous ∷ last ∷ []) = to_lowercase last
  push_rest since (previous ∷ current ∷ next ∷ rest) =
      let lower = to_lowercase current in
      elim (is_uppercase current) [
        | false ↦ current ∷ push_rest (since + 1) (current ∷ next ∷ rest)
        | true ↦ elim (breaks previous next since) [
          | true ↦ underscore ∷ (lower ++ push_rest (length lower) (current ∷ next ∷ rest))
          | false ↦ lower ++ push_rest (since + length lower) (current ∷ next ∷ rest)
        ]
      ]

  unfoldable pub to_snake : List ℕ → MethodKind → Result (List ℕ)
  to_snake [] kind = panic assertion
  to_snake (first ∷ rest) kind = ok (
      preamble kind
      ++ (to_lowercase first ++ push_rest (length (to_lowercase first)) (first ∷ rest)))
