-- ===== src/Case/Pushed.antt =====
-- crates/winmd/src/case.rs: the counter of `to_snake` marks where the words of the name start.
use winrt_rs.Base.{ℕ, ◌≡◌, Bool, List, [], ◌∷◌, ◌++◌, length}
use winrt_rs.Case.{push_rest}
use winrt_rs.Case.Words
use winrt_rs.Case.Words.{flat}

module _ (is_uppercase is_lowercase : ℕ → Bool) (to_lowercase : ℕ → List ℕ) where
  abbrev lower : List ℕ → List ℕ
  lower = Words.lower is_uppercase is_lowercase to_lowercase

  abbrev behind : List (List ℕ) → List ℕ
  behind = Words.behind is_uppercase is_lowercase to_lowercase

  abbrev starts : List ℕ → (current next : ℕ) → Bool
  starts = Words.starts is_uppercase is_lowercase to_lowercase

  abbrev Whole : (word later : List ℕ) → Type 0
  Whole = Words.Whole is_uppercase is_lowercase to_lowercase

  abbrev Plain : ℕ → Type 0
  Plain = Words.Plain is_uppercase is_lowercase to_lowercase

  -- What comes of the text behind a word that ends with `previous`.
  record Cased (init : List ℕ) (previous : ℕ) (text : List ℕ) : Type 0 where
    pub first : List ℕ
    pub others : List (List ℕ)
    pub all_of_it : first ++ flat others ≡ (init ++ (previous ∷ [])) ++ text
    pub pushed :
        lower (init ++ (previous ∷ []))
          ++ push_rest is_uppercase is_lowercase to_lowercase
              (length (lower (init ++ (previous ∷ []))))
              (previous ∷ text)
        ≡ lower first ++ behind others
    pub words : Words.Words is_uppercase is_lowercase to_lowercase first others
