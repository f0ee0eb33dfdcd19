-- ===== src/Case/Words.antt =====
-- The words of a name, which `to_snake` puts underscores between.
use winrt_rs.Base.{
  ℕ, ◌≡◌, refl, sym, ap, ◌∙◌, ◌≢◌, ◌⊎◌, inl, inr, Bool, true, false, ◌&&◌, ◌||◌, List, [], ◌∷◌,
  ◌++◌, ltb, length, append_assoc, append_nil,
}
use winrt_rs.Case.{underscore}

unfoldable pub flat : List (List ℕ) → List ℕ
flat [] = []
flat (w ∷ ws) = w ++ flat ws

-- A text that ends with a character is another one with a part that starts with a character.
snoc_split :
    (word a b : List ℕ) (x c : ℕ)
    → word ++ (x ∷ []) ≡ a ++ (c ∷ b)
    → ((b ≡ []) × (a ≡ word) × (c ≡ x))
      ⊎ ((b' : List ℕ) × (word ≡ a ++ (c ∷ b')) × (b ≡ b' ++ (x ∷ [])))
snoc_split [] [] b x c e = inl (cc, refl, cc)
snoc_split [] (y ∷ []) b x c e = absurd cc
snoc_split [] (y ∷ z ∷ a) b x c e = absurd cc
snoc_split (w ∷ word) [] b x c e = let tail : word ++ (x ∷ []) ≡ b = cc in inr (word, cc, sym tail)
snoc_split (w ∷ word) (y ∷ a) b x c e =
    let tail : word ++ (x ∷ []) ≡ a ++ (c ∷ b) = cc in
    let head : w ≡ y = cc in
    elim (snoc_split word a b x c tail) [
      | inl (p, q, r) ↦ inl (p, ap (λ l. y ∷ l) q ∙ ap (λ h. h ∷ word) (sym head), r)
      | inr (b', p, q) ↦ inr (b', ap (λ h. h ∷ word) head ∙ ap (λ l. y ∷ l) p, q)
    ]

module _ (is_uppercase is_lowercase : ℕ → Bool) (to_lowercase : ℕ → List ℕ) where
  -- A word in lower case, character by character.
  unfoldable pub lower : List ℕ → List ℕ
  lower [] = []
  lower (c ∷ cs) = to_lowercase c ++ lower cs

  -- Words, each behind an underscore.
  unfoldable pub behind : List (List ℕ) → List ℕ
  behind [] = []
  behind (w ∷ ws) = underscore ∷ (lower w ++ behind ws)

  unfoldable pub ends_lower : List ℕ → Bool
  ends_lower [] = false
  ends_lower (c ∷ []) = is_lowercase c
  ends_lower (c ∷ d ∷ ds) = ends_lower (d ∷ ds)

  -- Whether a new word starts at a character that stands between a word and another character: at an
  -- upper-case character behind a lower-case one, or in front of a lower-case one if the word in front
  -- is longer than one character.
  unfoldable pub starts : (word : List ℕ) (current next : ℕ) → Bool
  starts word current next =
      is_uppercase current
      && (ends_lower word || (is_lowercase next && ltb 1 (length (lower word))))

  -- No word starts within a word, whatever part of it one takes for the word in front.
  abbrev pub Whole : (word later : List ℕ) → Type 0
  Whole word later =
      (front back : List ℕ) (current next : ℕ) (rest : List ℕ)
      → front ≢ []
      → word ≡ front ++ (current ∷ back)
      → back ++ later ≡ next ∷ rest
      → starts front current next ≡ false

  -- A word starts behind the word.
  abbrev pub Stops : (word later : List ℕ) → Type 0
  Stops word later =
      (current : ℕ) × (next : ℕ) × (rest : List ℕ) × (later ≡ current ∷ next ∷ rest)
      × (starts word current next ≡ true)

  -- The words of a name, the first one and the others.
  abbrev pub Words : List ℕ → List (List ℕ) → Type 0
  Words word [] = Whole word []
  Words word (w ∷ ws) = Whole word (w ++ flat ws) × Stops word (w ++ flat ws) × Words w ws

  -- A character that is not upper case is its own lower case.
  abbrev pub Plain : ℕ → Type 0
  Plain c = is_uppercase c ≡ false → to_lowercase c ≡ c ∷ []

  lower-append : (xs ys : List ℕ) → lower (xs ++ ys) ≡ lower xs ++ lower ys
  unfolding lower
  lower-append [] ys = refl
  lower-append (x ∷ xs) ys =
      ap (λ l. to_lowercase x ++ l) (lower-append xs ys)
      ∙ sym (append_assoc (to_lowercase x) (lower xs) (lower ys))

  pub lower-snoc : (xs : List ℕ) (x : ℕ) → lower (xs ++ (x ∷ [])) ≡ lower xs ++ to_lowercase x
  lower-snoc xs x =
      lower-append xs (x ∷ [])
      ∙ ap (λ l. lower xs ++ l) (unfold lower in append_nil (to_lowercase x))

  pub ends_lower-snoc : (xs : List ℕ) (x : ℕ) → ends_lower (xs ++ (x ∷ [])) ≡ is_lowercase x
  unfolding ends_lower
  ends_lower-snoc [] x = refl
  ends_lower-snoc (c ∷ []) x = refl
  ends_lower-snoc (c ∷ d ∷ ds) x = ends_lower-snoc (d ∷ ds) x

  -- One more character of a word at which no word starts.
  pub Whole-snoc :
      (word later : List ℕ) (x : ℕ)
      → Whole word (x ∷ later)
      → ((next : ℕ) (rest : List ℕ) → later ≡ next ∷ rest → starts word x next ≡ false)
      → Whole (word ++ (x ∷ [])) later
  Whole-snoc word later x whole here front back current next rest some_front split behind_it =
      elim (snoc_split word front back x current split) [
        | inl (e, e', e'') ↦ rw (e', e'') (here next rest (rw e at behind_it))
        | inr (back', e, e') ↦
            whole front back' current next rest some_front e
              (sym (append_assoc back' (x ∷ []) later) ∙ (rw e' at behind_it))
      ]

  pub Whole-one : (x : ℕ) (later : List ℕ) → Whole (x ∷ []) later
  Whole-one x later [] back current next rest some_front split behind_it = absurd (some_front refl)
  Whole-one x later (y ∷ []) back current next rest some_front split behind_it = absurd cc
  Whole-one x later (y ∷ z ∷ zs) back current next rest some_front split behind_it = absurd cc
