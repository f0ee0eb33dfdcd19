-- ===== src/Tree/Paths.antt =====
-- Where `TypeTree::insert` puts a type.
use winrt_rs.Base.{
  ℕ, zero, suc, ◌+◌, ◌<◌, ◌≡◌, refl, sym, ap, none, some, List, [], ◌∷◌, ◌++◌, map, arith, ◌==◌,
  inl, inr, Bool-cases, Option-cases, length, bytes_eq, bytes_eq→eq, Result, Returns, Returns-ok,
  append_assoc,
}
use winrt_rs.Text.{Text, text_lt, split, split_first}
use winrt_rs.Tree.{
  TypeTree, TypeNamespaces, tree, no_entries, entry, default, or_default, push, insert_within,
  tree_insert,
}

-- The types of a tree, each with the names that lead to it.
unfoldable mutual
  pub placed : {A : Type 0} → List Text → TypeTree A → List (List Text × A)
  placed path (tree types namespaces) = map (λ t. (path, t)) types ++ placed_in path namespaces

  pub placed_in : {A : Type 0} → List Text → TypeNamespaces A → List (List Text × A)
  placed_in path no_entries = []
  placed_in path (entry key sub rest) = placed (path ++ (key ∷ [])) sub ++ placed_in path rest

-- The second list is the first one with one element more.
abbrev pub Adds : {A : Type 0} → A → List A → List A → Type 0
Adds {A} x xs ys =
    (front : List A) × (back : List A) × (xs ≡ front ++ back) × (ys ≡ front ++ (x ∷ back))

Adds-front : {A : Type 0} (x : A) (zs xs ys : List A) → Adds x xs ys → Adds x (zs ++ xs) (zs ++ ys)
Adds-front x zs xs ys (front, back, e, e') = (
  zs ++ front,
  back,
  rw (e, append_assoc zs front back) refl,
  rw (e', append_assoc zs front (x ∷ back)) refl,
)

Adds-back : {A : Type 0} (x : A) (zs xs ys : List A) → Adds x xs ys → Adds x (xs ++ zs) (ys ++ zs)
Adds-back x zs xs ys (front, back, e, e') = (
  front,
  back ++ zs,
  rw (e, append_assoc front back zs) refl,
  rw (e', append_assoc front (x ∷ back) zs) refl,
)

or_default-Adds :
    {A : Type 0} (x : List Text × A) (path : List Text) (key : Text)
    (update : TypeTree A → Result (TypeTree A)) (namespaces : TypeNamespaces A)
    → ((old : TypeTree A)
        → Returns
            (update old)
            (λ made. Adds x (placed (path ++ (key ∷ [])) old) (placed (path ++ (key ∷ [])) made)))
    → Returns
        (or_default key update namespaces)
        (λ after. Adds x (placed_in path namespaces) (placed_in path after))
unfolding or_default placed
or_default-Adds x path key update no_entries adds =
    let (made, run, more) = Returns-ok (update default) (adds default) in
    rw (Returns, run) (Adds-back x [] _ _ more)
or_default-Adds x path key update (entry k old rest) adds = elim (Bool-cases (bytes_eq k key)) [
  | inl same ↦
      let e = bytes_eq→eq k key same in
      let (made, run, more) = Returns-ok (update old) (adds old) in
      rw (Returns, same, run, e) (Adds-back x (placed_in path rest) _ _ more)
  | inr apart ↦ elim (Bool-cases (text_lt key k)) [
    | inl before ↦
        let (made, run, more) = Returns-ok (update default) (adds default) in
        rw (Returns, apart, before, run) (Adds-back x (placed_in path (entry k old rest)) _ _ more)
    | inr behind ↦
        let (after, run, more) =
          Returns-ok (or_default key update rest) (or_default-Adds x path key update rest adds) in
        rw (Returns, apart, behind, run) (Adds-front x (placed (path ++ (k ∷ [])) old) _ _ more)
  ]
]

split-some :
    (text first rest : Text)
    → split_first 0x2E text ≡ some (first, rest)
    → (split 0x2E text ≡ first ∷ split 0x2E rest) × (length rest < length text)
unfolding split split_first
split-some [] first rest h = absurd (cc)
split-some (c ∷ text) first rest h = elim (Bool-cases (c == 0x2E)) [
  | inl dot ↦ ground (arith, dot, h)
  | inr other ↦ elim (Option-cases (split_first 0x2E text)) [
    | inl e ↦ ground (arith, other, e, h)
    | inr ((front, back), e) ↦
        let later = split-some text front back e in ground (arith, other, e, h, later.0, later.1)
  ]
]

split-none : (text : Text) → split_first 0x2E text ≡ none → split 0x2E text ≡ text ∷ []
unfolding split split_first
split-none [] h = refl
split-none (c ∷ text) h = elim (Bool-cases (c == 0x2E)) [
  | inl dot ↦ ground (arith, dot, h)
  | inr other ↦ elim (Option-cases (split_first 0x2E text)) [
    | inl e ↦ let later = split-none text e in ground (arith, other, e, h, later)
    | inr (p, e) ↦ ground (arith, other, e, h)
  ]
]

map-push :
    {A B : Type 0} (f : A → B) (xs : List A) (x : A)
    → map f (xs ++ (x ∷ [])) ≡ map f xs ++ (f x ∷ [])
map-push f [] x = refl
map-push f (y ∷ ys) x = ap (λ zs. f y ∷ zs) (map-push f ys x)

push-Adds :
    {A : Type 0} (t : A) (path : List Text) (old : TypeTree A)
    → Returns (push t old) (λ made. Adds (path, t) (placed path old) (placed path made))
unfolding push placed
push-Adds {A} t path (tree types namespaces) =
    let at : A → List Text × A = λ u. (path, u) in
    let front = map at types in
    (
      front,
      placed_in path namespaces,
      refl,
      rw (map-push at types t) (append_assoc front ((path, t) ∷ []) (placed_in path namespaces)),
    )

insert_within-Adds :
    {A : Type 0} (fuel : ℕ) (namespace : Text) (t : A) (path : List Text) (into : TypeTree A)
    → length namespace < fuel
    → Returns
        (insert_within fuel namespace t into)
        (λ made. Adds (path ++ split 0x2E namespace, t) (placed path into) (placed path made))
unfolding insert_within placed
insert_within-Adds zero namespace t path into enough = absurd (omega arith)
insert_within-Adds {A} (suc fuel) namespace t path (tree types namespaces) enough =
    let here : List (List Text × A) = map (λ u. (path, u)) types in
    elim (Option-cases (split_first 0x2E namespace)) [
      | inl e ↦
          let (after, run, more) = Returns-ok (or_default namespace (push t) namespaces) (
            or_default-Adds (path ++ (namespace ∷ []), t) path namespace (push t) namespaces
              (push-Adds t (path ++ (namespace ∷ [])))) in
          rw (Returns, e, run, split-none namespace e)
            (Adds-front (path ++ (namespace ∷ []), t) here _ _ more)
      | inr ((first, rest), e) ↦
          let (parts, shorter) = split-some namespace first rest e in
          let under = path ++ (first ∷ []) in
          let x : List Text × A = (under ++ split 0x2E rest, t) in
          let (after, run, more) =
            Returns-ok (or_default first (insert_within fuel rest t) namespaces) (
              or_default-Adds x path first (insert_within fuel rest t) namespaces
                (λ old. insert_within-Adds fuel rest t under old (omega arith))) in
          rw (Returns, e, run, parts, sym (append_assoc path (first ∷ []) (split 0x2E rest)))
            (Adds-front x here _ _ more)
    ]

-- `TypeTree::insert` returns for every namespace. The types of the tree it leaves, each with the names
-- that lead to it, are those of the tree before, in their order, with one more among them: the type
-- that was inserted, under the names between the dots of the namespace.
pub tree_insert-Adds :
    {A : Type 0} (namespace : Text) (t : A) (into : TypeTree A)
    → Returns
        (tree_insert namespace t into)
        (λ made. Adds (split 0x2E namespace, t) (placed [] into) (placed [] made))
unfolding tree_insert
tree_insert-Adds namespace t into =
    insert_within-Adds (length namespace + 1) namespace t [] into (omega arith)
