-- ===== src/Tree.antt =====
-- crates/winmd/src/type_tree.rs and crates/winmd/src/type_namespaces.rs: the tree of types by their
-- namespaces. The type of a type is an argument.
pub mod Paths
use winrt_rs.Base.{
  ℕ, zero, suc, ◌+◌, none, some, List, [], ◌∷◌, ◌++◌, if◌then◌else◌, length, bytes_eq, stuck,
  Result, ok, panic, ◌>>=◌,
}
use winrt_rs.Text.{Text, text_lt, split_first}

-- The namespaces of a tree are the entries of a `BTreeMap`, in the order of their keys.
mutual
  pub data TypeTree (A : Type 0) : Type 0 where
    tree : (types : List A) → (namespaces : TypeNamespaces A) → TypeTree A

  pub data TypeNamespaces (A : Type 0) : Type 0 where
    no_entries : TypeNamespaces A
    entry : (key : Text) → TypeTree A → TypeNamespaces A → TypeNamespaces A

abbrev pub default : {A : Type 0} → TypeTree A
default = tree [] no_entries

-- `entry(key).or_default()`, and what is then done to the tree under the key.
unfoldable pub or_default :
    {A : Type 0}
    → Text
    → (TypeTree A → Result (TypeTree A))
    → TypeNamespaces A
    → Result (TypeNamespaces A)
or_default key update no_entries = do made ← update default; ok (entry key made no_entries)
or_default key update (entry k old rest) =
    let later = or_default key update rest in
    if bytes_eq k key
    then (update old >>= λ made. ok (entry k made rest))
    else if text_lt key k
    then (update default >>= λ made. ok (entry key made (entry k old rest)))
    else (later >>= λ rest'. ok (entry k old rest'))

-- `types.push(t)`.
unfoldable pub push : {A : Type 0} → A → TypeTree A → Result (TypeTree A)
push t (tree types namespaces) = ok (tree (types ++ (t ∷ [])) namespaces)

unfoldable pub insert_within :
    {A : Type 0} → (fuel : ℕ) → Text → A → TypeTree A → Result (TypeTree A)
insert_within zero namespace t into = panic stuck
insert_within (suc fuel) namespace t (tree types namespaces) = elim (split_first 0x2E namespace) [
  | some (first, rest) ↦ do
    namespaces' ← or_default first (insert_within fuel rest t) namespaces
    ok (tree types namespaces')
  | none ↦ do namespaces' ← or_default namespace (push t) namespaces; ok (tree types namespaces')
]

unfoldable pub tree_insert : {A : Type 0} → Text → A → TypeTree A → Result (TypeTree A)
tree_insert namespace t into = insert_within (length namespace + 1) namespace t into
