-- ===== src/Types/Required/Hierarchy.antt =====
-- The interfaces that a type requires, as the tree that the metadata tells of.
use winrt_rs.Base.{ℕ, ◌+◌, ◌≤◌, ◌<◌, ◌≡◌, refl, ap, ◌⊎◌, inl, inr, List, [], ◌∷◌, arith, ok}
use winrt_rs.Row.{InterfaceImpl}
use winrt_rs.Reader.{TypeReader}
use winrt_rs.Tables.{type_def_interfaces}
use winrt_rs.Types.{TypeName, def_of}
use winrt_rs.Types.Required.{InterfaceKind, kind_of, interface_name}

-- The interfaces of a type in their order, each with its kind and the interfaces that it requires itself.
pub data Below : Type 0 where
  nothing : Below
  interface : (name : TypeName) → InterfaceKind → (required : Below) → (others : Below) → Below

-- The depth of the tree, with one for the type itself.
abbrev pub size : Below → ℕ
size nothing = 1
size (interface name k required others) = size required + size others

pub size_positive : (b : Below) → 1 ≤ size b
size_positive nothing = omega arith
size_positive (interface name k required others) = omega (arith, size_positive others)

-- The name stands in the tree, with the kind.
abbrev pub Occurs : TypeName → InterfaceKind → Below → Type 0
Occurs n k nothing = ⊥
Occurs n k (interface name kind required others) =
    ((n ≡ name) × (k ≡ kind)) ⊎ (Occurs n k required ⊎ Occurs n k others)

module _ (reader : TypeReader) (nesting : ℕ) where
  -- The rows of a type are read as the tree.
  abbrev pub Reads : TypeName → List InterfaceImpl → Below → Type 0
  Reads n [] nothing = Unit {0}
  Reads n [] (interface name k required others) = ⊥
  Reads n (row ∷ rows) nothing = ⊥
  Reads n (row ∷ rows) (interface name k required others) =
      (interface_name reader nesting n row ≡ ok name)
      × (kind_of reader row ≡ ok k)
      × ((below : List InterfaceImpl) × (type_def_interfaces reader (def_of name) ≡ ok below)
          × Reads name below required)
      × Reads n rows others

  abbrev pub Requires : TypeName → Below → Type 0
  Requires n required =
      (rows : List InterfaceImpl) × (type_def_interfaces reader (def_of n) ≡ ok rows)
      × Reads n rows required

  -- A type has one tree only.
  Reads-same :
      (n : TypeName) (rows : List InterfaceImpl) (b c : Below)
      → Reads n rows b
      → Reads n rows c
      → b ≡ c
  Reads-same n [] nothing nothing p q = refl
  Reads-same n [] nothing (interface name k required others) p q = absurd q
  Reads-same n [] (interface name k required others) c p q = absurd p
  Reads-same n (row ∷ rows) nothing c p q = absurd p
  Reads-same n (row ∷ rows) (interface name k required others) nothing p q = absurd q
  Reads-same n (row ∷ rows) (interface name k required others)
        (interface name' k' required' others') (named, of_kind, (below, found, first), rest)
        (named', of_kind', (below', found', first'), rest') =
      let e : name ≡ name' = cc in
      let f : k ≡ k' = cc in
      let same_rows : below ≡ below' = cc in
      let g = Reads-same name below required required' first (rw (e, same_rows) first') in
      let h = Reads-same n rows others others' rest rest' in cc

  Occurs-Requires :
      (m n : TypeName) (k : InterfaceKind) (rows : List InterfaceImpl) (b : Below)
      → Reads m rows b
      → Occurs n k b
      → (c : Below) × Requires n c × (size c < size b)
  Occurs-Requires m n k rows nothing r o = absurd o
  Occurs-Requires m n k [] (interface name kind required others) r o = absurd r
  Occurs-Requires m n k (row ∷ rows) (interface name kind required others)
        (named, of_kind, below, rest) (inl (e, _)) =
      (required, rw e below, omega (arith, size_positive others))
  Occurs-Requires m n k (row ∷ rows) (interface name kind required others)
        (named, of_kind, (below, found, first), rest) (inr (inl o)) =
      let (c, requires, smaller) = Occurs-Requires name n k below required first o in
      (c, requires, omega (arith, smaller))
  Occurs-Requires m n k (row ∷ rows) (interface name kind required others)
        (named, of_kind, below, rest) (inr (inr o)) =
      let (c, requires, smaller) = Occurs-Requires m n k rows others rest o in
      (c, requires, omega (arith, smaller))

  pub Requires-same : (n : TypeName) (b c : Below) → Requires n b → Requires n c → b ≡ c
  Requires-same n b c (rows, found, r) (rows', found', r') =
      let same : rows ≡ rows' = cc in Reads-same n rows b c r (rw same r')

  -- No type stands below itself.
  pub Requires-apart :
      (n : TypeName) (k : InterfaceKind) (b : Below) → Requires n b → ¬ (Occurs n k b)
  Requires-apart n k b (rows, found, r) = λ o.
      let (c, requires, smaller) = Occurs-Requires n n k rows b r o in
      let same = Requires-same n b c (rows, found, r) requires in
      let sizes : size b ≡ size c = ap size same in omega arith
