-- ===== src/Types/Required/Complete.antt =====
-- What it means that a map has the interfaces of a tree, with all that they require.
use winrt_rs.Base.{ℕ, ◌≡◌, ◌⊎◌, inl, inr, some}
use winrt_rs.Base.Maps.{lookup}
use winrt_rs.Reader.{TypeReader}
use winrt_rs.Types.{TypeName}
use winrt_rs.Types.Order.Lawful.{name_order}
use winrt_rs.Types.Required.{InterfaceKind, RequiredInterfaces}
use winrt_rs.Types.Required.Hierarchy.{Below, nothing, interface, Occurs, Requires}

-- The map has the name, and has it as the default interface if `k` says so.
abbrev pub Holds : RequiredInterfaces → TypeName → InterfaceKind → Type 0
Holds map n k =
    (found : InterfaceKind) × (lookup name_order n map ≡ some found)
    × (k ≡ InterfaceKind.default → found ≡ InterfaceKind.default)

abbrev pub Keeps : RequiredInterfaces → RequiredInterfaces → Type 0
Keeps map map' =
    (n : TypeName) (k : InterfaceKind) → lookup name_order n map ≡ some k → Holds map' n k

abbrev pub HoldsAll : RequiredInterfaces → Below → Type 0
HoldsAll map b = (n : TypeName) (k : InterfaceKind) → Occurs n k b → Holds map n k

pub Holds-Keeps :
    (map map' : RequiredInterfaces) (n : TypeName) (k : InterfaceKind)
    → Keeps map map'
    → Holds map n k
    → Holds map' n k
Holds-Keeps map map' n k keeps (found, there, default) =
    let (found', there', default') = keeps n found there in
    (found', there', λ e. default' (default e))

pub HoldsAll-Keeps :
    (map map' : RequiredInterfaces) (b : Below) → Keeps map map' → HoldsAll map b → HoldsAll map' b
HoldsAll-Keeps map map' b keeps all n k o = Holds-Keeps map map' n k keeps (all n k o)

module _ (reader : TypeReader) (nesting : ℕ) where
  -- With an interface, the map has all that this one requires.
  abbrev pub Complete : RequiredInterfaces → Type 0
  Complete map =
      (n : TypeName) (k : InterfaceKind) (b : Below)
      → lookup name_order n map ≡ some k
      → Requires reader nesting n b
      → HoldsAll map b

  -- The second map is the first one with the interfaces of the tree, and no others.
  pub record Inserted (b : Below) (map map' : RequiredInterfaces) : Type 0 where
    pub kept : Keeps map map'
    pub all : HoldsAll map' b
    pub sound :
        (n : TypeName) (k : InterfaceKind)
        → lookup name_order n map' ≡ some k
        → (lookup name_order n map ≡ some k) ⊎ Occurs n k b
    pub complete : Complete map'

  pub Inserted-nothing : (map : RequiredInterfaces) → Complete map → Inserted nothing map map
  Inserted-nothing map complete = record {
    kept = λ n k p. (k, p, λ e. e);
    all = λ n k o. absurd o;
    sound = λ n k p. inl p;
    complete = complete;
  }

  -- One interface, and then the others.
  pub Inserted-others :
      (name : TypeName) (k : InterfaceKind) (c others : Below) (map map1 map2 : RequiredInterfaces)
      → Inserted (interface name k c nothing) map map1
      → Inserted others map1 map2
      → Inserted (interface name k c others) map map2
  Inserted-others name k c others map map1 map2 i j = record {
    kept = λ n l p. Holds-Keeps map1 map2 n l j.kept (i.kept n l p);
    all = λ n l o. elim o [
      | inl first ↦ Holds-Keeps map1 map2 n l j.kept (i.all n l (inl first))
      | inr (inl below) ↦ Holds-Keeps map1 map2 n l j.kept (i.all n l (inr (inl below)))
      | inr (inr later) ↦ j.all n l later
    ];
    sound = λ n l p. elim (j.sound n l p) [
      | inr later ↦ inr (inr (inr later))
      | inl before ↦ elim (i.sound n l before) [
        | inl first ↦ inl first
        | inr (inl this) ↦ inr (inl this)
        | inr (inr (inl below)) ↦ inr (inr (inl below))
        | inr (inr (inr never)) ↦ absurd never
      ]
    ];
    complete = j.complete;
  }
