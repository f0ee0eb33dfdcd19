-- ===== src/Base/Maps.antt =====
-- `BTreeMap`: the list of the entries, in the order of their keys. The order of the keys is an
-- interface, which the types of keys fill.
use Prim.Native.Nat.{Ordering}
use mathlib.Core.Path.{◌≡◌, refl, sym, ap, ◌∙◌}
use winrt_rs.Base.Tests.{Option-cases}
use mathlib.Core.Logic.{◌⊎◌, inl, inr, ◌≢◌}
use mathlib.Core.Bool.{Bool, true, false}
use mathlib.Core.Option.{Option, none, some}
use mathlib.Core.List.{List, [], ◌∷◌}

-- A derived `Ord`: keys are equal in the order exactly if they are equal.
pub record Ord (K : Type 0) : Type 0 where
  pub compare : K → K → Ordering
  pub same : (k k' : K) → compare k k' ≡ Ordering.eq → k ≡ k'
  pub itself : (k : K) → compare k k ≡ Ordering.eq

-- Keys are equal or not.
pub keys-cases : {K : Type 0} (ord : Ord K) (k k' : K) → (k ≡ k') ⊎ (k ≢ k')
keys-cases ord k k' = pick (ord.compare k k') refl
  where
    pick : (o : Ordering) → ord.compare k k' ≡ o → (k ≡ k') ⊎ (k ≢ k')
    pick Ordering.eq e = inl (ord.same k k' e)
    pick Ordering.lt e = inr (λ p. let q = ord.itself k in cc)
    pick Ordering.gt e = inr (λ p. let q = ord.itself k in cc)

module _ {K V : Type 0} (ord : Ord K) where
  unfoldable pub lookup : K → List (K × V) → Option V
  lookup key [] = none
  lookup key ((k, v) ∷ rest) =
      let later = lookup key rest in elim (ord.compare key k) [ Ordering.eq ↦ some v | _ ↦ later ]

  unfoldable pub contains_key : K → List (K × V) → Bool
  contains_key key entries = elim (lookup key entries) [ some v ↦ true | none ↦ false ]

  unfoldable pub insert : K → V → List (K × V) → List (K × V)
  insert key value [] = (key, value) ∷ []
  insert key value ((k, v) ∷ rest) =
      let later = insert key value rest in
      elim (ord.compare key k) [
        | Ordering.lt ↦ (key, value) ∷ (k, v) ∷ rest
        | Ordering.eq ↦ (k, value) ∷ rest
        | Ordering.gt ↦ (k, v) ∷ later
      ]

  pub lookup_cons_ne :
      (other key : K) (value : V) (rest : List (K × V))
      → other ≢ key
      → lookup other ((key, value) ∷ rest) ≡ lookup other rest
  unfolding lookup
  lookup_cons_ne other key value rest ne = skip (ord.compare other key) refl
    where
      skip :
          (o : Ordering)
          → ord.compare other key ≡ o
          → (elim o [ Ordering.eq ↦ some value | _ ↦ lookup other rest ]) ≡ lookup other rest
      skip Ordering.lt e = refl
      skip Ordering.eq e = absurd (ne (ord.same other key e))
      skip Ordering.gt e = refl

  pub lookup_cons_self :
      (key : K) (value : V) (rest : List (K × V)) → lookup key ((key, value) ∷ rest) ≡ some value
  unfolding lookup
  lookup_cons_self key value rest = rw (lookup, ord.itself key) refl

  pub lookup-insert_self :
      (key : K) (value : V) (entries : List (K × V))
      → lookup key (insert key value entries) ≡ some value
  unfolding insert lookup
  lookup-insert_self key value [] = lookup_cons_self key value []
  lookup-insert_self key value ((k, v) ∷ rest) =
      step (ord.compare key k) refl (lookup-insert_self key value rest)
    where
      step :
          (o : Ordering)
          → ord.compare key k ≡ o
          → lookup key (insert key value rest) ≡ some value
          → lookup key (elim o [
            | Ordering.lt ↦ (key, value) ∷ (k, v) ∷ rest
            | Ordering.eq ↦ (k, value) ∷ rest
            | Ordering.gt ↦ (k, v) ∷ insert key value rest
          ])
            ≡ some value
      step Ordering.lt e later = lookup_cons_self key value ((k, v) ∷ rest)
      step Ordering.eq e later = rw (ord.same key k e) (lookup_cons_self k value rest)
      step Ordering.gt e later = rw (lookup, e) later

  pub lookup-insert_ne :
      (key other : K) (value : V) (entries : List (K × V))
      → other ≢ key
      → lookup other (insert key value entries) ≡ lookup other entries
  unfolding insert lookup
  lookup-insert_ne key other value [] ne = lookup_cons_ne other key value [] ne
  lookup-insert_ne key other value ((k, v) ∷ rest) ne =
      step (ord.compare key k) refl (lookup-insert_ne key other value rest ne)
    where
      step :
          (o : Ordering)
          → ord.compare key k ≡ o
          → lookup other (insert key value rest) ≡ lookup other rest
          → lookup other (elim o [
            | Ordering.lt ↦ (key, value) ∷ (k, v) ∷ rest
            | Ordering.eq ↦ (k, value) ∷ rest
            | Ordering.gt ↦ (k, v) ∷ insert key value rest
          ])
            ≡ lookup other ((k, v) ∷ rest)
      step Ordering.lt e later = lookup_cons_ne other key value ((k, v) ∷ rest) ne
      step Ordering.eq e later =
          let apart : other ≢ k = rw (ord.same key k e) at ne in
          lookup_cons_ne other k value rest apart ∙ sym (lookup_cons_ne other k v rest apart)
      step Ordering.gt e later =
          ap (λ l. elim (ord.compare other k) [ Ordering.eq ↦ some v | _ ↦ l ]) later

  pub contains_key-cases :
      (key : K) (entries : List (K × V))
      → ((v : V) × (lookup key entries ≡ some v) × (contains_key key entries ≡ true))
        ⊎ ((lookup key entries ≡ none) × (contains_key key entries ≡ false))
  unfolding contains_key
  contains_key-cases key entries = elim (Option-cases (lookup key entries)) [
    | inl none_there ↦ inr (none_there, rw (contains_key, none_there) refl)
    | inr (v, there) ↦ inl (v, there, rw (contains_key, there) refl)
  ]

  -- What is found after an insertion is what was inserted, or was there before.
  pub lookup-insert_inv :
      (key other : K) (value v : V) (entries : List (K × V))
      → lookup other (insert key value entries) ≡ some v
      → ((other ≡ key) × (v ≡ value)) ⊎ ((other ≢ key) × (lookup other entries ≡ some v))
  lookup-insert_inv key other value v entries found = elim (keys-cases ord other key) [
    | inl same ↦
        let here = lookup-insert_self key value entries in
        let there : lookup key (insert key value entries) ≡ some v = rw same at found in
        inl (same, cc)
    | inr apart ↦ inr (apart, sym (lookup-insert_ne key other value entries apart) ∙ found)
  ]
