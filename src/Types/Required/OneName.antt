-- ===== src/Types/Required/OneName.antt =====
-- `insert_type_name`: the three ways in which a name is inserted.
use winrt_rs.Base.{
  ℕ, ◌≡◌, refl, sym, ap, ◌∙◌, ◌≢◌, inl, inr, true, false, Bool-cases, arith, none, some, Result, ok,
}
use winrt_rs.Base.Maps
use winrt_rs.Base.Maps.{
  lookup, contains_key-cases, keys-cases, lookup-insert_self, lookup-insert_ne, lookup-insert_inv,
}
use winrt_rs.Reader.{TypeReader}
use winrt_rs.Types.{TypeName}
use winrt_rs.Types.Order.Lawful.{name_order}
use winrt_rs.Types.Required.{InterfaceKind, RequiredInterfaces, is_default, insert_type_name}
use winrt_rs.Types.Required.Hierarchy.{
  Below, nothing, interface, Requires, Requires-same, Requires-apart,
}
use winrt_rs.Types.Required.Complete.{Keeps, Holds-Keeps, HoldsAll-Keeps, Complete, Inserted}

module _ (reader : TypeReader) (nesting : ℕ) where
  is_default-eq : (k : InterfaceKind) → is_default k ≡ true → k ≡ InterfaceKind.default
  is_default-eq k h = ground arith

  is_default-ne : (k : InterfaceKind) → is_default k ≡ false → k ≢ InterfaceKind.default
  is_default-ne k h = ground arith

  -- What stands under a key after an insertion under another or the same one.
  Keeps-insert :
      (name : TypeName) (k : InterfaceKind) (map : RequiredInterfaces)
      → ((l : InterfaceKind)
          → lookup name_order name map ≡ some l
          → l ≡ InterfaceKind.default
          → k ≡ InterfaceKind.default)
      → Keeps map (Maps.insert name_order name k map)
  Keeps-insert name k map stronger n l there = elim (keys-cases name_order n name) [
    | inl same ↦
        let before : lookup name_order name map ≡ some l = rw same at there in
        (
          k,
          ap (λ x. lookup name_order x (Maps.insert name_order name k map)) same
              ∙ lookup-insert_self name_order name k map,
          stronger l before,
        )
    | inr apart ↦ (l, lookup-insert_ne name_order name n k map apart ∙ there, λ e. e)
  ]

  module _ (name : TypeName) (k : InterfaceKind) (c : Below)
      (requires : Requires reader nesting name c) where
    -- A name that is there already is inserted once more as the default interface.
    Inserted-again :
        (l : InterfaceKind) (map : RequiredInterfaces)
        → Complete reader nesting map
        → lookup name_order name map ≡ some l
        → k ≡ InterfaceKind.default
        → Inserted reader nesting
            (interface name k c nothing)
            map
            (Maps.insert name_order name k map)
    Inserted-again l map complete there default =
        let map' = Maps.insert name_order name k map in
        let keeps = Keeps-insert name k map (λ l' _ _. default) in
        let own = lookup-insert_self name_order name k map in
        record {
          kept = keeps;
          all = λ n j o. elim o [
            | inl (e, f) ↦ (k, ap (λ x. lookup name_order x map') e ∙ own, λ _. default)
            | inr (inl below) ↦
                Holds-Keeps map map' n j keeps (complete name l c there requires n j below)
            | inr (inr never) ↦ absurd never
          ];
          sound = λ n j p. elim (lookup-insert_inv name_order name n k j map p) [
            | inl (e, f) ↦ inr (inl (e, f))
            | inr (_, before) ↦ inl before
          ];
          complete = λ n j b p r. elim (lookup-insert_inv name_order name n k j map p) [
            | inl (e, _) ↦
                HoldsAll-Keeps map map' b keeps
                  (complete n l b (ap (λ x. lookup name_order x map) e ∙ there) r)
            | inr (_, before) ↦ HoldsAll-Keeps map map' b keeps (complete n j b before r)
          ];
        }

    -- A name that is there already, and is no default interface.
    Inserted-there :
        (l : InterfaceKind) (map : RequiredInterfaces)
        → Complete reader nesting map
        → lookup name_order name map ≡ some l
        → k ≢ InterfaceKind.default
        → Inserted reader nesting (interface name k c nothing) map map
    Inserted-there l map complete there other = record {
      kept = λ n j p. (j, p, λ e. e);
      all = λ n j o. elim o [
        | inl (e, f) ↦ (
          l,
          ap (λ x. lookup name_order x map) e ∙ there,
          λ default. absurd (other (sym f ∙ default)),
        )
        | inr (inl below) ↦ complete name l c there requires n j below
        | inr (inr never) ↦ absurd never
      ];
      sound = λ n j p. inl p;
      complete = complete;
    }

    -- A name that is new is inserted after all that it requires.
    Inserted-new :
        (map map1 : RequiredInterfaces)
        → lookup name_order name map ≡ none
        → Inserted reader nesting c map map1
        → Inserted reader nesting
            (interface name k c nothing)
            map
            (Maps.insert name_order name k map1)
    Inserted-new map map1 gone i =
        let map' = Maps.insert name_order name k map1 in
        let still : (l : InterfaceKind) → lookup name_order name map1 ≢ some l = λ l there.
          elim (i.sound name l there) [
            | inl before ↦ absurd cc
            | inr o ↦ Requires-apart reader nesting name l c requires o
          ] in
        let keeps = Keeps-insert name k map1 (λ l there _. absurd (still l there)) in
        let own = lookup-insert_self name_order name k map1 in
        record {
          kept = λ n j p. Holds-Keeps map1 map' n j keeps (i.kept n j p);
          all = λ n j o. elim o [
            | inl (e, f) ↦
                (k, ap (λ x. lookup name_order x map') e ∙ own, λ default. sym f ∙ default)
            | inr (inl below) ↦ Holds-Keeps map1 map' n j keeps (i.all n j below)
            | inr (inr never) ↦ absurd never
          ];
          sound = λ n j p. elim (lookup-insert_inv name_order name n k j map1 p) [
            | inl (e, f) ↦ inr (inl (e, f))
            | inr (_, before) ↦ elim (i.sound n j before) [
              | inl first ↦ inl first
              | inr below ↦ inr (inr (inl below))
            ]
          ];
          complete = λ n j b p r. elim (lookup-insert_inv name_order name n k j map1 p) [
            | inl (e, _) ↦
                let same = Requires-same reader nesting name b c (rw e at r) requires in
                rw same (HoldsAll-Keeps map1 map' c keeps i.all)
            | inr (_, before) ↦ HoldsAll-Keeps map1 map' b keeps (i.complete n j b before r)
          ];
        }

    -- The call, where `required` inserts what the name requires.
    pub insert_type_name-Inserted :
        (required : TypeName → RequiredInterfaces → Result RequiredInterfaces)
        (map : RequiredInterfaces)
        → Complete reader nesting map
        → ((map1 : RequiredInterfaces) × (required name map ≡ ok map1)
            × Inserted reader nesting c map map1)
        → (map' : RequiredInterfaces) × (insert_type_name reader required name k map ≡ ok map')
          × Inserted reader nesting (interface name k c nothing) map map'
    unfolding insert_type_name
    insert_type_name-Inserted required map complete (map1, run, i) =
        elim (contains_key-cases name_order name map) [
          | inr (gone, out) ↦ (
            Maps.insert name_order name k map1,
            rw (insert_type_name, out, run) refl,
            Inserted-new map map1 gone i,
          )
          | inl (l, there, inside) ↦ elim (Bool-cases (is_default k)) [
            | inl default ↦ (
              Maps.insert name_order name k map,
              rw (insert_type_name, inside, default) refl,
              Inserted-again l map complete there (is_default-eq k default),
            )
            | inr other ↦ (
              map,
              rw (insert_type_name, inside, other) refl,
              Inserted-there l map complete there (is_default-ne k other),
            )
          ]
        ]
