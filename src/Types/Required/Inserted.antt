-- ===== src/Types/Required/Inserted.antt =====
-- `insert_required` finds the interfaces of the tree.
use winrt_rs.Base.{
  ℕ, zero, suc, ◌≤◌, ◌≡◌, refl, inl, inr, List, [], ◌∷◌, arith, some, Result, ok, Returns,
}
use winrt_rs.Base.Maps.{lookup}
use winrt_rs.Row.{InterfaceImpl}
use winrt_rs.Reader.{TypeReader}
use winrt_rs.Types.{TypeName}
use winrt_rs.Types.Order.Lawful.{name_order}
use winrt_rs.Types.Required.{InterfaceKind, RequiredInterfaces, insert_each, insert_required}
use winrt_rs.Types.Required.Hierarchy.{
  Below, nothing, interface, size, size_positive, Occurs, Reads, Requires,
}
use winrt_rs.Types.Required.Complete.{
  HoldsAll, Complete, Inserted, Inserted-nothing, Inserted-others,
}
use winrt_rs.Types.Required.OneName.{insert_type_name-Inserted}

module _ (reader : TypeReader) (nesting : ℕ) where
  insert_each-Inserted :
      (fuel : ℕ) (required : TypeName → RequiredInterfaces → Result RequiredInterfaces)
      → ((n : TypeName) (b : Below) (map : RequiredInterfaces)
          → Requires reader nesting n b
          → size b ≤ fuel
          → Complete reader nesting map
          → (map' : RequiredInterfaces) × (required n map ≡ ok map')
            × Inserted reader nesting b map map')
      → (n : TypeName) (rows : List InterfaceImpl) (b : Below) (map : RequiredInterfaces)
      → Reads reader nesting n rows b
      → size b ≤ suc fuel
      → Complete reader nesting map
      → (map' : RequiredInterfaces) × (insert_each reader nesting required n rows map ≡ ok map')
        × Inserted reader nesting b map map'
  unfolding insert_each
  insert_each-Inserted fuel required inserts n [] nothing map r fits complete =
      (map, refl, Inserted-nothing reader nesting map complete)
  insert_each-Inserted fuel required inserts n [] (interface name k c others) map r fits complete =
      absurd r
  insert_each-Inserted fuel required inserts n (row ∷ rows) nothing map r fits complete = absurd r
  insert_each-Inserted fuel required inserts n (row ∷ rows) (interface name k c others) map
        (named, of_kind, requires, rest) fits complete =
      let first_fits : size c ≤ fuel = omega (arith, size_positive others) in
      let rest_fits : size others ≤ suc fuel = omega (arith, size_positive c) in
      let (map1, run, i) =
        insert_type_name-Inserted reader nesting name k c requires required map complete
          (inserts name c map requires first_fits complete) in
      let (map2, run', j) =
        insert_each-Inserted fuel required inserts n rows others map1 rest rest_fits i.complete in
      (
        map2,
        rw (named, of_kind, run) run',
        Inserted-others reader nesting name k c others map map1 map2 i j,
      )

  insert_required-Inserted :
      (fuel : ℕ) (n : TypeName) (b : Below) (map : RequiredInterfaces)
      → Requires reader nesting n b
      → size b ≤ fuel
      → Complete reader nesting map
      → (map' : RequiredInterfaces) × (insert_required reader nesting fuel n map ≡ ok map')
        × Inserted reader nesting b map map'
  unfolding insert_required
  insert_required-Inserted zero n b map requires fits complete =
      absurd (omega (arith, size_positive b))
  insert_required-Inserted (suc fuel) n b map (rows, found, r) fits complete =
      let (map', run, i) =
        insert_each-Inserted fuel (insert_required reader nesting fuel)
          (insert_required-Inserted fuel) n rows b map r fits complete in
      (map', rw found run, i)

  -- Where the interfaces that a type requires are read as a finite tree, `insert_required` with fuel for
  -- the size of the tree returns, from an empty map, a map that has each interface of the tree, as the
  -- default one if it is so at some place of the tree, and that has no interface with a kind that it
  -- does not have at some place of the tree.
  pub insert_required-Requires :
      (fuel : ℕ) (n : TypeName) (b : Below)
      → Requires reader nesting n b
      → size b ≤ fuel
      → Returns (insert_required reader nesting fuel n []) (λ map.
        HoldsAll map b
        × ((m : TypeName) (k : InterfaceKind) → lookup name_order m map ≡ some k → Occurs m k b))
  unfolding lookup
  insert_required-Requires fuel n b requires fits =
      let (map, run, i) =
        insert_required-Inserted fuel n b [] requires fits (λ m k c there r. absurd cc) in
      rw run (i.all, (λ m k there. elim (i.sound m k there) [ inl before ↦ absurd cc | inr o ↦ o ]))
