-- ===== src/Stage/Closed.antt =====
-- The stage is made of the definitions that are asked for and all that they depend on.
use winrt_rs.Base.{
  ℕ, zero, suc, ◌≤◌, ◌<◌, ◌≡◌, refl, sym, ◌↔◌, inl, inr, some, List, [], ◌∷◌, ◌++◌, arith, All,
  length, Result, ok, ◌>>=◌, >>=-eq-ok, Returns,
}
use winrt_rs.Base.Maps
use winrt_rs.Base.Maps.{lookup, contains_key, contains_key-cases}
use winrt_rs.Row.{TypeDef}
use winrt_rs.Text.{Text}
use winrt_rs.Reader.{TypeReader}
use winrt_rs.Reader.Resolve.{namespace_types}
use winrt_rs.Limits.{TypeLimits}
use winrt_rs.Types.Order.Lawful.{def_order}
use winrt_rs.Types.Definitions.{WinrtType, type_dependencies}
use winrt_rs.Stage.{TypeStage, insert_each, insert, insert_namespaces, from_limits}
use winrt_rs.Stage.Grown.{
  Mem, Has, Reached, root, depends, Grown, Grown-nil, Grown-there, Grown-append, Grown-insert,
  missing, missing-Within, missing-insert,
}

module _ (type_info : TypeDef → Result WinrtType) (all : List TypeDef) where
  -- The definitions have types, which depend on these definitions only.
  abbrev pub Closed : Type 0
  Closed =
      (d : TypeDef)
      → Mem d all
      → (t : WinrtType) × (type_info d ≡ ok t) × All (λ e. Mem e all) (type_dependencies t)

  insert_each-Grown :
      (n : ℕ) (one : TypeDef → TypeStage → Result TypeStage)
      → ((d : TypeDef) (s : TypeStage)
          → Mem d all
          → missing s all < n
          → (s' : TypeStage) × (one d s ≡ ok s') × Grown type_info (d ∷ []) s s')
      → (ds : List TypeDef) (s : TypeStage) → All (λ d. Mem d all) ds
      → missing s all < n
      → (s' : TypeStage) × (insert_each one ds s ≡ ok s') × Grown type_info ds s s'
  unfolding insert_each
  insert_each-Grown n one grows [] s inside fits = (s, refl, Grown-nil type_info s)
  insert_each-Grown n one grows (d ∷ ds) s (m, inside) fits =
      let (s1, first, g) = grows d s m fits in
      let (s2, rest, h) =
        insert_each-Grown n one grows ds s1 inside
          (omega (arith, missing-Within s s1 all g.kept, fits)) in
      (s2, rw first rest, Grown-append type_info (d ∷ []) ds s s1 s2 g h)

  insert-Grown :
      Closed
      → (fuel : ℕ) (d : TypeDef) (s : TypeStage) → Mem d all
      → missing s all < fuel
      → (s' : TypeStage) × (insert type_info fuel d s ≡ ok s') × Grown type_info (d ∷ []) s s'
  unfolding insert
  insert-Grown closed zero d s m fits = absurd (omega arith)
  insert-Grown closed (suc fuel) d s m fits = elim (contains_key-cases def_order d s) [
    | inl (t, there, inside) ↦ (s, rw (insert, inside) refl, Grown-there type_info d s (t, there))
    | inr (gone, out) ↦
        let (t, info, below) = closed d m in
        let s0 = Maps.insert def_order d t s in
        let fewer = missing-insert d t s all gone m in
        let (s', run, g) =
          insert_each-Grown fuel (insert type_info fuel) (insert-Grown closed fuel)
            (type_dependencies t) s0 below (omega (arith, fewer, fits)) in
        (s', rw (insert, out, info) run, Grown-insert type_info d t s s' gone info g)
  ]

-- The definitions in some namespaces.
unfoldable pub asked : TypeReader → List Text → Result (List TypeDef)
asked reader [] = ok []
asked reader (name ∷ names) = do
  ds ← namespace_types reader name
  es ← asked reader names
  ok (ds ++ es)

All-parts : (P : TypeDef → Type 0) (ds es : List TypeDef) → All P (ds ++ es) → All P ds × All P es
All-parts P [] es all = (tt, all)
All-parts P (d ∷ ds) es (p, all) = let (first, rest) = All-parts P ds es all in ((p, first), rest)

All-Mem : (s : TypeStage) (ds : List TypeDef) (d : TypeDef) → All (Has s) ds → Mem d ds → Has s d
All-Mem s [] d p m = absurd m
All-Mem s (e ∷ es) d (h, p) (inl same) = rw same h
All-Mem s (e ∷ es) d (h, p) (inr m) = All-Mem s es d p m

missing_nothing : (ds : List TypeDef) → missing [] ds ≤ length ds
unfolding contains_key lookup
missing_nothing [] = omega arith
missing_nothing (d ∷ ds) = omega (arith, missing_nothing ds)

module _ (type_info : TypeDef → Result WinrtType) (reader : TypeReader) (all : List TypeDef)
    (closed : Closed type_info all) where
  insert_namespaces-Grown :
      (fuel : ℕ) (names : List Text) (defs : List TypeDef) (s : TypeStage)
      → asked reader names ≡ ok defs
      → All (λ d. Mem d all) defs
      → missing s all < fuel
      → (s' : TypeStage) × (insert_namespaces type_info reader fuel names s ≡ ok s')
        × Grown type_info defs s s'
  unfolding insert_namespaces asked
  insert_namespaces-Grown fuel [] defs s h inside fits =
      let none_asked : [] ≡ defs = cc in (s, refl, rw (sym none_asked) (Grown-nil type_info s))
  insert_namespaces-Grown fuel (name ∷ names) defs s h inside fits =
      let (ds, here, h') = >>=-eq-ok (namespace_types reader name) _ h in
      let (es, later, h'') = >>=-eq-ok (asked reader names) _ h' in
      let joined : defs ≡ ds ++ es = cc in
      rw joined (
        step ds es here (rw joined at inside)
          (λ s1. insert_namespaces-Grown fuel names es s1 later))
    where
      step :
          (ds es : List TypeDef)
          → namespace_types reader name ≡ ok ds
          → All (λ d. Mem d all) (ds ++ es)
          → ((s1 : TypeStage)
              → All (λ d. Mem d all) es
              → missing s1 all < fuel
              → (s' : TypeStage) × (insert_namespaces type_info reader fuel names s1 ≡ ok s')
                × Grown type_info es s1 s')
          → (s' : TypeStage) × (insert_namespaces type_info reader fuel (name ∷ names) s ≡ ok s')
            × Grown type_info (ds ++ es) s s'
      step ds es here inside grows =
          let (first, rest) = All-parts (λ d. Mem d all) ds es inside in
          let (s1, run, g) =
            insert_each-Grown type_info all fuel (insert type_info fuel)
              (insert-Grown type_info all closed fuel) ds s first fits in
          let (s2, run', g') =
            grows s1 rest (omega (arith, missing-Within s s1 all g.kept, fits)) in
          (s2, rw (here, run) run', Grown-append type_info ds es s s1 s2 g g')

  -- What is reached from the roots of a stage that has grown from nothing is there.
  Reached-Has :
      (roots : List TypeDef) (s : TypeStage) (d : TypeDef)
      → Grown type_info roots [] s
      → Reached type_info roots d
      → Has s d
  unfolding lookup
  Reached-Has roots s d g (root _ m) = All-Mem s roots d g.rooted m
  Reached-Has roots s d g (depends e _ t r info m) =
      let (u, there) = Reached-Has roots s e g r in
      elim (g.added e u there) [
        | inl before ↦ absurd cc
        | inr (info', _, below) ↦
            let alike : u ≡ t = cc in All-Mem s (type_dependencies t) d (rw alike at below) m
      ]

  Has-Reached :
      (roots : List TypeDef) (s : TypeStage) (d : TypeDef) (t : WinrtType)
      → Grown type_info roots [] s
      → lookup def_order d s ≡ some t
      → (type_info d ≡ ok t) × Reached type_info roots d
  unfolding lookup
  Has-Reached roots s d t g there = elim (g.added d t there) [
    | inl before ↦ absurd cc
    | inr (info, r, _) ↦ (info, r)
  ]

  -- Where the limits' namespaces have the definitions `roots`, and these are among some definitions that
  -- all have types and depend on one another only, `from_limits` with fuel for more than that number of
  -- definitions returns a stage, which has exactly the definitions that can be reached from the roots,
  -- each with its type.
  pub from_limits-Reached :
      (fuel : ℕ) (limits : TypeLimits) (roots : List TypeDef)
      → asked reader limits.namespaces ≡ ok roots
      → All (λ d. Mem d all) roots
      → length all < fuel
      → Returns (from_limits type_info reader fuel limits) (λ s.
        ((d : TypeDef) → Has s d ↔ Reached type_info roots d)
        × ((d : TypeDef) (t : WinrtType) → lookup def_order d s ≡ some t → type_info d ≡ ok t))
  unfolding from_limits
  from_limits-Reached fuel limits roots h inside fits =
      let (s, run, g) =
        insert_namespaces-Grown fuel limits.namespaces roots [] h inside
          (omega (arith, missing_nothing all)) in
      rw run (
        (λ d. ((λ has. (Has-Reached roots s d has.0 g has.1).1), Reached-Has roots s d g)),
        (λ d t there. (Has-Reached roots s d t g there).0),
      )
