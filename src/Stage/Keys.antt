-- ===== src/Stage/Keys.antt =====
-- The list of a stage has each definition once.
use winrt_rs.Base.{
  ℕ, zero, suc, ◌≡◌, refl, sym, ◌∙◌, ◌≢◌, inl, inr, none, some, List, [], ◌∷◌, All, Result, ok,
  >>=-eq-ok,
}
use winrt_rs.Base.Maps
use winrt_rs.Base.Maps.{lookup, lookup-insert_ne, contains_key-cases}
use winrt_rs.Row.{TypeDef}
use winrt_rs.Text.{Text}
use winrt_rs.Reader.{TypeReader}
use winrt_rs.Reader.Resolve.{namespace_types}
use winrt_rs.Limits.{TypeLimits}
use winrt_rs.Types.Order.Lawful.{def_order}
use winrt_rs.Types.Definitions.{WinrtType, type_dependencies}
use winrt_rs.Stage.{TypeStage, insert_each, insert, insert_namespaces, from_limits}
use Prim.Native.Nat.{Ordering}

-- No definition has two entries.
abbrev pub Distinct : TypeStage → Type 0
Distinct [] = Unit {0}
Distinct ((d, t) ∷ rest) = (lookup def_order d rest ≡ none) × Distinct rest

lookup_tail :
    (key d : TypeDef) (t : WinrtType) (rest : TypeStage)
    → lookup def_order key ((d, t) ∷ rest) ≡ none
    → (key ≢ d) × (lookup def_order key rest ≡ none)
unfolding lookup
lookup_tail key d t rest gone = by_order (def_order.compare key d) refl gone
  where
    by_order :
        (o : Ordering)
        → def_order.compare key d ≡ o
        → (elim o [ Ordering.eq ↦ some t | _ ↦ lookup def_order key rest ]) ≡ none
        → (key ≢ d) × (lookup def_order key rest ≡ none)
    by_order Ordering.eq e h = absurd cc
    by_order Ordering.lt e h = (
      (λ same.
          let self = def_order.itself d in
          let e' : def_order.compare d d ≡ Ordering.lt = rw same at e in absurd cc),
      h,
    )
    by_order Ordering.gt e h = (
      (λ same.
          let self = def_order.itself d in
          let e' : def_order.compare d d ≡ Ordering.gt = rw same at e in absurd cc),
      h,
    )

insert-Distinct :
    (key : TypeDef) (value : WinrtType) (stage : TypeStage)
    → lookup def_order key stage ≡ none
    → Distinct stage
    → Distinct (Maps.insert def_order key value stage)
unfolding Maps.insert
insert-Distinct key value [] gone distinct = (gone, tt)
insert-Distinct key value ((d, t) ∷ rest) gone (fresh, distinct) =
    let (apart, later) = lookup_tail key d t rest gone in
    by_order (def_order.compare key d) refl apart (insert-Distinct key value rest later distinct)
  where
    by_order :
        (o : Ordering)
        → def_order.compare key d ≡ o
        → key ≢ d
        → Distinct (Maps.insert def_order key value rest)
        → Distinct (elim o [
          | Ordering.lt ↦ (key, value) ∷ (d, t) ∷ rest
          | Ordering.eq ↦ (d, value) ∷ rest
          | Ordering.gt ↦ (d, t) ∷ Maps.insert def_order key value rest
        ])
    by_order Ordering.lt e apart inner = (gone, (fresh, distinct))
    by_order Ordering.eq e apart inner = absurd (apart (def_order.same key d e))
    by_order Ordering.gt e apart inner =
        (lookup-insert_ne def_order key d value rest (λ same. apart (sym same)) ∙ fresh, inner)

insert_each-Distinct :
    (one : TypeDef → TypeStage → Result TypeStage)
    → ((d : TypeDef) (s s' : TypeStage) → one d s ≡ ok s' → Distinct s → Distinct s')
    → (ds : List TypeDef) (s s' : TypeStage) → insert_each one ds s ≡ ok s'
    → Distinct s
    → Distinct s'
unfolding insert_each
insert_each-Distinct one keeps [] s s' run distinct = let same : s ≡ s' = cc in rw same at distinct
insert_each-Distinct one keeps (d ∷ ds) s s' run distinct =
    let (s1, first, rest) = >>=-eq-ok (one d s) _ run in
    insert_each-Distinct one keeps ds s1 s' rest (keeps d s s1 first distinct)

module _ (type_info : TypeDef → Result WinrtType) where
  stage_insert-Distinct :
      (fuel : ℕ) (d : TypeDef) (s s' : TypeStage)
      → insert type_info fuel d s ≡ ok s'
      → Distinct s
      → Distinct s'
  unfolding insert
  stage_insert-Distinct zero d s s' run distinct = absurd cc
  stage_insert-Distinct (suc fuel) d s s' run distinct = elim (contains_key-cases def_order d s) [
    | inl (t, there, inside) ↦
        let same : s ≡ s' = let run' = rw (insert, inside) at run in cc in rw same at distinct
    | inr (gone, out) ↦
        let (t, info, rest) = >>=-eq-ok (type_info d) _ (rw (insert, out) at run) in
        insert_each-Distinct (insert type_info fuel) (stage_insert-Distinct fuel)
          (type_dependencies t) (Maps.insert def_order d t s) s' rest
          (insert-Distinct d t s gone distinct)
  ]

  module _ (reader : TypeReader) (fuel : ℕ) where
    insert_namespaces-Distinct :
        (names : List Text) (s s' : TypeStage)
        → insert_namespaces type_info reader fuel names s ≡ ok s'
        → Distinct s
        → Distinct s'
    unfolding insert_namespaces
    insert_namespaces-Distinct [] s s' run distinct = let same : s ≡ s' = cc in rw same at distinct
    insert_namespaces-Distinct (name ∷ names) s s' run distinct =
        let (defs, found, run1) = >>=-eq-ok (namespace_types reader name) _ run in
        let (s1, first, rest) = >>=-eq-ok (insert_each (insert type_info fuel) defs s) _ run1 in
        insert_namespaces-Distinct names s1 s' rest (
          insert_each-Distinct (insert type_info fuel) (stage_insert-Distinct fuel) defs s s1 first
            distinct)

    pub from_limits-Distinct :
        (limits : TypeLimits) (s : TypeStage)
        → from_limits type_info reader fuel limits ≡ ok s
        → Distinct s
    unfolding from_limits
    from_limits-Distinct limits s run = insert_namespaces-Distinct limits.namespaces [] s run tt

  -- In such a list every entry can be found.
  pub Distinct-entries :
      (s : TypeStage)
      → Distinct s
      → ((d : TypeDef) (t : WinrtType) → lookup def_order d s ≡ some t → type_info d ≡ ok t)
      → All (λ entry. type_info entry.0 ≡ ok entry.1) s
  Distinct-entries [] distinct typed = tt
  Distinct-entries ((d, t) ∷ rest) (fresh, distinct) typed = (
    typed d t (Maps.lookup_cons_self def_order d t rest),
    Distinct-entries rest distinct (λ e u there.
        let apart : e ≢ d =
          λ same. let here : lookup def_order d rest ≡ some u = rw same at there in absurd cc in
        typed e u (Maps.lookup_cons_ne def_order e d t rest apart ∙ there)),
  )
