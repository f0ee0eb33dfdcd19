-- ===== src/Stage/Grown.antt =====
-- What an insertion into the stage adds: the definitions that can be reached from the inserted one.
use winrt_rs.Base.{
  ℕ, ◌+◌, ◌≤◌, ◌<◌, ◌≡◌, refl, sym, ap, ◌∙◌, ◌≢◌, ◌⊎◌, inl, inr, none, some, List, [], ◌∷◌, ◌++◌,
  arith, All, Result, ok, if◌then◌else◌,
}
use winrt_rs.Base.Maps
use winrt_rs.Base.Maps.{
  lookup, contains_key, keys-cases, contains_key-cases, lookup-insert_self, lookup-insert_ne,
}
use winrt_rs.Row.{TypeDef}
use winrt_rs.Types.Order.Lawful.{def_order}
use winrt_rs.Types.Definitions.{WinrtType, type_dependencies}
use winrt_rs.Stage.{TypeStage}

abbrev pub Mem : TypeDef → List TypeDef → Type 0
Mem d [] = ⊥
Mem d (e ∷ es) = (d ≡ e) ⊎ Mem d es

Mem-left : (x : TypeDef) (ds es : List TypeDef) → Mem x ds → Mem x (ds ++ es)
Mem-left x [] es m = absurd m
Mem-left x (d ∷ ds) es (inl e) = inl e
Mem-left x (d ∷ ds) es (inr m) = inr (Mem-left x ds es m)

Mem-right : (x : TypeDef) (ds es : List TypeDef) → Mem x es → Mem x (ds ++ es)
Mem-right x [] es m = m
Mem-right x (d ∷ ds) es m = inr (Mem-right x ds es m)

-- The stage has the definition.
abbrev pub Has : TypeStage → TypeDef → Type 0
Has stage d = (t : WinrtType) × (lookup def_order d stage ≡ some t)

-- All of the first stage is in the second, with the same types.
abbrev pub Within : TypeStage → TypeStage → Type 0
Within s s' =
    (d : TypeDef) (t : WinrtType) → lookup def_order d s ≡ some t → lookup def_order d s' ≡ some t

Has-Within : (s s' : TypeStage) (ds : List TypeDef) → Within s s' → All (Has s) ds → All (Has s') ds
Has-Within s s' [] kept all = tt
Has-Within s s' (d ∷ ds) kept ((t, there), all) = ((t, kept d t there), Has-Within s s' ds kept all)

-- What is inserted under a new definition leaves the others as they are.
Within-insert :
    (d : TypeDef) (t : WinrtType) (s : TypeStage)
    → lookup def_order d s ≡ none
    → Within s (Maps.insert def_order d t s)
Within-insert d t s gone e u there =
    let apart : e ≢ d = λ same.
      let here : none ≡ some u = sym gone ∙ ap (λ x. lookup def_order x s) (sym same) ∙ there in
      absurd cc in
    lookup-insert_ne def_order d e t s apart ∙ there

All-append :
    (s : TypeStage) (ds es : List TypeDef)
    → All (Has s) ds
    → All (Has s) es
    → All (Has s) (ds ++ es)
All-append s [] es p q = q
All-append s (d ∷ ds) es (h, p) q = (h, All-append s ds es p q)

module _ (type_info : TypeDef → Result WinrtType) where
  -- What the roots depend on, at first or at second hand.
  pub data Reached (roots : List TypeDef) : TypeDef → Type 0 where
    root : (d : TypeDef) → Mem d roots → Reached roots d
    depends :
        (d e : TypeDef) (t : WinrtType)
        → Reached roots d
        → type_info d ≡ ok t
        → Mem e (type_dependencies t)
        → Reached roots e

  Reached-from :
      (ds roots : List TypeDef) (d : TypeDef)
      → ((e : TypeDef) → Mem e ds → Reached roots e)
      → Reached ds d
      → Reached roots d
  Reached-from ds roots d from (root _ m) = from d m
  Reached-from ds roots d from (depends e _ t r info m) =
      depends e d t (Reached-from ds roots e from r) info m

  -- The second stage is the first one with the roots and more: a definition that is new has its type,
  -- can be reached from the roots, and what it depends on is there too.
  pub record Grown (roots : List TypeDef) (s s' : TypeStage) : Type 0 where
    pub kept : Within s s'
    pub added :
        (d : TypeDef) (t : WinrtType)
        → lookup def_order d s' ≡ some t
        → (lookup def_order d s ≡ some t)
          ⊎ ((type_info d ≡ ok t) × Reached roots d × All (Has s') (type_dependencies t))
    pub rooted : All (Has s') roots

  pub Grown-nil : (s : TypeStage) → Grown [] s s
  Grown-nil s = record { kept = λ d t e. e; added = λ d t e. inl e; rooted = tt }

  pub Grown-there : (d : TypeDef) (s : TypeStage) → Has s d → Grown (d ∷ []) s s
  Grown-there d s h = record { kept = λ e t p. p; added = λ e t p. inl p; rooted = (h, tt) }

  -- Some insertions after others.
  pub Grown-append :
      (ds es : List TypeDef) (s s1 s2 : TypeStage)
      → Grown ds s s1
      → Grown es s1 s2
      → Grown (ds ++ es) s s2
  Grown-append ds es s s1 s2 g h = record {
    kept = λ d t p. h.kept d t (g.kept d t p);
    added = λ d t p. elim (h.added d t p) [
      | inl before ↦ elim (g.added d t before) [
        | inl first ↦ inl first
        | inr (info, r, all) ↦ inr (
          info,
          Reached-from ds (ds ++ es) d (λ x m. root x (Mem-left x ds es m)) r,
          Has-Within s1 s2 _ h.kept all,
        )
      ]
      | inr (info, r, all) ↦
          inr (info, Reached-from es (ds ++ es) d (λ x m. root x (Mem-right x ds es m)) r, all)
    ];
    rooted = All-append s2 ds es (Has-Within s1 s2 ds h.kept g.rooted) h.rooted;
  }

  -- A definition that is not there is inserted, and then what it depends on.
  pub Grown-insert :
      (d : TypeDef) (t : WinrtType) (s s' : TypeStage)
      → lookup def_order d s ≡ none
      → type_info d ≡ ok t
      → Grown (type_dependencies t) (Maps.insert def_order d t s) s'
      → Grown (d ∷ []) s s'
  Grown-insert d t s s' missing info g = record {
    kept = λ e u p. g.kept e u (Within-insert d t s missing e u p);
    added = λ e u p. elim (g.added e u p) [
      | inl before ↦ elim (keys-cases def_order e d) [
        | inl same ↦
            let this : some t ≡ some u =
              sym (lookup-insert_self def_order d t s)
              ∙ ap (λ x. lookup def_order x (Maps.insert def_order d t s)) (sym same)
              ∙ before in
            let alike : t ≡ u = cc in
            inr (ap type_info same ∙ info ∙ ap ok alike, root e (inl same), rw alike at g.rooted)
        | inr other ↦ inl (sym (lookup-insert_ne def_order d e t s other) ∙ before)
      ]
      | inr (info', r, all) ↦ inr (
        info',
        Reached-from (type_dependencies t) (d ∷ []) e
            (λ x m. depends d x t (root d (inl refl)) info m) r,
        all,
      )
    ];
    rooted = ((t, g.kept d t (lookup-insert_self def_order d t s)), tt);
  }

-- How many of the definitions are not there.
abbrev pub missing : TypeStage → List TypeDef → ℕ
missing s [] = 0
missing s (d ∷ ds) = (if contains_key def_order d s then 0 else 1) + missing s ds

pub missing-Within :
    (s s' : TypeStage) (ds : List TypeDef) → Within s s' → missing s' ds ≤ missing s ds
missing-Within s s' [] kept = omega arith
missing-Within s s' (d ∷ ds) kept = elim (contains_key-cases def_order d s) [
  | inr (gone, out) ↦ ground (arith, out, missing-Within s s' ds kept)
  | inl (t, there, inside) ↦ elim (contains_key-cases def_order d s') [
    | inl (u, there', inside') ↦ ground (arith, inside', missing-Within s s' ds kept)
    | inr (gone, out) ↦ let later = kept d t there in absurd cc
  ]
]

pub missing-insert :
    (d : TypeDef) (t : WinrtType) (s : TypeStage) (ds : List TypeDef)
    → lookup def_order d s ≡ none
    → Mem d ds
    → missing (Maps.insert def_order d t s) ds < missing s ds
missing-insert d t s [] gone m = absurd m
missing-insert d t s (e ∷ es) gone (inl same) =
    let here = lookup-insert_self def_order d t s in
    elim (contains_key-cases def_order d s) [
      | inl (u, there, inside) ↦ absurd cc
      | inr (_, out) ↦ elim (contains_key-cases def_order d (Maps.insert def_order d t s)) [
        | inr (not_here, _) ↦ absurd cc
        | inl (_, _, inside) ↦
            rw (sym same, out, inside)
              (omega (
                arith,
                missing-Within s (Maps.insert def_order d t s) es (Within-insert d t s gone),
              ))
      ]
    ]
missing-insert d t s (e ∷ es) gone (inr m) = omega (
  arith,
  missing-Within s (Maps.insert def_order d t s) (e ∷ []) (Within-insert d t s gone),
  missing-insert d t s es gone m,
)
