-- ===== src/Reader/New/Filed.antt =====
-- What `TypeReader::new` leaves under a name: the type that was met first, and no other change.
use winrt_rs.Base.{
  ◌≡◌, refl, sym, ◌∙◌, ◌⊎◌, inl, inr, Bool, true, false, ◌&&◌, Option, none, some, List, [], ◌∷◌,
  arith, if◌then◌else◌, Bool-cases, Option-cases, All, bytes_eq, bytes_eq→eq, bytes_eq_refl,
  explicit, require,
}
use winrt_rs.Row.{TypeDef}
use winrt_rs.Text.{Text, text_lt}
use winrt_rs.Text.Order.{text_lt_irrefl, text_lt_trans, text_lt_total}
use winrt_rs.Reader.{TypeReader}
use winrt_rs.Reader.Resolve.{Name, get, resolve_type_def}
use winrt_rs.Reader.New.{upsert, or_insert, Types, insert_type}

lt_apart : (key k : Text) → text_lt key k ≡ true → bytes_eq k key ≡ false
lt_apart key k h = elim (Bool-cases (bytes_eq k key)) [
  | inl same ↦ let e = bytes_eq→eq k key same in ground (arith, text_lt_irrefl key, e, h)
  | inr apart ↦ apart
]

bytes_eq_join : (k key other : Text) → bytes_eq k other ≡ true → bytes_eq key other ≡ true → k ≡ key
bytes_eq_join k key other p q = bytes_eq→eq k other p ∙ sym (bytes_eq→eq key other q)

abbrev pub Above : Option Text → Text → Type 0
Above none k = Unit {0}
Above (some low) k = text_lt low k ≡ true

module _ {ℓ} {A : Type ℓ} where
  -- The keys of the entries go up, from above `low` on, where there is one.
  abbrev pub Ascending : Option Text → List (Text × A) → Type 0
  Ascending low [] = Unit {0}
  Ascending low ((k, a) ∷ rest) = Above low k × Ascending (some k) rest

  abbrev pub Sorted : List (Text × A) → Type 0
  Sorted entries = Ascending none entries

  get_below :
      (key low : Text) (entries : List (Text × A))
      → Ascending (some low) entries
      → (key ≡ low) ⊎ (text_lt key low ≡ true)
      → get entries key ≡ none
  unfolding get
  get_below key low [] above before = refl
  get_below key low ((k, a) ∷ rest) (lt, above) before =
      let lt' : text_lt key k ≡ true = before_lt before in
      rw (lt_apart key k lt') (get_below key k rest above (inr lt'))
    where
      before_lt : (key ≡ low) ⊎ (text_lt key low ≡ true) → text_lt key k ≡ true
      before_lt (inl same) = rw same lt
      before_lt (inr lower) = text_lt_trans key low k lower lt

  -- What stands under the key after an update.
  abbrev pub upserted : A → (A → A) → Option A → A
  upserted value update none = update value
  upserted value update (some old) = update old

  module _ (key : Text) (value : A) (update : A → A) where
    upsert-Ascending :
        (low : Option Text) (entries : List (Text × A))
        → Above low key
        → Ascending low entries
        → Ascending low (upsert key value update entries)
    unfolding upsert
    upsert-Ascending low [] below above = (below, tt)
    upsert-Ascending low ((k, a) ∷ rest) below (lt, above) = elim (Bool-cases (bytes_eq k key)) [
      | inl same ↦ rw same (lt, above)
      | inr apart ↦ elim (Bool-cases (text_lt key k)) [
        | inl before ↦ rw (apart, before) (below, (before, above))
        | inr after ↦
            rw (apart, after)
              (lt, upsert-Ascending (some k) rest (text_lt_total key k after apart) above)
      ]
    ]

    get-upsert :
        (other : Text) (low : Option Text) (entries : List (Text × A))
        → Ascending low entries
        → get (upsert key value update entries) other ≡ (
            if bytes_eq key other
            then some (upserted value update (get entries key))
            else get entries other)
    unfolding upsert get
    get-upsert other low [] above = refl
    get-upsert other low ((k, a) ∷ rest) (lt, above) = elim (Bool-cases (bytes_eq k key)) [
      | inl same ↦ let e = bytes_eq→eq k key same in ground (arith, e, same)
      | inr apart ↦ elim (Bool-cases (text_lt key k)) [
        | inl before ↦
            let absent = get_below key k rest above (inr before) in
            rw (apart, before) (rw absent refl)
        | inr after ↦
            let later = get-upsert other (some k) rest above in
            rw (apart, after, later)
              (elim (Bool-cases (bytes_eq k other)) [
                | inr elsewhere ↦ ground arith
                | inl here ↦ elim (Bool-cases (bytes_eq key other)) [
                  | inr elsewhere ↦ ground arith
                  | inl there ↦
                      let e = bytes_eq_join k key other here there in
                      ground (arith, e, apart, bytes_eq_refl key)
                ]
              ])
      ]
    ]

-- Both levels of the map are in order.
abbrev pub Filed : Types → Type 0
Filed types = Sorted types × All (λ entry. Sorted entry.1) types

-- The type that is filed under a name.
unfoldable pub in_namespace : Option (List (Text × TypeDef)) → Text → Option TypeDef
in_namespace none name = none
in_namespace (some inner) name = get inner name

unfoldable pub found : Types → Name → Option TypeDef
found types (namespace, name) = in_namespace (get types namespace) name

abbrev pub same_name : Name → Name → Bool
same_name (namespace, name) (namespace', name') =
    bytes_eq namespace namespace' && bytes_eq name name'

pub resolve_type_def-found :
    (reader : TypeReader) (name : Name)
    → resolve_type_def reader name ≡ require (found reader.types name) explicit
unfolding resolve_type_def found in_namespace
resolve_type_def-found reader (namespace, name) = elim (Option-cases (get reader.types namespace)) [
  | inl absent ↦ ground (arith, absent)
  | inr (inner, e) ↦ ground (arith, e)
]

Sorted-inner :
    (types : Types) (namespace : Text) (inner : List (Text × TypeDef))
    → All (λ entry. Sorted entry.1) types
    → get types namespace ≡ some inner
    → Sorted inner
unfolding get
Sorted-inner [] namespace inner all e = absurd cc
Sorted-inner ((k, first) ∷ rest) namespace inner (p, all) e =
    elim (Bool-cases (bytes_eq k namespace)) [
      | inl here ↦ let same : first ≡ inner = ground arith in rw same at p
      | inr apart ↦ Sorted-inner rest namespace inner all (ground arith)
    ]

All-upsert :
    (key : Text) (name : Text) (def : TypeDef) (types : Types)
    → All (λ entry. Sorted entry.1) types
    → All (λ entry. Sorted entry.1) (upsert key [] (or_insert name def) types)
unfolding upsert or_insert
All-upsert key name def [] all = ((tt, tt), tt)
All-upsert key name def ((k, first) ∷ rest) (p, all) = elim (Bool-cases (bytes_eq k key)) [
  | inl same ↦ rw same (upsert-Ascending name def (λ old. old) none first tt p, all)
  | inr apart ↦ elim (Bool-cases (text_lt key k)) [
    | inl before ↦ rw (apart, before) ((tt, tt), (p, all))
    | inr after ↦ rw (apart, after) (p, All-upsert key name def rest all)
  ]
]

pub insert_type-Filed :
    (types : Types) (name : Name) (def : TypeDef) → Filed types → Filed (insert_type types name def)
unfolding insert_type
insert_type-Filed types (namespace, name) def (sorted, inner) = (
  upsert-Ascending namespace [] (or_insert name def) none types tt sorted,
  All-upsert namespace name def types inner,
)

-- In an ordered map, `insert_type` files the type under its name unless one is filed there already,
-- and leaves every other name as it was.
pub insert_type-found :
    (types : Types) (name other : Name) (def : TypeDef)
    → Filed types
    → found (insert_type types name def) other ≡ (
        if same_name name other
        then some (upserted def (λ old. old) (found types name))
        else found types other)
unfolding insert_type found or_insert
insert_type-found types (namespace, name) (namespace', name') def (sorted, inner) =
    let outer = get-upsert namespace [] (or_insert name def) namespace' none types sorted in
    elim (Bool-cases (bytes_eq namespace namespace')) [
      | inr apart ↦ rw (outer, apart) refl
      | inl same ↦
          let e = bytes_eq→eq namespace namespace' same in
          elim (Option-cases (get types namespace)) [
            | inl absent ↦
                let first = get-upsert name def (λ o. o) name' none [] tt in
                elim (Bool-cases (bytes_eq name name')) [
                  | inl b ↦
                      rw (outer, same, absent, b)
                        (unfold in_namespace in rw (first, b) (unfold get in refl))
                  | inr b ↦
                      rw (outer, same, absent, b)
                        (unfold in_namespace in
                          rw (first, b) (rw (← e, absent) (unfold get in refl)))
                ]
            | inr (old, here) ↦
                let within = Sorted-inner types namespace old inner here in
                let first = get-upsert name def (λ o. o) name' none old within in
                let there : get types namespace' ≡ some old = rw e at here in
                rw (outer, same, here, there) (unfold in_namespace in rw first refl)
          ]
    ]

-- Whatever is filed stays.
pub insert_type-kept :
    (types : Types) (name other : Name) (def kept : TypeDef)
    → Filed types
    → found types other ≡ some kept
    → found (insert_type types name def) other ≡ some kept
insert_type-kept types (namespace, name) (namespace', name') def kept filed h =
    rw (insert_type-found types (namespace, name) (namespace', name') def filed)
      (elim (Bool-cases (same_name (namespace, name) (namespace', name'))) [
        | inr other ↦ rw (other, h) refl
        | inl same ↦
            let e : namespace ≡ namespace' = bytes_eq→eq namespace namespace' (ground arith) in
            let e' : name ≡ name' = bytes_eq→eq name name' (ground arith) in
            rw same (rw (e, e', h) refl)
      ])
