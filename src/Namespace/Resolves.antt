-- ===== src/Namespace/Resolves.antt =====
-- A path of the generated code leads to the module of its namespace.
use winrt_rs.Base.{
  ℕ, ◌≡◌, refl, sym, ap, Bool, Option, none, some, List, [], ◌∷◌, ◌++◌, inl, inr, arith, Bool-cases,
  length, length-append, replicate, map, bytes_eq, bytes_eq→eq, Result, ok, ◌>>=◌, >>=-eq-ok,
  traverse, traverse-append, Returns, append_assoc,
}
use mathlib.Core.List.{reverse, reverse-append, reverse-cons}
use winrt_rs.Text.{Text, split}
use winrt_rs.Namespace.{PathToken, super, ident, skip_common, module_name, to_namespace_tokens}

-- Where a path leads from a module, the names of the modules innermost first: `super` goes to the
-- module around, and has no meaning at the root.
unfoldable pub resolve : List Text → List PathToken → Option (List Text)
resolve modules [] = some modules
resolve [] (super ∷ path) = none
resolve (name ∷ modules) (super ∷ path) = resolve modules path
resolve modules (ident name ∷ path) = resolve (name ∷ modules) path

skip_common_lem :
    (source destination : List Text)
    → (shared : List Text) × (source ≡ shared ++ (skip_common source destination).0)
      × (destination ≡ shared ++ (skip_common source destination).1)
unfolding skip_common
skip_common_lem [] destination = ([], refl, refl)
skip_common_lem (s ∷ source) [] = ([], refl, refl)
skip_common_lem (s ∷ source) (d ∷ destination) = elim (Bool-cases (bytes_eq s d)) [
  | inl same ↦
      let (shared, p, q) = skip_common_lem source destination in
      (
        s ∷ shared,
        rw same (ap (λ xs. s ∷ xs) p),
        rw (same, sym (bytes_eq→eq s d same)) (ap (λ xs. s ∷ xs) q),
      )
  | inr apart ↦ ([], rw apart refl, rw apart refl)
]

resolve-super :
    (outer inner : List Text) (path : List PathToken)
    → resolve (inner ++ outer) (replicate (length inner) super ++ path) ≡ resolve outer path
unfolding resolve
resolve-super outer [] path = refl
resolve-super outer (name ∷ inner) path = resolve-super outer inner path

resolve-ident :
    (modules names : List Text)
    → resolve modules (map ident names) ≡ some (reverse names ++ modules)
unfolding resolve
resolve-ident modules [] = refl
resolve-ident modules (name ∷ names) =
    rw (reverse-cons name names, append_assoc (reverse names) (name ∷ []) modules)
      (resolve-ident (name ∷ modules) names)

length-reverse : (names : List Text) → length (reverse names) ≡ length names
length-reverse [] = refl
length-reverse (name ∷ names) =
    rw (reverse-cons name names)
      (omega (arith, length-append (reverse names) (name ∷ []), length-reverse names))

-- Up to the modules that are shared, and down from there.
leads :
    (first back forth : List Text) (n : ℕ)
    → length back ≡ n
    → resolve (reverse (first ++ back)) (replicate n super ++ map ident forth)
      ≡ some (reverse (first ++ forth))
leads first back forth n h =
    rw
      (
        reverse-append first back,
        reverse-append first forth,
        sym h,
        sym (length-reverse back),
        resolve-super (reverse first) (reverse back) (map ident forth),
      )
      (resolve-ident (reverse first) forth)

module _ (is_ident : Text → Bool) (is_uppercase is_lowercase : ℕ → Bool)
    (to_lowercase : ℕ → List ℕ) where
  abbrev name_of : Text → Result Text
  name_of = module_name is_ident is_uppercase is_lowercase to_lowercase

  -- The modules that a namespace is generated in, the outermost first.
  abbrev pub modules_of : Text → Result (List Text)
  modules_of namespace = traverse name_of (split 0x2E namespace)

  length-modules :
      (parts names : List Text) → traverse name_of parts ≡ ok names → length names ≡ length parts
  length-modules [] names h = cc
  length-modules (part ∷ parts) names h =
      let (name, made, rest) = >>=-eq-ok (name_of part) _ h in
      let (later, more, same) = >>=-eq-ok (traverse name_of parts) _ rest in
      ground (arith, length-modules parts later more, same)

  idents_lem :
      (parts names : List Text)
      → traverse name_of parts ≡ ok names
      → traverse (λ part. name_of part >>= λ name. ok (ident name)) parts ≡ ok (map ident names)
  idents_lem [] names h = cc
  idents_lem (part ∷ parts) names h =
      let (name, made, rest) = >>=-eq-ok (name_of part) _ h in
      let (later, more, same) = >>=-eq-ok (traverse name_of parts) _ rest in
      rw (made, idents_lem parts later more) (cc)

  -- Where both namespaces have modules in the generated code, which takes a name that is an identifier for
  -- each of their parts, `to_namespace_tokens` returns a path
  -- that leads from the module of the calling namespace to the module of the namespace it is for.
  pub to_namespace_tokens-resolve :
      (destination source : Text) (from to : List Text)
      → modules_of source ≡ ok from
      → modules_of destination ≡ ok to
      → Returns
          (to_namespace_tokens is_ident is_uppercase is_lowercase to_lowercase destination source)
          (λ path. resolve (reverse from) path ≡ some (reverse to))
  unfolding to_namespace_tokens
  to_namespace_tokens-resolve destination source from to f t =
      let source_parts = split 0x2E source in
      let parts = split 0x2E destination in
      let (shared, p, q) = skip_common_lem source_parts parts in
      let up = (skip_common source_parts parts).0 in
      let down = (skip_common source_parts parts).1 in
      let (first, back, s1, s2, e1) = traverse-append name_of shared up (rw p at f) in
      let (first', forth, d1, d2, e2) = traverse-append name_of shared down (rw q at t) in
      let same : first ≡ first' = cc in
      rw (idents_lem down forth d2, Returns, e1, e2, sym same)
        (leads first back forth (length up) (length-modules up back s2))
