-- ===== src/Limits/Parents.antt =====
-- Which namespaces `TypeLimits::insert` adds.
use winrt_rs.Base.{
  ℕ, zero, suc, ◌+◌, ◌<◌, ◌≡◌, refl, Bool, true, false, ◌&&◌, ◌||◌, none, some, List, [], ◌∷◌,
  arith, ◌==◌, if◌then◌else◌, inl, inr, ◌⊎◌, Bool-cases, Option-cases, length, bytes_eq,
  bytes_eq→eq, bytes_eq_refl, explicit, panic, Returns, Returns-ok,
}
use winrt_rs.Text.{Text, split_last}
use winrt_rs.Reader.{TypeReader}
use winrt_rs.Reader.Resolve.{get}
use winrt_rs.Limits.{TypeLimits, set_insert, add, contains_key, find_key, insert_parents, insert}

-- Whether a text is in the set.
unfoldable pub has : Text → List Text → Bool
has name [] = false
has name (first ∷ rest) = bytes_eq first name || has name rest

-- Whether the namespace goes on with a dot behind the name.
unfoldable pub encloses : Text → Text → Bool
encloses name [] = false
encloses [] (c ∷ namespace) = c == 0x2E
encloses (a ∷ name) (c ∷ namespace) = c == a && encloses name namespace

has-set_insert :
    (name y : Text) (set : List Text) → has y (set_insert name set) ≡ (bytes_eq name y || has y set)
unfolding has set_insert
has-set_insert name y [] = refl
has-set_insert name y (first ∷ rest) = elim (Bool-cases (bytes_eq first name)) [
  | inl same ↦ let e = bytes_eq→eq first name same in rw (same, e) (ground arith)
  | inr apart ↦ let later = has-set_insert name y rest in ground (arith, later, apart)
]

encloses-none :
    (y namespace : Text) → split_last 0x2E namespace ≡ none → encloses y namespace ≡ false
unfolding encloses split_last
encloses-none y [] h = refl
encloses-none [] (x ∷ xs) h = elim (Option-cases (split_last 0x2E xs)) [
  | inl e ↦ ground (arith, e, h)
  | inr (p, e) ↦ ground (arith, e, h)
]
encloses-none (a ∷ y) (x ∷ xs) h = elim (Option-cases (split_last 0x2E xs)) [
  | inl e ↦ let later = encloses-none y xs e in ground (arith, later, e, h)
  | inr (p, e) ↦ ground (arith, e, h)
]

split_last-shorter :
    (namespace parent name : Text)
    → split_last 0x2E namespace ≡ some (parent, name)
    → length parent < length namespace
unfolding split_last
split_last-shorter [] parent name h = absurd (cc)
split_last-shorter (x ∷ xs) parent name h = elim (Option-cases (split_last 0x2E xs)) [
  | inl e ↦ ground (arith, e, h)
  | inr ((front, back), e) ↦
      let later = split_last-shorter xs front back e in ground (arith, e, h, later)
]

encloses-some :
    (y namespace parent name : Text)
    → split_last 0x2E namespace ≡ some (parent, name)
    → encloses y namespace ≡ (bytes_eq parent y || encloses y parent)
unfolding encloses split_last
encloses-some y [] parent name h = absurd (cc)
encloses-some [] (x ∷ xs) parent name h = elim (Option-cases (split_last 0x2E xs)) [
  | inl e ↦ ground (arith, e, h)
  | inr ((front, back), e) ↦ ground (arith, e, h)
]
encloses-some (a ∷ y) (x ∷ xs) parent name h = elim (Option-cases (split_last 0x2E xs)) [
  | inl e ↦ ground (arith, e, h, encloses-none y xs e)
  | inr ((front, back), e) ↦
      let later = encloses-some y xs front back e in ground (arith, e, h, later)
]

contains_key-add :
    (parent y : Text) (reader : TypeReader) (limits : TypeLimits)
    → has y ((if contains_key reader parent then add parent limits else limits).namespaces)
      ≡ ((bytes_eq parent y && contains_key reader y) || has y limits.namespaces)
unfolding add
contains_key-add parent y reader limits = elim (Bool-cases (bytes_eq parent y)) [
  | inl same ↦
      let e = bytes_eq→eq parent y same in
      let put = has-set_insert parent y limits.namespaces in ground (arith, same, e, put)
  | inr apart ↦ let put = has-set_insert parent y limits.namespaces in ground (arith, apart, put)
]

key-contains :
    (reader : TypeReader) (name : Text)
    → ((get reader.types name ≡ none) → ⊥)
    → contains_key reader name ≡ true
unfolding contains_key
key-contains reader name h = elim (Option-cases (get reader.types name)) [
  | inl e ↦ absurd (h e)
  | inr (a, e) ↦ rw (contains_key, e) refl
]

find_key-holds :
    {A : Type 0} (test : Text → Bool) (entries : List (Text × A)) (name : Text)
    → find_key test entries ≡ some name
    → (test name ≡ true) × ((get entries name ≡ none) → ⊥)
unfolding find_key get
find_key-holds test [] name h = absurd (cc)
find_key-holds test ((k, a) ∷ rest) name h = elim (Bool-cases (test k)) [
  | inl met ↦
      let same : k ≡ name = ground (arith, met, h) in
      (rw same at met, λ e. ground (arith, e, same, bytes_eq_refl name))
  | inr missed ↦
      let later = find_key-holds test rest name (ground (arith, missed, h)) in
      (later.0, λ e. later.1 (ground (arith, e)))
]

module _ (to_lowercase : Text → Text) (reader : TypeReader) where
  insert_parents-has :
      (fuel : ℕ) (namespace : Text) (limits : TypeLimits)
      → length namespace < fuel
      → Returns (insert_parents to_lowercase reader fuel namespace limits) (λ after.
        (y : Text)
        → has y after.namespaces
          ≡ (has y limits.namespaces || (encloses y namespace && contains_key reader y)))
  unfolding insert_parents
  insert_parents-has zero namespace limits enough = absurd (omega arith)
  insert_parents-has (suc fuel) namespace limits enough =
      elim (Option-cases (split_last 0x2E namespace)) [
        | inl e ↦ rw (Returns, e) (λ y. let no = encloses-none y namespace e in ground (arith, no))
        | inr ((parent, name), e) ↦
            let shorter = split_last-shorter namespace parent name e in
            let next = if contains_key reader parent then add parent limits else limits in
            let (after, run, later) =
              Returns-ok (insert_parents to_lowercase reader fuel parent next)
                (insert_parents-has fuel parent next (omega arith)) in
            rw (Returns, e, run)
              (λ y.
                let one = encloses-some y namespace parent name e in
                let two = contains_key-add parent y reader limits in
                let three = later y in ground (arith, one, two, three))
      ]

  -- Where `find_key` finds no key of the reader's types for a namespace, `insert` panics. Where it finds
  -- one, that is a key whose lower case is the namespace, and `insert` returns: a text is then in the
  -- set exactly if it was before, or it is the key found, or it is a key of the reader's types and the
  -- key found goes on with a dot behind it.
  pub insert-has :
      (namespace : Text) (limits : TypeLimits)
      → ((find_key (λ name. bytes_eq (to_lowercase name) namespace) reader.types ≡ none)
          × (insert to_lowercase reader namespace limits ≡ panic explicit))
        ⊎ ((found : Text) × (find_key (λ name. bytes_eq (to_lowercase name) namespace) reader.types
              ≡ some found)
            × (to_lowercase found ≡ namespace)
            × (contains_key reader found ≡ true)
            × Returns (insert to_lowercase reader namespace limits) (λ after.
              (y : Text)
              → has y after.namespaces ≡ (
                  has y limits.namespaces
                  || (bytes_eq found y || (encloses y found && contains_key reader y)))))
  unfolding insert add
  insert-has namespace limits =
      elim (Option-cases (find_key (λ name. bytes_eq (to_lowercase name) namespace) reader.types)) [
        | inl e ↦ inl (e, rw e refl)
        | inr (found, e) ↦
            let (after, run, later) =
              Returns-ok
                (insert_parents to_lowercase reader (length found + 1) found (add found limits))
                (insert_parents-has (length found + 1) found (add found limits) (omega arith)) in
            let (lower, kept) =
              find_key-holds (λ name. bytes_eq (to_lowercase name) namespace) reader.types found
                e in
            inr (
              found,
              e,
              bytes_eq→eq (to_lowercase found) namespace lower,
              key-contains reader found kept,
              rw (e, run)
                  (λ y.
                    let one = has-set_insert found y limits.namespaces in
                    let two = later y in ground (arith, one, two)),
            )
      ]
