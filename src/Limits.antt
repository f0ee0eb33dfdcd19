-- ===== src/Limits.antt =====
-- crates/winmd/src/type_limits.rs: the set of the namespaces that are asked for. Making a text lower
-- case is the standard library's, and an argument.
pub mod Parents
use winrt_rs.Base.{
  ℕ, zero, suc, ◌+◌, Bool, true, false, Option, none, some, List, [], ◌∷◌, if◌then◌else◌, length,
  bytes_eq, stuck, explicit, Result, ok, panic, ◌>>=◌, require,
}
use winrt_rs.Text.{Text, text_lt, split_last}
use winrt_rs.Reader.{TypeReader}
use winrt_rs.Reader.Resolve.{get}

-- The texts of a `BTreeSet`, in their order.
pub record TypeLimits : Type 0 where
  pub namespaces : List Text

-- `BTreeSet::insert`.
unfoldable pub set_insert : Text → List Text → List Text
set_insert name [] = name ∷ []
set_insert name (first ∷ rest) =
    let later = set_insert name rest in
    if bytes_eq first name
    then first ∷ rest
    else if text_lt name first
    then name ∷ (first ∷ rest)
    else first ∷ later

-- `self.0.insert(namespace.to_owned())`.
unfoldable pub add : Text → TypeLimits → TypeLimits
add name limits = record { namespaces = set_insert name limits.namespaces }

-- `reader.types.contains_key(namespace)`.
unfoldable pub contains_key : TypeReader → Text → Bool
contains_key reader namespace = elim (get reader.types namespace) [
  | none ↦ false
  | some types ↦ true
]

-- `keys().find(...)`: the first key that the test holds of.
unfoldable pub find_key {ℓ} : {A : Type ℓ} → (Text → Bool) → List (Text × A) → Option Text
find_key test [] = none
find_key test ((name, value) ∷ rest) =
    let later = find_key test rest in if test name then some name else later

module _ (to_lowercase : Text → Text) (reader : TypeReader) where
  -- The loop, which goes to the parent of the namespace as long as there is one.
  unfoldable pub insert_parents : (fuel : ℕ) → Text → TypeLimits → Result TypeLimits
  insert_parents zero namespace limits = panic stuck
  insert_parents (suc fuel) namespace limits = elim (split_last 0x2E namespace) [
    | none ↦ ok limits
    | some (parent, name) ↦
        insert_parents fuel parent
          (if contains_key reader parent then add parent limits else limits)
  ]

  unfoldable pub insert : (namespace : Text) → TypeLimits → Result TypeLimits
  insert namespace limits = do
    found ←
        require (find_key (λ name. bytes_eq (to_lowercase name) namespace) reader.types) explicit
    insert_parents (length found + 1) found (add found limits)
