-- ===== src/HString/Handles.antt =====
-- A program that holds handles: the calls it can make, and what the handles stand for.
pub mod Refs
pub mod Kept
pub mod Calls
pub mod Refines
use winrt_rs.Base.{ℕ, zero, suc, Bool, none, some, List, [], ◌∷◌, get_elem?, set, Result, ok, ◌>>=◌}
use winrt_rs.Text.{Text, encode_utf16}
use winrt_rs.HString
use winrt_rs.HString.{Memory, HString}

-- A handle that was dropped is gone from the list.
abbrev pub remove {ℓ} : {A : Type ℓ} → List A → ℕ → List A
remove [] i = []
remove (x ∷ xs) zero = xs
remove (x ∷ xs) (suc i) = x ∷ remove xs i

pub record State : Type 0 where
  pub memory : Memory
  pub handles : List HString

pub data Call : Type 0 where
  new : Call
  from : Text → Call
  clone : ℕ → Call
  clear : ℕ → Call
  drop : ℕ → Call

abbrev pub start : State
start = record { memory = []; handles = [] }

-- A new handle goes to the front. There are no calls on a handle that the program does not have.
module _ (grants : Memory → (bytes : ℕ) → Bool) (blank : ℕ) where
  unfoldable pub step : State → Call → Result State
  step s Call.new = ok (record s { handles = HString.new ∷ s.handles })
  step s (Call.from text) = do
    (string, memory) ← HString.from grants blank text s.memory
    ok (record { memory = memory; handles = string ∷ s.handles })
  step s (Call.clone i) = elim (get_elem? s.handles i) [
    | none ↦ ok s
    | some string ↦ HString.clone grants blank string s.memory >>= λ r.
        ok (record { memory = r.1; handles = r.0 ∷ s.handles })
  ]
  step s (Call.clear i) = elim (get_elem? s.handles i) [
    | none ↦ ok s
    | some string ↦ HString.clear string s.memory >>= λ r.
        ok (record { memory = r.1; handles = set s.handles i r.0 })
  ]
  step s (Call.drop i) = elim (get_elem? s.handles i) [
    | none ↦ ok s
    | some string ↦ HString.clear string s.memory >>= λ r.
        ok (record { memory = r.1; handles = remove s.handles i })
  ]

  unfoldable pub run : State → List Call → Result State
  run s [] = ok s
  run s (call ∷ calls) = step s call >>= λ s'. run s' calls

-- The same calls on the strings themselves, with no handles and no memory.
abbrev pub Strings : Type 0
Strings = List (List ℕ)

unfoldable pub string_step : Strings → Call → Strings
string_step strings Call.new = [] ∷ strings
string_step strings (Call.from text) = encode_utf16 text ∷ strings
string_step strings (Call.clone i) = elim (get_elem? strings i) [
  | none ↦ strings
  | some string ↦ string ∷ strings
]
string_step strings (Call.clear i) = set strings i []
string_step strings (Call.drop i) = remove strings i

unfoldable pub string_run : Strings → List Call → Strings
string_run strings [] = strings
string_run strings (call ∷ calls) = string_run (string_step strings call) calls
