-- ===== src/Base/Fallible.antt =====
-- Fallible code: the value that a call returns, or the panic that ends it.
use mathlib.Core.Path.{◌≡◌, refl}
use mathlib.Core.Logic.{◌≢◌, ◌⊎◌, inl, inr}
use mathlib.Core.Bool.{Bool, true, false}
use mathlib.Core.Option.{Option, none, some}
use mathlib.Core.List.{List, [], ◌∷◌, ◌++◌}

-- The ways in which the code panics. Two are none of Rust's: `stuck`, where a loop used up its fuel,
-- and `dangling`, for an access to memory that the code does not own.
pub data Panic : Type 0 where
  overflow : Panic
  out_of_range : Panic
  unwrap_none : Panic
  invalid_file : Panic
  not_aligned : Panic
  assertion : Panic
  dangling : Panic
  explicit : Panic
  stuck : Panic

pub data Result {κ} (Value : Type κ) : Type κ where
  panic : Panic → Result Value
  ok : Value → Result Value

-- `unwrap` and `expect`, and an index into a slice.
abbrev pub require {ℓ} : {A : Type ℓ} → Option A → Panic → Result A
require none e = panic e
require (some a) _ = ok a

-- `assert!`, and an `if` whose branch panics.
abbrev pub guard : (test : Bool) (reason : Panic) → Result (Unit {0})
guard false reason = panic reason
guard true reason = ok tt

-- The rest of a run goes on with the value, or the panic ends it.
infixl 5 ◌>>=◌
abbrev pub ◌>>=◌ {κ ℓ} :
    {Value : Type κ} {Next : Type ℓ} → Result Value → (Value → Result Next) → Result Next
panic reason >>= next = panic reason
ok value >>= next = next value

infixl 5 ◌>>◌
abbrev pub ◌>>◌ {ℓ} : {Next : Type ℓ} → Result (Unit {0}) → Result Next → Result Next
first >> next = first >>= λ done. next

-- The parts of a chain that returns.
pub >>=-eq-ok {κ ℓ} :
    {Value : Type κ} {Next : Type ℓ} (first : Result Value) (next : Value → Result Next) {r : Next}
    → first >>= next ≡ ok r
    → (v : Value) × (first ≡ ok v) × (next v ≡ ok r)
>>=-eq-ok (panic reason) next returns = cc
>>=-eq-ok (ok v) next returns = (v, refl, returns)

pub require-inv {ℓ} :
    {A : Type ℓ} (o : Option A) (e : Panic) (a : A) → require o e ≡ ok a → o ≡ some a
require-inv none e a h = cc
require-inv (some b) e a h = cc

pub Result-cases {ℓ} :
    {A : Type ℓ} (r : Result A) → ((a : A) × (r ≡ ok a)) ⊎ ((e : Panic) × (r ≡ panic e))
Result-cases (ok a) = inl (a, refl)
Result-cases (panic e) = inr (e, refl)

-- The run returns, with a value that satisfies `P`.
abbrev pub Returns {ℓ} : {A : Type ℓ} → Result A → (A → Type 0) → Type 0
Returns (ok a) P = P a
Returns (panic e) P = ⊥

pub Returns-ok :
    {A : Type 0} {P : A → Type 0} (r : Result A) → Returns r P → (a : A) × (r ≡ ok a) × P a
Returns-ok (ok a) p = (a, refl, p)
Returns-ok (panic e) p = absurd p

pub Returns-map :
    {A : Type 0} {P Q : A → Type 0} (r : Result A)
    → Returns r P
    → ((a : A) → P a → Q a)
    → Returns r Q
Returns-map (ok a) p f = f a p
Returns-map (panic e) p f = p

-- A panic of a chain is one of its first call or one of the rest.
pub >>=-ne-panic {ℓ κ} :
    {A : Type ℓ} {B : Type κ} (m : Result A) (f : A → Result B) (e : Panic)
    → m ≢ panic e
    → ((a : A) → m ≡ ok a → f a ≢ panic e)
    → (m >>= f) ≢ panic e
>>=-ne-panic (ok a) f e first rest = rest a refl
>>=-ne-panic (panic e') f e first rest = λ h. first cc

-- An iterator whose items are made by a fallible call.
abbrev pub traverse {ℓ κ} : {A : Type ℓ} {B : Type κ} → (A → Result B) → List A → Result (List B)
traverse f [] = ok []
traverse f (x ∷ xs) = f x >>= λ y. traverse f xs >>= λ ys. ok (y ∷ ys)

-- What is made of two lists, one behind the other.
pub traverse-append {ℓ κ} :
    {A : Type ℓ} {B : Type κ} (f : A → Result B) (xs ys : List A) {zs : List B}
    → traverse f (xs ++ ys) ≡ ok zs
    → (first : List B) × (bs : List B) × (traverse f xs ≡ ok first)
      × (traverse f ys ≡ ok bs)
      × (zs ≡ first ++ bs)
traverse-append f [] ys {zs} h = ([], zs, refl, h, refl)
traverse-append f (x ∷ xs) ys h =
    let (y, made, rest) = >>=-eq-ok (f x) (λ y. traverse f (xs ++ ys) >>= λ ys'. ok (y ∷ ys')) h in
    let (later, more, same) = >>=-eq-ok (traverse f (xs ++ ys)) (λ ys'. ok (y ∷ ys')) rest in
    let (first, bs, p, q, e) = traverse-append f xs ys more in
    (y ∷ first, bs, rw (made, p) refl, q, cc)
