-- ===== src/Com.antt =====
-- src/error.rs, src/com_ptr.rs, src/com_interface.rs, src/try_into.rs and src/activation.rs:
-- the codes of errors, and the counted pointers to COM objects. The objects are the system's: what their
-- functions do to the world is an argument.
pub mod Logged
pub mod Counted
pub mod Program
use winrt_rs.Base.{
  ℕ, ◌^◌, ◌≡◌, ◌≢◌, Bool, true, false, Option, none, some, ◌==◌, ltb, leb, if◌then◌else◌, assertion,
  explicit, Result, ok, panic, guard,
}
use winrt_rs.Text.{Text}
use winrt_rs.Guid.{Guid}

-- The 32 bits of an `HRESULT`; it is negative from 2^31 on.
pub record ErrorCode : Type 0 where
  pub bits : ℕ

-- The `Result` of src/error.rs: an `Error` is its code.
pub data Outcome (A : Type 0) : Type 0 where
  value : A → Outcome A
  error : ErrorCode → Outcome A

abbrev pub not_initialized : ErrorCode
not_initialized = record { bits = 0x8004_01F0 }

unfoldable pub is_ok : ErrorCode → Bool
is_ok code = ltb code.bits (2 ^ 31)

unfoldable pub is_err : ErrorCode → Bool
is_err code = leb (2 ^ 31) code.bits

-- `unwrap`, which panics on an error.
unfoldable pub unwrap : ErrorCode → Result (Unit {0})
unwrap code = guard (is_ok code) assertion

-- `ok`, and `and_then` with a function that returns.
unfoldable pub and_then : {A : Type 0} → ErrorCode → A → Outcome A
and_then code a = if is_ok code then value a else error code

-- A pointer to an object, or null.
abbrev pub ComPtr : Type 0
ComPtr = Option ℕ

-- One reference, if the pointer is to the object.
abbrev pub one_of : ComPtr → ℕ → ℕ
one_of none object = 0
one_of (some p) object = if p == object then 1 else 0

-- The functions of the objects and of the system, which may do anything to the world.
pub record Com (World : Type 0) : Type 0 where
  pub add_ref : ℕ → World → World
  pub release : ℕ → World → World
  pub query_interface : ℕ → Guid → World → World × ErrorCode × ComPtr
  pub activate_instance : ℕ → World → World × ErrorCode × ComPtr
  pub get_activation_factory : Text → Guid → World → World × ErrorCode × ComPtr
  pub increment_usage : World → World

-- What COM documents of them: `QueryInterface` gives a pointer exactly if it succeeds, and with an error
-- there is no factory.
pub record Documented {World : Type 0} (system : Com World) : Type 0 where
  pub query_succeeds :
      (p : ℕ) (iid : Guid) (w : World)
      → is_ok (system.query_interface p iid w).1 ≡ true
      → (system.query_interface p iid w).2 ≢ none
  pub query_fails :
      (p : ℕ) (iid : Guid) (w : World)
      → is_ok (system.query_interface p iid w).1 ≡ false
      → (system.query_interface p iid w).2 ≡ none
  pub factory_fails :
      (name : Text) (iid : Guid) (w : World)
      → is_ok (system.get_activation_factory name iid w).1 ≡ false
      → (system.get_activation_factory name iid w).2 ≡ none

module _ {World : Type 0} (system : Com World) where
  -- `Drop::drop`, `Clone::clone`, and `set_abi`, which leaves null.
  unfoldable pub drop : ComPtr → World → World
  drop none w = w
  drop (some p) w = system.release p w

  unfoldable pub clone : ComPtr → World → World × ComPtr
  clone none w = (w, none)
  clone (some p) w = (system.add_ref p w, some p)

  unfoldable pub set_abi : ComPtr → World → World × ComPtr
  set_abi none w = (w, none)
  set_abi (some p) w = (system.release p w, none)

  -- `query_with_iid`, which does not look at the code.
  unfoldable pub query : ComPtr → Guid → World → World × ComPtr
  query none iid w = (w, none)
  query (some p) iid w = let (w', code, into) = system.query_interface p iid w in (w', into)

  -- `try_into`; the test for null is one of a build with assertions.
  unfoldable pub try_into : ComPtr → Guid → World → Result (World × Outcome ComPtr)
  try_into none iid w = ok (w, value none)
  try_into (some p) iid w =
      let (w', code, into) = system.query_interface p iid w in
      elim (is_ok code) [
        | false ↦ ok (w', error code)
        | true ↦ elim into [ none ↦ panic assertion | some q ↦ ok (w', value (some q)) ]
      ]

  -- `IActivationFactory::activate_instance`. The object is dropped when the call ends.
  unfoldable pub activate_instance : ComPtr → Guid → World → Result (World × Outcome ComPtr)
  activate_instance none iid w = panic explicit
  activate_instance (some p) iid w =
      let (w1, code, object) = system.activate_instance p w in
      elim (is_ok code) [
        | true ↦ (let (w2, into) = query object iid w1 in ok (drop object w2, value into))
        | false ↦ ok (drop object w1, error code)
      ]

  -- `factory`, which tries a second time where the apartment was not there.
  unfoldable pub factory : (name : Text) → Guid → World → World × Outcome ComPtr
  factory name iid w =
      let first = system.get_activation_factory name iid w in
      if first.1.bits == not_initialized.bits
      then given (system.get_activation_factory name iid (system.increment_usage first.0))
      else given first
    where
      given : World × ErrorCode × ComPtr → World × Outcome ComPtr
      given (w', code, ptr) = (w', and_then code ptr)
