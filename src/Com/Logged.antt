-- ===== src/Com/Logged.antt =====
-- The references that a program gets and gives back, written down beside the calls.
use winrt_rs.Base.{
  ℕ, ◌+◌, ◌-◌, ◌≤◌, ◌≡◌, refl, inl, inr, Bool-cases, none, some, Option-cases, List, [], ◌∷◌, ◌==◌,
  Result, ok, panic,
}
use winrt_rs.Text.{Text}
use winrt_rs.Guid.{Guid}
use winrt_rs.Com.{
  ErrorCode, is_ok, not_initialized, ComPtr, one_of, Com, drop, clone, set_abi, query, try_into,
  activate_instance, factory,
}

-- A reference to an object that the program gets, by `AddRef` or with a pointer that a function gives
-- out, or gives back, by `Release`.
pub data Event : Type 0 where
  gained : (object : ℕ) → Event
  released : (object : ℕ) → Event

-- The last event is the first.
abbrev pub Log : Type 0
Log = List Event

-- The references to an object that the program owes a `Release`.
abbrev pub owed : Log → ℕ → ℕ
owed [] object = 0
owed (Event.gained p ∷ log) object = owed log object + one_of (some p) object
owed (Event.released p ∷ log) object = owed log object - one_of (some p) object

-- Each `Release` gives back a reference that the program had at that time.
abbrev pub Sound : Log → Type 0
Sound [] = Unit {0}
Sound (Event.gained p ∷ log) = Sound log
Sound (Event.released p ∷ log) = (1 ≤ owed log p) × Sound log

abbrev pub given : ComPtr → Log → Log
given none log = log
given (some p) log = Event.gained p ∷ log

module _ {World : Type 0} where
  abbrev logged_call : (World × ErrorCode × ComPtr) → Log → (World × Log) × ErrorCode × ComPtr
  logged_call (w, code, p) log = ((w, given p log), code, p)

  -- The same functions, with a log of the references.
  abbrev pub logged : Com World → Com (World × Log)
  logged system = record {
    add_ref = λ p state. (system.add_ref p state.0, Event.gained p ∷ state.1);
    release = λ p state. (system.release p state.0, Event.released p ∷ state.1);
    query_interface = λ p iid state. logged_call (system.query_interface p iid state.0) state.1;
    activate_instance = λ p state. logged_call (system.activate_instance p state.0) state.1;
    get_activation_factory =
        λ name iid state. logged_call (system.get_activation_factory name iid state.0) state.1;
    increment_usage = λ state. (system.increment_usage state.0, state.1);
  }

  -- Without the log.
  abbrev pub forget : {A : Type 0} → Result ((World × Log) × A) → Result (World × A)
  forget (ok ((w, log), a)) = ok (w, a)
  forget (panic e) = panic e

module _ {World : Type 0} (system : Com World) where
  pub drop_unlogged :
      (p : ComPtr) (w : World) (log : Log) → (drop (logged system) p (w, log)).0 ≡ drop system p w
  unfolding drop
  drop_unlogged none w log = refl
  drop_unlogged (some p) w log = refl

  pub forget-clone :
      (p : ComPtr) (w : World) (log : Log)
      → forget (ok (clone (logged system) p (w, log))) ≡ ok (clone system p w)
  unfolding clone
  forget-clone none w log = refl
  forget-clone (some p) w log = refl

  pub forget-set_abi :
      (p : ComPtr) (w : World) (log : Log)
      → forget (ok (set_abi (logged system) p (w, log))) ≡ ok (set_abi system p w)
  unfolding set_abi
  forget-set_abi none w log = refl
  forget-set_abi (some p) w log = refl

  module _ (iid : Guid) where
    pub forget-query :
        (p : ComPtr) (w : World) (log : Log)
        → forget (ok (query (logged system) p iid (w, log))) ≡ ok (query system p iid w)
    unfolding query
    forget-query none w log = refl
    forget-query (some p) w log = refl

    pub forget-try_into :
        (p : ComPtr) (w : World) (log : Log)
        → forget (try_into (logged system) p iid (w, log)) ≡ try_into system p iid w
    unfolding try_into
    forget-try_into none w log = refl
    forget-try_into (some p) w log = elim (Bool-cases (is_ok (system.query_interface p iid w).1)) [
      | inr fails ↦ rw (try_into, fails) refl
      | inl succeeds ↦ elim (Option-cases (system.query_interface p iid w).2) [
        | inl nothing ↦ rw (try_into, succeeds, nothing) refl
        | inr (q, found) ↦ rw (try_into, succeeds, found) refl
      ]
    ]

    pub forget-activate_instance :
        (p : ComPtr) (w : World) (log : Log)
        → forget (activate_instance (logged system) p iid (w, log))
          ≡ activate_instance system p iid w
    unfolding activate_instance drop query
    forget-activate_instance none w log = refl
    forget-activate_instance (some p) w log =
        elim (Bool-cases (is_ok (system.activate_instance p w).1)) [
          | inl succeeds ↦ elim (Option-cases (system.activate_instance p w).2) [
            | inl nothing ↦ rw (activate_instance, succeeds, nothing) refl
            | inr (q, found) ↦ rw (activate_instance, succeeds, found) refl
          ]
          | inr fails ↦ elim (Option-cases (system.activate_instance p w).2) [
            | inl nothing ↦ rw (activate_instance, fails, nothing) refl
            | inr (q, found) ↦ rw (activate_instance, fails, found) refl
          ]
        ]

    pub forget-factory :
        (name : Text) (w : World) (log : Log)
        → forget (ok (factory (logged system) name iid (w, log))) ≡ ok (factory system name iid w)
    unfolding factory
    forget-factory name w log =
        elim (Bool-cases
          ((system.get_activation_factory name iid w).1.bits == not_initialized.bits)) [
            | inr other ↦ rw (factory, other) refl
            | inl again ↦ rw (factory, again) refl
          ]
