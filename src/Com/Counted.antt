-- ===== src/Com/Counted.antt =====
-- What each call on pointers does to the references that are owed.
use winrt_rs.Base.{
  ℕ, zero, suc, ◌+◌, ◌≤◌, ◌≡◌, refl, ap, inl, inr, true, false, Bool-cases, none, some,
  Option-cases, List, [], ◌∷◌, arith, ◌==◌, ==_iff, get_elem?, set, Returns,
}
use winrt_rs.Text.{Text}
use winrt_rs.Guid.{Guid}
use winrt_rs.Com.{
  ErrorCode, Outcome, and_then, is_ok, not_initialized, ComPtr, one_of, Com, Documented, drop,
  query, try_into, activate_instance, factory,
}
use winrt_rs.Com.Logged.{Log, owed, Sound, given, logged}

-- The references that pointers hold to an object.
abbrev pub held : List ComPtr → ℕ → ℕ
held [] object = 0
held (p ∷ ps) object = one_of p object + held ps object

abbrev pub holds : Outcome ComPtr → ℕ → ℕ
holds (Outcome.value p) object = one_of p object
holds (Outcome.error code) object = 0

pub held-set :
    (ps : List ComPtr) (i : ℕ) (p q : ComPtr) (object : ℕ)
    → get_elem? ps i ≡ some p
    → held (set ps i q) object + one_of p object ≡ held ps object + one_of q object
held-set [] i p q object h = absurd cc
held-set (r ∷ ps) zero p q object h = let same : r ≡ p = cc in rw same (omega arith)
held-set (r ∷ ps) (suc i) p q object h = omega (arith, held-set ps i p q object h)

pub one_of-le :
    (ps : List ComPtr) (i : ℕ) (p : ComPtr) (object : ℕ)
    → get_elem? ps i ≡ some p
    → one_of p object ≤ held ps object
one_of-le [] i p object h = absurd cc
one_of-le (r ∷ ps) zero p object h = let same : r ≡ p = cc in rw same (omega arith)
one_of-le (r ∷ ps) (suc i) p object h = omega (arith, one_of-le ps i p object h)

one_of_self : (p : ℕ) → one_of (some p) p ≡ 1
one_of_self p = ground arith

not_initialized-fails :
    (code : ErrorCode) → (code.bits == not_initialized.bits) ≡ true → is_ok code ≡ false
unfolding is_ok
not_initialized-fails code h =
    let same = (==_iff code.bits not_initialized.bits).0 h in rw same refl

-- The second log is sound if the first is, and owes so much more.
abbrev pub Gains : Log → Log → (ℕ → ℕ) → Type 0
Gains log log' more = (Sound log → Sound log') × ((q : ℕ) → owed log' q ≡ owed log q + more q)

Gains-given : (p : ComPtr) (log : Log) → Gains log (given p log) (one_of p)
Gains-given none log = ((λ h. h), (λ q. omega arith))
Gains-given (some p) log = ((λ h. h), (λ q. refl))

Gains-same :
    (log log' : Log) (more more' : ℕ → ℕ)
    → Gains log log' more
    → ((q : ℕ) → more q ≡ more' q)
    → Gains log log' more'
Gains-same log log' more more' (sound, counts) same =
    (sound, (λ q. omega (arith, counts q, same q)))

module _ {World : Type 0} (system : Com World) where
  -- A pointer that is owed is dropped.
  pub drop-Gains :
      (p : ComPtr) (w : World) (log : Log)
      → ((r : ℕ) → one_of p r ≤ owed log r)
      → (Sound log → Sound (drop (logged system) p (w, log)).1)
        × ((q : ℕ) → owed (drop (logged system) p (w, log)).1 q + one_of p q ≡ owed log q)
  unfolding drop
  drop-Gains none w log live = ((λ h. h), (λ q. omega arith))
  drop-Gains (some p) w log live =
      ((λ h. (omega (arith, live p, one_of_self p), h)), (λ q. omega (arith, live q)))

module _ {World : Type 0} (system : Com World) (law : Documented system) (iid : Guid) where
  pub query-Gains :
      (p : ComPtr) (w : World) (log : Log)
      → Gains log
          (query (logged system) p iid (w, log)).0.1
          (one_of (query (logged system) p iid (w, log)).1)
  unfolding query
  query-Gains none w log = ((λ h. h), (λ q. omega arith))
  query-Gains (some p) w log = Gains-given (system.query_interface p iid w).2 log

  pub try_into-Gains :
      (p : ComPtr) (w : World) (log : Log)
      → Returns (try_into (logged system) p iid (w, log)) (λ r. Gains log r.0.1 (holds r.1))
  unfolding try_into
  try_into-Gains none w log = ((λ h. h), (λ q. omega arith))
  try_into-Gains (some p) w log = elim (Bool-cases (is_ok (system.query_interface p iid w).1)) [
    | inr fails ↦
        let gone = law.query_fails p iid w fails in
        rw (Returns, try_into, fails, gone) ((λ h. h), (λ q. omega arith))
    | inl succeeds ↦ elim (Option-cases (system.query_interface p iid w).2) [
      | inl nothing ↦ absurd (law.query_succeeds p iid w succeeds nothing)
      | inr (r, found) ↦
          rw (Returns, try_into, succeeds, found)
            (Gains-same log (given (system.query_interface p iid w).2 log)
              (one_of (system.query_interface p iid w).2) (one_of (some r))
              (Gains-given (system.query_interface p iid w).2 log)
              (λ q. ap (λ x. one_of x q) found))
    ]
  ]

  -- The object of `activate_instance` is there as long as the call looks at it.
  object-Gains :
      (object : ComPtr) (w : World) (log : Log)
      → Gains log
          (drop (logged system) object (query (logged system) object iid (w, given object log)).0).1
          (one_of (query (logged system) object iid (w, given object log)).1)
  object-Gains object w log =
      let after = query (logged system) object iid (w, given object log) in
      let (s1, n1) = Gains-given object log in
      let (s2, n2) = query-Gains object w (given object log) in
      let (s3, n3) =
        drop-Gains system object after.0.0 after.0.1 (λ r. omega (arith, n1 r, n2 r)) in
      ((λ h. s3 (s2 (s1 h))), (λ q. omega (arith, n1 q, n2 q, n3 q)))

  failed-Gains :
      (object : ComPtr) (w : World) (log : Log)
      → Gains log (drop (logged system) object (w, given object log)).1 (λ q. 0)
  failed-Gains object w log =
      let (s1, n1) = Gains-given object log in
      let (s2, n2) = drop-Gains system object w (given object log) (λ r. omega (arith, n1 r)) in
      ((λ h. s2 (s1 h)), (λ q. omega (arith, n1 q, n2 q)))

  pub activate-Gains :
      (p : ℕ) (w : World) (log : Log)
      → Returns
          (activate_instance (logged system) (some p) iid (w, log))
          (λ r. Gains log r.0.1 (holds r.1))
  unfolding activate_instance
  activate-Gains p w log =
      let w1 = (system.activate_instance p w).0 in
      let object = (system.activate_instance p w).2 in
      elim (Bool-cases (is_ok (system.activate_instance p w).1)) [
        | inl succeeds ↦ rw (Returns, activate_instance, succeeds) (object-Gains object w1 log)
        | inr fails ↦ rw (Returns, activate_instance, fails) (failed-Gains object w1 log)
      ]

  -- What an attempt of `factory` gives.
  attempt-Gains :
      (code : ErrorCode) (made : ComPtr) (log : Log)
      → (is_ok code ≡ false → made ≡ none)
      → Gains log (given made log) (holds (and_then code made))
  unfolding and_then
  attempt-Gains code made log nothing = elim (Bool-cases (is_ok code)) [
    | inl succeeds ↦ rw succeeds (Gains-given made log)
    | inr fails ↦ rw (fails, nothing fails) ((λ h. h), (λ q. omega arith))
  ]

  pub factory-Gains :
      (name : Text) (w : World) (log : Log)
      → Gains log
          (factory (logged system) name iid (w, log)).0.1
          (holds (factory (logged system) name iid (w, log)).1)
  unfolding factory
  factory-Gains name w log =
      let first = system.get_activation_factory name iid w in
      let w1 = system.increment_usage first.0 in
      let second = system.get_activation_factory name iid w1 in
      elim (Bool-cases (first.1.bits == not_initialized.bits)) [
        | inr other ↦ rw other (attempt-Gains first.1 first.2 log (law.factory_fails name iid w))
        | inl not_there ↦
            let failed = not_initialized-fails first.1 not_there in
            let gone = law.factory_fails name iid w failed in
            rw (not_there, gone)
              (attempt-Gains second.1 second.2 log (law.factory_fails name iid w1))
      ]
