-- ===== src/Com/Program.antt =====
-- A program that has some pointers: the references that it owes go with them.
use winrt_rs.Base.{
  ℕ, ◌+◌, ◌≡◌, refl, sym, ap, ◌∙◌, ◌⊎◌, inl, inr, Option, none, some, Option-cases, List, [], ◌∷◌,
  arith, get_elem?, set, explicit, Result, ok, panic, ◌>>=◌, Returns-ok,
}
use winrt_rs.Text.{Text}
use winrt_rs.Guid.{Guid}
use winrt_rs.Com.{
  Outcome, ComPtr, Com, Documented, drop, clone, set_abi, query, try_into, activate_instance,
  factory,
}
use winrt_rs.Com.Logged.{
  Log, owed, Sound, logged, forget, drop_unlogged, forget-query, forget-try_into,
  forget-activate_instance, forget-factory,
}
use winrt_rs.Com.Counted.{
  held, holds, held-set, one_of-le, Gains, drop-Gains, query-Gains, try_into-Gains, activate-Gains,
  factory-Gains,
}

-- What a program does with the pointer in a place, or to get a new one.
pub data Step : Type 0 where
  clones : (place : ℕ) → Step
  drops : (place : ℕ) → Step
  resets : (place : ℕ) → Step
  queries : (place : ℕ) → Guid → Step
  tries : (place : ℕ) → Guid → Step
  activates : (place : ℕ) → Guid → Step
  gets_factory : (name : Text) → Guid → Step

abbrev pub received : Outcome ComPtr → List ComPtr → List ComPtr
received (Outcome.value p) ps = p ∷ ps
received (Outcome.error code) ps = ps

module _ {World : Type 0} (system : Com World) where
  abbrev pub State : Type 0
  State = World × List ComPtr

  -- On a pointer; a new one goes to the front.
  unfoldable pub act : Step → ComPtr → State → Result State
  act (Step.clones place) p (w, ps) = let (w', q) = clone system p w in ok (w', q ∷ ps)
  act (Step.drops place) p (w, ps) = ok (drop system p w, set ps place none)
  act (Step.resets place) p (w, ps) = let (w', q) = set_abi system p w in ok (w', set ps place q)
  act (Step.queries place iid) p (w, ps) = let (w', q) = query system p iid w in ok (w', q ∷ ps)
  act (Step.tries place iid) p (w, ps) = try_into system p iid w >>= λ r. ok (r.0, received r.1 ps)
  act (Step.activates place iid) p (w, ps) =
      activate_instance system p iid w >>= λ r. ok (r.0, received r.1 ps)
  act (Step.gets_factory name iid) p (w, ps) =
      let (w', made) = factory system name iid w in ok (w', received made ps)

  -- The pointer in a place; a factory is got without one.
  abbrev pub pointer_of : Step → List ComPtr → Option ComPtr
  pointer_of (Step.clones place) ps = get_elem? ps place
  pointer_of (Step.drops place) ps = get_elem? ps place
  pointer_of (Step.resets place) ps = get_elem? ps place
  pointer_of (Step.queries place iid) ps = get_elem? ps place
  pointer_of (Step.tries place iid) ps = get_elem? ps place
  pointer_of (Step.activates place iid) ps = get_elem? ps place
  pointer_of (Step.gets_factory name iid) ps = some none

  -- A program has no pointer in another place, and its step there does nothing.
  unfoldable pub step : Step → State → Result State
  step s (w, ps) = elim (pointer_of s ps) [ some p ↦ act s p (w, ps) | none ↦ ok (w, ps) ]

  unfoldable pub run : List Step → State → Result State
  run [] state = ok state
  run (s ∷ rest) state = step s state >>= run rest

module _ {World : Type 0} (system : Com World) where
  -- The log in a state owes one reference for each pointer of the program, and no more.
  abbrev pub Balanced : State (logged system) → Type 0
  Balanced ((w, log), ps) = Sound log × ((object : ℕ) → owed log object ≡ held ps object)

  -- Without the log.
  abbrev pub bare : State (logged system) → State system
  bare ((w, log), ps) = (w, ps)

  -- A step keeps the balance and does what it does without a log, or is a call on a null factory.
  Kept : Result (State (logged system)) → Result (State system) → Type 0
  Kept done plain =
      ((next : State (logged system)) × (done ≡ ok next) × (plain ≡ ok (bare next)) × Balanced next)
      ⊎ (done ≡ panic explicit)

  received-held :
      (out : Outcome ComPtr) (ps : List ComPtr) (object : ℕ)
      → held (received out ps) object ≡ holds out object + held ps object
  received-held (Outcome.value p) ps object = refl
  received-held (Outcome.error code) ps object = omega arith

  -- A call that gives a pointer out.
  Balanced-received :
      (w w' : World) (log log' : Log) (ps : List ComPtr) (out : Outcome ComPtr)
      → Balanced ((w, log), ps)
      → Gains log log' (holds out)
      → Balanced ((w', log'), received out ps)
  Balanced-received w w' log log' ps out (sound, even) (s, n) =
      (s sound, (λ o. omega (arith, even o, n o, received-held out ps o)))

  -- The pointer in a place is dropped.
  Balanced-dropped :
      (w : World) (log : Log) (ps : List ComPtr) (place : ℕ) (p : ComPtr)
      → get_elem? ps place ≡ some p
      → Balanced ((w, log), ps)
      → Balanced (drop (logged system) p (w, log), set ps place none)
  Balanced-dropped w log ps place p there (sound, even) =
      let (s, n) =
        drop-Gains system p w log (λ r. omega (arith, even r, one_of-le ps place p r there)) in
      (s sound, (λ o. omega (arith, even o, n o, held-set ps place p none o there)))

  module _ (law : Documented system) where
    act-Kept :
        (s : Step) (p : ComPtr) (w : World) (log : Log) (ps : List ComPtr)
        → pointer_of (logged system) s ps ≡ some p
        → Balanced ((w, log), ps)
        → Kept (act (logged system) s p ((w, log), ps)) (act system s p (w, ps))
    unfolding act Kept clone drop set_abi activate_instance
    act-Kept (Step.clones place) none w log ps there (sound, even) =
        inl (_, refl, refl, (sound, (λ o. omega (arith, even o))))
    act-Kept (Step.clones place) (some p) w log ps there (sound, even) =
        inl (_, refl, refl, (sound, (λ o. omega (arith, even o))))
    act-Kept (Step.drops place) p w log ps there balanced = inl (
      _,
      refl,
      ap (λ x. ok (x, set ps place none)) (sym (drop_unlogged system p w log)),
      Balanced-dropped w log ps place p there balanced,
    )
    act-Kept (Step.resets place) none w log ps there balanced =
        inl (_, refl, refl, Balanced-dropped w log ps place none there balanced)
    act-Kept (Step.resets place) (some p) w log ps there balanced =
        inl (_, refl, refl, Balanced-dropped w log ps place (some p) there balanced)
    act-Kept (Step.queries place iid) p w log ps there balanced = inl (
      _,
      refl,
      sym (ap (λ r. r >>= λ (w', q). ok (w', q ∷ ps)) (forget-query system iid p w log)),
      Balanced-received w (query (logged system) p iid (w, log)).0.0 log _ ps
          (Outcome.value (query (logged system) p iid (w, log)).1) balanced
          (query-Gains system law iid p w log),
    )
    act-Kept (Step.tries place iid) p w log ps there balanced =
        let (r, run, gains) =
          Returns-ok (try_into (logged system) p iid (w, log))
            (try_into-Gains system law iid p w log) in
        let plain : try_into system p iid w ≡ ok (r.0.0, r.1) =
          sym (forget-try_into system iid p w log) ∙ ap forget run in
        inl (
          (r.0, received r.1 ps),
          rw run refl,
          rw plain refl,
          Balanced-received w r.0.0 log r.0.1 ps r.1 balanced gains,
        )
    act-Kept (Step.activates place iid) none w log ps there balanced = inr refl
    act-Kept (Step.activates place iid) (some p) w log ps there balanced =
        let (r, run, gains) =
          Returns-ok (activate_instance (logged system) (some p) iid (w, log))
            (activate-Gains system law iid p w log) in
        let plain : activate_instance system (some p) iid w ≡ ok (r.0.0, r.1) =
          sym (forget-activate_instance system iid (some p) w log) ∙ ap forget run in
        inl (
          (r.0, received r.1 ps),
          rw run refl,
          rw plain refl,
          Balanced-received w r.0.0 log r.0.1 ps r.1 balanced gains,
        )
    act-Kept (Step.gets_factory name iid) p w log ps there balanced = inl (
      _,
      refl,
      sym (
          ap (λ r. r >>= λ (w', made). ok (w', received made ps))
            (forget-factory system iid name w log)),
      Balanced-received w (factory (logged system) name iid (w, log)).0.0 log _ ps
          (factory (logged system) name iid (w, log)).1 balanced
          (factory-Gains system law iid name w log),
    )

    step-Kept :
        (s : Step) (state : State (logged system))
        → Balanced state
        → Kept (step (logged system) s state) (step system s (bare state))
    unfolding step Kept
    step-Kept s ((w, log), ps) balanced = elim (Option-cases (pointer_of (logged system) s ps)) [
      | inl nothing ↦
          inl (((w, log), ps), rw (step, nothing) refl, rw (step, nothing) refl, balanced)
      | inr (p, there) ↦ rw (step, there) (act-Kept s p w log ps there balanced)
    ]

    -- Whatever the objects and the system do, as long as `QueryInterface` gives a pointer exactly if it
    -- succeeds and no factory comes with an error: from a state in which the program owes one reference for
    -- each pointer that it has, every program of clones, drops, resets, queries, conversions, activations
    -- and factories runs to its end, with the log of the references as without it, unless it activates with
    -- a null factory, which panics. At the end it owes one reference for each pointer that it has to an
    -- object, and no more; and each `Release` on the way gave back a reference that it had at that time.
    pub run-Balanced :
        (steps : List Step) (state : State (logged system))
        → Balanced state
        → ((last : State (logged system)) × (run (logged system) steps state ≡ ok last)
            × (run system steps (bare state) ≡ ok (bare last))
            × Balanced last)
          ⊎ (run (logged system) steps state ≡ panic explicit)
    unfolding run Kept
    run-Balanced [] state balanced = inl (state, refl, refl, balanced)
    run-Balanced (s ∷ rest) state balanced = elim (step-Kept s state balanced) [
      | inr fails ↦ inr (rw fails refl)
      | inl (first, done, plain, kept) ↦ elim (run-Balanced rest first kept) [
        | inr fails ↦ inr (rw done fails)
        | inl (last, ends, plain_ends, later) ↦ inl (last, rw done ends, rw plain plain_ends, later)
      ]
    ]
