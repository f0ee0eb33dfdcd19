-- ===== src/Examples/Objects.antt =====
-- A program that gets a factory, activates an object with it, and drops some of its pointers.
use winrt_rs.Base.{
  ℕ, ◌+◌, ◌-◌, ◌≡◌, refl, ◌⊎◌, true, ◌&&◌, ◌==◌, if◌then◌else◌, some, List, [], ◌∷◌, ok, panic,
  explicit,
}
use winrt_rs.Text.{ascii}
use winrt_rs.Guid.{Guid, from_values}
use winrt_rs.Com.{ErrorCode, Com, Documented, ComPtr, one_of, is_ok}
use winrt_rs.Com.Logged.{logged}
use winrt_rs.Com.Program.{Step, State, run, bare, Balanced, run-Balanced}

abbrev World : Type 0
World = ℕ → ℕ

abbrev fine : ErrorCode
fine = record { bits = 0 }

fine-is_ok : is_ok fine ≡ true
unfolding is_ok
fine-is_ok = refl

-- The factory is object 1, which makes object 2; each object is every interface of itself. With its last
-- reference, object 2 lets go of the factory.
abbrev more : ComPtr → World → World
more p w = λ q. w q + one_of p q

abbrev let_go : (p : ℕ) → World → World
let_go p w = λ q. w q - one_of (some p) q

abbrev system : Com World
system = record {
  add_ref = λ p w. more (some p) w;
  release = λ p w. if (p == 2) && (w 2 == 1) then let_go 1 (let_go p w) else let_go p w;
  query_interface = λ p iid w. (more (some p) w, fine, some p);
  activate_instance = λ p w. (more (some 2) (more (some 1) w), fine, some 2);
  get_activation_factory = λ name iid w. (more (some 1) w, fine, some 1);
  increment_usage = λ w. w;
}

system-Documented : Documented system
system-Documented = record {
  query_succeeds = λ p iid w e h. cc;
  query_fails = λ p iid w h. let g = fine-is_ok in absurd cc;
  factory_fails = λ name iid w h. let g = fine-is_ok in absurd cc;
}

abbrev iid : Guid
iid = from_values 0x35 0 0 []

abbrev steps : List Step
steps =
    Step.gets_factory (ascii "Windows.Foundation.Uri") iid
    ∷ Step.activates 0 iid
    ∷ Step.clones 0
    ∷ Step.drops 2
    ∷ Step.tries 0 iid
    ∷ []

abbrev nothing : World
nothing q = 0

run-Balanced_example :
    ((last : State (logged system)) × (run (logged system) steps ((nothing, []), []) ≡ ok last)
      × (run system steps (nothing, []) ≡ ok (bare system last))
      × Balanced system last)
    ⊎ (run (logged system) steps ((nothing, []), []) ≡ panic explicit)
run-Balanced_example =
    run-Balanced system system-Documented steps ((nothing, []), []) (tt, (λ o. refl))
