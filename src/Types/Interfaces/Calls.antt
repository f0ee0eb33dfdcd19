-- ===== src/Types/Interfaces/Calls.antt =====
-- The methods that a type has of all its interfaces: for each name, the first one.
use winrt_rs.Base.{
  ◌≡◌, refl, sym, ap, ◌∙◌, inl, inr, true, false, Bool-cases, List, [], ◌∷◌, ◌++◌, if◌then◌else◌,
  take, bytes_eq, bytes_eq→eq,
}
use winrt_rs.Text.{Text}
use winrt_rs.Types.Required.{InterfaceKind}
use winrt_rs.Types.Method.{Method}
use winrt_rs.Types.Interfaces.{
  RequiredInterface, contains, Call, call_of, methods_calls, interfaces_calls, to_method_calls,
}

abbrev pub called : Call → Text
called (Call.through_default method) = method.name
called (Call.through method interface) = method.name
called (Call.static method interface) = method.name

called-call_of :
    (interface : RequiredInterface) (method : Method) (kind : InterfaceKind)
    → called (call_of interface method kind) ≡ method.name
called-call_of interface method InterfaceKind.default = refl
called-call_of interface method InterfaceKind.non_default = refl
called-call_of interface method InterfaceKind.overrides = refl
called-call_of interface method InterfaceKind.statics = refl

-- All methods of all interfaces, in their order.
unfoldable pub calls_from : RequiredInterface → List Method → List Call
calls_from interface [] = []
calls_from interface (method ∷ rest) =
    call_of interface method interface.kind ∷ calls_from interface rest

unfoldable pub all_calls : List RequiredInterface → List Call
all_calls [] = []
all_calls (interface ∷ rest) = calls_from interface interface.methods ++ all_calls rest

-- Those of one name.
unfoldable pub calls_named : Text → List Call → List Call
calls_named name [] = []
calls_named name (call ∷ rest) =
    let later = calls_named name rest in if bytes_eq (called call) name then call ∷ later else later

-- The first call of each name that was not seen before.
unfoldable firsts : (seen : List Text) → List Call → List Call
firsts seen [] = []
firsts seen (call ∷ rest) = elim (contains seen (called call)) [
  | true ↦ firsts seen rest
  | false ↦ call ∷ firsts (called call ∷ seen) rest
]

firsts_old :
    (seen : List Text) (call : Call) (rest : List Call)
    → contains seen (called call) ≡ true
    → firsts seen (call ∷ rest) ≡ firsts seen rest
unfolding firsts
firsts_old seen call rest old = rw (firsts, old) refl

firsts_new :
    (seen : List Text) (call : Call) (rest : List Call)
    → contains seen (called call) ≡ false
    → firsts seen (call ∷ rest) ≡ call ∷ firsts (called call ∷ seen) rest
unfolding firsts
firsts_new seen call rest new = rw (firsts, new) refl

methods_calls-firsts :
    (interface : RequiredInterface) (methods : List Method) (seen : List Text) (rest : List Call)
    → (methods_calls interface methods seen).0
        ++ firsts (methods_calls interface methods seen).1 rest
      ≡ firsts seen (calls_from interface methods ++ rest)
unfolding methods_calls calls_from
methods_calls-firsts interface [] seen rest = refl
methods_calls-firsts interface (method ∷ methods) seen rest =
    let call = call_of interface method interface.kind in
    let same = called-call_of interface method interface.kind in
    let later = calls_from interface methods ++ rest in
    elim (Bool-cases (contains seen method.name)) [
      | inl old ↦
          rw (methods_calls, old) (methods_calls-firsts interface methods seen rest)
          ∙ sym (firsts_old seen call later (ap (contains seen) same ∙ old))
      | inr new ↦
          rw (methods_calls, new)
            (ap (λ calls. call ∷ calls)
              (methods_calls-firsts interface methods (method.name ∷ seen) rest))
          ∙ ap (λ n. call ∷ firsts (n ∷ seen) later) (sym same)
          ∙ sym (firsts_new seen call later (ap (contains seen) same ∙ new))
    ]

interfaces_calls-firsts :
    (interfaces : List RequiredInterface) (seen : List Text)
    → interfaces_calls interfaces seen ≡ firsts seen (all_calls interfaces)
unfolding interfaces_calls firsts all_calls
interfaces_calls-firsts [] seen = refl
interfaces_calls-firsts (interface ∷ rest) seen =
    ap (λ later. (methods_calls interface interface.methods seen).0 ++ later)
      (interfaces_calls-firsts rest (methods_calls interface interface.methods seen).1)
    ∙ methods_calls-firsts interface interface.methods seen (all_calls rest)

calls_named_this :
    (name : Text) (call : Call) (rest : List Call)
    → bytes_eq (called call) name ≡ true
    → calls_named name (call ∷ rest) ≡ call ∷ calls_named name rest
unfolding calls_named
calls_named_this name call rest this = rw (calls_named, this) refl

calls_named_other :
    (name : Text) (call : Call) (rest : List Call)
    → bytes_eq (called call) name ≡ false
    → calls_named name (call ∷ rest) ≡ calls_named name rest
unfolding calls_named
calls_named_other name call rest other = rw (calls_named, other) refl

firsts-named :
    (name : Text) (seen : List Text) (calls : List Call)
    → calls_named name (firsts seen calls)
      ≡ (if contains seen name then [] else take 1 (calls_named name calls))
unfolding firsts calls_named
firsts-named name seen [] = elim (Bool-cases (contains seen name)) [
  | inl old ↦ rw old refl
  | inr new ↦ rw new refl
]
firsts-named name seen (call ∷ calls) = elim (Bool-cases (bytes_eq (called call) name)) [
  | inl this ↦
      let same = bytes_eq→eq (called call) name this in
      elim (Bool-cases (contains seen (called call))) [
        | inl old ↦
            let old' = ap (contains seen) (sym same) ∙ old in
            ap (calls_named name) (firsts_old seen call calls old)
            ∙ firsts-named name seen calls
            ∙ rw old' refl
        | inr new ↦
            let new' = ap (contains seen) (sym same) ∙ new in
            let known : contains (called call ∷ seen) name ≡ true = rw this refl in
            ap (calls_named name) (firsts_new seen call calls new)
            ∙ calls_named_this name call (firsts (called call ∷ seen) calls) this
            ∙ ap (λ rest. call ∷ rest)
                (firsts-named name (called call ∷ seen) calls
                  ∙ ap (λ k. if k then [] else take 1 (calls_named name calls)) known)
            ∙ rw (new', calls_named, this) refl
      ]
  | inr other ↦
      let skipped =
        ap (λ found. if contains seen name then [] else take 1 found)
          (sym (calls_named_other name call calls other)) in
      elim (Bool-cases (contains seen (called call))) [
        | inl old ↦
            ap (calls_named name) (firsts_old seen call calls old)
            ∙ firsts-named name seen calls
            ∙ skipped
        | inr new ↦
            let alike : contains (called call ∷ seen) name ≡ contains seen name = rw other refl in
            ap (calls_named name) (firsts_new seen call calls new)
            ∙ calls_named_other name call (firsts (called call ∷ seen) calls) other
            ∙ firsts-named name (called call ∷ seen) calls
            ∙ ap (λ known. if known then [] else take 1 (calls_named name calls)) alike
            ∙ skipped
      ]
]

-- Of the methods of all interfaces that have one name, `to_method_tokens` takes exactly the first, in
-- the order of the interfaces and of the methods in each: none where there is none, and one where there
-- are several.
pub to_method_calls-named :
    (interfaces : List RequiredInterface) (name : Text)
    → calls_named name (to_method_calls interfaces)
      ≡ take 1 (calls_named name (all_calls interfaces))
unfolding to_method_calls
to_method_calls-named interfaces name =
    ap (calls_named name) (interfaces_calls-firsts interfaces [])
    ∙ firsts-named name [] (all_calls interfaces)
