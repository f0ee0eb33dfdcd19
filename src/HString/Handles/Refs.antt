-- ===== src/HString/Handles/Refs.antt =====
-- How many handles point to a block, and what each handle stands for.
use winrt_rs.Base.{
  ℕ, zero, suc, ◌+◌, ◌<◌, ◌≡◌, refl, ap, ◌∙◌, Option, none, some, List, [], ◌∷◌, arith, ◌==◌,
  if◌then◌else◌, get_elem?, set, ok,
}
use winrt_rs.HString
use winrt_rs.HString.{Memory, HString, units_at, as_wide}
use winrt_rs.HString.Handles.{remove}

-- 1 for a handle that points there.
abbrev pub points : ℕ → Option ℕ → ℕ
points p none = 0
points p (some q) = if q == p then 1 else 0

unfoldable pub refs : ℕ → List HString → ℕ
refs p [] = 0
refs p (string ∷ handles) = points p string.ptr + refs p handles

pub refs-cons :
    (p : ℕ) (string : HString) (handles : List HString)
    → refs p (string ∷ handles) ≡ points p string.ptr + refs p handles
unfolding refs
refs-cons p string handles = refl

pub as_wide-some :
    (memory : Memory) (p : ℕ) → as_wide memory (record { ptr = some p }) ≡ units_at memory p
unfolding as_wide
as_wide-some memory p = refl

pub refs-set :
    (p i : ℕ) (handles : List HString) (old string : HString)
    → get_elem? handles i ≡ some old
    → refs p (set handles i string) + points p old.ptr ≡ refs p handles + points p string.ptr
unfolding refs
refs-set p i [] old string h = cc
refs-set p zero (x ∷ handles) old string h = let same : x ≡ old = cc in rw same (omega arith)
refs-set p (suc i) (x ∷ handles) old string h = omega (arith, refs-set p i handles old string h)

pub refs-remove :
    (p i : ℕ) (handles : List HString) (old : HString)
    → get_elem? handles i ≡ some old
    → refs p (remove handles i) + points p old.ptr ≡ refs p handles
unfolding refs
refs-remove p i [] old h = cc
refs-remove p zero (x ∷ handles) old h = let same : x ≡ old = cc in rw same (omega arith)
refs-remove p (suc i) (x ∷ handles) old h = omega (arith, refs-remove p i handles old h)

pub points_self : (p : ℕ) → points p (some p) ≡ 1
points_self p = ground arith

pub refs-pos :
    (p i : ℕ) (handles : List HString) (string : HString)
    → get_elem? handles i ≡ some string
    → string.ptr ≡ some p
    → 0 < refs p handles
refs-pos p i handles string h e =
    let here = refs-remove p i handles string h in
    let one = points_self p in omega (arith, rw e at here, one)

-- Each handle stands for the string at its place.
abbrev pub Views : Memory → List HString → List (List ℕ) → Type 0
Views memory [] [] = Unit {0}
Views memory [] (s ∷ strings) = ⊥
Views memory (h ∷ handles) [] = ⊥
Views memory (h ∷ handles) (s ∷ strings) = (as_wide memory h ≡ ok s) × Views memory handles strings

pub Views-get :
    (memory : Memory) (handles : List HString) (strings : List (List ℕ)) (i : ℕ) (h : HString)
    → Views memory handles strings
    → get_elem? handles i ≡ some h
    → (s : List ℕ) × (get_elem? strings i ≡ some s) × (as_wide memory h ≡ ok s)
Views-get memory [] strings i h v e = absurd (cc)
Views-get memory (x ∷ handles) [] i h v e = absurd v
Views-get memory (x ∷ handles) (s ∷ strings) zero h v e =
    let same : x ≡ h = cc in (s, refl, rw same at v.0)
Views-get memory (x ∷ handles) (s ∷ strings) (suc i) h v e =
    Views-get memory handles strings i h v.1 e

pub Views-none :
    (memory : Memory) (handles : List HString) (strings : List (List ℕ)) (i : ℕ)
    → Views memory handles strings
    → get_elem? handles i ≡ none
    → (get_elem? strings i ≡ none) × (set strings i [] ≡ strings) × (remove strings i ≡ strings)
Views-none memory [] [] i v e = (refl, refl, refl)
Views-none memory [] (s ∷ strings) i v e = absurd v
Views-none memory (x ∷ handles) [] i v e = absurd v
Views-none memory (x ∷ handles) (s ∷ strings) zero v e = absurd (cc)
Views-none memory (x ∷ handles) (s ∷ strings) (suc i) v e =
    let (a, b, c) = Views-none memory handles strings i v.1 e in
    (a, ap (λ xs. s ∷ xs) b, ap (λ xs. s ∷ xs) c)

pub Views-set :
    (memory : Memory) (handles : List HString) (strings : List (List ℕ)) (i : ℕ)
    → Views memory handles strings
    → Views memory (set handles i HString.new) (set strings i [])
unfolding as_wide
Views-set memory [] [] i v = tt
Views-set memory [] (s ∷ strings) i v = absurd v
Views-set memory (x ∷ handles) [] i v = absurd v
Views-set memory (x ∷ handles) (s ∷ strings) zero v = (refl, v.1)
Views-set memory (x ∷ handles) (s ∷ strings) (suc i) v =
    (v.0, Views-set memory handles strings i v.1)

pub Views-remove :
    (memory : Memory) (handles : List HString) (strings : List (List ℕ)) (i : ℕ)
    → Views memory handles strings
    → Views memory (remove handles i) (remove strings i)
Views-remove memory [] [] i v = tt
Views-remove memory [] (s ∷ strings) i v = absurd v
Views-remove memory (x ∷ handles) [] i v = absurd v
Views-remove memory (x ∷ handles) (s ∷ strings) zero v = v.1
Views-remove memory (x ∷ handles) (s ∷ strings) (suc i) v =
    (v.0, Views-remove memory handles strings i v.1)

-- A change of memory that the handles do not see.
pub Views-frame :
    (memory memory' : Memory) (handles : List HString) (strings : List (List ℕ))
    → ((p : ℕ) → 0 < refs p handles → units_at memory' p ≡ units_at memory p)
    → Views memory handles strings
    → Views memory' handles strings
unfolding refs as_wide
Views-frame memory memory' [] [] same v = tt
Views-frame memory memory' [] (s ∷ strings) same v = absurd v
Views-frame memory memory' (x ∷ handles) [] same v = absurd v
Views-frame memory memory' (x ∷ handles) (s ∷ strings) same v = (
  seen x.ptr v.0 (λ p e. same p e),
  Views-frame memory memory' handles strings (λ p h. same p (omega arith)) v.1,
)
  where
    seen :
        (ptr : Option ℕ)
        → as_wide memory (record { ptr = ptr }) ≡ ok s
        → ((p : ℕ) → 0 < points p ptr + refs p handles → units_at memory' p ≡ units_at memory p)
        → as_wide memory' (record { ptr = ptr }) ≡ ok s
    seen none v same = v
    seen (some p) v same = same p (omega (arith, points_self p)) ∙ v
