-- ===== src/HString/Memory.antt =====
-- What a write to one block leaves of the others.
use winrt_rs.Base.{
  ℕ, zero, suc, ◌<◌, ◌≡◌, refl, ap, ◌≢◌, Option, none, some, List, [], ◌∷◌, ◌++◌, arith, length,
  get_elem?, set, take, get_elem?-eq-none,
}
use winrt_rs.HString.{Header, Memory, cell}

module _ {A : Type 0} where
  get_elem?-set_ne :
      (xs : List A) (i j : ℕ) (v : A) → i ≢ j → get_elem? (set xs i v) j ≡ get_elem? xs j
  get_elem?-set_ne [] i j v h = refl
  get_elem?-set_ne (x ∷ xs) zero zero v h = absurd (h refl)
  get_elem?-set_ne (x ∷ xs) zero (suc j) v h = refl
  get_elem?-set_ne (x ∷ xs) (suc i) zero v h = refl
  get_elem?-set_ne (x ∷ xs) (suc i) (suc j) v h = get_elem?-set_ne xs i j v (λ e. h (ap suc e))

  pub get_elem?-set_self :
      (xs : List A) (i : ℕ) (v : A) → i < length xs → get_elem? (set xs i v) i ≡ some v
  get_elem?-set_self [] i v h = absurd (omega arith)
  get_elem?-set_self (x ∷ xs) zero v h = refl
  get_elem?-set_self (x ∷ xs) (suc i) v h = get_elem?-set_self xs i v (omega arith)

  get_elem?-append_self : (xs : List A) (v : A) → get_elem? (xs ++ (v ∷ [])) (length xs) ≡ some v
  get_elem?-append_self [] v = refl
  get_elem?-append_self (x ∷ xs) v = get_elem?-append_self xs v

  get_elem?-append_ne :
      (xs : List A) (v : A) (j : ℕ) → j ≢ length xs → get_elem? (xs ++ (v ∷ [])) j ≡ get_elem? xs j
  get_elem?-append_ne [] v zero h = absurd (h refl)
  get_elem?-append_ne [] v (suc j) h = refl
  get_elem?-append_ne (x ∷ xs) v zero h = refl
  get_elem?-append_ne (x ∷ xs) v (suc j) h = get_elem?-append_ne xs v j (λ e. h (ap suc e))

  pub set-append : (xs : List A) (v w : A) → set (xs ++ (v ∷ [])) (length xs) w ≡ xs ++ (w ∷ [])
  set-append [] v w = refl
  set-append (x ∷ xs) v w = ap (λ ys. x ∷ ys) (set-append xs v w)

  pub take-set : (n : ℕ) (xs : List A) (v : A) → take n (set xs n v) ≡ take n xs
  take-set zero xs v = refl
  take-set (suc n) [] v = refl
  take-set (suc n) (x ∷ xs) v = ap (λ ys. x ∷ ys) (take-set n xs v)

  pub take-set_next :
      (n : ℕ) (xs : List A) (v : A)
      → n < length xs
      → take (suc n) (set xs n v) ≡ take n xs ++ (v ∷ [])
  take-set_next n [] v h = absurd (omega arith)
  take-set_next zero (x ∷ xs) v h = refl
  take-set_next (suc n) (x ∷ xs) v h = ap (λ ys. x ∷ ys) (take-set_next n xs v (omega arith))

pub cell-lt-length : (m : Memory) (p : ℕ) (h : Header) → cell m p ≡ some h → p < length m
unfolding cell
cell-lt-length [] p h e = absurd (cc)
cell-lt-length (c ∷ m) zero h e = omega arith
cell-lt-length (c ∷ m) (suc p) h e = let later = cell-lt-length m p h e in omega arith

pub cell-length : (m : Memory) → cell m (length m) ≡ none
unfolding cell
cell-length m = rw (cell, get_elem?-eq-none m (length m) (omega arith)) refl

pub cell-set_self : (m : Memory) (p : ℕ) (c : Option Header) → p < length m → cell (set m p c) p ≡ c
unfolding cell
cell-set_self m p c h = rw (cell, get_elem?-set_self m p c h) refl

pub cell-set_ne : (m : Memory) (p q : ℕ) (c : Option Header) → p ≢ q → cell (set m p c) q ≡ cell m q
unfolding cell
cell-set_ne m p q c h = rw (cell, get_elem?-set_ne m p q c h) refl

pub cell-append_self : (m : Memory) (c : Option Header) → cell (m ++ (c ∷ [])) (length m) ≡ c
unfolding cell
cell-append_self m c = rw (cell, get_elem?-append_self m c) refl

pub cell-append_ne :
    (m : Memory) (c : Option Header) (q : ℕ) → q ≢ length m → cell (m ++ (c ∷ [])) q ≡ cell m q
unfolding cell
cell-append_ne m c q h = rw (cell, get_elem?-append_ne m c q h) refl
