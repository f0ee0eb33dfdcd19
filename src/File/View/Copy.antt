-- ===== src/File/View/Copy.antt =====
-- What `copy_as` reads.
use winrt_rs.Base.{
  add32, ℕ, zero, suc, ◌+◌, ◌/◌, ◌%◌, ◌^◌, ◌≤◌, ◌<◌, ◌≡◌, refl, ap, ◌∙◌, List, [], ◌∷◌, ◌++◌,
  length, drop, take, length-append, arith, u32_mod, ok,
}
use winrt_rs.Base.{Panic, panic, assertion, overflow, Bool-cases, ltb, inl, inr}
use native.Mathlib.Nat.{pow-suc}
use winrt_rs.File.View.{assert_proper_length, slice_from, le, copy_as}

-- The `n` little-endian bytes of a number.
unfoldable pub to_le : ℕ → ℕ → List ℕ
to_le zero v = []
to_le (suc n) v = (v % 256) ∷ to_le n (v / 256)

pub length-to_le : (n v : ℕ) → length (to_le n v) ≡ n
unfolding to_le
length-to_le zero v = refl
length-to_le (suc n) v = omega (arith, length-to_le n (v / 256))

pub le-to_le : (n v : ℕ) (rest : List ℕ) → v < 256 ^ n → le n (to_le n v ++ rest) ≡ v
unfolding le to_le
le-to_le zero v rest h = omega arith
le-to_le (suc n) v rest h =
    omega (arith, pow-suc 256 n, le-to_le n (v / 256) rest (omega (arith, pow-suc 256 n)))

pub drop-append : (xs ys : List ℕ) → drop (length xs) (xs ++ ys) ≡ ys
drop-append [] ys = refl
drop-append (x ∷ xs) ys = drop-append xs ys

pub take-append : (xs ys : List ℕ) → take (length xs) (xs ++ ys) ≡ xs
take-append [] ys = refl
take-append (x ∷ xs) ys = ap (λ rest. x ∷ rest) (take-append xs ys)

pub copy_as-eq-ok :
    (size : ℕ) (bytes : List ℕ) (offset : ℕ)
    → length bytes < u32_mod
    → offset + size ≤ length bytes
    → copy_as size bytes offset ≡ ok (le size (drop offset bytes))
unfolding copy_as assert_proper_length slice_from add32
copy_as-eq-ok size bytes offset small fits = ground arith

-- A file below 4 GB gives back, at any offset, the number whose bytes stand there.
pub copy_as-to_le :
    (size v : ℕ) (front back : List ℕ)
    → v < 256 ^ size
    → length front + size + length back < u32_mod
    → copy_as size (front ++ (to_le size v ++ back)) (length front) ≡ ok v
copy_as-to_le size v front back h small =
    copy_as-eq-ok size (front ++ (to_le size v ++ back)) (length front) (omega (arith, total))
      (omega (arith, total))
    ∙ rw drop-append (ap ok (le-to_le size v back h))
  where
    total : length (front ++ (to_le size v ++ back)) ≡ length front + (size + length back)
    total = omega (
      arith,
      length-append front (to_le size v ++ back),
      length-append (to_le size v) back,
      length-to_le size v,
    )

pub copy_as-eq-panic :
    (size : ℕ) (bytes : List ℕ) (offset : ℕ)
    → length bytes < u32_mod
    → length bytes < offset + size
    → (e : Panic) × (copy_as size bytes offset ≡ panic e)
unfolding copy_as assert_proper_length slice_from add32
copy_as-eq-panic size bytes offset small out = elim (Bool-cases (ltb (offset + size) u32_mod)) [
  | inl fits ↦ (assertion, ground arith)
  | inr over ↦ (overflow, ground arith)
]
