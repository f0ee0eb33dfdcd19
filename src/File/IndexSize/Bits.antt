-- ===== src/File/IndexSize/Bits.antt =====
-- `bits_needed` is the number of bits that tell the tables of a list apart.
use winrt_rs.Base.{
  sub-eq-ok, ℕ, zero, suc, ◌+◌, ◌-◌, ◌*◌, ◌/◌, ◌^◌, ◌≤◌, ◌<◌, ◌≡◌, arith, Bool-cases, ◌==◌, inl,
  inr, Returns, Result, ok, panic, sub-eq-ok,
}
use native.Mathlib.Nat.{pow-suc}
use winrt_rs.File.IndexSize.{bits_loop, bits_needed}

-- The loop leaves with the position of the highest set bit of `value`, counted from `bits`.
abbrev Highest : (value bits : ℕ) → ℕ → Type 0
Highest value bits r = (k : ℕ) × (r ≡ bits + k) × (2 ^ k ≤ value) × (value < 2 * 2 ^ k)

Highest-half :
    (value bits : ℕ) (r : Result ℕ)
    → Returns r (Highest (value / 2) (bits + 1))
    → Returns r (Highest value bits)
Highest-half value bits (ok r) (k, e, lo, hi) =
    (suc k, omega arith, omega (arith, pow-suc 2 k), omega (arith, pow-suc 2 k))
Highest-half value bits (panic p) h = h

bits_loop-Highest :
    (fuel value bits : ℕ)
    → value < fuel
    → 1 ≤ value
    → Returns (bits_loop fuel value bits) (Highest value bits)
unfolding bits_loop
bits_loop-Highest zero value bits enough pos = absurd (omega arith)
bits_loop-Highest (suc fuel) value bits enough pos = elim (Bool-cases (value / 2 == 0)) [
  | inl last ↦ rw last (0, omega arith, omega arith, ground arith)
  | inr more ↦ rw more (
      Highest-half value bits _
        (bits_loop-Highest fuel (value / 2) (bits + 1) (omega arith) (ground arith)))
]

-- `n` tables are told apart by the bits, and one bit less would not do.
abbrev pub Tells : (n bits : ℕ) → Type 0
Tells n bits = (n ≤ 2 ^ bits) × (2 ^ bits < 2 * n)

Highest-Tells : (n : ℕ) (r : Result ℕ) → Returns r (Highest n 1) → Returns r (Tells (n + 1))
Highest-Tells n (ok r) (k, e, lo, hi) =
    let e' : r ≡ suc k = omega arith in
    rw e' (omega (arith, pow-suc 2 k), omega (arith, pow-suc 2 k))
Highest-Tells n (panic p) h = h

-- For two tables or more, `bits_needed` returns, and what it returns is the least number of bits
-- that gives each table of the list a tag of its own.
pub bits_needed-Tells : (n : ℕ) → 2 ≤ n → Returns (bits_needed n) (Tells n)
unfolding bits_needed
bits_needed-Tells (suc n) h =
    let enter : bits_needed (suc n) ≡ bits_loop (suc n + 1) n 1 =
      let less : suc n - 1 ≡ n = omega arith in rw (sub-eq-ok (suc n) 1 (omega arith), less) in
    let next : n + 1 ≡ suc n = omega arith in
    rw enter (
      rw next at (
        Highest-Tells n (bits_loop (suc n + 1) n 1)
          (bits_loop-Highest (suc n + 1) n 1 (omega arith) (omega arith))))
bits_needed-Tells zero h = absurd (omega arith)
