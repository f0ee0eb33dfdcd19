-- ===== src/File/IndexSize/Fits.antt =====
-- `composite_index_size` gives the width that every index into the tables fits.
use winrt_rs.Base.{
  ℕ, zero, suc, ◌+◌, ◌-◌, ◌*◌, ◌^◌, ◌≤◌, ◌<◌, ◌≡◌, refl, ap, ◌∙◌, ◌⊎◌, inl, inr, true, List, [],
  ◌∷◌, arith, if◌then◌else◌, lt→ltb, Bool-cases, length, All, Result, ok, panic, Returns, sub-eq-ok,
}
use native.Mathlib.Decide.{dec_le}
use native.Mathlib.Nat.{pow-suc, one-le-pow}
use winrt_rs.File.TableData.{TableData}
use winrt_rs.File.IndexSize.{small, all_small, bits_needed, composite_index_size}
use winrt_rs.File.IndexSize.Bits.{Tells, bits_needed-Tells}

pow_split : (k j n : ℕ) → j + k ≡ n → 2 ^ j * 2 ^ k ≡ 2 ^ n
pow_split zero j n e = let e' : j ≡ n = omega arith in rw e' (omega arith)
pow_split (suc k) j n e = omega (
  arith,
  pow_split k (suc j) n (omega arith),
  ap (λ (t : ℕ). 2 ^ j * t) (pow-suc 2 k),
  ap (λ (t : ℕ). t * 2 ^ k) (pow-suc 2 j),
)

-- A coded index is a row above its tag: row 0 stands for none, and the rows count from 1. All those
-- of the table fit two bytes.
abbrev pub Coded : (bits : ℕ) → TableData → Type 0
Coded bits t = (row tag : ℕ) → row ≤ t.row_count → tag < 2 ^ bits → row * 2 ^ bits + tag < 2 ^ 16

small→Coded :
    (bits shift : ℕ) (t : TableData)
    → 2 ^ shift * 2 ^ bits ≡ 2 ^ 16
    → t.row_count < 2 ^ shift
    → Coded bits t
small→Coded bits shift t e h row tag le lt = grind arith

Coded→small :
    (bits shift : ℕ) (t : TableData)
    → 2 ^ shift * 2 ^ bits ≡ 2 ^ 16
    → Coded bits t
    → t.row_count < 2 ^ shift
Coded→small bits shift t e h =
    let fits = h t.row_count (2 ^ bits - 1) (omega arith) (omega (arith, one-le-pow bits 2)) in
    grind (arith, one-le-pow bits 2)

shift_of : (bits n : ℕ) → Tells n bits → n ≤ 2 ^ 16 → bits ≤ 16
shift_of bits n (enough, least) small = elim (dec_le bits 16) [
  | yes h ↦ h
  | no h ↦ absurd (
      omega (
        arith,
        pow_split 17 (bits - 17) bits (omega arith),
        one-le-pow (bits - 17) 2 (omega arith),
      ))
]

module _ (bits shift : ℕ) (e : 2 ^ shift * 2 ^ bits ≡ 2 ^ 16) where
  both_small→Coded : (ts : List TableData) → all_small ts shift ≡ true → All (Coded bits) ts
  unfolding all_small small
  both_small→Coded [] h = tt
  both_small→Coded (t ∷ ts) h =
      (small→Coded bits shift t e (ground arith), both_small→Coded ts (ground arith))

  Coded→all_small : (ts : List TableData) → All (Coded bits) ts → all_small ts shift ≡ true
  unfolding all_small small
  Coded→all_small [] h = refl
  Coded→all_small (t ∷ ts) h =
      rw (lt→ltb _ _ (Coded→small bits shift t e h.0)) (Coded→all_small ts h.1)

-- For a list of 2 to 2 ^ 16 tables, `composite_index_size` returns; with `bits` the least number of
-- bits that tells the tables apart, the width is 2 exactly when every coded index into the tables
-- fits two bytes, and 4 otherwise.
pub composite_index_size-Coded :
    (ts : List TableData)
    → 2 ≤ length ts
    → length ts ≤ 2 ^ 16
    → (bits size : ℕ) × (composite_index_size ts ≡ ok size)
      × Tells (length ts) bits
      × (((size ≡ 2) × All (Coded bits) ts) ⊎ ((size ≡ 4) × (¬ All (Coded bits) ts)))
composite_index_size-Coded ts some_tables few =
    returned (bits_needed (length ts)) refl (bits_needed-Tells (length ts) some_tables)
  where
    returned :
        (r : Result ℕ)
        → bits_needed (length ts) ≡ r
        → Returns r (Tells (length ts))
        → (bits size : ℕ) × (composite_index_size ts ≡ ok size)
          × Tells (length ts) bits
          × (((size ≡ 2) × All (Coded bits) ts) ⊎ ((size ≡ 4) × (¬ All (Coded bits) ts)))
    returned (panic p) e h = absurd h
    returned (ok bits) e tells =
        let fits = shift_of bits (length ts) tells few in
        let shift = 16 - bits in
        let whole = pow_split bits shift 16 (omega arith) in
        let enter : composite_index_size ts ≡ ok (if all_small ts shift then 2 else 4) =
          unfold composite_index_size in rw (e, sub-eq-ok 16 bits fits) in
        elim (Bool-cases (all_small ts shift)) [
          | inl small ↦ (
            bits,
            2,
            enter ∙ rw small,
            tells,
            inl (refl, both_small→Coded bits shift whole ts small),
          )
          | inr large ↦ (
            bits,
            4,
            enter ∙ rw large,
            tells,
            inr (refl, λ h. cc (Coded→all_small bits shift whole ts h)),
          )
        ]
