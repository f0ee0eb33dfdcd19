-- ===== src/Reader/Bounds.antt =====
-- The searches for a bound return, and find it, on a column that is sorted.
use winrt_rs.Base.{
  ℕ, zero, suc, ◌+◌, ◌-◌, ◌/◌, ◌≤◌, ◌<◌, ◌≡◌, refl, sym, ◌∙◌, inl, inr, false, arith, ltb, ltb→lt,
  Bool-cases, Result, ok, Returns, u32_mod, add32-eq-ok, sub-eq-ok, Returns-map,
}
use winrt_rs.Reader.Search.{lower_loop, upper_loop, lower_bound_in, upper_bound_in}

-- Below `hi`, the cells can be read, and their values do not fall.
pub record Readable (key : ℕ → Result ℕ) (vals : ℕ → ℕ) (hi : ℕ) : Type 0 where
  pub small : hi < u32_mod
  pub reads : (i : ℕ) → i < hi → key i ≡ ok (vals i)
  pub sorted : (i j : ℕ) → i ≤ j → j < hi → vals i ≤ vals j

-- `r` parts the rows from `first` to `last` into values below `value` and values not below it.
abbrev pub LowerBound : (vals : ℕ → ℕ) (value first last r : ℕ) → Type 0
LowerBound vals value first last r =
    (first ≤ r)
    × (r ≤ last)
    × ((i : ℕ) → first ≤ i → i < r → vals i < value)
    × ((i : ℕ) → r ≤ i → i < last → value ≤ vals i)

-- `r` parts them into values not above `value` and values above it.
abbrev pub UpperBound : (vals : ℕ → ℕ) (value first last r : ℕ) → Type 0
UpperBound vals value first last r =
    (first ≤ r)
    × (r ≤ last)
    × ((i : ℕ) → first ≤ i → i < r → vals i ≤ value)
    × ((i : ℕ) → r ≤ i → i < last → value < vals i)

module _ (key : ℕ → Result ℕ) (vals : ℕ → ℕ) (hi value : ℕ) (column : Readable key vals hi) where
  -- A search in the upper or the lower half is one in the whole, by the value in the middle.
  lower_up :
      (first count r : ℕ)
      → first + count ≤ hi
      → 0 < count
      → vals (first + count / 2) < value
      → LowerBound vals value
          (first + count / 2 + 1)
          (first + count / 2 + 1 + (count - (count / 2 + 1)))
          r
      → LowerBound vals value first (first + count) r
  lower_up first count r fits pos below (lo, up, low, high) = (
    omega arith,
    omega arith,
    λ i p q. ground (arith, column.sorted i (first + count / 2), low i),
    λ i p q. high i p (omega arith),
  )

  lower_down :
      (first count r : ℕ)
      → first + count ≤ hi
      → 0 < count
      → value ≤ vals (first + count / 2)
      → LowerBound vals value first (first + count / 2) r
      → LowerBound vals value first (first + count) r
  lower_down first count r fits pos above (lo, up, low, high) = (
    omega arith,
    omega arith,
    low,
    λ i p q. ground (arith, column.sorted (first + count / 2) i, high i),
  )

  -- One round, by the value in the middle.
  lower_round_up :
      (fuel first count : ℕ)
      → first + count ≤ hi
      → 0 < count
      → vals (first + count / 2) < value
      → lower_loop key value (suc fuel) first count
        ≡ lower_loop key value fuel (first + count / 2 + 1) (count - (count / 2 + 1))
  unfolding lower_loop
  lower_round_up fuel first count fits pos below =
      let small = column.small in
      ground (
        arith,
        add32-eq-ok first (count / 2) (omega arith),
        column.reads (first + count / 2) (omega arith),
        add32-eq-ok (first + count / 2) 1 (omega arith),
      )

  lower_round_down :
      (fuel first count : ℕ)
      → first + count ≤ hi
      → 0 < count
      → ltb (vals (first + count / 2)) value ≡ false
      → lower_loop key value (suc fuel) first count ≡ lower_loop key value fuel first (count / 2)
  unfolding lower_loop
  lower_round_down fuel first count fits pos above =
      let small = column.small in
      ground (
        arith,
        add32-eq-ok first (count / 2) (omega arith),
        column.reads (first + count / 2) (omega arith),
      )

  lower_loop_done : (fuel first : ℕ) → lower_loop key value fuel first 0 ≡ ok first
  unfolding lower_loop
  lower_loop_done zero first = refl
  lower_loop_done (suc fuel) first = refl

  lower_loop-LowerBound :
      (fuel first count : ℕ)
      → count ≤ fuel
      → first + count ≤ hi
      → Returns
          (lower_loop key value fuel first count)
          (LowerBound vals value first (first + count))
  lower_loop-LowerBound fuel first zero enough fits =
      rw lower_loop_done
        (omega arith, omega arith, λ i p q. absurd (omega arith), λ i p q. absurd (omega arith))
  lower_loop-LowerBound zero first (suc n) enough fits = absurd (omega arith)
  lower_loop-LowerBound (suc fuel) first (suc n) enough fits =
      let middle = first + suc n / 2 in
      elim (Bool-cases (ltb (vals middle) value)) [
        | inl below ↦
            let lt = ltb→lt _ _ below in
            rw (lower_round_up fuel first (suc n) fits (omega arith) lt) (
              Returns-map (lower_loop key value fuel (middle + 1) (suc n - (suc n / 2 + 1)))
                (lower_loop-LowerBound fuel (middle + 1) (suc n - (suc n / 2 + 1)) (omega arith)
                  (omega arith))
                (λ r. lower_up first (suc n) r fits (omega arith) lt))
        | inr above ↦ rw (lower_round_down fuel first (suc n) fits (omega arith) above) (
            Returns-map (lower_loop key value fuel first (suc n / 2))
              (lower_loop-LowerBound fuel first (suc n / 2) (omega arith) (omega arith))
              (λ r. lower_down first (suc n) r fits (omega arith) (ground arith)))
      ]

  -- On a sorted column that can be read, `lower_bound_of` returns, and its result parts the range
  -- into the values below `value` and those not below it.
  pub lower_bound_in-LowerBound :
      (first last : ℕ)
      → first ≤ last
      → last ≤ hi
      → Returns (lower_bound_in key value first last) (LowerBound vals value first last)
  unfolding lower_bound_in
  lower_bound_in-LowerBound first last le fits =
      let e : first + (last - first) ≡ last = omega arith in
      rw (sub-eq-ok last first le) (
        rw e at
          (lower_loop-LowerBound (last - first) first (last - first) (omega arith) (omega arith)))

module _ (key : ℕ → Result ℕ) (vals : ℕ → ℕ) (hi value : ℕ) (column : Readable key vals hi) where
  upper_round_up :
      (fuel first count : ℕ)
      → first + count ≤ hi
      → 0 < count
      → ltb value (vals (first + count / 2)) ≡ false
      → upper_loop key value (suc fuel) first count
        ≡ upper_loop key value fuel (first + count / 2 + 1) (count - (count / 2 + 1))
  unfolding upper_loop
  upper_round_up fuel first count fits pos below =
      let small = column.small in
      ground (
        arith,
        add32-eq-ok first (count / 2) (omega arith),
        column.reads (first + count / 2) (omega arith),
        add32-eq-ok (first + count / 2) 1 (omega arith),
      )

  upper_round_down :
      (fuel first count : ℕ)
      → first + count ≤ hi
      → 0 < count
      → value < vals (first + count / 2)
      → upper_loop key value (suc fuel) first count ≡ upper_loop key value fuel first (count / 2)
  unfolding upper_loop
  upper_round_down fuel first count fits pos above =
      let small = column.small in
      ground (
        arith,
        add32-eq-ok first (count / 2) (omega arith),
        column.reads (first + count / 2) (omega arith),
      )

  upper_loop_done : (fuel first : ℕ) → upper_loop key value fuel first 0 ≡ ok first
  unfolding upper_loop
  upper_loop_done zero first = refl
  upper_loop_done (suc fuel) first = refl

  -- The search is the other one, for the next value.
  upper_loop-lower_loop :
      (fuel first count : ℕ)
      → count ≤ fuel
      → first + count ≤ hi
      → upper_loop key value fuel first count ≡ lower_loop key (value + 1) fuel first count
  upper_loop-lower_loop fuel first zero enough fits =
      upper_loop_done fuel first ∙ sym (lower_loop_done key vals hi (value + 1) column fuel first)
  upper_loop-lower_loop zero first (suc n) enough fits = absurd (omega arith)
  upper_loop-lower_loop (suc fuel) first (suc n) enough fits =
      let middle = first + suc n / 2 in
      elim (Bool-cases (ltb value (vals middle))) [
        | inl above ↦
            upper_round_down fuel first (suc n) fits (omega arith) (ltb→lt _ _ above)
            ∙ upper_loop-lower_loop fuel first (suc n / 2) (omega arith) (omega arith)
            ∙ sym (
                lower_round_down key vals hi (value + 1) column fuel first (suc n) fits
                  (omega arith) (ground arith))
        | inr below ↦
            upper_round_up fuel first (suc n) fits (omega arith) below
            ∙ upper_loop-lower_loop fuel (middle + 1) (suc n - (suc n / 2 + 1)) (omega arith)
                (omega arith)
            ∙ sym (
                lower_round_up key vals hi (value + 1) column fuel first (suc n) fits (omega arith)
                  (ground arith))
      ]

  UpperBound-next :
      (first last r : ℕ)
      → LowerBound vals (value + 1) first last r
      → UpperBound vals value first last r
  UpperBound-next first last r (lo, up, low, high) =
      (lo, up, λ i p q. omega (arith, low i p q), λ i p q. omega (arith, high i p q))

  -- On such a column `upper_bound_of` returns, and its result parts the range into the values not
  -- above `value` and those above it.
  pub upper_bound_in-UpperBound :
      (first last : ℕ)
      → first ≤ last
      → last ≤ hi
      → Returns (upper_bound_in key value first last) (UpperBound vals value first last)
  upper_bound_in-UpperBound first last le fits = rw same (
      Returns-map (lower_bound_in key (value + 1) first last)
        (lower_bound_in-LowerBound key vals hi (value + 1) column first last le fits)
        (UpperBound-next first last))
    where
      same : upper_bound_in key value first last ≡ lower_bound_in key (value + 1) first last
      same =
          unfold upper_bound_in lower_bound_in in
          rw (sub-eq-ok last first le)
            (upper_loop-lower_loop (last - first) first (last - first) (omega arith) (omega arith))
