-- ===== src/Reader/EqualRange.antt =====
-- `equal_range_of` returns the rows whose cell is the value, on a column that is sorted.
use winrt_rs.Base.{
  ℕ, zero, suc, ◌+◌, ◌-◌, ◌/◌, ◌≤◌, ◌<◌, ◌≡◌, refl, inl, inr, arith, ltb, ltb→lt, Bool-cases,
  Result, ok, Returns, add32-eq-ok, sub-eq-ok, Returns-ok, Returns-map,
}
use winrt_rs.Reader.Search.{lower_bound_in, upper_bound_in, around, equal_loop, equal_range_in}
use winrt_rs.Reader.Bounds.{
  Readable, LowerBound, UpperBound, lower_bound_in-LowerBound, upper_bound_in-UpperBound,
}

-- Between `first` and `last`, the rows that hold `value` are those of the range.
abbrev pub EqualRange : (vals : ℕ → ℕ) (value first last : ℕ) → ℕ × ℕ → Type 0
EqualRange vals value first last range =
    (first ≤ range.0)
    × (range.0 ≤ range.1)
    × (range.1 ≤ last)
    × ((i : ℕ) → range.0 ≤ i → i < range.1 → vals i ≡ value)
    × ((i : ℕ) → first ≤ i → i < last → vals i ≡ value → (range.0 ≤ i) × (i < range.1))

module _ (key : ℕ → Result ℕ) (vals : ℕ → ℕ) (hi value : ℕ) (column : Readable key vals hi) where
  -- Both bounds, from the searches on the two sides of a row that holds the value.
  bounds-EqualRange :
      (first last middle l r : ℕ)
      → first ≤ middle
      → middle < last
      → last ≤ hi
      → vals middle ≡ value
      → LowerBound vals value first middle l
      → UpperBound vals value (middle + 1) last r
      → EqualRange vals value first last (l, r)
  bounds-EqualRange first last middle l r p q fits e (lo, up, low, high) (lo', up', low', high') = (
    lo,
    omega arith,
    up',
    λ i a b. ground (arith, high i, low' i, column.sorted i middle, column.sorted middle i),
    λ i a b c. (ground (arith, low i), ground (arith, high' i)),
  )

  around-EqualRange :
      (first count : ℕ)
      → first + count ≤ hi
      → 0 < count
      → vals (first + count / 2) ≡ value
      → Returns
          (around key value first (first + count / 2) count)
          (EqualRange vals value first (first + count))
  unfolding around
  around-EqualRange first count fits pos e =
      let small = column.small in
      let middle = first + count / 2 in
      rw (add32-eq-ok first count (omega arith), add32-eq-ok middle 1 (omega arith))
        (let (l, found_l, below) = Returns-ok (lower_bound_in key value first middle) (
            lower_bound_in-LowerBound key vals hi value column first middle (omega arith)
              (omega arith)) in
          let (r, found_r, above) =
            Returns-ok (upper_bound_in key value (middle + 1) (first + count)) (
              upper_bound_in-UpperBound key vals hi value column (middle + 1) (first + count)
                (omega arith) fits) in
          rw (found_l, found_r)
            (bounds-EqualRange first (first + count) middle l r (omega arith) (omega arith) fits e
              below above))

  -- A range in the upper or the lower half is one in the whole, by the value in the middle.
  EqualRange-up :
      (first count : ℕ) (range : ℕ × ℕ)
      → first + count ≤ hi
      → 0 < count
      → vals (first + count / 2) < value
      → EqualRange vals value
          (first + count / 2 + 1)
          (first + count / 2 + 1 + (count - (count / 2 + 1)))
          range
      → EqualRange vals value first (first + count) range
  EqualRange-up first count range fits pos below (lo, mid, up, inside, found) = (
    omega arith,
    mid,
    omega arith,
    inside,
    λ i p q e. ground (arith, column.sorted i (first + count / 2), found i),
  )

  EqualRange-down :
      (first count : ℕ) (range : ℕ × ℕ)
      → first + count ≤ hi
      → 0 < count
      → value < vals (first + count / 2)
      → EqualRange vals value first (first + count / 2) range
      → EqualRange vals value first (first + count) range
  EqualRange-down first count range fits pos above (lo, mid, up, inside, found) = (
    lo,
    mid,
    omega arith,
    inside,
    λ i p q e. ground (arith, column.sorted (first + count / 2) i, found i),
  )

  module _ (fuel first count : ℕ) (fits : first + count ≤ hi) (pos : 0 < count) where
    equal_round_up :
        vals (first + count / 2) < value
        → equal_loop key value (suc fuel) first count
          ≡ equal_loop key value fuel (first + count / 2 + 1) (count - (count / 2 + 1))
    unfolding equal_loop
    equal_round_up below =
        let small = column.small in
        ground (
          arith,
          add32-eq-ok first (count / 2) (omega arith),
          column.reads (first + count / 2) (omega arith),
          add32-eq-ok (first + count / 2) 1 (omega arith),
        )

    equal_round_down :
        value < vals (first + count / 2)
        → equal_loop key value (suc fuel) first count ≡ equal_loop key value fuel first (count / 2)
    unfolding equal_loop
    equal_round_down above =
        let small = column.small in
        ground (
          arith,
          add32-eq-ok first (count / 2) (omega arith),
          column.reads (first + count / 2) (omega arith),
        )

    equal_round_hit :
        vals (first + count / 2) ≡ value
        → equal_loop key value (suc fuel) first count
          ≡ around key value first (first + count / 2) count
    unfolding equal_loop
    equal_round_hit hit =
        let small = column.small in
        ground (
          arith,
          add32-eq-ok first (count / 2) (omega arith),
          column.reads (first + count / 2) (omega arith),
        )

  equal_loop_done : (fuel first : ℕ) → equal_loop key value fuel first 0 ≡ ok (first, first)
  unfolding equal_loop
  equal_loop_done zero first = refl
  equal_loop_done (suc fuel) first = refl

  equal_loop-EqualRange :
      (fuel first count : ℕ)
      → count ≤ fuel
      → first + count ≤ hi
      → Returns
          (equal_loop key value fuel first count)
          (EqualRange vals value first (first + count))
  equal_loop-EqualRange fuel first zero enough fits = rw equal_loop_done (
    omega arith,
    omega arith,
    omega arith,
    λ i p q. absurd (omega arith),
    λ i p q e. absurd (omega arith),
  )
  equal_loop-EqualRange zero first (suc n) enough fits = absurd (omega arith)
  equal_loop-EqualRange (suc fuel) first (suc n) enough fits =
      let middle = first + suc n / 2 in
      let upper = suc n - (suc n / 2 + 1) in
      elim (Bool-cases (ltb (vals middle) value)) [
        | inl below ↦
            let lt = ltb→lt _ _ below in
            rw (equal_round_up fuel first (suc n) fits (omega arith) lt) (
              Returns-map (equal_loop key value fuel (middle + 1) upper)
                (equal_loop-EqualRange fuel (middle + 1) upper (omega arith) (omega arith))
                (λ range. EqualRange-up first (suc n) range fits (omega arith) lt))
        | inr not_below ↦ elim (Bool-cases (ltb value (vals middle))) [
          | inl above ↦
              let lt = ltb→lt _ _ above in
              rw (equal_round_down fuel first (suc n) fits (omega arith) lt) (
                Returns-map (equal_loop key value fuel first (suc n / 2))
                  (equal_loop-EqualRange fuel first (suc n / 2) (omega arith) (omega arith))
                  (λ range. EqualRange-down first (suc n) range fits (omega arith) lt))
          | inr not_above ↦
              let hit : vals middle ≡ value = ground arith in
              rw (equal_round_hit fuel first (suc n) fits (omega arith) hit)
                (around-EqualRange first (suc n) fits (omega arith) hit)
        ]
      ]

  -- On a sorted column that can be read, `equal_range_of` returns: the result holds exactly the
  -- rows of the searched range whose cell is `value`.
  pub equal_range_in-EqualRange :
      (first last : ℕ)
      → first ≤ last
      → last ≤ hi
      → Returns (equal_range_in key value first last) (EqualRange vals value first last)
  unfolding equal_range_in
  equal_range_in-EqualRange first last le fits =
      let e : first + (last - first) ≡ last = omega arith in
      rw (sub-eq-ok last first le) (
        rw e at
          (equal_loop-EqualRange (last - first) first (last - first) (omega arith) (omega arith)))
