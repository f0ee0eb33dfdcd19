-- ===== src/Reader/Search.antt =====
-- crates/winmd/src/type_reader.rs: the binary searches over a sorted column, and the ranges of rows
-- that they give.
use winrt_rs.Base.{
  ℕ, zero, suc, ◌+◌, ◌-◌, ◌/◌, true, false, List, ltb, ◌==◌, if◌then◌else◌, stuck, Result, ok,
  panic, ◌>>=◌, add32, sub,
}
use Prim.Native.Nat.{compare, Ordering}
use winrt_rs.File.TableId.{TableIndex}
use winrt_rs.File.Load.{table}
use winrt_rs.Row
use winrt_rs.Row.{Row}
use winrt_rs.Reader.{TypeReader, file_at, u32, rows_between}

-- The loops, over the value that the code reads at `Row::new(middle, table, file)`. The fuel is the
-- number of rows, which falls by half at least in each round.
module _ (key : ℕ → Result ℕ) (value : ℕ) where
  unfoldable pub lower_loop : (fuel first count : ℕ) → Result ℕ
  lower_loop zero first count = if count == 0 then ok first else panic stuck
  lower_loop (suc fuel) first count = elim (ltb 0 count) [
    | false ↦ ok first
    | true ↦ do
      middle ← add32 first (count / 2)
      middle_value ← key middle
      elim (ltb middle_value value) [
        | true ↦ do first' ← add32 middle 1; lower_loop fuel first' (count - (count / 2 + 1))
        | false ↦ lower_loop fuel first (count / 2)
      ]
  ]

  unfoldable pub upper_loop : (fuel first count : ℕ) → Result ℕ
  upper_loop zero first count = if count == 0 then ok first else panic stuck
  upper_loop (suc fuel) first count = elim (ltb 0 count) [
    | false ↦ ok first
    | true ↦ do
      middle ← add32 first (count / 2)
      middle_value ← key middle
      elim (ltb value middle_value) [
        | true ↦ upper_loop fuel first (count / 2)
        | false ↦ do first' ← add32 middle 1; upper_loop fuel first' (count - (count / 2 + 1))
      ]
  ]

  unfoldable pub lower_bound_in : (first last : ℕ) → Result ℕ
  lower_bound_in first last = sub last first >>= λ count. lower_loop count first count

  unfoldable pub upper_bound_in : (first last : ℕ) → Result ℕ
  upper_bound_in first last = sub last first >>= λ count. upper_loop count first count

  -- The arm `Ordering::Equal`: the ends of the run of equal values around `middle`.
  unfoldable pub around : (first middle count : ℕ) → Result (ℕ × ℕ)
  around first middle count = do
    first2 ← lower_bound_in first middle
    end ← add32 first count
    after ← add32 middle 1
    last ← upper_bound_in after end
    ok (first2, last)

  unfoldable pub equal_loop : (fuel first count : ℕ) → Result (ℕ × ℕ)
  equal_loop zero first count = if count == 0 then ok (first, first) else panic stuck
  equal_loop (suc fuel) first count = elim (ltb 0 count) [
    | false ↦ ok (first, first)
    | true ↦ do
      middle ← add32 first (count / 2)
      middle_value ← key middle
      elim (compare middle_value value) [
        | Ordering.lt ↦ do first' ← add32 middle 1; equal_loop fuel first' (count - (count / 2 + 1))
        | Ordering.gt ↦ equal_loop fuel first (count / 2)
        | Ordering.eq ↦ around first middle count
      ]
  ]

  unfoldable pub equal_range_in : (first last : ℕ) → Result (ℕ × ℕ)
  equal_range_in first last = sub last first >>= λ count. equal_loop count first count

-- `self.u32(Row::new(middle, table, file), column)`.
unfoldable pub key_of : TypeReader → TableIndex → (file column : ℕ) → ℕ → Result ℕ
key_of reader index file column middle = u32 reader (Row.new middle index file) column

module _ (reader : TypeReader) (index : TableIndex) (file : ℕ) where
  unfoldable pub lower_bound_of : (first last column value : ℕ) → Result ℕ
  lower_bound_of first last column value =
      lower_bound_in (key_of reader index file column) value first last

  unfoldable pub upper_bound_of : (first last column value : ℕ) → Result ℕ
  upper_bound_of first last column value =
      upper_bound_in (key_of reader index file column) value first last

  unfoldable pub equal_range_of : (first last column value : ℕ) → Result (ℕ × ℕ)
  equal_range_of first last column value =
      equal_range_in (key_of reader index file column) value first last

-- The public calls search the whole table.
unfoldable pub equal_range :
    TypeReader → (file : ℕ) → TableIndex → (column value : ℕ) → Result (List Row)
equal_range reader file index column value = do
  whole ← file_at reader file
  (first, last) ← equal_range_of reader index file 0 (table whole index).row_count column value
  ok (rows_between first last index file)

unfoldable pub upper_bound : TypeReader → (file : ℕ) → TableIndex → (column value : ℕ) → Result Row
upper_bound reader file index column value = do
  whole ← file_at reader file
  row ← upper_bound_of reader index file 0 (table whole index).row_count column value
  ok (Row.new row index file)
