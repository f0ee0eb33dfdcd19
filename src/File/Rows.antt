-- ===== src/File/Rows.antt =====
-- crates/winmd/src/file.rs: the tables of `WinmdFile::new`, their row counts and, at the end, their
-- offsets. The slots are the format's table numbers: `file.tables` and the `unused_*` variables.
pub mod Store
pub mod Placed
pub mod Counts
use winrt_rs.Base.{
  ℕ, zero, suc, ◌+◌, ◌/◌, ◌^◌, List, [], ◌∷◌, Bool, true, false, ◌||◌, get_or, set, replicate, ◌==◌,
  if◌then◌else◌, bit_and, add32, Result, ok, panic, ◌>>=◌, explicit,
}
use winrt_rs.File.View.{copy_as}
use winrt_rs.File.TableData.{TableData, empty_table, set_data}
use winrt_rs.File.TableId.{table_ids}

abbrev pub Tables : Type 0
Tables = List TableData

unfoldable pub table_at : Tables → ℕ → TableData
table_at tables i = get_or tables i empty_table

abbrev pub no_tables : Tables
no_tables = replicate 0x2d empty_table

unfoldable pub is_table : ℕ → List ℕ → Bool
is_table i [] = false
is_table i (j ∷ rest) = i == j || is_table i rest

-- `_ => unreachable!()` panics.
unfoldable pub set_row_count : Tables → ℕ → ℕ → Result Tables
set_row_count tables i row_count =
    if is_table i table_ids
    then ok (set tables i (record (table_at tables i) { row_count = row_count }))
    else panic explicit

-- `for i in 0..64`, with `rounds` of it left: the tables and the offset after the counts.
unfoldable pub read_row_counts : ℕ → List ℕ → (valid_bits i view : ℕ) → Tables → Result (Tables × ℕ)
read_row_counts zero bytes valid_bits i view tables = ok (tables, view)
read_row_counts (suc rounds) bytes valid_bits i view tables =
    elim (bit_and (valid_bits / 2 ^ i) 1 == 0) [
      | true ↦ read_row_counts rounds bytes valid_bits (i + 1) view tables
      | false ↦ do
        row_count ← copy_as 4 bytes view
        view' ← add32 view 4
        tables' ← set_row_count tables i row_count
        read_row_counts rounds bytes valid_bits (i + 1) view' tables'
    ]

-- The calls of `set_data`, one for each number of the list.
unfoldable pub set_data_all : List ℕ → Tables → ℕ → Result (Tables × ℕ)
set_data_all [] tables view = ok (tables, view)
set_data_all (i ∷ rest) tables view = do
  (t, view') ← set_data (table_at tables i) view
  set_data_all rest (set tables i t) view'
