-- ===== src/File/TableData.antt =====
-- crates/winmd/src/file.rs: `TableData`, where a metadata table stands and how its rows are cut.
pub mod Cut
use winrt_rs.Base.{
  ℕ, ◌^◌, List, replicate, set, ltb, ◌==◌, if◌then◌else◌, add32, mul32, Result, ok, ◌>>=◌,
}

-- A column is its offset in the row and its width.
pub record TableData : Type 0 where
  pub data_start : ℕ
  pub row_count : ℕ
  pub row_size : ℕ
  pub columns : List (ℕ × ℕ)

-- `TableData::default()`.
abbrev pub empty_table : TableData
empty_table = record { data_start = 0; row_count = 0; row_size = 0; columns = replicate 6 (0, 0) }

unfoldable pub index_size : TableData → ℕ
index_size t = if ltb t.row_count (2 ^ 16) then 2 else 4

-- `if width != 0 { self.columns[i] = (offset, width) }`.
unfoldable pub set_column : ℕ → ℕ → ℕ → List (ℕ × ℕ) → List (ℕ × ℕ)
set_column i offset width columns = if width == 0 then columns else set columns i (offset, width)

-- The sum is checked; the sums of fewer widths stay below it.
unfoldable pub set_columns : TableData → (a b c d e f : ℕ) → Result TableData
set_columns t a b c d e f = do
  ab ← add32 a b
  abc ← add32 ab c
  abcd ← add32 abc d
  abcde ← add32 abcd e
  row_size ← add32 abcde f
  ok (record t {
    row_size = row_size;
    columns = set_column 5 abcde f (
        set_column 4 abcd e
          (set_column 3 abc d (set_column 2 ab c (set_column 1 a b (set t.columns 0 (0, a))))));
  })

-- The table, and the offset at which the next table stands.
unfoldable pub set_data : TableData → ℕ → Result (TableData × ℕ)
set_data t position = if t.row_count == 0 then ok (t, position) else do
  size ← mul32 t.row_count t.row_size
  next ← add32 position size
  ok (record t { data_start = position }, next)
