-- ===== src/Reader.antt =====
-- crates/winmd/src/type_reader.rs: `TypeReader`, the metadata files and the types by their names.
-- The calls that read a cell, a text, a list or a range of rows.
pub mod Search
pub mod Cells
pub mod Bounds
pub mod EqualRange
pub mod Resolve
pub mod Texts
pub mod BlobStart
pub mod Found
pub mod New
use winrt_rs.Base.{
  ℕ, zero, suc, ◌+◌, ◌-◌, ◌%◌, List, [], ◌∷◌, ltb, ◌==◌, if◌then◌else◌, get_elem?, out_of_range,
  unwrap_none, Result, ok, ◌>>=◌, ◌>>◌, require, u32_mod, add32, mul32, sub,
}
use winrt_rs.File.View.{copy_as, slice_from, until_nul}
use winrt_rs.File.TableData.{TableData}
use winrt_rs.File.TableId.{TableIndex}
use winrt_rs.File.Load.{WinmdFile, table}
use winrt_rs.Row
use winrt_rs.Row.{Row, TypeDef}
use winrt_rs.Text.{Text, from_utf8}

pub record TypeReader : Type 0 where
  pub files : List WinmdFile
  pub types : List (Text × List (Text × TypeDef))

-- `&self.files[index]`.
unfoldable pub file_at : TypeReader → ℕ → Result WinmdFile
file_at reader index = require (get_elem? reader.files index) out_of_range

-- The bytes of a cell; a width other than 1, 2 and 4 is read as 8 bytes and cut to 32 bits.
unfoldable pub cell : List ℕ → (offset width : ℕ) → Result ℕ
cell bytes offset width =
    if width == 1
    then copy_as 1 bytes offset
    else if width == 2
    then copy_as 2 bytes offset
    else if width == 4
    then copy_as 4 bytes offset
    else (copy_as 8 bytes offset >>= λ wide. ok (wide % u32_mod))

unfoldable pub cell_of : WinmdFile → TableData → (index column : ℕ) → Result ℕ
cell_of file t index column = do
  before ← mul32 index t.row_size
  row_start ← add32 t.data_start before
  (start, width) ← require (get_elem? t.columns column) out_of_range
  offset ← add32 row_start start
  cell file.bytes offset width

unfoldable pub u32 : TypeReader → Row → ℕ → Result ℕ
u32 reader row column = do
  file ← file_at reader row.file_index
  cell_of file (table file row.table_index) row.index column

unfoldable pub str : TypeReader → Row → ℕ → Result Text
str reader row column = do
  file ← file_at reader row.file_index
  start ← u32 reader row column
  offset ← add32 file.strings start
  rest ← slice_from file.bytes offset
  text ← require (until_nul rest) unwrap_none
  from_utf8 text

-- `(first..last).map(|row| Row::new(row, table, file))`.
unfoldable pub rows_from : (count first : ℕ) → TableIndex → ℕ → List Row
rows_from zero first index file = []
rows_from (suc count) first index file =
    Row.new first index file ∷ rows_from count (first + 1) index file

unfoldable pub rows_between : (first last : ℕ) → TableIndex → ℕ → List Row
rows_between first last index file = rows_from (last - first) first index file

unfoldable pub list : TypeReader → Row → TableIndex → ℕ → Result (List Row)
list reader row index column = do
  file ← file_at reader row.file_index
  begin ← u32 reader row column
  first ← sub begin 1
  following ← Row.next row
  let from_next = (u32 reader following column >>= λ end. sub end 1)
  last ←
      if ltb following.index (table file row.table_index).row_count
      then from_next
      else ok (table file index).row_count
  ok (rows_between first last index row.file_index)
