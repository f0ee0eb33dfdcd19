-- ===== src/Reader/Cells.antt =====
-- A cell of a row of a table: what `TypeReader::u32` reads, and where.
use winrt_rs.Base.{
  ℕ, zero, suc, ◌+◌, ◌*◌, ◌≤◌, ◌<◌, ◌≡◌, ◌⊎◌, inl, inr, some, List, [], ◌∷◌, arith, length,
  get_elem?, drop, All, ok, u32_mod, add32-eq-ok, mul32-eq-ok,
}
use native.Mathlib.Nat.{mul-le-mul_right}
use winrt_rs.File.View.{le}
use winrt_rs.File.View.Copy.{copy_as-eq-ok}
use winrt_rs.File.TableData.Cut.{ColumnsFit, Fits}
use winrt_rs.File.Rows.Placed.{extent}
use winrt_rs.File.Load.{WinmdFile, table}
use winrt_rs.Row.{Row}
use winrt_rs.Reader.{TypeReader, file_at, cell, cell_of, u32}

All-get_elem? :
    {A : Type 0} (P : A → Type 0) (xs : List A) (i : ℕ) (a : A)
    → All P xs
    → get_elem? xs i ≡ some a
    → P a
All-get_elem? P [] i a all e = absurd (cc)
All-get_elem? P (x ∷ xs) zero a (p, all) e = let same : x ≡ a = cc in rw same at p
All-get_elem? P (x ∷ xs) (suc i) a (p, all) e = All-get_elem? P xs i a all e

-- The rows before a row, and the row, fit the rows of the table.
row_fits : (index count size : ℕ) → index < count → index * size + size ≤ count * size
row_fits index count size h =
    let next : index + 1 ≤ count = omega arith in omega (arith, mul-le-mul_right size next)

cell-eq-ok :
    (bytes : List ℕ) (offset width : ℕ)
    → (width ≡ 1) ⊎ ((width ≡ 2) ⊎ (width ≡ 4))
    → length bytes < u32_mod
    → offset + width ≤ length bytes
    → cell bytes offset width ≡ ok (le width (drop offset bytes))
unfolding cell
cell-eq-ok bytes offset width (inl e) small fits =
    rw e (copy_as-eq-ok 1 bytes offset small (omega arith))
cell-eq-ok bytes offset width (inr (inl e)) small fits =
    rw e (copy_as-eq-ok 2 bytes offset small (omega arith))
cell-eq-ok bytes offset width (inr (inr e)) small fits =
    rw e (copy_as-eq-ok 4 bytes offset small (omega arith))

-- Where the row's file is one of the reader's, the columns of the row's table fit in its rows, the row is
-- one of the table's, and the table has the column, of 1, 2 or 4 bytes, and where the table lies within
-- a file of fewer than 2^32 bytes: the cell lies within the table, and `u32` returns the little-endian
-- number that stands there.
pub u32-eq-ok :
    (reader : TypeReader) (row : Row) (file : WinmdFile) (column start width : ℕ)
    → file_at reader row.file_index ≡ ok file
    → ColumnsFit (table file row.table_index)
    → row.index < (table file row.table_index).row_count
    → get_elem? (table file row.table_index).columns column ≡ some (start, width)
    → (width ≡ 1) ⊎ ((width ≡ 2) ⊎ (width ≡ 4))
    → (table file row.table_index).data_start + extent (table file row.table_index)
      ≤ length file.bytes
    → length file.bytes < u32_mod
    → (u32 reader row column
        ≡ ok (
            le width (
              drop
                ((table file row.table_index).data_start
                  + row.index * (table file row.table_index).row_size
                  + start)
                file.bytes)))
      × (row.index * (table file row.table_index).row_size + start + width
          ≤ extent (table file row.table_index))
unfolding u32 cell_of
u32-eq-ok reader row file column start width found fit inside here wide placed small =
    let t = table file row.table_index in
    let before = row.index * t.row_size in
    let cut : start + width ≤ t.row_size =
      All-get_elem? (Fits t.row_size) t.columns column (start, width) fit.1 here in
    let rows : before + t.row_size ≤ extent t = row_fits row.index t.row_count t.row_size inside in
    let product = mul32-eq-ok row.index t.row_size (omega arith) in
    let row_start = add32-eq-ok t.data_start before (omega arith) in
    let offset = add32-eq-ok (t.data_start + before) start (omega arith) in
    (
      rw (found, product, row_start, here, offset)
          (cell-eq-ok file.bytes (t.data_start + before + start) width wide small (omega arith)),
      omega arith,
    )
