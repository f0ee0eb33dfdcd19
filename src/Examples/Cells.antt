-- ===== src/Examples/Cells.antt =====
-- Texts, blobs and rows that cells of the small file lead to.
use winrt_rs.Base.{
  ℕ, zero, suc, ◌<◌, ◌≡◌, refl, ◌↔◌, some, [], ◌∷◌, arith, get_elem?, Panic, ok, panic, Returns,
  checked, add32, mul32,
}
use winrt_rs.File.View.{le, copy_as, assert_proper_length, slice_from}
use winrt_rs.File.TableId.{TableIndex}
use winrt_rs.File.Rows.{table_at}
use winrt_rs.File.Load.{table}
use winrt_rs.Row
use winrt_rs.Row.{Row}
use winrt_rs.Reader.{TypeReader, file_at, cell, cell_of, u32}
use winrt_rs.Reader.Search.{key_of, equal_range}
use winrt_rs.Reader.Bounds.{Readable}
use winrt_rs.Reader.Found.{equal_range-rows}
use winrt_rs.Tables.{method_def_parent}
use winrt_rs.Tables.Parent.{method_def_parent-panic}
use winrt_rs.Examples.Image.{image_file}

abbrev cells_reader : TypeReader
cells_reader = record { files = image_file ∷ []; types = [] }

abbrev second_type : Row
second_type = Row.new 1 TableIndex.type_def 0

abbrev first_method : Row
first_method = Row.new 0 TableIndex.method_def 0

second_name : u32 cells_reader second_type 1 ≡ ok 5
unfolding u32 cell_of cell file_at table table_at copy_as assert_proper_length slice_from le add32
    mul32 checked
second_name = refl

first_sig : u32 cells_reader first_method 4 ≡ ok 0
unfolding u32 cell_of cell file_at table table_at copy_as assert_proper_length slice_from le add32
    mul32 checked
first_sig = refl

method_def_parent-panic_example :
    (e : Panic) × (method_def_parent cells_reader (record { row = first_method }) ≡ panic e)
unfolding file_at table table_at
method_def_parent-panic_example =
    method_def_parent-panic cells_reader (record { row = first_method }) image_file refl
      (refl, omega arith) (λ e. omega arith)

-- The first field of both types is row 1.
abbrev first_row : ℕ → ℕ
first_row i = 1

fields_read : (i : ℕ) → i < 2 → key_of cells_reader TableIndex.type_def 0 4 i ≡ ok 1
unfolding key_of u32 cell_of cell file_at table table_at copy_as assert_proper_length slice_from le
    add32 mul32 checked
fields_read zero h = refl
fields_read (suc zero) h = refl
fields_read (suc (suc i)) h = absurd (omega arith)

fields_column : Readable (key_of cells_reader TableIndex.type_def 0 4) first_row 2
fields_column = record { small = omega arith; reads = fields_read; sorted = λ i j p q. omega arith }

equal_range-rows_example : Returns (equal_range cells_reader 0 TableIndex.type_def 4 1) (λ rows.
    (i : ℕ)
    → i < 2
    → (first_row i ≡ 1) ↔ ((k : ℕ) × (get_elem? rows k ≡ some (Row.new i TableIndex.type_def 0))))
unfolding file_at table table_at
equal_range-rows_example =
    equal_range-rows cells_reader TableIndex.type_def 0 4 1 image_file first_row refl fields_column
