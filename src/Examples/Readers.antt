-- ===== src/Examples/Readers.antt =====
-- Reading cells, searching columns and resolving names.
use winrt_rs.Base.{
  ℕ, ◌+◌, ◌*◌, ◌≤◌, ◌≡◌, refl, inr, List, [], ◌∷◌, map, explicit, require, arith, ltb,
  if◌then◌else◌, ok, Returns, checked, add32, mul32,
}
use winrt_rs.File.View.{le, copy_as, assert_proper_length, slice_from, until_nul}
use winrt_rs.File.TableId.{TableIndex}
use winrt_rs.File.Rows.{table_at}
use winrt_rs.File.Load.{table, type_def_table}
use winrt_rs.Row
use winrt_rs.Row.{Row, TypeDef}
use winrt_rs.Text.{Text, ascii, from_utf8, utf8_from, lead, text_lt}
use winrt_rs.Flags.{windows_runtime, interface_flag}
use winrt_rs.Reader.{TypeReader, file_at, cell, cell_of, u32, str}
use winrt_rs.Reader.Search.{lower_bound_in, upper_bound_in, equal_range_in}
use winrt_rs.Reader.Bounds.{
  Readable, LowerBound, UpperBound, lower_bound_in-LowerBound, upper_bound_in-UpperBound,
}
use winrt_rs.Reader.EqualRange.{EqualRange, equal_range_in-EqualRange}
use winrt_rs.Reader.Cells.{u32-eq-ok}
use winrt_rs.Reader.Resolve.{Name, resolve_type_def}
use winrt_rs.Reader.New
use winrt_rs.Reader.New.{upsert, or_insert, insert_type, add_type, add_types, add_files}
use winrt_rs.Reader.New.Runs.{new-resolve_type_def}
use winrt_rs.Reader.New.Visits.{Visit, type_rows, Visited, first_named}
use winrt_rs.Reader.New.Named.{new-first_named}
use winrt_rs.Tables.{names, type_def_flags, type_def_name}
use winrt_rs.Tables.Attributes.{type_def_ignore}
use winrt_rs.Examples.Image.{image_file}

-- A column that holds 1, 4, 4 and 9, and reads of it.
abbrev vals : ℕ → ℕ
vals i = if ltb i 1 then 1 else if ltb i 3 then 4 else 9

column : Readable (λ i. ok (vals i)) vals 4
column = record { small = omega arith; reads = λ i h. refl; sorted = λ i j p q. ground arith }

lower_bound_in-LowerBound_example :
    Returns (lower_bound_in (λ i. ok (vals i)) 4 0 4) (LowerBound vals 4 0 4)
lower_bound_in-LowerBound_example =
    lower_bound_in-LowerBound (λ i. ok (vals i)) vals 4 4 column 0 4 (omega arith) (omega arith)

upper_bound_in-UpperBound_example :
    Returns (upper_bound_in (λ i. ok (vals i)) 4 0 4) (UpperBound vals 4 0 4)
upper_bound_in-UpperBound_example =
    upper_bound_in-UpperBound (λ i. ok (vals i)) vals 4 4 column 0 4 (omega arith) (omega arith)

equal_range_in-EqualRange_example :
    Returns (equal_range_in (λ i. ok (vals i)) 4 0 4) (EqualRange vals 4 0 4)
equal_range_in-EqualRange_example =
    equal_range_in-EqualRange (λ i. ok (vals i)) vals 4 4 column 0 4 (omega arith) (omega arith)

abbrev file_reader : TypeReader
file_reader = record { files = image_file ∷ []; types = [] }

-- The flags of the second type of the file.
u32-eq-ok_example :
    (u32 file_reader (Row.new 1 TableIndex.type_def 0) 0 ≡ ok 0x4020) × (1 * 14 + 0 + 4 ≤ 28)
unfolding file_at table table_at le
u32-eq-ok_example =
    u32-eq-ok file_reader (Row.new 1 TableIndex.type_def 0) image_file 0 0 4 refl
      (refl, omega arith) (omega arith) refl (inr (inr refl)) (omega arith) (omega arith)

abbrev type_at : ℕ → TypeDef
type_at row = record { row = Row.new row TableIndex.type_def 0 }

abbrev two_types : List (Text × List (Text × TypeDef))
two_types = (ascii "N", ((ascii "I", type_at 0) ∷ (ascii "J", type_at 1) ∷ [])) ∷ []

abbrev image_reader : TypeReader
image_reader = record { files = image_file ∷ []; types = two_types }

new-image_reader : New.new (image_file ∷ []) ≡ ok image_reader
unfolding New.new add_files add_types add_type insert_type upsert or_insert type_def_ignore
    type_def_flags type_def_name names windows_runtime interface_flag u32 str cell cell_of file_at
    table table_at type_def_table copy_as assert_proper_length slice_from until_nul le from_utf8
    utf8_from lead text_lt add32 mul32 checked
new-image_reader = refl

new-first_named_example :
    (image_reader.files ≡ image_file ∷ [])
    × (visits : List Visit) × (map (λ v. v.def) visits ≡ type_rows (image_file ∷ []) 0)
    × Visited (image_file ∷ []) visits
    × ((name : Name)
        → resolve_type_def image_reader name ≡ require (first_named name visits) explicit)
new-first_named_example = new-first_named (image_file ∷ []) image_reader new-image_reader

-- The same file once more, behind the first.
abbrev twice_reader : TypeReader
twice_reader = record { files = image_file ∷ image_file ∷ []; types = two_types }

new-twice_reader : New.new (image_file ∷ image_file ∷ []) ≡ ok twice_reader
unfolding New.new add_files add_types add_type insert_type upsert or_insert type_def_ignore
    type_def_flags type_def_name names windows_runtime interface_flag u32 str cell cell_of file_at
    table table_at type_def_table copy_as assert_proper_length slice_from until_nul le from_utf8
    utf8_from lead text_lt add32 mul32 checked
new-twice_reader = refl

new-resolve_type_def_example : Returns (New.new (image_file ∷ [])) (λ first.
    (name : Name) (def : TypeDef)
    → resolve_type_def first name ≡ ok def
    → resolve_type_def twice_reader name ≡ ok def)
new-resolve_type_def_example =
    new-resolve_type_def (image_file ∷ []) (image_file ∷ []) twice_reader new-twice_reader
