-- ===== src/Examples/Parts.antt =====
-- The parts of loading: reads, rows, widths, sections, streams and tables.
use winrt_rs.Base.{
  ℕ, ◌+◌, ◌*◌, ◌≤◌, ◌<◌, ◌≡◌, refl, ◌⊎◌, List, [], ◌∷◌, ◌++◌, arith, length, set, All, ok, checked,
  add32, mul32, sub,
}
use winrt_rs.File.View.{le, slice_from, assert_proper_length, copy_as, until_nul, view_as_str}
use winrt_rs.File.TableData.{TableData, empty_table, set_column, set_columns, set_data}
use winrt_rs.File.TableData.Cut.{Cuts, set_columns-Cuts}
use winrt_rs.File.IndexSize.{composite_index_size}
use winrt_rs.File.IndexSize.Bits.{Tells}
use winrt_rs.File.IndexSize.Fits.{Coded, composite_index_size-Coded}
use winrt_rs.File.Pe.{ImageSectionHeader}
use winrt_rs.File.Sections.{contains_rva, section_from_rva, offset_from_rva}
use winrt_rs.File.Sections.Inside.{Contains, section_from_rva-offset}
use winrt_rs.File.Streams.{no_streams, padding, set_stream, read_stream}
use winrt_rs.File.Streams.Padding.{read_stream-next}
use winrt_rs.File.Rows.{
  Tables, table_at, no_tables, is_table, set_row_count, read_row_counts, set_data_all,
}
use winrt_rs.File.Rows.Counts.{present, Counted, SlotsExist, read_row_counts-Counted}
use winrt_rs.File.Rows.Placed.{start_of, set_data_all-start_of, set_data_all-disjoint}
use winrt_rs.Examples.Image.{image, laid_out}

abbrev four_columns : TableData
four_columns = laid_out 0 0 8 ((0, 2) ∷ (2, 2) ∷ (4, 2) ∷ (6, 2) ∷ (0, 0) ∷ (0, 0) ∷ [])

set_columns-Cuts_example :
    (four_columns.row_size ≡ 8)
    × (four_columns.data_start ≡ 0)
    × (four_columns.row_count ≡ 0)
    × Cuts 0 (2 ∷ 2 ∷ 2 ∷ 2 ∷ 0 ∷ 0 ∷ []) four_columns.columns
unfolding set_columns set_column add32 checked
set_columns-Cuts_example = set_columns-Cuts empty_table four_columns 2 2 2 2 0 0 refl refl

-- A table of 2 ^ 15 rows, which is too large beside another table.
abbrev large : TableData
large = laid_out 0 0x8000 2 []

composite_index_size-Coded_example :
    (bits size : ℕ) × (composite_index_size (large ∷ four_columns ∷ []) ≡ ok size)
    × Tells 2 bits
    × (((size ≡ 2) × All (Coded bits) (large ∷ four_columns ∷ []))
        ⊎ ((size ≡ 4) × (¬ All (Coded bits) (large ∷ four_columns ∷ []))))
composite_index_size-Coded_example =
    composite_index_size-Coded (large ∷ four_columns ∷ []) (omega arith) (omega arith)

abbrev text_section : ImageSectionHeader
text_section = record {
  name = [];
  physical_address_or_virtual_size = 0x400;
  virtual_address = 0x1000;
  size_of_raw_data = 0x400;
  pointer_to_raw_data = 352;
  pointer_to_relocations = 0;
  pointer_to_line_numbers = 0;
  number_of_relocations = 0;
  number_of_line_numbers = 0;
  characteristics = 0;
}

-- A section in front of it, which ends before the address.
abbrev front_section : ImageSectionHeader
front_section = record text_section { virtual_address = 0x800; pointer_to_raw_data = 96 }

section_from_rva-offset_example :
    (before : List ImageSectionHeader) × (after : List ImageSectionHeader) × (front_section
        ∷ text_section ∷ []
      ≡ before ++ (text_section ∷ after))
    × All (λ other. ¬ Contains other 0x1048) before
    × (424 + 0x1000 ≡ 0x1048 + 352)
    × (352 ≤ 424)
    × (424 < 352 + 0x400)
unfolding section_from_rva contains_rva offset_from_rva add32 sub checked
section_from_rva-offset_example =
    section_from_rva-offset (front_section ∷ text_section ∷ []) 0x1048 424 text_section refl refl

-- The header of `#~`: the next one stands 12 bytes on.
read_stream-next_example :
    (name : List ℕ) × (k : ℕ) × (view_as_str image 456 ≡ ok name)
    × (460 ≡ 448 + 8 + 4 * k)
    × (length name < 4 * k)
    × (4 * k ≤ length name + 4)
unfolding read_stream set_stream padding copy_as slice_from assert_proper_length le view_as_str
    until_nul add32 checked
read_stream-next_example =
    read_stream-next image 424 448 460 no_streams
      (record { strings = 0; blobs = 0; guids = 0; tables_offset = 496; tables_size = 76 })
      (omega arith) refl

-- Two rows of table 2.
abbrev counted : Tables
counted = set no_tables 2 (record empty_table { row_count = 2 })

slots : SlotsExist no_tables
unfolding is_table
slots i h = ground arith

read_row_counts-Counted_example : Counted (2 ∷ []) (2 ∷ 0 ∷ 0 ∷ 0 ∷ []) 0 counted × (4 ≡ 0 + 4 * 1)
unfolding read_row_counts set_row_count is_table table_at present copy_as slice_from
    assert_proper_length le add32 checked
read_row_counts-Counted_example =
    read_row_counts-Counted 3 (2 ∷ 0 ∷ 0 ∷ 0 ∷ []) 4 0 0 no_tables counted 4 slots refl

-- Two rows of four bytes, and three of two.
abbrev filled : Tables
filled = laid_out 0 2 4 [] ∷ laid_out 0 3 2 [] ∷ []

abbrev placed : Tables
placed = laid_out 10 2 4 [] ∷ laid_out 18 3 2 [] ∷ []

set_data_all-start_of_example : (table_at placed 1).data_start ≡ 18
unfolding set_data_all set_data is_table start_of table_at add32 mul32 checked
set_data_all-start_of_example =
    set_data_all-start_of (0 ∷ 1 ∷ []) filled placed 10 24 1 (refl, (refl, tt)) (omega arith) refl
      refl (λ e. omega arith)

set_data_all-disjoint_example : ((10 + 8 ≤ 18) ⊎ (18 + 6 ≤ 10)) × (10 ≤ 10) × (10 + 8 ≤ 24)
unfolding set_data_all set_data is_table table_at add32 mul32 checked
set_data_all-disjoint_example =
    set_data_all-disjoint (0 ∷ 1 ∷ []) filled placed 10 24 0 1 (refl, (refl, tt)) (omega arith) refl
      (λ e. omega arith) refl refl (λ e. omega arith) (λ e. omega arith)
