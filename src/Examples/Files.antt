-- ===== src/Examples/Files.antt =====
-- Loading a file.
use winrt_rs.Base.{◌+◌, ◌≤◌, ◌≡◌, refl, ◌⊎◌, arith, length, ok, checked, add32, mul32, sub}
use winrt_rs.File.Columns.Fill.{set_columns_at, set_columns_all, fill_columns}
use winrt_rs.File.Columns.Widths.{heap_index_sizes, composite, coded_sizes}
use winrt_rs.File.IndexSize.{bits_loop, bits_needed, small, all_small, composite_index_size}
use winrt_rs.File.Pe.{
  u16_array, image_dos_header, image_file_header, image_data_directory, image_optional_header,
  image_nt_header, image_nt_header_plus, image_section_header, image_cor_header,
}
use winrt_rs.File.Rows.{table_at, is_table, set_row_count, read_row_counts, set_data_all}
use winrt_rs.File.Sections.{
  contains_rva, section_from_rva, offset_from_rva, directory_of, com_descriptor, metadata_root,
}
use winrt_rs.File.Streams.{padding, set_stream, read_stream, read_streams, streams_at}
use winrt_rs.File.TableData.{index_size, set_column, set_columns, set_data}
use winrt_rs.File.View.{
  le, field_at, slice_from, assert_proper_length, assert_proper_length_and_alignment, view_as,
  chunks, view_as_slice_of, copy_as, until_nul, view_as_str,
}
use winrt_rs.File.TableId.{TableIndex}
use winrt_rs.File.Load
use winrt_rs.File.Load.{table}
use winrt_rs.File.Load.Whole.{new-ColumnsFit, new-disjoint}
use winrt_rs.File.Rows.Placed.{extent}
use winrt_rs.File.TableData.Cut.{ColumnsFit}
use winrt_rs.Examples.Image.{image, image_file}

pub new-image : Load.new 0 image ≡ ok image_file
unfolding Load.new add32 mul32 sub checked set_columns_at set_columns_all fill_columns
    heap_index_sizes composite coded_sizes contains_rva section_from_rva offset_from_rva
    directory_of com_descriptor metadata_root u16_array image_dos_header image_file_header
    image_data_directory image_optional_header image_nt_header image_nt_header_plus
    image_section_header image_cor_header bits_loop bits_needed small composite_index_size le
    field_at slice_from assert_proper_length assert_proper_length_and_alignment view_as chunks
    view_as_slice_of copy_as until_nul view_as_str padding set_stream read_stream read_streams
    streams_at set_column set_columns set_data table_at is_table set_row_count read_row_counts
    set_data_all index_size all_small
new-image = refl

new-ColumnsFit_example :
    (image_file.bytes ≡ image)
    × (length image_file.tables ≡ 11)
    × ((index : TableIndex) → ColumnsFit (table image_file index))
new-ColumnsFit_example = new-ColumnsFit 0 image image_file new-image

new-disjoint_example :
    ((table image_file TableIndex.type_def).data_start
        + extent (table image_file TableIndex.type_def)
      ≤ (table image_file TableIndex.method_def).data_start)
    ⊎ ((table image_file TableIndex.method_def).data_start
          + extent (table image_file TableIndex.method_def)
        ≤ (table image_file TableIndex.type_def).data_start)
unfolding table table_at
new-disjoint_example =
    new-disjoint 0 image image_file new-image TableIndex.type_def TableIndex.method_def (λ e. cc)
      (λ e. omega arith) (λ e. omega arith)
