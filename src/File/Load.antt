-- ===== src/File/Load.antt =====
-- crates/winmd/src/file.rs: `WinmdFile` and `WinmdFile::new`. The bytes are what `std::fs::read`
-- returned, and `address` is where they stand in memory.
pub mod Whole
use winrt_rs.Base.{ℕ, List, map, Result, ok, ◌>>=◌, add32}
use winrt_rs.File.View.{copy_as}
use winrt_rs.File.TableData.{TableData}
use winrt_rs.File.TableId.{TableIndex, position, data_order, kept_tables}
use winrt_rs.File.Sections.{metadata_root}
use winrt_rs.File.Streams.{streams_at}
use winrt_rs.File.Rows.{table_at, no_tables, read_row_counts, set_data_all}
use winrt_rs.File.Columns.Widths.{heap_index_sizes, coded_sizes}
use winrt_rs.File.Columns.Fill.{fill_columns}

pub record WinmdFile : Type 0 where
  pub bytes : List ℕ
  pub strings : ℕ
  pub blobs : ℕ
  pub guids : ℕ
  pub tables : List TableData

-- `file.tables[index as usize]`: the array has a slot for each index.
unfoldable pub table : WinmdFile → TableIndex → TableData
table file index = table_at file.tables (position index)

unfoldable pub type_def_table : WinmdFile → TableData
type_def_table file = table file TableIndex.type_def

unfoldable pub new : (address : ℕ) → List ℕ → Result WinmdFile
new address bytes = do
  cli_offset ← metadata_root address bytes
  streams ← streams_at bytes cli_offset
  sizes_at ← add32 streams.tables_offset 6
  heap_sizes ← copy_as 1 bytes sizes_at
  valid_at ← add32 streams.tables_offset 8
  valid_bits ← copy_as 8 bytes valid_at
  view ← add32 streams.tables_offset 24
  (counted, data_view) ← read_row_counts 64 bytes valid_bits 0 view no_tables
  coded ← coded_sizes counted
  filled ← fill_columns (heap_index_sizes heap_sizes) coded counted
  (placed, end) ← set_data_all data_order filled data_view
  ok (record {
    bytes = bytes;
    strings = streams.strings;
    blobs = streams.blobs;
    guids = streams.guids;
    tables = map (table_at placed) kept_tables;
  })
