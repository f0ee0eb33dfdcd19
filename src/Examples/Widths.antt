-- ===== src/Examples/Widths.antt =====
-- The code of a row, and the width of its column.
use winrt_rs.Base.{◌^◌, ◌<◌, ◌≡◌, refl, arith, set, ok, Returns, sub}
use winrt_rs.File.TableData.{empty_table}
use winrt_rs.File.TableId.{TableIndex}
use winrt_rs.File.IndexSize.{bits_loop, bits_needed, small, all_small, composite_index_size}
use winrt_rs.File.Rows.{Tables, table_at, no_tables}
use winrt_rs.File.Columns.Widths.{CodedSizes, composite, coded_sizes}
use winrt_rs.Row
use winrt_rs.Codes.{TypeCode, variants, enumerators, enumerator_of, encode}
use winrt_rs.Codes.Widths.{encode-fits}

-- Two rows of `TypeDef`.
abbrev few_rows : Tables
few_rows = set no_tables 2 (record empty_table { row_count = 2 })

abbrev narrow : CodedSizes
narrow = record {
  type_def_or_ref = 2;
  has_constant = 2;
  has_custom_attribute = 2;
  has_field_marshal = 2;
  has_decl_security = 2;
  member_ref_parent = 2;
  has_semantics = 2;
  method_def_or_ref = 2;
  member_forwarded = 2;
  implementation = 2;
  custom_attribute_type = 2;
  resolution_scope = 2;
  type_or_method_def = 2;
}

few_rows-narrow : coded_sizes few_rows ≡ ok narrow
unfolding coded_sizes composite composite_index_size all_small small bits_needed bits_loop table_at
    sub
few_rows-narrow = refl

encode-fits_example :
    Returns
      (encode TypeCode.has_attribute
        (record { variant = TableIndex.type_def; row = Row.new 1 TableIndex.type_def 0 }))
      (λ code. code < 2 ^ 16)
unfolding enumerator_of variants enumerators table_at
encode-fits_example =
    encode-fits TypeCode.has_attribute few_rows narrow TableIndex.type_def 3 1 0 few_rows-narrow
      refl refl (omega arith)
