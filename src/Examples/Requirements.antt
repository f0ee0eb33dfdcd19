-- ===== src/Examples/Requirements.antt =====
-- The interfaces of a class: `I` is its default interface, and requires `J`.
use winrt_rs.Base.{ℕ, ◌≡◌, refl, [], ◌∷◌, ◌++◌, arith, some, Returns, checked, add32, mul32, sub}
use winrt_rs.Base.Maps.{lookup}
use winrt_rs.File.View.{le, copy_as, assert_proper_length, slice_from, until_nul}
use winrt_rs.File.TableId.{TableIndex}
use winrt_rs.File.TableData.{TableData, empty_table}
use winrt_rs.File.Rows.{table_at}
use winrt_rs.File.Load.{WinmdFile, table}
use winrt_rs.Row
use winrt_rs.Row.{InterfaceImpl}
use winrt_rs.Text.{ascii, from_utf8, utf8_from, lead}
use winrt_rs.Codes.{decode, decode_cell, encode, variants, enumerators, variant_of, enumerator_of}
use winrt_rs.Reader.{TypeReader, file_at, cell, cell_of, u32, str, rows_between, rows_from}
use winrt_rs.Reader.Search.{
  key_of, equal_range, equal_range_of, equal_range_in, equal_loop, around, lower_bound_in,
  lower_loop, upper_bound_in, upper_loop,
}
use winrt_rs.Tables.{
  names, coded_range, type_ref_name, type_def_name, type_def_generics, type_def_interfaces,
  interface_impl_interface, member_ref_parent,
}
use winrt_rs.Tables.Attribute.{constructor, member_name, name}
use winrt_rs.Tables.Attributes.{attributes_of, interface_impl_attributes}
use winrt_rs.Types.{TypeName, type_name, no_kinds}
use winrt_rs.Types.Order.Lawful.{name_order}
use winrt_rs.Types.Reading.{name_from_type_def, name_from_type_def_or_ref}
use winrt_rs.Types.Required.{InterfaceKind, kind_by, kind_of, interface_name, insert_required}
use winrt_rs.Types.Required.Hierarchy.{Below, nothing, interface, Occurs, Requires}
use winrt_rs.Types.Required.Complete.{HoldsAll}
use winrt_rs.Types.Required.Inserted.{insert_required-Requires}

-- A table of some rows of one-byte columns.
abbrev small_table : (data_start row_count row_size : ℕ) → TableData
small_table data_start row_count row_size = record {
  data_start = data_start;
  row_count = row_count;
  row_size = row_size;
  columns = (0, 1) ∷ (1, 1) ∷ (2, 1) ∷ (3, 1) ∷ (4, 1) ∷ (5, 1) ∷ [];
}

abbrev within : WinmdFile
within = record {
  bytes =
      ascii "Windows.Foundation.Metadata"
      ++ (0
          ∷ (ascii "DefaultAttribute"
              ++ (0 ∷ 0x41 ∷ 0 ∷ 0x43 ∷ 0 ∷ 0x49 ∷ 0 ∷ 0x4A ∷ 0 ∷ 1 ∷ 8 ∷ 2 ∷ 12 ∷ 37 ∷ 11 ∷ 0 ∷ 9
                  ∷ 0 ∷ 0 ∷ 0 ∷ 28 ∷ 0 ∷ 0 ∷ 47 ∷ 45 ∷ 0 ∷ 0 ∷ 0 ∷ 0 ∷ 49 ∷ 45 ∷ 0 ∷ 0 ∷ 0 ∷ 0 ∷ 51
                  ∷ 45 ∷ 0 ∷ 0 ∷ 0 ∷ [])));
  strings = 0;
  blobs = 0;
  guids = 0;
  tables =
      empty_table
      ∷ small_table 57 1 3
      ∷ empty_table
      ∷ small_table 0 0 4
      ∷ small_table 53 2 2
      ∷ small_table 60 1 3
      ∷ empty_table
      ∷ empty_table
      ∷ small_table 66 3 6
      ∷ small_table 63 1 3
      ∷ empty_table
      ∷ [];
}

abbrev reader : TypeReader
reader = record { files = within ∷ []; types = [] }

abbrev named : (letter row : ℕ) → TypeName
named letter row =
    type_name (ascii "A") (letter ∷ []) no_kinds
      (record { row = Row.new row TableIndex.type_def 0 })

abbrev required : Below
required =
    interface (named 0x49 1) InterfaceKind.default
      (interface (named 0x4A 2) InterfaceKind.non_default nothing nothing) nothing

abbrev impl : ℕ → InterfaceImpl
impl row = record { row = Row.new row TableIndex.interface_impl 0 }

class_Requires : Requires reader 1 (named 0x43 0) required
unfolding type_def_interfaces equal_range equal_range_of equal_range_in equal_loop around
    lower_bound_in lower_loop upper_bound_in upper_loop key_of u32 cell_of cell file_at table
    table_at copy_as assert_proper_length slice_from le add32 mul32 sub checked rows_between
    rows_from interface_name interface_impl_interface decode_cell decode variants enumerators
    variant_of name_from_type_def_or_ref name_from_type_def type_def_name names str until_nul
    from_utf8 utf8_from lead type_def_generics coded_range encode enumerator_of kind_of kind_by
    interface_impl_attributes attributes_of name constructor member_name member_ref_parent
    type_ref_name
class_Requires =
    (impl 0 ∷ [], refl, (refl, refl, (impl 1 ∷ [], refl, (refl, refl, ([], refl, tt), tt)), tt))

insert_required-Requires_example : Returns (insert_required reader 1 5 (named 0x43 0) []) (λ map.
    HoldsAll map required
    × ((m : TypeName) (k : InterfaceKind) → lookup name_order m map ≡ some k → Occurs m k required))
insert_required-Requires_example =
    insert_required-Requires reader 1 5 (named 0x43 0) required class_Requires (omega arith)
