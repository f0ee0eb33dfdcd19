-- ===== src/File/Columns/Fill.antt =====
-- crates/winmd/src/file.rs: the calls of `set_columns` in `WinmdFile::new`, in their order.
use winrt_rs.Base.{ℕ, List, [], ◌∷◌, ◌++◌, set, Result, ok, ◌>>=◌}
use winrt_rs.File.TableData.{index_size, set_columns}
use winrt_rs.File.Rows.{Tables, table_at}
use winrt_rs.File.Columns.Widths.{HeapSizes, CodedSizes}
use winrt_rs.File.TableId.{
  assembly_id, assembly_os_id, assembly_processor_id, assembly_ref_id, assembly_ref_os_id,
  assembly_ref_processor_id, class_layout_id, constant_id, custom_attribute_id, decl_security_id,
  event_map_id, event_id, exported_type_id, field_id, field_layout_id, field_marshal_id,
  field_rva_id, file_id, generic_param_id, generic_param_constraint_id, impl_map_id,
  interface_impl_id, manifest_resource_id, member_ref_id, method_def_id, method_impl_id,
  method_semantics_id, method_spec_id, module_id, module_ref_id, nested_class_id, param_id,
  property_id, property_map_id, standalone_sig_id, type_def_id, type_ref_id, type_spec_id,
}

abbrev pub Widths : Type 0
Widths = ℕ × ℕ × ℕ × ℕ × ℕ × ℕ

-- A call: the table, and the widths, which it computes from the tables as they are then.
abbrev pub Call : Type 0
Call = ℕ × (Tables → Widths)

-- `tables[id].set_columns(a, b, c, d, e, f)`.
unfoldable pub set_columns_at : Tables → Call → Result Tables
set_columns_at tables (id, widths) =
    let (a, b, c, d, e, f) = widths tables in
    set_columns (table_at tables id) a b c d e f >>= λ t. ok (set tables id t)

unfoldable pub set_columns_all : List Call → Tables → Result Tables
set_columns_all [] tables = ok tables
set_columns_all (call ∷ calls) tables = do
  tables' ← set_columns_at tables call
  set_columns_all calls tables'

module _ (h : HeapSizes) (c : CodedSizes) where
  -- Assembly to ExportedType.
  abbrev pub first_calls : List Call
  first_calls =
      (assembly_id, λ t. (4, 8, 4, h.blob_index_size, h.string_index_size, h.string_index_size))
      ∷ (assembly_os_id, λ t. (4, 4, 4, 0, 0, 0))
      ∷ (assembly_processor_id, λ t. (4, 0, 0, 0, 0, 0))
      ∷ (
        assembly_ref_id,
        λ t. (8, 4, h.blob_index_size, h.string_index_size, h.string_index_size, h.blob_index_size),
      )
      ∷ (assembly_ref_os_id, λ t. (4, 4, 4, index_size (table_at t assembly_ref_id), 0, 0))
      ∷ (assembly_ref_processor_id, λ t. (4, index_size (table_at t assembly_ref_id), 0, 0, 0, 0))
      ∷ (class_layout_id, λ t. (2, 4, index_size (table_at t type_def_id), 0, 0, 0))
      ∷ (constant_id, λ t. (2, c.has_constant, h.blob_index_size, 0, 0, 0))
      ∷ (
        custom_attribute_id,
        λ t. (c.has_custom_attribute, c.custom_attribute_type, h.blob_index_size, 0, 0, 0),
      )
      ∷ (decl_security_id, λ t. (2, c.has_decl_security, h.blob_index_size, 0, 0, 0))
      ∷ (
        event_map_id,
        λ t. (index_size (table_at t type_def_id), index_size (table_at t event_id), 0, 0, 0, 0),
      )
      ∷ (event_id, λ t. (2, h.string_index_size, c.type_def_or_ref, 0, 0, 0))
      ∷ (
        exported_type_id,
        λ t. (4, 4, h.string_index_size, h.string_index_size, c.implementation, 0),
      )
      ∷ []

  -- Field to MethodImpl.
  abbrev pub second_calls : List Call
  second_calls =
      (field_id, λ t. (2, h.string_index_size, h.blob_index_size, 0, 0, 0))
      ∷ (field_layout_id, λ t. (4, index_size (table_at t field_id), 0, 0, 0, 0))
      ∷ (field_marshal_id, λ t. (c.has_field_marshal, h.blob_index_size, 0, 0, 0, 0))
      ∷ (field_rva_id, λ t. (4, index_size (table_at t field_id), 0, 0, 0, 0))
      ∷ (file_id, λ t. (4, h.string_index_size, h.blob_index_size, 0, 0, 0))
      ∷ (generic_param_id, λ t. (2, 2, c.type_or_method_def, h.string_index_size, 0, 0))
      ∷ (
        generic_param_constraint_id,
        λ t. (index_size (table_at t generic_param_id), c.type_def_or_ref, 0, 0, 0, 0),
      )
      ∷ (
        impl_map_id,
        λ t. (
          2,
          c.member_forwarded,
          h.string_index_size,
          index_size (table_at t module_ref_id),
          0,
          0,
        ),
      )
      ∷ (
        interface_impl_id,
        λ t. (index_size (table_at t type_def_id), c.type_def_or_ref, 0, 0, 0, 0),
      )
      ∷ (manifest_resource_id, λ t. (4, 4, h.string_index_size, c.implementation, 0, 0))
      ∷ (member_ref_id, λ t. (c.member_ref_parent, h.string_index_size, h.blob_index_size, 0, 0, 0))
      ∷ (
        method_def_id,
        λ t. (4, 2, 2, h.string_index_size, h.blob_index_size, index_size (table_at t param_id)),
      )
      ∷ (
        method_impl_id,
        λ t. (
          index_size (table_at t type_def_id),
          c.method_def_or_ref,
          c.method_def_or_ref,
          0,
          0,
          0,
        ),
      )
      ∷ []

  -- MethodSemantics to TypeSpec.
  abbrev pub third_calls : List Call
  third_calls =
      (
        method_semantics_id,
        λ t. (2, index_size (table_at t method_def_id), c.has_semantics, 0, 0, 0),
      )
      ∷ (method_spec_id, λ t. (c.method_def_or_ref, h.blob_index_size, 0, 0, 0, 0))
      ∷ (
        module_id,
        λ t. (2, h.string_index_size, h.guid_index_size, h.guid_index_size, h.guid_index_size, 0),
      )
      ∷ (module_ref_id, λ t. (h.string_index_size, 0, 0, 0, 0, 0))
      ∷ (
        nested_class_id,
        λ t. (index_size (table_at t type_def_id), index_size (table_at t type_def_id), 0, 0, 0, 0),
      )
      ∷ (param_id, λ t. (2, 2, h.string_index_size, 0, 0, 0))
      ∷ (property_id, λ t. (2, h.string_index_size, h.blob_index_size, 0, 0, 0))
      ∷ (
        property_map_id,
        λ t. (index_size (table_at t type_def_id), index_size (table_at t property_id), 0, 0, 0, 0),
      )
      ∷ (standalone_sig_id, λ t. (h.blob_index_size, 0, 0, 0, 0, 0))
      ∷ (
        type_def_id,
        λ t. (
          4,
          h.string_index_size,
          h.string_index_size,
          c.type_def_or_ref,
          index_size (table_at t field_id),
          index_size (table_at t method_def_id),
        ),
      )
      ∷ (type_ref_id, λ t. (c.resolution_scope, h.string_index_size, h.string_index_size, 0, 0, 0))
      ∷ (type_spec_id, λ t. (h.blob_index_size, 0, 0, 0, 0, 0))
      ∷ []

  unfoldable pub fill_columns : Tables → Result Tables
  fill_columns tables = set_columns_all (first_calls ++ (second_calls ++ third_calls)) tables
