-- ===== src/File/Columns/Widths.antt =====
-- crates/winmd/src/file.rs: the widths of the heap indices and of the coded indices.
use winrt_rs.Base.{ℕ, ◌/◌, List, [], ◌∷◌, map, bit_and, ◌==◌, if◌then◌else◌, Result, ok, ◌>>=◌}
use winrt_rs.File.TableData.{empty_table}
use winrt_rs.File.IndexSize.{composite_index_size}
use winrt_rs.File.Rows.{Tables, table_at}
use winrt_rs.File.TableId.{
  assembly_id, assembly_ref_id, event_id, exported_type_id, field_id, file_id, generic_param_id,
  generic_param_constraint_id, interface_impl_id, manifest_resource_id, member_ref_id,
  method_def_id, method_spec_id, module_id, module_ref_id, param_id, property_id, standalone_sig_id,
  type_def_id, type_ref_id, type_spec_id,
}

pub record HeapSizes : Type 0 where
  pub string_index_size : ℕ
  pub guid_index_size : ℕ
  pub blob_index_size : ℕ

-- `(heap_sizes >> k & 1) == 1`, for the bits 0, 1 and 2.
unfoldable pub heap_index_sizes : ℕ → HeapSizes
heap_index_sizes heap_sizes = record {
  string_index_size = if bit_and heap_sizes 1 == 1 then 4 else 2;
  guid_index_size = if bit_and (heap_sizes / 2) 1 == 1 then 4 else 2;
  blob_index_size = if bit_and (heap_sizes / 4) 1 == 1 then 4 else 2;
}

pub record CodedSizes : Type 0 where
  pub type_def_or_ref : ℕ
  pub has_constant : ℕ
  pub has_custom_attribute : ℕ
  pub has_field_marshal : ℕ
  pub has_decl_security : ℕ
  pub member_ref_parent : ℕ
  pub has_semantics : ℕ
  pub method_def_or_ref : ℕ
  pub member_forwarded : ℕ
  pub implementation : ℕ
  pub custom_attribute_type : ℕ
  pub resolution_scope : ℕ
  pub type_or_method_def : ℕ

unfoldable pub composite : Tables → List ℕ → Result ℕ
composite tables ids = composite_index_size (map (table_at tables) ids)

-- `unused_empty` is a table of no rows.
unfoldable pub coded_sizes : Tables → Result CodedSizes
coded_sizes tables = do
  type_def_or_ref ← composite tables (type_def_id ∷ type_ref_id ∷ type_spec_id ∷ [])
  has_constant ← composite tables (field_id ∷ param_id ∷ property_id ∷ [])
  has_custom_attribute ← composite tables (
      method_def_id ∷ field_id ∷ type_ref_id ∷ type_def_id ∷ param_id ∷ interface_impl_id
      ∷ member_ref_id ∷ module_id ∷ property_id ∷ event_id ∷ standalone_sig_id ∷ module_ref_id
      ∷ type_spec_id ∷ assembly_id ∷ assembly_ref_id ∷ file_id ∷ exported_type_id
      ∷ manifest_resource_id ∷ generic_param_id ∷ generic_param_constraint_id ∷ method_spec_id ∷ [])
  has_field_marshal ← composite tables (field_id ∷ param_id ∷ [])
  has_decl_security ← composite tables (type_def_id ∷ method_def_id ∷ assembly_id ∷ [])
  member_ref_parent ←
      composite tables
        (type_def_id ∷ type_ref_id ∷ module_ref_id ∷ method_def_id ∷ type_spec_id ∷ [])
  has_semantics ← composite tables (event_id ∷ property_id ∷ [])
  method_def_or_ref ← composite tables (method_def_id ∷ member_ref_id ∷ [])
  member_forwarded ← composite tables (field_id ∷ method_def_id ∷ [])
  implementation ← composite tables (file_id ∷ assembly_ref_id ∷ exported_type_id ∷ [])
  custom_attribute_type ← composite_index_size (
      table_at tables method_def_id
      ∷ table_at tables member_ref_id
      ∷ empty_table
      ∷ empty_table
      ∷ empty_table
      ∷ [])
  resolution_scope ←
      composite tables (module_id ∷ module_ref_id ∷ assembly_ref_id ∷ type_ref_id ∷ [])
  type_or_method_def ← composite tables (type_def_id ∷ method_def_id ∷ [])
  ok (record {
    type_def_or_ref = type_def_or_ref;
    has_constant = has_constant;
    has_custom_attribute = has_custom_attribute;
    has_field_marshal = has_field_marshal;
    has_decl_security = has_decl_security;
    member_ref_parent = member_ref_parent;
    has_semantics = has_semantics;
    method_def_or_ref = method_def_or_ref;
    member_forwarded = member_forwarded;
    implementation = implementation;
    custom_attribute_type = custom_attribute_type;
    resolution_scope = resolution_scope;
    type_or_method_def = type_or_method_def;
  })
