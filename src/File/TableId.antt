-- ===== src/File/TableId.antt =====
-- crates/winmd/src/file.rs: the tables by the number that the file format gives them, which is how
-- `WinmdFile::new` meets them, and `TableIndex`, the place of the eleven that it keeps.
use winrt_rs.Base.{ℕ, List, [], ◌∷◌}

abbrev pub module_id : ℕ
module_id = 0x00

abbrev pub type_ref_id : ℕ
type_ref_id = 0x01

abbrev pub type_def_id : ℕ
type_def_id = 0x02

abbrev pub field_id : ℕ
field_id = 0x04

abbrev pub method_def_id : ℕ
method_def_id = 0x06

abbrev pub param_id : ℕ
param_id = 0x08

abbrev pub interface_impl_id : ℕ
interface_impl_id = 0x09

abbrev pub member_ref_id : ℕ
member_ref_id = 0x0a

abbrev pub constant_id : ℕ
constant_id = 0x0b

abbrev pub custom_attribute_id : ℕ
custom_attribute_id = 0x0c

abbrev pub field_marshal_id : ℕ
field_marshal_id = 0x0d

abbrev pub decl_security_id : ℕ
decl_security_id = 0x0e

abbrev pub class_layout_id : ℕ
class_layout_id = 0x0f

abbrev pub field_layout_id : ℕ
field_layout_id = 0x10

abbrev pub standalone_sig_id : ℕ
standalone_sig_id = 0x11

abbrev pub event_map_id : ℕ
event_map_id = 0x12

abbrev pub event_id : ℕ
event_id = 0x14

abbrev pub property_map_id : ℕ
property_map_id = 0x15

abbrev pub property_id : ℕ
property_id = 0x17

abbrev pub method_semantics_id : ℕ
method_semantics_id = 0x18

abbrev pub method_impl_id : ℕ
method_impl_id = 0x19

abbrev pub module_ref_id : ℕ
module_ref_id = 0x1a

abbrev pub type_spec_id : ℕ
type_spec_id = 0x1b

abbrev pub impl_map_id : ℕ
impl_map_id = 0x1c

abbrev pub field_rva_id : ℕ
field_rva_id = 0x1d

abbrev pub assembly_id : ℕ
assembly_id = 0x20

abbrev pub assembly_processor_id : ℕ
assembly_processor_id = 0x21

abbrev pub assembly_os_id : ℕ
assembly_os_id = 0x22

abbrev pub assembly_ref_id : ℕ
assembly_ref_id = 0x23

abbrev pub assembly_ref_processor_id : ℕ
assembly_ref_processor_id = 0x24

abbrev pub assembly_ref_os_id : ℕ
assembly_ref_os_id = 0x25

abbrev pub file_id : ℕ
file_id = 0x26

abbrev pub exported_type_id : ℕ
exported_type_id = 0x27

abbrev pub manifest_resource_id : ℕ
manifest_resource_id = 0x28

abbrev pub nested_class_id : ℕ
nested_class_id = 0x29

abbrev pub generic_param_id : ℕ
generic_param_id = 0x2a

abbrev pub method_spec_id : ℕ
method_spec_id = 0x2b

abbrev pub generic_param_constraint_id : ℕ
generic_param_constraint_id = 0x2c

-- The arms of the `match i` that stores a row count.
abbrev pub table_ids : List ℕ
table_ids =
    module_id ∷ type_ref_id ∷ type_def_id ∷ field_id ∷ method_def_id ∷ param_id ∷ interface_impl_id
    ∷ member_ref_id ∷ constant_id ∷ custom_attribute_id ∷ field_marshal_id ∷ decl_security_id
    ∷ class_layout_id ∷ field_layout_id ∷ standalone_sig_id ∷ event_map_id ∷ event_id
    ∷ property_map_id ∷ property_id ∷ method_semantics_id ∷ method_impl_id ∷ module_ref_id
    ∷ type_spec_id ∷ impl_map_id ∷ field_rva_id ∷ assembly_id ∷ assembly_processor_id
    ∷ assembly_os_id ∷ assembly_ref_id ∷ assembly_ref_processor_id ∷ assembly_ref_os_id ∷ file_id
    ∷ exported_type_id ∷ manifest_resource_id ∷ nested_class_id ∷ generic_param_id ∷ method_spec_id
    ∷ generic_param_constraint_id ∷ []

-- The tables in the order of the calls of `set_data`; the last two are not given an offset.
abbrev pub data_order : List ℕ
data_order =
    module_id ∷ type_ref_id ∷ type_def_id ∷ field_id ∷ method_def_id ∷ param_id ∷ interface_impl_id
    ∷ member_ref_id ∷ constant_id ∷ custom_attribute_id ∷ field_marshal_id ∷ decl_security_id
    ∷ class_layout_id ∷ field_layout_id ∷ standalone_sig_id ∷ event_map_id ∷ event_id
    ∷ property_map_id ∷ property_id ∷ method_semantics_id ∷ method_impl_id ∷ module_ref_id
    ∷ type_spec_id ∷ impl_map_id ∷ field_rva_id ∷ assembly_id ∷ assembly_processor_id
    ∷ assembly_os_id ∷ assembly_ref_id ∷ assembly_ref_processor_id ∷ assembly_ref_os_id ∷ file_id
    ∷ exported_type_id ∷ manifest_resource_id ∷ nested_class_id ∷ generic_param_id ∷ []

-- The position is the discriminant.
pub data TableIndex : Type 0 where
  constant : TableIndex
  custom_attribute : TableIndex
  field : TableIndex
  generic_param : TableIndex
  interface_impl : TableIndex
  member_ref : TableIndex
  method_def : TableIndex
  param : TableIndex
  type_def : TableIndex
  type_ref : TableIndex
  type_spec : TableIndex

abbrev pub position : TableIndex → ℕ
position constant = 0
position custom_attribute = 1
position field = 2
position generic_param = 3
position interface_impl = 4
position member_ref = 5
position method_def = 6
position param = 7
position type_def = 8
position type_ref = 9
position type_spec = 10

-- The slots of `file.tables`, in the order of `TableIndex`.
abbrev pub kept_tables : List ℕ
kept_tables =
    constant_id ∷ custom_attribute_id ∷ field_id ∷ generic_param_id ∷ interface_impl_id
    ∷ member_ref_id ∷ method_def_id ∷ param_id ∷ type_def_id ∷ type_ref_id ∷ type_spec_id ∷ []
