-- ===== src/Codes/Widths.antt =====
-- A code fits the column that `WinmdFile::new` gives it.
use winrt_rs.Base.{
  ℕ, suc, ◌+◌, ◌*◌, ◌^◌, ◌≤◌, ◌<◌, ◌≡◌, ◌⊎◌, inl, inr, some, List, [], ◌∷◌, arith, ltb, ltb→lt,
  Bool-cases, length, get_or, All, ok, >>=-eq-ok, Returns,
}
use native.Mathlib.Nat.{pow-suc, pow-le-pow_right}
use winrt_rs.File.TableData.{TableData, empty_table}
use winrt_rs.File.TableId.{
  TableIndex, position, kept_tables, assembly_id, assembly_ref_id, event_id, exported_type_id,
  field_id, file_id, generic_param_constraint_id, generic_param_id, interface_impl_id,
  manifest_resource_id, member_ref_id, method_def_id, method_spec_id, module_id, module_ref_id,
  param_id, property_id, standalone_sig_id, type_def_id, type_ref_id, type_spec_id,
}
use winrt_rs.File.IndexSize.{composite_index_size}
use winrt_rs.File.IndexSize.Bits.{Tells}
use winrt_rs.File.IndexSize.Fits.{Coded, composite_index_size-Coded}
use winrt_rs.File.Rows.{Tables, table_at}
use winrt_rs.File.Columns.Widths.{CodedSizes, coded_sizes, composite}
use winrt_rs.Row
use winrt_rs.Codes.{TypeCode, bits, variants, enumerators, enumerator_of, encode}
use winrt_rs.Codes.RoundTrip.{encode-eq-ok, variant_of-enumerator_of}

-- The width of the columns that hold codes of an enum.
abbrev pub width_of : TypeCode → CodedSizes → ℕ
width_of TypeCode.type_def_or_ref sizes = sizes.type_def_or_ref
width_of TypeCode.type_or_method_def sizes = sizes.type_or_method_def
width_of TypeCode.has_attribute sizes = sizes.has_custom_attribute
width_of TypeCode.member_ref_parent sizes = sizes.member_ref_parent
width_of TypeCode.has_constant sizes = sizes.has_constant
width_of TypeCode.attribute_type sizes = sizes.custom_attribute_type

-- The tables that the width takes into account.
abbrev tables_of : TypeCode → Tables → List TableData
tables_of TypeCode.type_def_or_ref s =
    table_at s type_def_id ∷ table_at s type_ref_id ∷ table_at s type_spec_id ∷ []
tables_of TypeCode.type_or_method_def s = table_at s type_def_id ∷ table_at s method_def_id ∷ []
tables_of TypeCode.has_attribute s =
    table_at s method_def_id
    ∷ table_at s field_id
    ∷ table_at s type_ref_id
    ∷ table_at s type_def_id
    ∷ table_at s param_id
    ∷ table_at s interface_impl_id
    ∷ table_at s member_ref_id
    ∷ table_at s module_id
    ∷ table_at s property_id
    ∷ table_at s event_id
    ∷ table_at s standalone_sig_id
    ∷ table_at s module_ref_id
    ∷ table_at s type_spec_id
    ∷ table_at s assembly_id
    ∷ table_at s assembly_ref_id
    ∷ table_at s file_id
    ∷ table_at s exported_type_id
    ∷ table_at s manifest_resource_id
    ∷ table_at s generic_param_id
    ∷ table_at s generic_param_constraint_id
    ∷ table_at s method_spec_id
    ∷ []
tables_of TypeCode.member_ref_parent s =
    table_at s type_def_id
    ∷ table_at s type_ref_id
    ∷ table_at s module_ref_id
    ∷ table_at s method_def_id
    ∷ table_at s type_spec_id
    ∷ []
tables_of TypeCode.has_constant s =
    table_at s field_id ∷ table_at s param_id ∷ table_at s property_id ∷ []
tables_of TypeCode.attribute_type s =
    table_at s method_def_id
    ∷ table_at s member_ref_id
    ∷ empty_table
    ∷ empty_table
    ∷ empty_table
    ∷ []

abbrev pub table_of : Tables → TableIndex → TableData
table_of s variant = table_at s (get_or kept_tables (position variant) 0)

-- The table of each variant is among them.
All-table_of :
    (P : TableData → Type 0) (enum : TypeCode) (s : Tables) (variant : TableIndex) (tag : ℕ)
    → All P (tables_of enum s)
    → enumerator_of variant (variants enum) ≡ some tag
    → P (table_of s variant)
unfolding enumerator_of variants enumerators
All-table_of P TypeCode.type_def_or_ref s TableIndex.type_def tag h e = h.0
All-table_of P TypeCode.type_def_or_ref s TableIndex.type_ref tag h e = h.1.0
All-table_of P TypeCode.type_def_or_ref s TableIndex.type_spec tag h e = h.1.1.0
All-table_of P TypeCode.type_def_or_ref s _ tag h e = absurd cc
All-table_of P TypeCode.type_or_method_def s TableIndex.type_def tag h e = h.0
All-table_of P TypeCode.type_or_method_def s TableIndex.method_def tag h e = h.1.0
All-table_of P TypeCode.type_or_method_def s _ tag h e = absurd cc
All-table_of P TypeCode.has_attribute s TableIndex.method_def tag h e = h.0
All-table_of P TypeCode.has_attribute s TableIndex.field tag h e = h.1.0
All-table_of P TypeCode.has_attribute s TableIndex.type_ref tag h e = h.1.1.0
All-table_of P TypeCode.has_attribute s TableIndex.type_def tag h e = h.1.1.1.0
All-table_of P TypeCode.has_attribute s TableIndex.param tag h e = h.1.1.1.1.0
All-table_of P TypeCode.has_attribute s TableIndex.interface_impl tag h e = h.1.1.1.1.1.0
All-table_of P TypeCode.has_attribute s TableIndex.member_ref tag h e = h.1.1.1.1.1.1.0
All-table_of P TypeCode.has_attribute s TableIndex.type_spec tag h e = h.1.1.1.1.1.1.1.1.1.1.1.1.0
All-table_of P TypeCode.has_attribute s TableIndex.generic_param tag h e =
    h.1.1.1.1.1.1.1.1.1.1.1.1.1.1.1.1.1.1.0
All-table_of P TypeCode.has_attribute s _ tag h e = absurd cc
All-table_of P TypeCode.member_ref_parent s TableIndex.type_def tag h e = h.0
All-table_of P TypeCode.member_ref_parent s TableIndex.type_ref tag h e = h.1.0
All-table_of P TypeCode.member_ref_parent s TableIndex.method_def tag h e = h.1.1.1.0
All-table_of P TypeCode.member_ref_parent s TableIndex.type_spec tag h e = h.1.1.1.1.0
All-table_of P TypeCode.member_ref_parent s _ tag h e = absurd cc
All-table_of P TypeCode.has_constant s TableIndex.field tag h e = h.0
All-table_of P TypeCode.has_constant s TableIndex.param tag h e = h.1.0
All-table_of P TypeCode.has_constant s _ tag h e = absurd cc
All-table_of P TypeCode.attribute_type s TableIndex.method_def tag h e = h.0
All-table_of P TypeCode.attribute_type s TableIndex.member_ref tag h e = h.1.0
All-table_of P TypeCode.attribute_type s _ tag h e = absurd cc

no_more_bits : (n a b : ℕ) → n ≤ 2 ^ a → 2 ^ b < 2 * n → b ≤ a
no_more_bits n a b low high = elim (Bool-cases (ltb a b)) [
  | inr within ↦ ground arith
  | inl more ↦
      let next : suc a ≤ b = ltb→lt a b more in
      let grown : 2 ^ suc a ≤ 2 ^ b = pow-le-pow_right (omega arith) next in
      absurd (omega (arith, pow-suc 2 a))
]

Tells-unique : (n a b : ℕ) → Tells n a → Tells n b → a ≡ b
Tells-unique n a b (low, high) (low', high') =
    omega (arith, no_more_bits n a b low high', no_more_bits n b a low' high)

bits-Tells : (enum : TypeCode) (s : Tables) → Tells (length (tables_of enum s)) (bits enum)
bits-Tells TypeCode.type_def_or_ref s = (omega arith, omega arith)
bits-Tells TypeCode.type_or_method_def s = (omega arith, omega arith)
bits-Tells TypeCode.has_attribute s = (omega arith, omega arith)
bits-Tells TypeCode.member_ref_parent s = (omega arith, omega arith)
bits-Tells TypeCode.has_constant s = (omega arith, omega arith)
bits-Tells TypeCode.attribute_type s = (omega arith, omega arith)

few_tables :
    (enum : TypeCode) (s : Tables)
    → (2 ≤ length (tables_of enum s)) × (length (tables_of enum s) ≤ 2 ^ 16)
few_tables TypeCode.type_def_or_ref s = (omega arith, omega arith)
few_tables TypeCode.type_or_method_def s = (omega arith, omega arith)
few_tables TypeCode.has_attribute s = (omega arith, omega arith)
few_tables TypeCode.member_ref_parent s = (omega arith, omega arith)
few_tables TypeCode.has_constant s = (omega arith, omega arith)
few_tables TypeCode.attribute_type s = (omega arith, omega arith)

same_sizes : (a b : CodedSizes) → ok a ≡ ok b → a ≡ b
same_sizes a b h = cc

-- The widths that `coded_sizes` gives.
record Given (s : Tables) (sizes : CodedSizes) : Type 0 where
  for_type_def_or_ref :
      composite_index_size (tables_of TypeCode.type_def_or_ref s)
      ≡ ok (width_of TypeCode.type_def_or_ref sizes)
  for_type_or_method_def :
      composite_index_size (tables_of TypeCode.type_or_method_def s)
      ≡ ok (width_of TypeCode.type_or_method_def sizes)
  for_has_attribute :
      composite_index_size (tables_of TypeCode.has_attribute s)
      ≡ ok (width_of TypeCode.has_attribute sizes)
  for_member_ref_parent :
      composite_index_size (tables_of TypeCode.member_ref_parent s)
      ≡ ok (width_of TypeCode.member_ref_parent sizes)
  for_has_constant :
      composite_index_size (tables_of TypeCode.has_constant s)
      ≡ ok (width_of TypeCode.has_constant sizes)
  for_attribute_type :
      composite_index_size (tables_of TypeCode.attribute_type s)
      ≡ ok (width_of TypeCode.attribute_type sizes)

coded_sizes-Given : (s : Tables) (sizes : CodedSizes) → coded_sizes s ≡ ok sizes → Given s sizes
unfolding coded_sizes composite
coded_sizes-Given s sizes h0 =
    let (w1, e1, h1) =
      >>=-eq-ok (composite s (type_def_id ∷ type_ref_id ∷ type_spec_id ∷ [])) _ h0 in
    let (w2, e2, h2) = >>=-eq-ok (composite s (field_id ∷ param_id ∷ property_id ∷ [])) _ h1 in
    let (w3, e3, h3) =
      >>=-eq-ok
        (composite s (
          method_def_id ∷ field_id ∷ type_ref_id ∷ type_def_id ∷ param_id ∷ interface_impl_id
          ∷ member_ref_id ∷ module_id ∷ property_id ∷ event_id ∷ standalone_sig_id ∷ module_ref_id
          ∷ type_spec_id ∷ assembly_id ∷ assembly_ref_id ∷ file_id ∷ exported_type_id
          ∷ manifest_resource_id ∷ generic_param_id ∷ generic_param_constraint_id ∷ method_spec_id
          ∷ []))
        _ h2 in
    let (w4, e4, h4) = >>=-eq-ok (composite s (field_id ∷ param_id ∷ [])) _ h3 in
    let (w5, e5, h5) =
      >>=-eq-ok (composite s (type_def_id ∷ method_def_id ∷ assembly_id ∷ [])) _ h4 in
    let (w6, e6, h6) =
      >>=-eq-ok
        (composite s
          (type_def_id ∷ type_ref_id ∷ module_ref_id ∷ method_def_id ∷ type_spec_id ∷ []))
        _ h5 in
    let (w7, e7, h7) = >>=-eq-ok (composite s (event_id ∷ property_id ∷ [])) _ h6 in
    let (w8, e8, h8) = >>=-eq-ok (composite s (method_def_id ∷ member_ref_id ∷ [])) _ h7 in
    let (w9, e9, h9) = >>=-eq-ok (composite s (field_id ∷ method_def_id ∷ [])) _ h8 in
    let (w10, e10, h10) =
      >>=-eq-ok (composite s (file_id ∷ assembly_ref_id ∷ exported_type_id ∷ [])) _ h9 in
    let (w11, e11, h11) =
      >>=-eq-ok
        (composite_index_size (
          table_at s method_def_id
          ∷ table_at s member_ref_id
          ∷ empty_table
          ∷ empty_table
          ∷ empty_table
          ∷ []))
        _ h10 in
    let (w12, e12, h12) =
      >>=-eq-ok (composite s (module_id ∷ module_ref_id ∷ assembly_ref_id ∷ type_ref_id ∷ [])) _
        h11 in
    let (w13, e13, h13) = >>=-eq-ok (composite s (type_def_id ∷ method_def_id ∷ [])) _ h12 in
    let same = same_sizes _ sizes h13 in
    rw (← same) (record {
      for_type_def_or_ref = e1;
      for_type_or_method_def = e13;
      for_has_attribute = e3;
      for_member_ref_parent = e6;
      for_has_constant = e2;
      for_attribute_type = e11;
    })

given :
    (s : Tables) (sizes : CodedSizes) (enum : TypeCode)
    → Given s sizes
    → composite_index_size (tables_of enum s) ≡ ok (width_of enum sizes)
given s sizes TypeCode.type_def_or_ref widths = widths.for_type_def_or_ref
given s sizes TypeCode.type_or_method_def widths = widths.for_type_or_method_def
given s sizes TypeCode.has_attribute widths = widths.for_has_attribute
given s sizes TypeCode.member_ref_parent widths = widths.for_member_ref_parent
given s sizes TypeCode.has_constant widths = widths.for_has_constant
given s sizes TypeCode.attribute_type widths = widths.for_attribute_type

-- Where the tables give an enum columns of two bytes, `encode` returns, for each row that is in the
-- table of a variant, a code that fits two bytes.
pub encode-fits :
    (enum : TypeCode) (s : Tables) (sizes : CodedSizes) (variant : TableIndex) (tag index file : ℕ)
    → coded_sizes s ≡ ok sizes
    → width_of enum sizes ≡ 2
    → enumerator_of variant (variants enum) ≡ some tag
    → index < (table_of s variant).row_count
    → Returns
        (encode enum (record { variant = variant; row = Row.new index variant file }))
        (λ code. code < 2 ^ 16)
encode-fits enum s sizes variant tag index file h narrow named inside =
    let ts = tables_of enum s in
    let few = few_tables enum s in
    let (bits', size, e, tells, fits) = composite_index_size-Coded ts few.0 few.1 in
    let same : bits' ≡ bits enum =
      Tells-unique (length ts) bits' (bits enum) tells (bits-Tells enum s) in
    let two : size ≡ 2 =
      ground (arith, e, given s sizes enum (coded_sizes-Given s sizes h), narrow) in
    let all : All (Coded (bits enum)) ts = rw same at (narrow_fits ts bits' size two fits) in
    let tagged = (variant_of-enumerator_of enum variant tag named).1 in
    let fit =
      All-table_of (Coded (bits enum)) enum s variant tag all named (index + 1) tag (omega arith)
        tagged in
    rw (encode-eq-ok enum variant tag (Row.new index variant file) named (omega arith)) fit
  where
    narrow_fits :
        (ts : List TableData) (b size : ℕ)
        → size ≡ 2
        → ((size ≡ 2) × All (Coded b) ts) ⊎ ((size ≡ 4) × (¬ All (Coded b) ts))
        → All (Coded b) ts
    narrow_fits ts b size two (inl (_, all)) = all
    narrow_fits ts b size two (inr (four, _)) = absurd (omega arith)
