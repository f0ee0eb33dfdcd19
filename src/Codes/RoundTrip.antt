-- ===== src/Codes/RoundTrip.antt =====
-- `encode` and `decode` are each other's inverse.
use winrt_rs.Base.{
  ℕ, ◌+◌, ◌-◌, ◌*◌, ◌/◌, ◌%◌, ◌^◌, ◌≤◌, ◌<◌, bit_and, bit_or, ◌≡◌, refl, ap, ◌∙◌, some, arith,
  explicit, ok, require, >>=-eq-ok, Returns, u32_mod, sub, add32-eq-ok, sub-eq-ok, sub-inv,
  require-inv,
}
use winrt_rs.Base.Bits.{
  mask_one, mask_two, mask_three, mask_five, fields_one, fields_two, fields_three, fields_five,
}
use winrt_rs.File.TableId.{TableIndex}
use winrt_rs.Row
use winrt_rs.Row.{Row}
use winrt_rs.Codes.{
  TypeCode, bits, enumerators, variants, Coded, variant_of, enumerator_of, decode, encode,
}

mask : (enum : TypeCode) (code : ℕ) → bit_and code (2 ^ bits enum - 1) ≡ code % 2 ^ bits enum
mask TypeCode.type_def_or_ref code = mask_two code
mask TypeCode.type_or_method_def code = mask_one code
mask TypeCode.has_attribute code = mask_five code
mask TypeCode.member_ref_parent code = mask_three code
mask TypeCode.has_constant code = mask_two code
mask TypeCode.attribute_type code = mask_three code

fields :
    (enum : TypeCode) (place tag : ℕ)
    → tag < 2 ^ bits enum
    → bit_or (place * 2 ^ bits enum) tag ≡ place * 2 ^ bits enum + tag
fields TypeCode.type_def_or_ref place tag h = fields_two place tag h
fields TypeCode.type_or_method_def place tag h = fields_one place tag h
fields TypeCode.has_attribute place tag h = fields_five place tag h
fields TypeCode.member_ref_parent place tag h = fields_three place tag h
fields TypeCode.has_constant place tag h = fields_two place tag h
fields TypeCode.attribute_type place tag h = fields_three place tag h

-- The two tables of an enum are inverse, and its enumerators fit its bits.
pub variant_of-enumerator_of :
    (enum : TypeCode) (index : TableIndex) (tag : ℕ)
    → enumerator_of index (variants enum) ≡ some tag
    → (variant_of tag (variants enum) ≡ some index) × (tag < 2 ^ bits enum)
unfolding enumerator_of variant_of variants enumerators
variant_of-enumerator_of TypeCode.type_def_or_ref index tag h = ground arith
variant_of-enumerator_of TypeCode.type_or_method_def index tag h = ground arith
variant_of-enumerator_of TypeCode.has_attribute index tag h = ground arith
variant_of-enumerator_of TypeCode.member_ref_parent index tag h = ground arith
variant_of-enumerator_of TypeCode.has_constant index tag h = ground arith
variant_of-enumerator_of TypeCode.attribute_type index tag h = ground arith

enumerator_of-variant_of :
    (enum : TypeCode) (index : TableIndex) (tag : ℕ)
    → variant_of tag (variants enum) ≡ some index
    → enumerator_of index (variants enum) ≡ some tag
unfolding enumerator_of variant_of variants enumerators
enumerator_of-variant_of TypeCode.type_def_or_ref index tag h = ground arith
enumerator_of-variant_of TypeCode.type_or_method_def index tag h = ground arith
enumerator_of-variant_of TypeCode.has_attribute index tag h = ground arith
enumerator_of-variant_of TypeCode.member_ref_parent index tag h = ground arith
enumerator_of-variant_of TypeCode.has_constant index tag h = ground arith
enumerator_of-variant_of TypeCode.attribute_type index tag h = ground arith

-- The parts of a code.
whole_code :
    (enum : TypeCode) (code : ℕ)
    → 1 ≤ code / 2 ^ bits enum
    → (code / 2 ^ bits enum - 1 + 1) * 2 ^ bits enum + code % 2 ^ bits enum ≡ code
whole_code TypeCode.type_def_or_ref code h = omega arith
whole_code TypeCode.type_or_method_def code h = omega arith
whole_code TypeCode.has_attribute code h = omega arith
whole_code TypeCode.member_ref_parent code h = omega arith
whole_code TypeCode.has_constant code h = omega arith
whole_code TypeCode.attribute_type code h = omega arith

code_parts :
    (enum : TypeCode) (place tag : ℕ)
    → tag < 2 ^ bits enum
    → ((place * 2 ^ bits enum + tag) / 2 ^ bits enum ≡ place)
      × ((place * 2 ^ bits enum + tag) % 2 ^ bits enum ≡ tag)
code_parts TypeCode.type_def_or_ref place tag h = (omega arith, omega arith)
code_parts TypeCode.type_or_method_def place tag h = (omega arith, omega arith)
code_parts TypeCode.has_attribute place tag h = (omega arith, omega arith)
code_parts TypeCode.member_ref_parent place tag h = (omega arith, omega arith)
code_parts TypeCode.has_constant place tag h = (omega arith, omega arith)
code_parts TypeCode.attribute_type place tag h = (omega arith, omega arith)

place_small :
    (enum : TypeCode) (place : ℕ)
    → place * 2 ^ bits enum < u32_mod
    → (place < u32_mod) × (place * 2 ^ bits enum % u32_mod ≡ place * 2 ^ bits enum)
place_small TypeCode.type_def_or_ref place h = (omega arith, omega arith)
place_small TypeCode.type_or_method_def place h = (omega arith, omega arith)
place_small TypeCode.has_attribute place h = (omega arith, omega arith)
place_small TypeCode.member_ref_parent place h = (omega arith, omega arith)
place_small TypeCode.has_constant place h = (omega arith, omega arith)
place_small TypeCode.attribute_type place h = (omega arith, omega arith)

code_small :
    (enum : TypeCode) (place tag : ℕ)
    → place * 2 ^ bits enum + tag < u32_mod
    → place * 2 ^ bits enum < u32_mod
code_small enum place tag h = omega arith

module _ (enum : TypeCode) where
  pub encode-eq-ok :
      (variant : TableIndex) (tag : ℕ) (row : Row)
      → enumerator_of variant (variants enum) ≡ some tag
      → (row.index + 1) * 2 ^ bits enum < u32_mod
      → encode enum (record { variant = variant; row = row })
        ≡ ok ((row.index + 1) * 2 ^ bits enum + tag)
  unfolding encode
  encode-eq-ok variant tag row h small =
      let fits = (variant_of-enumerator_of enum variant tag h).1 in
      let whole = place_small enum (row.index + 1) small in
      rw (add32-eq-ok row.index 1 whole.0, h, whole.1, fields enum (row.index + 1) tag fits) refl

  -- Where `decode` returns a value of a code of 32 bits, `encode` gives the code back.
  pub encode-decode :
      (code file : ℕ) (value : Coded)
      → code < u32_mod
      → decode enum code file ≡ ok value
      → encode enum value ≡ ok code
  unfolding decode
  encode-decode code file value small h =
      let (index, e1, h1) = >>=-eq-ok (sub (code / 2 ^ bits enum) 1) _ h in
      let (variant, e2, h2) =
        >>=-eq-ok (require (variant_of (bit_and code (2 ^ bits enum - 1)) (variants enum)) explicit)
          _ h1 in
      let place = sub-inv (code / 2 ^ bits enum) 1 index e1 in
      let named : variant_of (code % 2 ^ bits enum) (variants enum) ≡ some variant =
        rw (mask enum code) at (require-inv _ explicit variant e2) in
      let same : value ≡ record { variant = variant; row = Row.new index variant file } =
        ground arith in
      let parts : (index + 1) * 2 ^ bits enum + code % 2 ^ bits enum ≡ code =
        ap (λ n. n * 2 ^ bits enum + code % 2 ^ bits enum) (omega arith)
        ∙ whole_code enum code (omega arith) in
      rw same (
        encode-eq-ok variant (code % 2 ^ bits enum) (Row.new index variant file)
          (enumerator_of-variant_of enum variant (code % 2 ^ bits enum) named)
          (code_small enum (index + 1) (code % 2 ^ bits enum) (rw parts small))
        ∙ ap ok parts)

  -- For a variant of the enum and a row whose shifted place fits 32 bits, `encode` returns a code,
  -- and `decode` gives back the variant and the row of that variant's table.
  pub decode-encode :
      (variant : TableIndex) (tag index file : ℕ)
      → enumerator_of variant (variants enum) ≡ some tag
      → (index + 1) * 2 ^ bits enum < u32_mod
      → Returns
          (encode enum (record { variant = variant; row = Row.new index variant file }))
          (λ code.
            decode enum code file
            ≡ ok (record { variant = variant; row = Row.new index variant file }))
  unfolding decode
  decode-encode variant tag index file h small =
      let (found, fits) = variant_of-enumerator_of enum variant tag h in
      let place = index + 1 in
      let parts = code_parts enum place tag fits in
      let back : place - 1 ≡ index = omega arith in
      rw
        (
          encode-eq-ok variant tag (Row.new index variant file) h small,
          parts.0,
          mask enum (place * 2 ^ bits enum + tag),
          parts.1,
          found,
          sub-eq-ok place 1 (omega arith),
        )
        (rw back refl)
