-- ===== src/Tables/Attribute.antt =====
-- crates/winmd/src/tables/attribute.rs: the name of an attribute, and its arguments.
use winrt_rs.Base.{
  ℕ, zero, suc, Bool, not, ◌||◌, List, [], ◌∷◌, ◌++◌, ◌==◌, if◌then◌else◌, unwrap_none, explicit,
  stuck, Result, ok, panic, ◌>>=◌, require,
}
use winrt_rs.File.TableId.{TableIndex}
use winrt_rs.Row.{TypeDef, MemberRef, Attribute}
use winrt_rs.Text.{Text, split_last}
use winrt_rs.Blob.{
  Blob, ℤ, read_unsigned, read_str, read_i8, read_u8, read_i16, read_u16, read_i32, read_u32,
  read_i64, read_u64,
}
use winrt_rs.Reader.{TypeReader}
use winrt_rs.Reader.Resolve.{Name, blob, resolve_type_def}
use winrt_rs.Codes.{TypeCode, Coded, decode_cell}
use winrt_rs.Tables.{method_def_parent, member_ref_parent, type_def_name, type_ref_name}

-- The variants that `args` makes.
pub data AttributeArg : Type 0 where
  bool : Bool → AttributeArg
  i8 : ℤ → AttributeArg
  u8 : ℕ → AttributeArg
  i16 : ℤ → AttributeArg
  u16 : ℕ → AttributeArg
  i32 : ℤ → AttributeArg
  u32 : ℕ → AttributeArg
  i64 : ℤ → AttributeArg
  u64 : ℕ → AttributeArg
  string : Text → AttributeArg
  type_def : TypeDef → AttributeArg

-- A read, and what is made of its value.
unfoldable pub reading {ℓ} :
    {A : Type ℓ} → (A → AttributeArg) → Result (A × Blob) → Result (AttributeArg × Blob)
reading f read = read >>= λ r. ok (f r.0, r.1)

module _ (reader : TypeReader) where
  unfoldable pub parent : Attribute → Result Coded
  parent attribute = decode_cell TypeCode.has_attribute reader attribute.row 0

  unfoldable pub constructor : Attribute → Result Coded
  constructor attribute = decode_cell TypeCode.attribute_type reader attribute.row 1

  unfoldable pub member_name : MemberRef → Result Name
  member_name member = do
    owner ← member_ref_parent reader member
    elim (owner.variant) [
      | TableIndex.type_def ↦ type_def_name reader (record { row = owner.row })
      | TableIndex.type_ref ↦ type_ref_name reader (record { row = owner.row })
      | _ ↦ panic explicit
    ]

  -- `decode` gives no other variant of `AttributeType` than these two.
  unfoldable pub name : Attribute → Result Name
  name attribute = do
    maker ← constructor attribute
    elim (maker.variant) [
      | TableIndex.method_def ↦
          method_def_parent reader (record { row = maker.row }) >>= type_def_name reader
      | TableIndex.member_ref ↦ member_name (record { row = maker.row })
      | _ ↦ panic stuck
    ]

  -- A type's full name, up to the last dot and behind it.
  unfoldable pub named_type : Text → Result TypeDef
  named_type full = require (split_last 0x2E full) unwrap_none >>= resolve_type_def reader

  unfoldable pub read_type : Blob → Result (AttributeArg × Blob)
  read_type values = do
    (full, values') ← read_str values
    def ← named_type full
    ok (AttributeArg.type_def def, values')

  -- The first `match`: the argument, and the two blobs behind it.
  unfoldable pub fixed_arg : (tag : ℕ) (sig values : Blob) → Result (AttributeArg × Blob × Blob)
  fixed_arg tag sig values =
      if tag == 0x04
      then plain (reading AttributeArg.i8 (read_i8 values))
      else if tag == 0x05
      then plain (reading AttributeArg.u8 (read_u8 values))
      else if tag == 0x06
      then plain (reading AttributeArg.i16 (read_i16 values))
      else if tag == 0x07
      then plain (reading AttributeArg.u16 (read_u16 values))
      else if tag == 0x08
      then plain (reading AttributeArg.i32 (read_i32 values))
      else if tag == 0x09
      then plain (reading AttributeArg.u32 (read_u32 values))
      else if tag == 0x0A
      then plain (reading AttributeArg.i64 (read_i64 values))
      else if tag == 0x0B
      then plain (reading AttributeArg.u64 (read_u64 values))
      else if tag == 0x0E
      then plain (reading AttributeArg.string (read_str values))
      else if tag == 0x11 || tag == 0x12
      then (read_unsigned sig >>= λ s. read_type values >>= λ r. ok (r.0, s.1, r.1))
      else panic explicit
    where
      plain : Result (AttributeArg × Blob) → Result (AttributeArg × Blob × Blob)
      plain read = read >>= λ r. ok (r.0, sig, r.1)

  unfoldable pub fixed_args :
      (count : ℕ) (sig values : Blob) → Result (List (Text × AttributeArg) × Blob)
  fixed_args zero sig values = ok ([], values)
  fixed_args (suc count) sig values = do
    (tag, sig') ← read_unsigned sig
    (arg, sig'', values') ← fixed_arg tag sig' values
    (args, end) ← fixed_args count sig'' values'
    ok (([], arg) ∷ args, end)

  -- The second `match`.
  unfoldable pub named_arg : (tag : ℕ) (values : Blob) → Result (AttributeArg × Blob)
  named_arg tag values =
      if tag == 0x02
      then reading (λ v. AttributeArg.bool (not (v == 0))) (read_u8 values)
      else if tag == 0x08
      then reading AttributeArg.i32 (read_i32 values)
      else if tag == 0x0E
      then reading AttributeArg.string (read_str values)
      else if tag == 0x50
      then read_type values
      else panic explicit

  unfoldable pub named_args : (count : ℕ) (values : Blob) → Result (List (Text × AttributeArg))
  named_args zero values = ok []
  named_args (suc count) values = do
    (label, values') ← read_str values
    (tag, values'') ← read_u8 values'
    (arg, values''') ← named_arg tag values''
    args ← named_args count values'''
    ok ((label, arg) ∷ args)

  -- The column of the signature of the constructor.
  unfoldable pub sig_column : TableIndex → Result ℕ
  sig_column TableIndex.method_def = ok 4
  sig_column TableIndex.member_ref = ok 2
  sig_column _ = panic stuck

  unfoldable pub args : Attribute → Result (List (Text × AttributeArg))
  args attribute = do
    maker ← constructor attribute
    column ← sig_column maker.variant
    sig ← blob reader maker.row column
    values ← blob reader attribute.row 2
    (_, values1) ← read_u16 values
    (_, sig1) ← read_unsigned sig
    (count, sig2) ← read_unsigned sig1
    (_, sig3) ← read_unsigned sig2
    (fixed, values2) ← fixed_args count sig3 values1
    (named_count, values3) ← read_u16 values2
    named ← named_args named_count values3
    ok (fixed ++ named)
