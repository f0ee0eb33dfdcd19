-- ===== src/Examples/Args.antt =====
-- An attribute with one number as its argument.
use winrt_rs.Base.{
  ℕ, ◌≡◌, refl, List, [], ◌∷◌, ◌++◌, arith, length, take, drop, ok, checked, add32, mul32, sub,
}
use winrt_rs.File.View.{le, slice_from, assert_proper_length, copy_as}
use winrt_rs.File.View.Copy.{to_le}
use winrt_rs.File.TableId.{TableIndex}
use winrt_rs.File.Load.{WinmdFile, table}
use winrt_rs.File.Rows.{table_at}
use winrt_rs.Row
use winrt_rs.Row.{Row, Attribute}
use winrt_rs.Blob
use winrt_rs.Blob.{Blob, ℤ}
use winrt_rs.Blob.Unsigned.{compress, Stands}
use winrt_rs.Blob.Values.{twos_complement}
use winrt_rs.Codes.{Coded, decode, decode_cell, variants, enumerators, variant_of}
use winrt_rs.Reader.{TypeReader, file_at, cell, cell_of, u32}
use winrt_rs.Reader.Resolve.{blob, slice, size_bytes, add_size_byte, add_size_bytes}
use winrt_rs.Tables.Attribute.{AttributeArg, constructor, sig_column, args}
use winrt_rs.Tables.Args.{tags_of, values_of, args-bytes_of}
use winrt_rs.Examples.Image.{laid_out}

-- Two blobs, a row of MemberRef and a row of CustomAttribute.
abbrev heap : List ℕ
heap = 4 ∷ 0x20 ∷ 1 ∷ 1 ∷ 0x08 ∷ 8 ∷ 1 ∷ 0 ∷ 5 ∷ 0 ∷ 0 ∷ 0 ∷ 0 ∷ 0 ∷ []

abbrev rows : List ℕ
rows = 0 ∷ 0 ∷ 0 ∷ 0 ∷ 0 ∷ 0 ∷ 0 ∷ 0 ∷ 11 ∷ 0 ∷ 5 ∷ 0 ∷ []

abbrev three_columns : List (ℕ × ℕ)
three_columns = (0, 2) ∷ (2, 2) ∷ (4, 2) ∷ []

abbrev attribute_file : WinmdFile
attribute_file = record {
  bytes = heap ++ rows;
  strings = 0;
  blobs = 0;
  guids = 0;
  tables =
      laid_out 0 0 0 []
      ∷ laid_out 20 1 6 three_columns
      ∷ laid_out 0 0 0 []
      ∷ laid_out 0 0 0 []
      ∷ laid_out 0 0 0 []
      ∷ laid_out 14 1 6 three_columns
      ∷ [];
}

abbrev attribute_reader : TypeReader
attribute_reader = record { files = attribute_file ∷ []; types = [] }

abbrev attribute : Attribute
attribute = record { row = Row.new 0 TableIndex.custom_attribute 0 }

abbrev maker : Coded
maker = record { variant = TableIndex.member_ref; row = Row.new 0 TableIndex.member_ref 0 }

abbrev sig : Blob
sig = Blob.new attribute_reader 0 1

abbrev values : Blob
values = Blob.new attribute_reader 0 6

made : constructor attribute_reader attribute ≡ ok maker
unfolding constructor decode_cell decode variants enumerators variant_of u32 cell_of cell file_at
    table table_at copy_as assert_proper_length slice_from le add32 mul32 sub checked
made = refl

sig_here : blob attribute_reader maker.row 2 ≡ ok sig
unfolding blob slice size_bytes add_size_byte add_size_bytes u32 cell_of cell file_at table table_at
    copy_as assert_proper_length slice_from le add32 mul32 checked
sig_here = refl

values_here : blob attribute_reader attribute.row 2 ≡ ok values
unfolding blob slice size_bytes add_size_byte add_size_bytes u32 cell_of cell file_at table table_at
    copy_as assert_proper_length slice_from le add32 mul32 checked
values_here = refl

abbrev list : List AttributeArg
list = AttributeArg.i32 (ℤ.pos 5) ∷ []

sig_Stands : Stands sig (4 ∷ []) (
    compress 0x20
    ++ (compress (length list) ++ (compress 1 ++ (tags_of list ++ drop 5 (heap ++ rows)))))
unfolding Blob.file file_at compress tags_of
sig_Stands = record {
  within = attribute_file;
  found = refl;
  parted = refl;
  here = refl;
  small = omega arith;
}

values_Stands : Stands values (take 6 heap) (to_le 2 1 ++ (values_of list ++ (to_le 2 0 ++ rows)))
unfolding Blob.file file_at to_le values_of twos_complement
values_Stands = record {
  within = attribute_file;
  found = refl;
  parted = refl;
  here = refl;
  small = omega arith;
}

args-bytes_of_example : args attribute_reader attribute ≡ ok (([], AttributeArg.i32 (ℤ.pos 5)) ∷ [])
unfolding sig_column
args-bytes_of_example =
    args-bytes_of attribute_reader attribute maker 2 sig values 0x20 1 1 list (4 ∷ [])
      (drop 5 (heap ++ rows)) (take 6 heap) rows made refl sig_here values_here (omega arith)
      (omega arith) (omega arith) (omega arith) (omega arith, tt) sig_Stands values_Stands
