-- ===== src/Examples/Blobs.antt =====
-- Reading on from a place in a file, and the codes of rows.
use winrt_rs.Base.{
  ℕ, ◌≡◌, refl, ◌≢◌, inl, inr, List, [], ◌∷◌, ◌++◌, arith, stuck, ok, panic, Returns, sub,
}
use winrt_rs.File.View.Copy.{to_le}
use winrt_rs.File.TableId.{TableIndex}
use winrt_rs.File.Load.{WinmdFile}
use winrt_rs.Row
use winrt_rs.Text.{ascii}
use winrt_rs.Reader.{file_at}
use winrt_rs.Blob
use winrt_rs.Blob.{Blob, ℤ, read_unsigned, read_modifiers}
use winrt_rs.Blob.Unsigned.{compress, Stands, read_unsigned-compress}
use winrt_rs.Blob.Modifiers.{modifiers, read_modifiers-modifiers}
use winrt_rs.Blob.Ends.{read_modifiers-ends}
use winrt_rs.Blob.Values.{twos_complement}
use winrt_rs.Codes.{TypeCode, decode, encode, variants, enumerators, enumerator_of, variant_of}
use winrt_rs.Codes.RoundTrip.{encode-decode, decode-encode}

-- A file of some bytes, and a blob that stands behind the first of them.
abbrev file_of : List ℕ → WinmdFile
file_of bytes = record { bytes = bytes; strings = 0; blobs = 0; guids = 0; tables = [] }

abbrev blob_in : List ℕ → Blob
blob_in bytes = Blob.new (record { files = file_of bytes ∷ []; types = [] }) 0 1

abbrev long : ℕ
long = 0x1234

abbrev other : ℕ
other = 6

-- `long` in two bytes.
number : Stands (blob_in (7 ∷ 0x92 ∷ 0x34 ∷ 5 ∷ [])) (7 ∷ []) (compress 0x1234 ++ (5 ∷ []))
unfolding Blob.file file_at compress
number = record {
  within = file_of (7 ∷ 0x92 ∷ 0x34 ∷ 5 ∷ []);
  found = refl;
  parted = refl;
  here = refl;
  small = omega arith;
}

read_unsigned-compress_example :
    Returns
      (read_unsigned (blob_in (7 ∷ 0x92 ∷ 0x34 ∷ 5 ∷ [])))
      (λ r. (r.0 ≡ 0x1234) × Stands r.1 ((7 ∷ []) ++ compress 0x1234) (5 ∷ []))
read_unsigned-compress_example =
    read_unsigned-compress (blob_in (7 ∷ 0x92 ∷ 0x34 ∷ 5 ∷ [])) (7 ∷ []) (5 ∷ []) 0x1234
      (omega arith) number

-- An optional modifier of type 9, a required one of type 300, and the number 14.
abbrev modified_bytes : List ℕ
modified_bytes = 7 ∷ 32 ∷ 9 ∷ 31 ∷ 0x81 ∷ 0x2C ∷ 14 ∷ []

abbrev two_modifiers : List (ℕ × ℕ)
two_modifiers = (32, 9) ∷ (31, 300) ∷ []

modified : Stands (blob_in modified_bytes) (7 ∷ []) (modifiers two_modifiers ++ (compress 14 ++ []))
unfolding Blob.file file_at compress modifiers
modified = record {
  within = file_of modified_bytes;
  found = refl;
  parted = refl;
  here = refl;
  small = omega arith;
}

read_modifiers-modifiers_example :
    Returns
      (read_modifiers (blob_in modified_bytes))
      (λ b. Stands b ((7 ∷ []) ++ modifiers two_modifiers) (compress 14 ++ []))
read_modifiers-modifiers_example =
    read_modifiers-modifiers 14 [] (omega arith) (omega arith, omega arith) two_modifiers
      (blob_in modified_bytes) (7 ∷ []) ((inr refl, omega arith), ((inl refl, omega arith), tt))
      modified

-- A modifier without a type at the end of the file.
read_modifiers-ends_example : read_modifiers (blob_in (7 ∷ 32 ∷ [])) ≢ panic stuck
read_modifiers-ends_example = read_modifiers-ends (blob_in (7 ∷ 32 ∷ []))

text : Stands (blob_in (7 ∷ 2 ∷ 104 ∷ 105 ∷ [])) (7 ∷ []) (compress 2 ++ (ascii "hi" ++ []))
unfolding Blob.file file_at compress
text = record {
  within = file_of (7 ∷ 2 ∷ 104 ∷ 105 ∷ []);
  found = refl;
  parted = refl;
  here = refl;
  small = omega arith;
}

-- -2 in two bytes.
below_zero :
    Stands
      (blob_in (7 ∷ 0xFE ∷ 0xFF ∷ []))
      (7 ∷ [])
      (to_le 2 (twos_complement 16 (ℤ.negsuc 1)) ++ [])
unfolding Blob.file file_at to_le twos_complement
below_zero = record {
  within = file_of (7 ∷ 0xFE ∷ 0xFF ∷ []);
  found = refl;
  parted = refl;
  here = refl;
  small = omega arith;
}

-- The code of row 4 of `TypeSpec`, which is variant 13 of `HasAttribute`.
encode-decode_example :
    encode TypeCode.has_attribute
      (record { variant = TableIndex.type_spec; row = Row.new 4 TableIndex.type_spec 0 })
    ≡ ok 173
unfolding decode variants enumerators variant_of sub
encode-decode_example =
    encode-decode TypeCode.has_attribute 173 0
      (record { variant = TableIndex.type_spec; row = Row.new 4 TableIndex.type_spec 0 })
      (omega arith) refl

decode-encode_example :
    Returns
      (encode TypeCode.member_ref_parent
        (record { variant = TableIndex.type_spec; row = Row.new 4 TableIndex.type_spec 0 }))
      (λ code.
        decode TypeCode.member_ref_parent code 0
        ≡ ok (record { variant = TableIndex.type_spec; row = Row.new 4 TableIndex.type_spec 0 }))
unfolding variants enumerators enumerator_of
decode-encode_example =
    decode-encode TypeCode.member_ref_parent TableIndex.type_spec 4 4 0 refl (omega arith)
