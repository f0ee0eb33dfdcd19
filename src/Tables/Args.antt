-- ===== src/Tables/Args.antt =====
-- crates/winmd/src/tables/attribute.rs: the arguments of an attribute, written and read.
use winrt_rs.Base.{
  ℕ, ◌^◌, ◌<◌, ◌≡◌, refl, ap, List, [], ◌∷◌, ◌++◌, map, arith, length, All, ok, Returns, Returns-ok,
  append_assoc, append_nil,
}
use winrt_rs.File.View.Copy.{to_le}
use winrt_rs.Row.{Attribute}
use winrt_rs.Codes.{Coded}
use winrt_rs.Reader.Resolve.{blob}
use winrt_rs.Text.{from_utf8}
use winrt_rs.Blob.{
  Blob, read_unsigned, read_str, read_bits, read_signed, read_i8, read_u8, read_i16, read_u16,
  read_i32, read_u32, read_i64, read_u64,
}
use winrt_rs.Blob.Unsigned.{compress, Stands, read_unsigned-compress}
use winrt_rs.Blob.Values.{
  twos_complement, Signed, read_str-compress, read_bits-to_le, read_signed-to_le,
}
use winrt_rs.Reader.{TypeReader}
use winrt_rs.Tables.Attribute.{
  AttributeArg, reading, fixed_arg, fixed_args, named_args, constructor, sig_column, args,
}

-- The arguments that are numbers or texts, in the range of their types.
abbrev pub Plain : AttributeArg → Type 0
Plain (AttributeArg.bool b) = ⊥
Plain (AttributeArg.i8 z) = Signed 8 z
Plain (AttributeArg.u8 n) = n < 256 ^ 1
Plain (AttributeArg.i16 z) = Signed 16 z
Plain (AttributeArg.u16 n) = n < 256 ^ 2
Plain (AttributeArg.i32 z) = Signed 32 z
Plain (AttributeArg.u32 n) = n < 256 ^ 4
Plain (AttributeArg.i64 z) = Signed 64 z
Plain (AttributeArg.u64 n) = n < 256 ^ 8
Plain (AttributeArg.string t) = (length t < 0x2000_0000) × (from_utf8 t ≡ ok t)
Plain (AttributeArg.type_def d) = ⊥

-- The element type in the signature of the constructor (ECMA-335, II.23.1.16).
abbrev pub tag_of : AttributeArg → ℕ
tag_of (AttributeArg.bool b) = 0x02
tag_of (AttributeArg.i8 z) = 0x04
tag_of (AttributeArg.u8 n) = 0x05
tag_of (AttributeArg.i16 z) = 0x06
tag_of (AttributeArg.u16 n) = 0x07
tag_of (AttributeArg.i32 z) = 0x08
tag_of (AttributeArg.u32 n) = 0x09
tag_of (AttributeArg.i64 z) = 0x0A
tag_of (AttributeArg.u64 n) = 0x0B
tag_of (AttributeArg.string t) = 0x0E
tag_of (AttributeArg.type_def d) = 0x12

-- The bytes of the value.
abbrev pub bytes_of : AttributeArg → List ℕ
bytes_of (AttributeArg.bool b) = []
bytes_of (AttributeArg.i8 z) = to_le 1 (twos_complement 8 z)
bytes_of (AttributeArg.u8 n) = to_le 1 n
bytes_of (AttributeArg.i16 z) = to_le 2 (twos_complement 16 z)
bytes_of (AttributeArg.u16 n) = to_le 2 n
bytes_of (AttributeArg.i32 z) = to_le 4 (twos_complement 32 z)
bytes_of (AttributeArg.u32 n) = to_le 4 n
bytes_of (AttributeArg.i64 z) = to_le 8 (twos_complement 64 z)
bytes_of (AttributeArg.u64 n) = to_le 8 n
bytes_of (AttributeArg.string t) = compress (length t) ++ t
bytes_of (AttributeArg.type_def d) = []

-- The signature's part, and the values.
unfoldable pub tags_of : List AttributeArg → List ℕ
tags_of [] = []
tags_of (arg ∷ args) = compress (tag_of arg) ++ tags_of args

unfoldable pub values_of : List AttributeArg → List ℕ
values_of [] = []
values_of (arg ∷ args) = bytes_of arg ++ values_of args

tag_small : (arg : AttributeArg) → tag_of arg < 0x2000_0000
tag_small (AttributeArg.bool x) = omega arith
tag_small (AttributeArg.i8 x) = omega arith
tag_small (AttributeArg.u8 x) = omega arith
tag_small (AttributeArg.i16 x) = omega arith
tag_small (AttributeArg.u16 x) = omega arith
tag_small (AttributeArg.i32 x) = omega arith
tag_small (AttributeArg.u32 x) = omega arith
tag_small (AttributeArg.i64 x) = omega arith
tag_small (AttributeArg.u64 x) = omega arith
tag_small (AttributeArg.string x) = omega arith
tag_small (AttributeArg.type_def x) = omega arith

module _ (reader : TypeReader) where
  -- What the read of one argument does.
  abbrev Reads : AttributeArg → Blob → List ℕ → List ℕ → AttributeArg × Blob × Blob → Type 0
  Reads arg sig front rest r = (r.0 ≡ arg) × (r.1 ≡ sig) × Stands r.2 (front ++ bytes_of arg) rest

  fixed_arg-bytes_of :
      (arg : AttributeArg) (sig values : Blob) (front rest : List ℕ)
      → Plain arg
      → Stands values front (bytes_of arg ++ rest)
      → Returns (fixed_arg reader (tag_of arg) sig values) (Reads arg sig front rest)
  unfolding fixed_arg reading read_i8 read_u8 read_i16 read_u16 read_i32 read_u32 read_i64 read_u64
  fixed_arg-bytes_of (AttributeArg.bool b) sig values front rest h s = absurd h
  fixed_arg-bytes_of (AttributeArg.type_def d) sig values front rest h s = absurd h
  fixed_arg-bytes_of (AttributeArg.i8 z) sig values front rest h s =
      let (r, e, (same, after)) =
        Returns-ok (read_signed 1 values)
          (read_signed-to_le values front rest 1 z (omega arith) h s) in
      rw e (ap AttributeArg.i8 same, refl, after)
  fixed_arg-bytes_of (AttributeArg.u8 v) sig values front rest h s =
      let (r, e, (same, after)) =
        Returns-ok (read_bits 1 values) (read_bits-to_le values front rest 1 v h s) in
      rw e (ap AttributeArg.u8 same, refl, after)
  fixed_arg-bytes_of (AttributeArg.i16 z) sig values front rest h s =
      let (r, e, (same, after)) =
        Returns-ok (read_signed 2 values)
          (read_signed-to_le values front rest 2 z (omega arith) h s) in
      rw e (ap AttributeArg.i16 same, refl, after)
  fixed_arg-bytes_of (AttributeArg.u16 v) sig values front rest h s =
      let (r, e, (same, after)) =
        Returns-ok (read_bits 2 values) (read_bits-to_le values front rest 2 v h s) in
      rw e (ap AttributeArg.u16 same, refl, after)
  fixed_arg-bytes_of (AttributeArg.i32 z) sig values front rest h s =
      let (r, e, (same, after)) =
        Returns-ok (read_signed 4 values)
          (read_signed-to_le values front rest 4 z (omega arith) h s) in
      rw e (ap AttributeArg.i32 same, refl, after)
  fixed_arg-bytes_of (AttributeArg.u32 v) sig values front rest h s =
      let (r, e, (same, after)) =
        Returns-ok (read_bits 4 values) (read_bits-to_le values front rest 4 v h s) in
      rw e (ap AttributeArg.u32 same, refl, after)
  fixed_arg-bytes_of (AttributeArg.i64 z) sig values front rest h s =
      let (r, e, (same, after)) =
        Returns-ok (read_signed 8 values)
          (read_signed-to_le values front rest 8 z (omega arith) h s) in
      rw e (ap AttributeArg.i64 same, refl, after)
  fixed_arg-bytes_of (AttributeArg.u64 v) sig values front rest h s =
      let (r, e, (same, after)) =
        Returns-ok (read_bits 8 values) (read_bits-to_le values front rest 8 v h s) in
      rw e (ap AttributeArg.u64 same, refl, after)
  fixed_arg-bytes_of (AttributeArg.string t) sig values front rest h s =
      let (r, e, (same, after)) = Returns-ok (read_str values) (
        read_str-compress values front rest t h.0 h.1
          (rw (append_assoc (compress (length t)) t rest) at s)) in
      rw e (
        ap AttributeArg.string same,
        refl,
        rw (append_assoc front (compress (length t)) t) at after,
      )

  -- Where the tags of plain arguments stand in the signature, and their values at the other blob,
  -- `fixed_args` returns the arguments, without names, and that blob then stands behind the values.
  pub fixed_args-bytes_of :
      (args : List AttributeArg) (sig values : Blob) (sig_front sig_rest front rest : List ℕ)
      → All Plain args
      → Stands sig sig_front (tags_of args ++ sig_rest)
      → Stands values front (values_of args ++ rest)
      → Returns
          (fixed_args reader (length args) sig values)
          (λ r. (r.0 ≡ map (λ arg. ([], arg)) args) × Stands r.1 (front ++ values_of args) rest)
  unfolding fixed_args tags_of values_of
  fixed_args-bytes_of [] sig values sig_front sig_rest front rest h s s' =
      (refl, rw (append_nil front) s')
  fixed_args-bytes_of (arg ∷ args) sig values sig_front sig_rest front rest (h, all) s s' =
      let (r, read, (tag, s1)) = Returns-ok (read_unsigned sig) (
        read_unsigned-compress sig sig_front (tags_of args ++ sig_rest) (tag_of arg) (tag_small arg)
          (rw (append_assoc (compress (tag_of arg)) (tags_of args) sig_rest) at s)) in
      let (a, got, (same, kept, s2)) = Returns-ok (fixed_arg reader (tag_of arg) r.1 values) (
        fixed_arg-bytes_of arg r.1 values front (values_of args ++ rest) h
          (rw (append_assoc (bytes_of arg) (values_of args) rest) at s')) in
      let (later, rest_read, (same', s3)) = Returns-ok (fixed_args reader (length args) r.1 a.2) (
        fixed_args-bytes_of args r.1 a.2 (sig_front ++ compress (tag_of arg)) sig_rest
          (front ++ bytes_of arg) rest all s1 s2) in
      rw (read, tag, got, kept, rest_read, same, same')
        (refl, rw (append_assoc front (bytes_of arg) (values_of args)) at s3)

  -- Where the signature of the constructor holds a kind, the number of the parameters, a result and
  -- the tags of plain parameters, each number below 2 ^ 29, and the blob of the value holds a prolog of
  -- two bytes, the values of the arguments, each in the range of its type, and a count of 0 named
  -- arguments, `args` returns the arguments that were written, in their order and without names.
  pub args-bytes_of :
      (attribute : Attribute) (maker : Coded) (column : ℕ) (sig values : Blob)
      (kind result prolog : ℕ) (list : List AttributeArg) (sig_front sig_rest front rest : List ℕ)
      → constructor reader attribute ≡ ok maker
      → sig_column reader maker.variant ≡ ok column
      → blob reader maker.row column ≡ ok sig
      → blob reader attribute.row 2 ≡ ok values
      → kind < 0x2000_0000
      → result < 0x2000_0000
      → length list < 0x2000_0000
      → prolog < 256 ^ 2
      → All Plain list
      → Stands sig sig_front (
          compress kind
          ++ (compress (length list) ++ (compress result ++ (tags_of list ++ sig_rest))))
      → Stands values front (to_le 2 prolog ++ (values_of list ++ (to_le 2 0 ++ rest)))
      → args reader attribute ≡ ok (map (λ arg. ([], arg)) list)
  unfolding args named_args read_u16
  args-bytes_of attribute maker column sig values kind result prolog list sig_front sig_rest front
        rest made at sig_here values_here k r l p plain s v =
      let (v1, e1, (_, t1)) =
        Returns-ok (read_bits 2 values) (read_bits-to_le values front _ 2 prolog p v) in
      let (s1, f1, (_, u1)) =
        Returns-ok (read_unsigned sig) (read_unsigned-compress sig sig_front _ kind k s) in
      let (s2, f2, (count, u2)) =
        Returns-ok (read_unsigned s1.1) (read_unsigned-compress s1.1 _ _ (length list) l u1) in
      let (s3, f3, (_, u3)) =
        Returns-ok (read_unsigned s2.1) (read_unsigned-compress s2.1 _ _ result r u2) in
      let (fixed, g, (same, t2)) =
        Returns-ok (fixed_args reader (length list) s3.1 v1.1)
          (fixed_args-bytes_of list s3.1 v1.1 _ sig_rest _ (to_le 2 0 ++ rest) plain u3 t1) in
      let (v3, e3, (none_named, _)) =
        Returns-ok (read_bits 2 fixed.1) (read_bits-to_le fixed.1 _ rest 2 0 (omega arith) t2) in
      rw (made, at, sig_here, values_here, e1, f1, f2, f3, count, g, e3, none_named, same)
        (ap ok (append_nil (map (λ arg. ([], arg)) list)))
