-- ===== src/Blob/Unsigned.antt =====
-- The compressed unsigned numbers of a signature (ECMA-335, II.23.2), written and read.
use winrt_rs.Base.{
  ℕ, ◌+◌, ◌*◌, ◌/◌, ◌%◌, ◌≤◌, ◌<◌, bit_and, bit_or, ◌≡◌, refl, sym, ap, ◌∙◌, ◌≢◌, ◌⊎◌, inl, inr,
  true, false, List, [], ◌∷◌, ◌++◌, arith, ltb, leb, ◌==◌, if◌then◌else◌, ltb→lt, ==_iff,
  Bool-cases, length, length-append, ok, Returns, u32_mod, usize_mod, checked, Returns-ok,
  append_assoc,
}
use winrt_rs.Base.Bits.{mask_five, mask_six, mask_top, mask_top_two, fields_eight, join_bytes}
use winrt_rs.File.View.{slice_from}
use winrt_rs.File.View.Copy.{drop-append}
use winrt_rs.File.Load.{WinmdFile}
use winrt_rs.Blob.{
  Blob, file, bytes, advance, shl32, byte_at, unsigned_at, peek_unsigned, read_unsigned,
  read_expected,
}

-- One, two or four bytes; the first ones tell how many there are.
unfoldable pub compress : ℕ → List ℕ
compress v =
    if ltb v 0x80
    then v ∷ []
    else if ltb v 0x4000
    then (0x80 + v / 256) ∷ (v % 256) ∷ []
    else (0xC0 + v / 0x100_0000) ∷ (v / 0x1_0000 % 256) ∷ (v / 256 % 256) ∷ (v % 256) ∷ []

-- The blob stands between `front` and `rest` of its file.
pub record Stands (blob : Blob) (front rest : List ℕ) : Type 0 where
  pub within : WinmdFile
  pub found : file blob ≡ ok within
  pub parted : within.bytes ≡ front ++ rest
  pub here : blob.offset ≡ length front
  pub small : length within.bytes < usize_mod

one_byte : (v : ℕ) (rest : List ℕ) → v < 0x80 → unsigned_at (v ∷ rest) ≡ ok (v, 1)
unfolding unsigned_at byte_at
one_byte v rest h = let top : bit_and v 0x80 ≡ 0 = omega (arith, mask_top v) in rw top refl

two_bytes :
    (v : ℕ) (rest : List ℕ)
    → v < 0x4000
    → unsigned_at ((0x80 + v / 256) ∷ (v % 256) ∷ rest) ≡ ok (v, 2)
unfolding unsigned_at byte_at shl32
two_bytes v rest h =
    let b = 0x80 + v / 256 in
    let top : bit_and b 0x80 ≡ 0x80 = omega (arith, mask_top b) in
    let two : bit_and b 0xC0 ≡ 0x80 = omega (arith, mask_top_two b) in
    let low : bit_and b 0x3F ≡ v / 256 = omega (arith, mask_six b) in
    let shifted : v / 256 * 256 % u32_mod ≡ v / 256 * 256 = omega arith in
    let joined : bit_or (v / 256 * 256) (v % 256) ≡ v =
      omega (arith, fields_eight (v / 256) (v % 256) (omega arith)) in
    rw (top, two, low, shifted, joined) refl

four_bytes :
    (v : ℕ) (rest : List ℕ)
    → v < 0x2000_0000
    → unsigned_at
        ((0xC0 + v / 0x100_0000) ∷ (v / 0x1_0000 % 256) ∷ (v / 256 % 256) ∷ (v % 256) ∷ rest)
      ≡ ok (v, 4)
unfolding unsigned_at byte_at shl32
four_bytes v rest h =
    let b = 0xC0 + v / 0x100_0000 in
    let b1 = v / 0x1_0000 % 256 in
    let b2 = v / 256 % 256 in
    let top : bit_and b 0x80 ≡ 0x80 = omega (arith, mask_top b) in
    let two : bit_and b 0xC0 ≡ 0xC0 = omega (arith, mask_top_two b) in
    let low : bit_and b 0x1F ≡ v / 0x100_0000 = omega (arith, mask_five b) in
    let s0 : v / 0x100_0000 * 0x100_0000 % u32_mod ≡ v / 0x100_0000 * 0x100_0000 = omega arith in
    let s1 : b1 * 0x1_0000 % u32_mod ≡ b1 * 0x1_0000 = omega arith in
    let s2 : b2 * 256 % u32_mod ≡ b2 * 256 = omega arith in
    let joined : bit_or (bit_or (bit_or (v / 0x100_0000 * 0x100_0000) (b1 * 0x1_0000)) (b2 * 256))
          (v % 256)
        ≡ v =
      omega (
        arith,
        join_bytes (v / 0x100_0000) b1 b2 (v % 256) (omega arith) (omega arith) (omega arith),
      ) in
    rw (top, two, low, s0, s1, s2, joined) refl

pub unsigned_at-compress :
    (v : ℕ) (rest : List ℕ)
    → v < 0x2000_0000
    → unsigned_at (compress v ++ rest) ≡ ok (v, length (compress v))
unfolding compress
unsigned_at-compress v rest h = elim (Bool-cases (ltb v 0x80)) [
  | inl one ↦ rw one (one_byte v rest (ltb→lt _ _ one))
  | inr more ↦ elim (Bool-cases (ltb v 0x4000)) [
    | inl two ↦ rw (more, two) (two_bytes v rest (ltb→lt _ _ two))
    | inr four ↦ rw (more, four) (four_bytes v rest h)
  ]
]

pub bytes-Stands :
    (blob : Blob) (front rest : List ℕ) → Stands blob front rest → bytes blob ≡ ok rest
unfolding bytes slice_from
bytes-Stands blob front rest s =
    let total = length-append front rest in
    let inside : leb (length front) (length (front ++ rest)) ≡ true = ground (arith, total) in
    rw (s.found, s.parted, s.here, inside, drop-append front rest) refl

module _ (blob : Blob) (front rest : List ℕ) where
  pub advance-Stands :
      (xs : List ℕ)
      → Stands blob front (xs ++ rest)
      → Returns (advance blob (length xs)) (λ moved. Stands moved (front ++ xs) rest)
  unfolding advance checked file
  advance-Stands xs s =
      let parted = s.parted ∙ sym (append_assoc front xs rest) in
      let ahead = length-append front xs in
      let total = ap length parted ∙ length-append (front ++ xs) rest in
      let small = s.small in
      let here = s.here in
      let fits : ltb (blob.offset + length xs) usize_mod ≡ true = ground arith in
      rw fits (record {
        within = s.within;
        found = s.found;
        parted = parted;
        here = omega arith;
        small = small;
      })

  -- Where the bytes at a blob start with the compressed form of a number below 2^29, `read_unsigned`
  -- returns the number, and the blob then stands behind that form.
  pub read_unsigned-compress :
      (v : ℕ)
      → v < 0x2000_0000
      → Stands blob front (compress v ++ rest)
      → Returns (read_unsigned blob) (λ r. (r.0 ≡ v) × Stands r.1 (front ++ compress v) rest)
  unfolding read_unsigned peek_unsigned
  read_unsigned-compress v h s =
      let (moved, e, there) =
        Returns-ok (advance blob (length (compress v))) (advance-Stands (compress v) s) in
      rw (bytes-Stands blob front (compress v ++ rest) s, unsigned_at-compress v rest h, e)
        (refl, there)

  pub peek_unsigned-compress :
      (v : ℕ)
      → v < 0x2000_0000
      → Stands blob front (compress v ++ rest)
      → peek_unsigned blob ≡ ok (v, length (compress v))
  unfolding peek_unsigned
  peek_unsigned-compress v h s =
      rw (bytes-Stands blob front (compress v ++ rest) s) (unsigned_at-compress v rest h)

  -- On the same bytes `read_expected` tells whether the number is the expected one, and moves on
  -- only if it is.
  pub read_expected-compress :
      (v expected : ℕ)
      → v < 0x2000_0000
      → Stands blob front (compress v ++ rest)
      → Returns (read_expected blob expected) (λ r.
        ((v ≡ expected) × (r.0 ≡ true) × Stands r.1 (front ++ compress v) rest)
        ⊎ ((v ≢ expected) × (r ≡ (false, blob))))
  unfolding read_expected
  read_expected-compress v expected h s =
      let (moved, e, there) =
        Returns-ok (advance blob (length (compress v))) (advance-Stands (compress v) s) in
      rw (peek_unsigned-compress v h s) (elim (Bool-cases (v == expected)) [
        | inl same ↦ rw (same, e) (inl ((==_iff v expected).0 same, refl, there))
        | inr other ↦ rw other (inr (ground arith, refl))
      ])

pub length-compress : (v : ℕ) → 1 ≤ length (compress v)
unfolding compress
length-compress v = ground arith
