-- ===== src/Blob/Values.antt =====
-- The texts and the fixed-width numbers of a blob, as they are read back.
use winrt_rs.Base.{
  ℕ, zero, suc, ◌-◌, ◌*◌, ◌^◌, ◌≤◌, ◌<◌, ◌≡◌, refl, ap, true, false, List, [], ◌++◌, arith, ltb,
  leb, lt→ltb, le→leb, length, take, drop, length-append, ok, Returns, Returns-ok, append_assoc,
  append_nil,
}
use native.Mathlib.Nat.{pow-suc}
use winrt_rs.File.View.{le}
use winrt_rs.File.View.Copy.{to_le, length-to_le, le-to_le, drop-append, take-append}
use winrt_rs.Text.{Text, from_utf8}
use winrt_rs.Blob.{Blob, advance, read_unsigned, read_str, read_bits, ℤ, signed, read_signed}
use winrt_rs.Blob.Unsigned.{compress, Stands, bytes-Stands, advance-Stands, read_unsigned-compress}

-- `bytes` hold `text` behind `front`.
slice_back :
    (whole front text rest : List ℕ) (end : ℕ)
    → whole ≡ (front ++ text) ++ rest
    → end ≡ length (front ++ text)
    → take (length text) (drop (end - length text) whole) ≡ text
slice_back whole front text rest end parted here =
    let start : end - length text ≡ length front = omega (arith, length-append front text) in
    rw (start, parted, append_assoc front text rest, drop-append front (text ++ rest))
      (take-append text rest)

module _ (blob : Blob) (front rest : List ℕ) where
  -- Where the compressed length of a UTF-8 text below 2^29 bytes stands at a blob, and then the text,
  -- `read_str` returns the text, and the blob then stands behind it.
  pub read_str-compress :
      (text : Text)
      → length text < 0x2000_0000
      → from_utf8 text ≡ ok text
      → Stands blob front (compress (length text) ++ (text ++ rest))
      → Returns
          (read_str blob)
          (λ r. (r.0 ≡ text) × Stands r.1 ((front ++ compress (length text)) ++ text) rest)
  unfolding read_str
  read_str-compress text h valid s =
      let (r, read, (same, s1)) =
        Returns-ok (read_unsigned blob)
          (read_unsigned-compress blob front (text ++ rest) (length text) h s) in
      let (end, moved, s2) =
        Returns-ok (advance r.1 (length text))
          (advance-Stands r.1 (front ++ compress (length text)) rest text s1) in
      let total = length-append ((front ++ compress (length text)) ++ text) rest in
      let inside : leb end.offset (length s2.within.bytes) ≡ true =
        le→leb _ _ (omega (arith, total, s2.here, ap length s2.parted)) in
      let back =
        slice_back s2.within.bytes (front ++ compress (length text)) text rest end.offset s2.parted
          s2.here in
      rw (read, same, moved, s2.found, inside, back, valid) (refl, s2)

  pub read_bits-to_le :
      (n v : ℕ)
      → v < 256 ^ n
      → Stands blob front (to_le n v ++ rest)
      → Returns (read_bits n blob) (λ r. (r.0 ≡ v) × Stands r.1 (front ++ to_le n v) rest)
  unfolding read_bits
  read_bits-to_le n v h s =
      let (end, moved, s1) =
        Returns-ok (advance blob (length (to_le n v)))
          (advance-Stands blob front rest (to_le n v) s) in
      let wide = length-to_le n v in
      let inside : leb n (length (to_le n v ++ rest)) ≡ true =
        le→leb _ _ (omega (arith, length-append (to_le n v) rest, wide)) in
      let first : take n (to_le n v ++ rest) ≡ to_le n v =
        rw wide at (take-append (to_le n v) rest) in
      let value : le n (to_le n v) ≡ v = rw append_nil at (le-to_le n v [] h) in
      rw (bytes-Stands blob front (to_le n v ++ rest) s, inside, (rw wide at moved), first, value)
        (refl, s1)

-- The bits of a signed number, and the numbers that fit.
unfoldable pub twos_complement : (width : ℕ) → ℤ → ℕ
twos_complement width (ℤ.pos n) = n
twos_complement width (ℤ.negsuc n) = 2 ^ width - n - 1

abbrev pub Signed : (width : ℕ) → ℤ → Type 0
Signed width (ℤ.pos n) = n < 2 ^ (width - 1)
Signed width (ℤ.negsuc n) = n < 2 ^ (width - 1)

half_fits : (w n : ℕ) → n < 2 ^ (suc w - 1) → n < 2 ^ w
half_fits w n h = let same : suc w - 1 ≡ w = omega arith in rw same at h

bytes_bits : (k : ℕ) → 256 ^ k ≡ 2 ^ (8 * k)
bytes_bits zero = refl
bytes_bits (suc k) =
    let m = 8 * k in
    let next : 8 * suc k ≡ suc (suc (suc (suc (suc (suc (suc (suc m))))))) = omega arith in
    rw (next) (
      omega (
        arith,
        pow-suc 256 k,
        bytes_bits k,
        pow-suc 2 m,
        pow-suc 2 (suc m),
        pow-suc 2 (suc (suc m)),
        pow-suc 2 (suc (suc (suc m))),
        pow-suc 2 (suc (suc (suc (suc m)))),
        pow-suc 2 (suc (suc (suc (suc (suc m))))),
        pow-suc 2 (suc (suc (suc (suc (suc (suc m)))))),
        pow-suc 2 (suc (suc (suc (suc (suc (suc (suc m))))))),
      ))

signed-twos_complement :
    (width : ℕ) (z : ℤ) → 1 ≤ width → Signed width z → signed width (twos_complement width z) ≡ z
unfolding signed twos_complement
signed-twos_complement zero z wide h = absurd (omega arith)
signed-twos_complement (suc w) (ℤ.pos n) wide h = rw (lt→ltb _ _ h) refl
signed-twos_complement (suc w) (ℤ.negsuc n) wide h =
    let double = pow-suc 2 w in
    let small : n < 2 ^ w = half_fits w n h in
    let above : ltb (2 ^ suc w - n - 1) (2 ^ w) ≡ false = ground arith in
    let back : 2 ^ suc w - (2 ^ suc w - n - 1) - 1 ≡ n = omega arith in
    unfold signed twos_complement in ground (arith, above, back, half_fits w n h)

twos_complement-fits :
    (width : ℕ) (z : ℤ) → 1 ≤ width → Signed width z → twos_complement width z < 2 ^ width
unfolding twos_complement
twos_complement-fits zero z wide h = absurd (omega arith)
twos_complement-fits (suc w) (ℤ.pos n) wide h = omega (arith, pow-suc 2 w, half_fits w n h)
twos_complement-fits (suc w) (ℤ.negsuc n) wide h = omega (arith, pow-suc 2 w, half_fits w n h)

-- Where the little-endian bytes of the two's complement of a number of `n` bytes stand at a blob,
-- the signed read of that width returns the number, and the blob then stands behind them.
pub read_signed-to_le :
    (blob : Blob) (front rest : List ℕ) (n : ℕ) (z : ℤ)
    → 1 ≤ n
    → Signed (8 * n) z
    → Stands blob front (to_le n (twos_complement (8 * n) z) ++ rest)
    → Returns
        (read_signed n blob)
        (λ r. (r.0 ≡ z) × Stands r.1 (front ++ to_le n (twos_complement (8 * n) z)) rest)
unfolding read_signed
read_signed-to_le blob front rest n z wide h s =
    let fits : twos_complement (8 * n) z < 256 ^ n =
      rw (bytes_bits n) (twos_complement-fits (8 * n) z (omega arith) h) in
    let (r, read, (same, s1)) =
      Returns-ok (read_bits n blob)
        (read_bits-to_le blob front rest n (twos_complement (8 * n) z) fits s) in
    rw (read, same) (signed-twos_complement (8 * n) z (omega arith) h, s1)
