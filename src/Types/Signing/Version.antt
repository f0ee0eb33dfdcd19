-- ===== src/Types/Signing/Version.antt =====
-- The guids that are made of digests: their version and their variant.
use winrt_rs.Base.{
  ℕ, zero, suc, ◌+◌, ◌/◌, ◌%◌, ◌<◌, bit_and, bit_or, ◌≡◌, refl, ap, ◌∙◌, some, List, [], ◌∷◌, arith,
  length, get_elem?, get_or,
}
use winrt_rs.Base.Bits.{bit_and_low, bit_or_low, bit_and-zero, mask_two}
use winrt_rs.Types.TypeGuid.{hex_digit, hex, fmt_constant, fmt_at, fmt}
use winrt_rs.Types.Signing.{be, from_digest}

-- Without the last bit.
or_half : (a b : ℕ) → bit_or a b / 2 ≡ bit_or (a / 2) (b / 2)
or_half a b = omega (arith, bit_or_low a b)

and_half : (a b : ℕ) → bit_and a b / 2 ≡ bit_and (a / 2) (b / 2)
and_half a b = omega (arith, bit_and_low a b)

-- Without the last four bits.
or_hex : (a b : ℕ) → bit_or a b / 16 ≡ bit_or (a / 2 / 2 / 2 / 2) (b / 2 / 2 / 2 / 2)
or_hex a b = omega (
  arith,
  or_half a b,
  or_half (a / 2) (b / 2),
  or_half (a / 2 / 2) (b / 2 / 2),
  or_half (a / 2 / 2 / 2) (b / 2 / 2 / 2),
)

and_hex : (a b : ℕ) → bit_and a b / 16 ≡ bit_and (a / 2 / 2 / 2 / 2) (b / 2 / 2 / 2 / 2)
and_hex a b = omega (
  arith,
  and_half a b,
  and_half (a / 2) (b / 2),
  and_half (a / 2 / 2) (b / 2 / 2),
  and_half (a / 2 / 2 / 2) (b / 2 / 2 / 2),
)

hex_parts : (a : ℕ) → a / 2 / 2 / 2 / 2 ≡ a / 16
hex_parts a = omega arith

or_digit : (a b : ℕ) → bit_or a b / 16 ≡ bit_or (a / 16) (b / 16)
or_digit a b = or_hex a b ∙ rw (hex_parts a, hex_parts b) refl

and_digit : (a b : ℕ) → bit_and a b / 16 ≡ bit_and (a / 16) (b / 16)
and_digit a b = and_hex a b ∙ rw (hex_parts a, hex_parts b) refl

-- The first digit of the third number.
version_digit : (t : ℕ) → bit_or (bit_and t 0x0FFF) 0x5000 / 4096 ≡ 5
version_digit t =
    let apart : bit_or (bit_and t 0x0FFF) 0x5000 / 4096
        ≡ bit_or (bit_and t 0x0FFF) 0x5000 / 16 / 16 / 16 =
      omega arith in
    let gone : bit_and t 0x0FFF / 16 / 16 / 16 ≡ 0 =
      rw (and_digit t 0x0FFF, and_digit (t / 16) 0xFF, and_digit (t / 16 / 16) 0xF)
        (bit_and-zero (t / 16 / 16 / 16)) in
    apart
    ∙ rw
        (
          or_digit (bit_and t 0x0FFF) 0x5000,
          or_digit (bit_and t 0x0FFF / 16) 0x500,
          or_digit (bit_and t 0x0FFF / 16 / 16) 0x50,
          gone,
        )
        refl

variant_digit : (b : ℕ) → (m : ℕ) × (m < 4) × (bit_or (bit_and b 0x3F) 0x80 / 16 ≡ 8 + m)
variant_digit b =
    let m = b / 16 % 4 in
    (
      m,
      omega arith,
      or_digit (bit_and b 0x3F) 0x80
          ∙ rw (and_digit b 0x3F, mask_two (b / 16)) (by_cases m (omega arith)),
    )
  where
    by_cases : (m : ℕ) → m < 4 → bit_or m 8 ≡ 8 + m
    by_cases zero h = refl
    by_cases (suc zero) h = refl
    by_cases (suc (suc zero)) h = refl
    by_cases (suc (suc (suc zero))) h = refl
    by_cases (suc (suc (suc (suc m)))) h = absurd (omega arith)

below : (m : ℕ) → m < 4 → (8 + m) % 16 ≡ 8 + m
below m h = omega arith

-- The text of the guid of a digest has 36 characters; the first digit of its third group is 5, the
-- version, and that of its fourth group is 8, 9, a or b, the variant.
pub fmt-from_digest :
    (bytes : List ℕ)
    → (length (fmt (from_digest bytes)) ≡ 36)
      × (get_elem? (fmt (from_digest bytes)) 14 ≡ some (hex_digit 5))
      × ((m : ℕ) × (m < 4) × (get_elem? (fmt (from_digest bytes)) 19 ≡ some (hex_digit (8 + m))))
unfolding fmt from_digest fmt_at fmt_constant hex
fmt-from_digest bytes =
    let at : ℕ → ℕ = λ i. get_or bytes i 0 in
    let (m, small, variant) = variant_digit (at 8) in
    (
      refl,
      ap (λ d. some (hex_digit (d % 16))) (version_digit (be (at 6 ∷ at 7 ∷ []) 0)),
      (
        m,
        small,
        ap (λ d. some (hex_digit (d % 16))) variant ∙ ap (λ d. some (hex_digit d)) (below m small),
      ),
    )
