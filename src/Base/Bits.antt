-- ===== src/Base/Bits.antt =====
-- `&` with a low mask and `|` of disjoint fields as arithmetic, at the masks that the code uses.
use Prim.Native.Nat.{
  ℕ, zero, suc, ◌+◌, ◌*◌, ◌/◌, ◌%◌, ◌≤◌, ◌<◌, min, max, bit_and, bit_or, digits, bit_and-bitwise,
  bit_or-bitwise,
}
use mathlib.Core.Path.{◌≡◌, refl, ap}
use native.Mathlib.Nat.{le_refl}
use native.Mathlib.Omega.{arith}

-- The recursion on digits takes any fuel that the first number does not exceed.
fuel_irrelevant :
    (last : ℕ → ℕ) (op : ℕ → ℕ → ℕ) (x y : ℕ) (fuel more : ℕ)
    → x ≤ more
    → x ≤ fuel
    → digits last op fuel x y ≡ digits last op more x y
fuel_irrelevant last op zero y zero zero m f = refl
fuel_irrelevant last op zero y zero (suc more) m f = refl
fuel_irrelevant last op zero y (suc fuel) zero m f = refl
fuel_irrelevant last op zero y (suc fuel) (suc more) m f = refl
fuel_irrelevant last op (suc x) y zero more m f = absurd (omega arith)
fuel_irrelevant last op (suc x) y (suc fuel) zero m f = absurd (omega arith)
fuel_irrelevant last op (suc x) y (suc fuel) (suc more) m f =
    rw (fuel_irrelevant last op (suc x / 2) (y / 2) fuel more (omega arith) (omega arith))

pub bit_and_low : (a b : ℕ) → bit_and a b ≡ min (a % 2) (b % 2) + 2 * bit_and (a / 2) (b / 2)
bit_and_low zero b = simp bit_and-bitwise (omega arith)
bit_and_low (suc a) b = simp bit_and-bitwise (
    omega (
      arith,
      fuel_irrelevant (λ _. 0) min (suc a / 2) (b / 2) a (suc a / 2) (le_refl _) (omega arith),
    ))

pub bit_or_low : (a b : ℕ) → bit_or a b ≡ max (a % 2) (b % 2) + 2 * bit_or (a / 2) (b / 2)
bit_or_low zero b = simp bit_or-bitwise (omega arith)
bit_or_low (suc a) b = simp bit_or-bitwise (
    omega (
      arith,
      fuel_irrelevant (λ y. y) max (suc a / 2) (b / 2) a (suc a / 2) (le_refl _) (omega arith),
    ))

pub bit_and-zero : (a : ℕ) → bit_and a 0 ≡ 0
bit_and-zero a = below a a (le_refl a)
  where
    below : (bound x : ℕ) → x ≤ bound → bit_and x 0 ≡ 0
    below bound zero h = refl
    below zero (suc x) h = absurd (omega arith)
    below (suc bound) (suc x) h =
        omega (arith, bit_and_low (suc x) 0, below bound (suc x / 2) (omega arith))

pub bit_or-zero : (a : ℕ) → bit_or a 0 ≡ a
bit_or-zero a = below a a (le_refl a)
  where
    below : (bound x : ℕ) → x ≤ bound → bit_or x 0 ≡ x
    below bound zero h = refl
    below zero (suc x) h = absurd (omega arith)
    below (suc bound) (suc x) h =
        omega (arith, bit_or_low (suc x) 0, below bound (suc x / 2) (omega arith))

pub mask_one : (a : ℕ) → bit_and a 1 ≡ a % 2
mask_one a = omega (arith, bit_and_low a 1, bit_and-zero (a / 2))

pub mask_two : (a : ℕ) → bit_and a 3 ≡ a % 4
mask_two a = omega (arith, bit_and_low a 3, mask_one (a / 2))

pub mask_three : (a : ℕ) → bit_and a 7 ≡ a % 8
mask_three a = omega (arith, bit_and_low a 7, mask_two (a / 2))

pub mask_four : (a : ℕ) → bit_and a 15 ≡ a % 16
mask_four a = omega (arith, bit_and_low a 15, mask_three (a / 2))

pub mask_five : (a : ℕ) → bit_and a 31 ≡ a % 32
mask_five a = omega (arith, bit_and_low a 31, mask_four (a / 2))

pub mask_six : (a : ℕ) → bit_and a 63 ≡ a % 64
mask_six a = omega (arith, bit_and_low a 63, mask_five (a / 2))

-- A field above `k` zero bits, joined with a field that fits `k` bits.
fields_step : (h l h' : ℕ) → h ≡ 2 * h' → bit_or h l ≡ l % 2 + 2 * bit_or h' (l / 2)
fields_step h l h' e =
    let half : h / 2 ≡ h' = omega arith in rw (← half) (omega (arith, bit_or_low h l))

fields_zero : (q low : ℕ) → low < 1 → bit_or q low ≡ q
fields_zero q zero h = bit_or-zero q
fields_zero q (suc low) h = absurd (omega arith)

pub fields_one : (q low : ℕ) → low < 2 → bit_or (q * 2) low ≡ q * 2 + low
fields_one q low h =
    omega (arith, fields_step (q * 2) low q (omega arith), fields_zero q (low / 2) (omega arith))

pub fields_two : (q low : ℕ) → low < 4 → bit_or (q * 4) low ≡ q * 4 + low
fields_two q low h =
    omega
      (arith, fields_step (q * 4) low (q * 2) (omega arith), fields_one q (low / 2) (omega arith))

pub fields_three : (q low : ℕ) → low < 8 → bit_or (q * 8) low ≡ q * 8 + low
fields_three q low h =
    omega
      (arith, fields_step (q * 8) low (q * 4) (omega arith), fields_two q (low / 2) (omega arith))

fields_four : (q low : ℕ) → low < 16 → bit_or (q * 16) low ≡ q * 16 + low
fields_four q low h =
    omega (
      arith,
      fields_step (q * 16) low (q * 8) (omega arith),
      fields_three q (low / 2) (omega arith),
    )

pub fields_five : (q low : ℕ) → low < 32 → bit_or (q * 32) low ≡ q * 32 + low
fields_five q low h =
    omega (
      arith,
      fields_step (q * 32) low (q * 16) (omega arith),
      fields_four q (low / 2) (omega arith),
    )

fields_six : (q low : ℕ) → low < 64 → bit_or (q * 64) low ≡ q * 64 + low
fields_six q low h =
    omega (
      arith,
      fields_step (q * 64) low (q * 32) (omega arith),
      fields_five q (low / 2) (omega arith),
    )

fields_seven : (q low : ℕ) → low < 128 → bit_or (q * 128) low ≡ q * 128 + low
fields_seven q low h =
    omega (
      arith,
      fields_step (q * 128) low (q * 64) (omega arith),
      fields_six q (low / 2) (omega arith),
    )

pub fields_eight : (q low : ℕ) → low < 256 → bit_or (q * 256) low ≡ q * 256 + low
fields_eight q low h = omega (
  arith,
  fields_step (q * 256) low (q * 128) (omega arith),
  fields_seven q (low / 2) (omega arith),
)

-- Zero bits at the low end go through both operations.
pub bit_and_double : (a b : ℕ) → bit_and a (b * 2) ≡ 2 * bit_and (a / 2) b
bit_and_double a b =
    let half : b * 2 / 2 ≡ b = omega arith in
    omega (arith, bit_and_low a (b * 2), ap (bit_and (a / 2)) half)

bit_or_double : (x y a b : ℕ) → x ≡ 2 * a → y ≡ 2 * b → bit_or x y ≡ 2 * bit_or a b
bit_or_double x y a b p q =
    let half_x : x / 2 ≡ a = omega arith in
    let half_y : y / 2 ≡ b = omega arith in rw (← half_x, ← half_y) (omega (arith, bit_or_low x y))

pub bit_or_byte : (x y a b : ℕ) → x ≡ 256 * a → y ≡ 256 * b → bit_or x y ≡ 256 * bit_or a b
bit_or_byte x y a b p q = omega (
  arith,
  bit_or_double x y (a * 128) (b * 128) (omega arith) (omega arith),
  bit_or_double (a * 128) (b * 128) (a * 64) (b * 64) (omega arith) (omega arith),
  bit_or_double (a * 64) (b * 64) (a * 32) (b * 32) (omega arith) (omega arith),
  bit_or_double (a * 32) (b * 32) (a * 16) (b * 16) (omega arith) (omega arith),
  bit_or_double (a * 16) (b * 16) (a * 8) (b * 8) (omega arith) (omega arith),
  bit_or_double (a * 8) (b * 8) (a * 4) (b * 4) (omega arith) (omega arith),
  bit_or_double (a * 4) (b * 4) (a * 2) (b * 2) (omega arith) (omega arith),
  bit_or_double (a * 2) (b * 2) a b (omega arith) (omega arith),
)

-- The two highest bits of a byte.
pub mask_top : (a : ℕ) → bit_and a 128 ≡ 128 * (a / 128 % 2)
mask_top a = omega (
  arith,
  bit_and_double a 64,
  bit_and_double (a / 2) 32,
  bit_and_double (a / 2 / 2) 16,
  bit_and_double (a / 2 / 2 / 2) 8,
  bit_and_double (a / 2 / 2 / 2 / 2) 4,
  bit_and_double (a / 2 / 2 / 2 / 2 / 2) 2,
  bit_and_double (a / 2 / 2 / 2 / 2 / 2 / 2) 1,
  mask_one (a / 2 / 2 / 2 / 2 / 2 / 2 / 2),
)

pub mask_top_two : (a : ℕ) → bit_and a 192 ≡ 64 * (a / 64 % 4)
mask_top_two a = omega (
  arith,
  bit_and_double a 96,
  bit_and_double (a / 2) 48,
  bit_and_double (a / 2 / 2) 24,
  bit_and_double (a / 2 / 2 / 2) 12,
  bit_and_double (a / 2 / 2 / 2 / 2) 6,
  bit_and_double (a / 2 / 2 / 2 / 2 / 2) 3,
  mask_two (a / 2 / 2 / 2 / 2 / 2 / 2),
)

-- Four bytes joined, the first of them highest.
pub join_bytes :
    (a b c d : ℕ)
    → b < 256
    → c < 256
    → d < 256
    → bit_or (bit_or (bit_or (a * 0x100_0000) (b * 0x1_0000)) (c * 256)) d
      ≡ a * 0x100_0000 + b * 0x1_0000 + c * 256 + d
join_bytes a b c d p q r =
    let ab : bit_or (a * 0x100_0000) (b * 0x1_0000) ≡ (a * 256 + b) * 0x1_0000 = omega (
      arith,
      bit_or_byte (a * 0x100_0000) (b * 0x1_0000) (a * 0x1_0000) (b * 256) (omega arith)
          (omega arith),
      bit_or_byte (a * 0x1_0000) (b * 256) (a * 256) b (omega arith) (omega arith),
      fields_eight a b p,
    ) in
    let abc : bit_or ((a * 256 + b) * 0x1_0000) (c * 256) ≡ ((a * 256 + b) * 256 + c) * 256 =
      omega (
        arith,
        bit_or_byte ((a * 256 + b) * 0x1_0000) (c * 256) ((a * 256 + b) * 256) c (omega arith)
            (omega arith),
        fields_eight (a * 256 + b) c q,
      ) in
    rw (ab, abc) (omega (arith, fields_eight ((a * 256 + b) * 256 + c) d r))
