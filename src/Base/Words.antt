-- ===== src/Base/Words.antt =====
-- Machine words. Arithmetic is checked, as in a build with overflow checks: it panics where it
-- would wrap. Shifts and masks drop the high bits.
use Prim.Native.Nat.{ℕ, ◌+◌, ◌-◌, ◌*◌, ◌≤◌, ◌<◌}
use mathlib.Core.Path.{◌≡◌}
use native.Mathlib.Omega.{arith}
use winrt_rs.Base.Tests.{ltb, leb, if◌then◌else◌}
use winrt_rs.Base.Fallible.{Result, ok, panic, overflow}

abbrev pub u8_mod : ℕ
u8_mod = 0x100

abbrev pub u16_mod : ℕ
u16_mod = 0x1_0000

abbrev pub u32_mod : ℕ
u32_mod = 0x1_0000_0000

abbrev pub u64_mod : ℕ
u64_mod = 0x1_0000_0000_0000_0000

-- `usize` on the 64-bit targets.
abbrev pub usize_mod : ℕ
usize_mod = 0x1_0000_0000_0000_0000

unfoldable pub checked : ℕ → ℕ → Result ℕ
checked modulus n = if ltb n modulus then ok n else panic overflow

unfoldable pub add32 : ℕ → ℕ → Result ℕ
unfolding checked
add32 a b = checked u32_mod (a + b)

unfoldable pub mul32 : ℕ → ℕ → Result ℕ
unfolding checked
mul32 a b = checked u32_mod (a * b)

unfoldable pub sub : ℕ → ℕ → Result ℕ
sub a b = if leb b a then ok (a - b) else panic overflow

pub add32-eq-ok : (a b : ℕ) → a + b < u32_mod → add32 a b ≡ ok (a + b)
unfolding add32
add32-eq-ok a b h = ground arith

pub add32-inv : (a b c : ℕ) → add32 a b ≡ ok c → (c ≡ a + b) × (a + b < u32_mod)
unfolding add32
add32-inv a b c h = ground arith

pub mul32-eq-ok : (a b : ℕ) → a * b < u32_mod → mul32 a b ≡ ok (a * b)
unfolding mul32
mul32-eq-ok a b h = ground arith

pub mul32-inv : (a b c : ℕ) → mul32 a b ≡ ok c → (c ≡ a * b) × (a * b < u32_mod)
unfolding mul32
mul32-inv a b c h = ground arith

pub sub-eq-ok : (a b : ℕ) → b ≤ a → sub a b ≡ ok (a - b)
unfolding sub
sub-eq-ok a b h = ground arith

pub sub-inv : (a b c : ℕ) → sub a b ≡ ok c → (c + b ≡ a)
unfolding sub
sub-inv a b c h = ground arith
