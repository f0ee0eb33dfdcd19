-- ===== src/RefCount.antt =====
-- src/ref_count.rs: `RefCount`, an atomic number of 32 bits. A call returns its result and the number
-- that it leaves; the addition in memory wraps, and the one for the result is checked.
use winrt_rs.Base.{ℕ, ◌+◌, ◌-◌, ◌%◌, Result, ok, ◌>>=◌, u32_mod, add32, sub}

pub record RefCount : Type 0 where
  pub value : ℕ

abbrev pub new : ℕ → RefCount
new value = record { value = value }

unfoldable pub addref : RefCount → Result (ℕ × RefCount)
addref count = do result ← add32 count.value 1; ok (result, new ((count.value + 1) % u32_mod))

unfoldable pub release : RefCount → Result (ℕ × RefCount)
release count = do
  remaining ← sub count.value 1
  ok (remaining, new ((count.value + u32_mod - 1) % u32_mod))
