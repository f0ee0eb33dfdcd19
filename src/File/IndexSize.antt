-- ===== src/File/IndexSize.antt =====
-- crates/winmd/src/file.rs: `composite_index_size`, the width of an index into several tables.
pub mod Bits
pub mod Fits
use winrt_rs.Base.{
  ℕ, zero, suc, ◌+◌, ◌/◌, ◌^◌, List, [], ◌∷◌, length, ltb, ◌==◌, if◌then◌else◌, Bool, true, ◌&&◌,
  sub, Result, ok, panic, stuck, ◌>>=◌,
}
use winrt_rs.File.TableData.{TableData}

-- `loop { value >>= 1; if value == 0 { break; } bits += 1; }` on fuel. A `usize` is halved 64
-- times at most, so the `u8` cannot overflow.
unfoldable pub bits_loop : ℕ → ℕ → ℕ → Result ℕ
bits_loop zero value bits = panic stuck
bits_loop (suc fuel) value bits =
    let rest = bits_loop fuel (value / 2) (bits + 1) in if value / 2 == 0 then ok bits else rest

unfoldable pub bits_needed : ℕ → Result ℕ
bits_needed value = do less ← sub value 1; bits_loop (value + 1) less 1

unfoldable pub small : ℕ → ℕ → Bool
small row_count shift = ltb row_count (2 ^ shift)

unfoldable pub all_small : List TableData → ℕ → Bool
all_small [] shift = true
all_small (t ∷ ts) shift = small t.row_count shift && all_small ts shift

-- `16 - bits` is computed in each test; a list of tables is never empty.
unfoldable pub composite_index_size : List TableData → Result ℕ
composite_index_size tables = do
  bits ← bits_needed (length tables)
  shift ← sub 16 bits
  ok (if all_small tables shift then 2 else 4)
