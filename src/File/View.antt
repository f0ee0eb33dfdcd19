-- ===== src/File/View.antt =====
-- crates/winmd/src/file.rs: the trait `View`, typed reads at an offset of the file's bytes.
-- A byte is a number below 256. The targets are little-endian.
pub mod Copy
use mathlib.Core.Option
use winrt_rs.Base.{
  ℕ, zero, suc, ◌+◌, ◌*◌, ◌%◌, List, [], ◌∷◌, Option, none, some, length, get_elem?, take, drop,
  leb, ◌==◌, if◌then◌else◌, add32, mul32, u32_mod, Result, ok, panic, require, guard, ◌>>=◌, ◌>>◌,
  out_of_range, invalid_file, not_aligned, assertion,
}

-- The number that the first `n` bytes stand for.
unfoldable pub le : ℕ → List ℕ → ℕ
le zero _ = 0
le (suc n) [] = 0
le (suc n) (b ∷ bs) = b + 256 * le n bs

-- The field of `n` bytes at `offset` of a view.
unfoldable pub field_at : ℕ → List ℕ → ℕ → ℕ
field_at n view offset = le n (drop offset view)

-- `&self[start..]`.
unfoldable pub slice_from : List ℕ → ℕ → Result (List ℕ)
slice_from bytes start =
    if leb start (length bytes) then ok (drop start bytes) else panic out_of_range

-- `self.len() as u32` keeps the low 32 bits of the length.
unfoldable pub assert_proper_length : List ℕ → ℕ → ℕ → Result (Unit {0})
assert_proper_length bytes offset size = do
  end ← add32 offset size
  guard (leb end (length bytes % u32_mod)) assertion

-- `address` is where the allocator put the first byte; the view starts at `offset`.
unfoldable pub assert_proper_length_and_alignment :
    (address align : ℕ) → List ℕ → ℕ → ℕ → Result (List ℕ)
assert_proper_length_and_alignment address align bytes offset size = do
  assert_proper_length bytes offset size
  _ ← require (get_elem? bytes offset) out_of_range
  guard ((address + offset) % align == 0) not_aligned
  ok (take size (drop offset bytes))

unfoldable pub view_as : (address align size : ℕ) → List ℕ → ℕ → Result (List ℕ)
view_as address align size bytes offset =
    assert_proper_length_and_alignment address align bytes offset size

-- The elements of the slice, one view each.
unfoldable pub chunks : ℕ → ℕ → List ℕ → List (List ℕ)
chunks size zero bytes = []
chunks size (suc n) bytes = take size bytes ∷ chunks size n (drop size bytes)

unfoldable pub view_as_slice_of : (address align size : ℕ) → List ℕ → ℕ → ℕ → Result (List (List ℕ))
view_as_slice_of address align size bytes offset len = do
  total ← mul32 size len
  view ← assert_proper_length_and_alignment address align bytes offset total
  ok (chunks size len view)

unfoldable pub copy_as : ℕ → List ℕ → ℕ → Result ℕ
copy_as size bytes offset = do
  assert_proper_length bytes offset size
  rest ← slice_from bytes offset
  ok (le size rest)

-- `position(|c| *c == b'\0')`, with the bytes before it.
unfoldable pub until_nul : List ℕ → Option (List ℕ)
until_nul [] = none
until_nul (b ∷ bs) =
    let rest = until_nul bs in if b == 0 then some [] else Option.map (λ r. b ∷ r) rest

unfoldable pub view_as_str : List ℕ → ℕ → Result (List ℕ)
view_as_str bytes offset = do
  buffer ← slice_from bytes offset
  require (until_nul buffer) invalid_file
