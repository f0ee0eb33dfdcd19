-- ===== src/Reader/Found.antt =====
-- `equal_range` gives the rows whose cell is the value.
use winrt_rs.Base.{
  ℕ, zero, suc, ◌+◌, ◌-◌, ◌≤◌, ◌<◌, ◌≡◌, refl, ap, ◌↔◌, inl, inr, some, arith, ltb, ltb→lt,
  Bool-cases, length, get_elem?, get_elem?-eq-none, ok, Returns, Returns-ok,
}
use winrt_rs.File.TableId.{TableIndex}
use winrt_rs.File.Load.{WinmdFile, table}
use winrt_rs.Row
use winrt_rs.Row.{Row}
use winrt_rs.Reader.{TypeReader, file_at, rows_from, rows_between}
use winrt_rs.Reader.Search.{equal_range, equal_range_of, equal_range_in, key_of}
use winrt_rs.Reader.Bounds.{Readable}
use winrt_rs.Reader.EqualRange.{equal_range_in-EqualRange}

module _ (index : TableIndex) (file : ℕ) where
  -- The `k`th row of a range, and the place of a row in it.
  get_elem?-rows_from :
      (count first k : ℕ)
      → k < count
      → get_elem? (rows_from count first index file) k ≡ some (Row.new (first + k) index file)
  unfolding rows_from
  get_elem?-rows_from zero first k h = absurd (omega arith)
  get_elem?-rows_from (suc count) first zero h =
      let here : first + 0 ≡ first = omega arith in rw here refl
  get_elem?-rows_from (suc count) first (suc k) h =
      let next : first + suc k ≡ first + 1 + k = omega arith in
      rw next (get_elem?-rows_from count (first + 1) k (omega arith))

  length-rows_from : (count first : ℕ) → length (rows_from count first index file) ≡ count
  unfolding rows_from
  length-rows_from zero first = refl
  length-rows_from (suc count) first = ap suc (length-rows_from count (first + 1))

  rows_between-get_elem? :
      (first last i k : ℕ)
      → get_elem? (rows_between first last index file) k ≡ some (Row.new i index file)
      → (first ≤ i) × (i < last)
  unfolding rows_between
  rows_between-get_elem? first last i k h = elim (Bool-cases (ltb k (last - first))) [
    | inl below ↦
        let there = get_elem?-rows_from (last - first) first k (ltb→lt _ _ below) in
        let same : first + k ≡ i = ground (arith, there, h) in
        let lt = ltb→lt _ _ below in (omega arith, omega arith)
    | inr above ↦
        let none_there =
          get_elem?-eq-none (rows_from (last - first) first index file) k
            (rw (length-rows_from (last - first) first) (ground arith)) in
        ground (arith, none_there, h)
  ]

  get_elem?-rows_between :
      (first last i : ℕ)
      → first ≤ i
      → i < last
      → get_elem? (rows_between first last index file) (i - first) ≡ some (Row.new i index file)
  unfolding rows_between
  get_elem?-rows_between first last i p q =
      let back : first + (i - first) ≡ i = omega arith in
      rw back at (get_elem?-rows_from (last - first) first (i - first) (omega arith))

-- On a sorted column whose cells can be read, `equal_range` returns, and a row of the table stands
-- in the result exactly when its cell is the value.
pub equal_range-rows :
    (reader : TypeReader) (index : TableIndex) (file column value : ℕ) (whole : WinmdFile)
    (vals : ℕ → ℕ)
    → file_at reader file ≡ ok whole
    → Readable (key_of reader index file column) vals (table whole index).row_count
    → Returns (equal_range reader file index column value) (λ rows.
      (i : ℕ)
      → i < (table whole index).row_count
      → (vals i ≡ value) ↔ ((k : ℕ) × (get_elem? rows k ≡ some (Row.new i index file))))
unfolding equal_range equal_range_of
equal_range-rows reader index file column value whole vals found readable =
    let count = (table whole index).row_count in
    let (range, e, (lo, mid, up, inside, here)) =
      Returns-ok (equal_range_in (key_of reader index file column) value 0 count) (
        equal_range_in-EqualRange (key_of reader index file column) vals count value readable 0
          count (omega arith) (omega arith)) in
    rw (found, e)
      (λ i h. (
        λ same.
            let at = here i (omega arith) h same in
            (i - range.0, get_elem?-rows_between index file range.0 range.1 i at.0 at.1),
        λ (k, there).
            let at = rows_between-get_elem? index file range.0 range.1 i k there in
            inside i at.0 at.1,
      ))
