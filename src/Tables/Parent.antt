-- ===== src/Tables/Parent.antt =====
-- crates/winmd/src/tables/method_def.rs: `MethodDef::parent` reads a column that no table has.
use winrt_rs.Base.{
  ℕ, zero, suc, ◌-◌, ◌/◌, ◌≤◌, ◌≡◌, refl, ◌≢◌, inl, inr, arith, length, get_elem?,
  get_elem?-eq-none, Panic, out_of_range, Result, ok, panic, require, >>=-eq-ok, Result-cases,
  add32, mul32, sub-eq-ok, require-inv,
}
use winrt_rs.File.TableData.{TableData}
use winrt_rs.File.TableData.Cut.{ColumnsFit}
use winrt_rs.File.TableId.{TableIndex}
use winrt_rs.File.Load.{WinmdFile, table}
use winrt_rs.Row.{MethodDef}
use winrt_rs.Reader.{TypeReader, file_at, cell_of, u32}
use winrt_rs.Reader.Search.{upper_loop, upper_bound_in, upper_bound_of, upper_bound, key_of}
use winrt_rs.Tables.{method_def_parent}

-- A call that does not return panics.
panics : {A : Type 0} (r : Result A) → ((a : A) → r ≢ ok a) → (e : Panic) × (r ≡ panic e)
panics (ok a) never = absurd (never a refl)
panics (panic e) never = (e, refl)

cell_of-beyond :
    (file : WinmdFile) (t : TableData) (index column v : ℕ)
    → length t.columns ≤ column
    → cell_of file t index column ≢ ok v
unfolding cell_of
cell_of-beyond file t index column v beyond h =
    let (before, _, h1) = >>=-eq-ok (mul32 index t.row_size) _ h in
    let (row_start, _, h2) = >>=-eq-ok (add32 t.data_start before) _ h1 in
    let (place, found, h3) = >>=-eq-ok (require (get_elem? t.columns column) out_of_range) _ h2 in
    let absent = get_elem?-eq-none t.columns column beyond in
    let there = require-inv (get_elem? t.columns column) out_of_range place found in
    ground (arith, absent, there)

-- A search whose first look fails does not return.
upper_loop-ne-ok :
    (key : ℕ → Result ℕ) (value fuel first count v : ℕ)
    → ((i w : ℕ) → key i ≢ ok w)
    → upper_loop key value (suc fuel) first (suc count) ≢ ok v
unfolding upper_loop
upper_loop-ne-ok key value fuel first count v unread h =
    elim (Result-cases (add32 first (suc count / 2))) [
      | inr (e, failed) ↦ ground (arith, failed)
      | inl (middle, e) ↦ elim (Result-cases (key middle)) [
        | inl (w, read) ↦ unread middle w read
        | inr (e', failed) ↦ ground (arith, e, failed)
      ]
    ]

upper_bound_in-ne-ok :
    (key : ℕ → Result ℕ) (value n v : ℕ)
    → ((i w : ℕ) → key i ≢ ok w)
    → n ≢ 0
    → upper_bound_in key value 0 n ≢ ok v
unfolding upper_bound_in
upper_bound_in-ne-ok key value zero v unread some_rows h = some_rows refl
upper_bound_in-ne-ok key value (suc n) v unread some_rows h =
    let whole : suc n - 0 ≡ suc n = omega arith in
    let h' = rw (sub-eq-ok (suc n) 0 (omega arith)) at h in
    upper_loop-ne-ok key value n 0 n v unread (rw whole at h')

-- Where the `TypeDef` table of the method's file has a row, `MethodDef::parent` panics.
pub method_def_parent-panic :
    (reader : TypeReader) (method : MethodDef) (file : WinmdFile)
    → file_at reader method.row.file_index ≡ ok file
    → ColumnsFit (table file TableIndex.type_def)
    → (table file TableIndex.type_def).row_count ≢ 0
    → (e : Panic) × (method_def_parent reader method ≡ panic e)
unfolding method_def_parent upper_bound upper_bound_of
method_def_parent-panic reader method file found fit rows =
    panics (method_def_parent reader method) (λ parent h.
      let (row, h1, _) =
        >>=-eq-ok (upper_bound reader method.row.file_index TableIndex.type_def 6 method.row.index)
          _ h in
      let h2 = rw found at h1 in
      let (r, h3, _) = >>=-eq-ok (upper_bound_in key method.row.index 0 count) _ h2 in
      upper_bound_in-ne-ok key method.row.index count r unread rows h3)
  where
    key : ℕ → Result ℕ
    key = key_of reader TableIndex.type_def method.row.file_index 6

    count : ℕ
    count = (table file TableIndex.type_def).row_count

    unread : (i w : ℕ) → key i ≢ ok w
    unread i w h =
        unfold key_of u32 in
        cell_of-beyond file (table file TableIndex.type_def) i 6 w (omega (arith, fit.0))
          (rw found at h)
