-- ===== src/File/Load/Whole.antt =====
-- What holds of every file that `WinmdFile::new` returns.
use winrt_rs.Base.{
  ℕ, zero, suc, ◌+◌, ◌≤◌, ◌<◌, ◌≡◌, refl, sym, ap, ◌∙◌, ◌≢◌, ◌⊎◌, true, List, ◌++◌, map, arith,
  ◌==◌, if◌then◌else◌, length, get_or, replicate, All, ok, >>=-eq-ok, add32,
}
use winrt_rs.File.View.{copy_as}
use winrt_rs.File.TableData.{TableData, empty_table}
use winrt_rs.File.TableData.Cut.{ColumnsFit}
use winrt_rs.File.TableId.{
  constant_id, custom_attribute_id, field_id, generic_param_id, interface_impl_id, member_ref_id,
  method_def_id, param_id, type_def_id, type_ref_id, TableIndex, position, data_order, kept_tables,
}
use winrt_rs.File.Sections.{metadata_root}
use winrt_rs.File.Streams.{streams_at}
use winrt_rs.File.Rows.{Tables, table_at, no_tables, is_table, read_row_counts, set_data_all}
use winrt_rs.File.Rows.Store.{Distinct, distinct, distinct→Distinct}
use winrt_rs.File.Rows.Placed.{extent, SameRows, set_data_all-SameRows, set_data_all-disjoint}
use winrt_rs.File.Rows.Counts.{CountsOnly, read_row_counts-CountsOnly}
use winrt_rs.File.Columns.Widths.{HeapSizes, CodedSizes, heap_index_sizes, coded_sizes}
use winrt_rs.File.Columns.Fill.{fill_columns, first_calls, second_calls, third_calls}
use winrt_rs.File.Columns.Fitting.{
  ids, AllFit, SameCounts, set_columns_all-AllFit, set_columns_all-SameCounts,
}
use winrt_rs.File.Load.{WinmdFile, new, table}

-- The tables at the three stages of a run that returns: counted, with columns, placed.
record Stages (bytes : List ℕ) (file : WinmdFile) : Type 0 where
  counted : Tables
  filled : Tables
  placed : Tables
  valid_bits : ℕ
  view : ℕ
  data_view : ℕ
  end : ℕ
  heaps : HeapSizes
  coded : CodedSizes
  counts : read_row_counts 64 bytes valid_bits 0 view no_tables ≡ ok (counted, data_view)
  columns : fill_columns heaps coded counted ≡ ok filled
  data_set : set_data_all data_order filled data_view ≡ ok (placed, end)
  same_bytes : file.bytes ≡ bytes
  same_tables : file.tables ≡ map (table_at placed) kept_tables

stages :
    (address : ℕ) (bytes : List ℕ) (file : WinmdFile)
    → new address bytes ≡ ok file
    → Stages bytes file
unfolding new
stages address bytes file h =
    let (cli_offset, _, h1) = >>=-eq-ok (metadata_root address bytes) _ h in
    let (streams, _, h2) = >>=-eq-ok (streams_at bytes cli_offset) _ h1 in
    let (sizes_at, _, h3) = >>=-eq-ok (add32 streams.tables_offset 6) _ h2 in
    let (heap_sizes, _, h4) = >>=-eq-ok (copy_as 1 bytes sizes_at) _ h3 in
    let (valid_at, _, h5) = >>=-eq-ok (add32 streams.tables_offset 8) _ h4 in
    let (valid_bits, _, h6) = >>=-eq-ok (copy_as 8 bytes valid_at) _ h5 in
    let (view, _, h7) = >>=-eq-ok (add32 streams.tables_offset 24) _ h6 in
    let (counted, counts, h8) =
      >>=-eq-ok (read_row_counts 64 bytes valid_bits 0 view no_tables) _ h7 in
    let (coded, _, h9) = >>=-eq-ok (coded_sizes counted.0) _ h8 in
    let (filled, columns, h10) =
      >>=-eq-ok (fill_columns (heap_index_sizes heap_sizes) coded counted.0) _ h9 in
    let (placed, data_set, h11) = >>=-eq-ok (set_data_all data_order filled counted.1) _ h10 in
    record {
      counted = counted.0;
      filled = filled;
      placed = placed.0;
      valid_bits = valid_bits;
      view = view;
      data_view = counted.1;
      end = placed.1;
      heaps = heap_index_sizes heap_sizes;
      coded = coded;
      counts = counts;
      columns = columns;
      data_set = data_set;
      same_bytes = ground arith;
      same_tables = ground arith;
    }

get_or-replicate : (n i : ℕ) (t : TableData) → get_or (replicate n t) i t ≡ t
get_or-replicate zero i t = refl
get_or-replicate (suc n) zero t = refl
get_or-replicate (suc n) (suc i) t = get_or-replicate n i t

table_at-no_tables : (j : ℕ) → table_at no_tables j ≡ empty_table
unfolding table_at
table_at-no_tables j = get_or-replicate 0x2d j empty_table

-- The number of the table that a slot of `file.tables` holds.
abbrev kept_id : TableIndex → ℕ
kept_id index = get_or kept_tables (position index) 0

index_of : ℕ → TableIndex
index_of id =
    if id == constant_id
    then TableIndex.constant
    else if id == custom_attribute_id
    then TableIndex.custom_attribute
    else if id == field_id
    then TableIndex.field
    else if id == generic_param_id
    then TableIndex.generic_param
    else if id == interface_impl_id
    then TableIndex.interface_impl
    else if id == member_ref_id
    then TableIndex.member_ref
    else if id == method_def_id
    then TableIndex.method_def
    else if id == param_id
    then TableIndex.param
    else if id == type_def_id
    then TableIndex.type_def
    else if id == type_ref_id
    then TableIndex.type_ref
    else TableIndex.type_spec

index_of-kept_id : (index : TableIndex) → index_of (kept_id index) ≡ index
unfolding index_of
index_of-kept_id TableIndex.constant = refl
index_of-kept_id TableIndex.custom_attribute = refl
index_of-kept_id TableIndex.field = refl
index_of-kept_id TableIndex.generic_param = refl
index_of-kept_id TableIndex.interface_impl = refl
index_of-kept_id TableIndex.member_ref = refl
index_of-kept_id TableIndex.method_def = refl
index_of-kept_id TableIndex.param = refl
index_of-kept_id TableIndex.type_def = refl
index_of-kept_id TableIndex.type_ref = refl
index_of-kept_id TableIndex.type_spec = refl

kept_id-is_table : (index : TableIndex) → is_table (kept_id index) data_order ≡ true
unfolding is_table
kept_id-is_table TableIndex.constant = refl
kept_id-is_table TableIndex.custom_attribute = refl
kept_id-is_table TableIndex.field = refl
kept_id-is_table TableIndex.generic_param = refl
kept_id-is_table TableIndex.interface_impl = refl
kept_id-is_table TableIndex.member_ref = refl
kept_id-is_table TableIndex.method_def = refl
kept_id-is_table TableIndex.param = refl
kept_id-is_table TableIndex.type_def = refl
kept_id-is_table TableIndex.type_ref = refl
kept_id-is_table TableIndex.type_spec = refl

table_at-map :
    (s : Tables) (index : TableIndex)
    → table_at (map (table_at s) kept_tables) (position index) ≡ table_at s (kept_id index)
unfolding table_at
table_at-map s TableIndex.constant = refl
table_at-map s TableIndex.custom_attribute = refl
table_at-map s TableIndex.field = refl
table_at-map s TableIndex.generic_param = refl
table_at-map s TableIndex.interface_impl = refl
table_at-map s TableIndex.member_ref = refl
table_at-map s TableIndex.method_def = refl
table_at-map s TableIndex.param = refl
table_at-map s TableIndex.type_def = refl
table_at-map s TableIndex.type_ref = refl
table_at-map s TableIndex.type_spec = refl

kept_id_ne : (i j : TableIndex) → i ≢ j → kept_id i ≢ kept_id j
kept_id_ne i j differ e = differ (sym (index_of-kept_id i) ∙ ap index_of e ∙ index_of-kept_id j)

data_order-Distinct : Distinct data_order
unfolding distinct is_table
data_order-Distinct = distinct→Distinct data_order refl

data_order-slots : (n : ℕ) → 45 ≤ n → All (λ k. k < n) data_order
data_order-slots n h = omega arith

module _ (heaps : HeapSizes) (coded : CodedSizes) where
  calls-Distinct :
      Distinct
        (ids (first_calls heaps coded ++ (second_calls heaps coded ++ third_calls heaps coded)))
  unfolding distinct is_table
  calls-Distinct =
      distinct→Distinct
        (ids (first_calls heaps coded ++ (second_calls heaps coded ++ third_calls heaps coded)))
        refl

  filled-AllFit :
      (s s' : Tables)
      → ((j : ℕ) → (table_at s j).columns ≡ empty_table.columns)
      → fill_columns heaps coded s ≡ ok s'
      → AllFit s' × SameCounts s s'
  unfolding fill_columns
  filled-AllFit s s' blank h = (
    set_columns_all-AllFit _ s s' calls-Distinct (λ j _. blank j) (λ j. rw (blank j) (omega arith))
        h,
    set_columns_all-SameCounts _ s s' h,
  )

module _ (address : ℕ) (bytes : List ℕ) (file : WinmdFile) (h : new address bytes ≡ ok file) where
  run : Stages bytes file
  run = stages address bytes file h

  table_placed : (index : TableIndex) → table file index ≡ table_at run.placed (kept_id index)
  unfolding table
  table_placed index = rw run.same_tables (table_at-map run.placed index)

  only_counts : CountsOnly no_tables run.counted
  only_counts =
      read_row_counts-CountsOnly 64 bytes run.valid_bits 0 run.view no_tables run.counted
        run.data_view run.counts

  filled_facts : AllFit run.filled × SameCounts run.counted run.filled
  filled_facts =
      filled-AllFit run.heaps run.coded run.counted run.filled
        (λ j. (only_counts.1 j).0 ∙ rw (table_at-no_tables j)) run.columns

  slots : 45 ≤ length run.filled
  slots = omega (arith, filled_facts.1.0, only_counts.0)

  same_rows : (j : ℕ) → SameRows (table_at run.filled j) (table_at run.placed j)
  same_rows =
      set_data_all-SameRows data_order run.filled run.placed run.data_view run.end run.data_set

  -- A file that `WinmdFile::new` returns keeps the bytes it was given and has eleven tables; each of
  -- them has six columns, none of which passes the end of the row.
  pub new-ColumnsFit :
      (file.bytes ≡ bytes)
      × (length file.tables ≡ 11)
      × ((index : TableIndex) → ColumnsFit (table file index))
  new-ColumnsFit = (
    run.same_bytes,
    rw run.same_tables,
    λ index.
        let same = same_rows (kept_id index) in
        rw (table_placed index, same.1, same.2) (filled_facts.0 (kept_id index)),
  )

  -- In such a file the rows of two different tables that have some do not overlap.
  pub new-disjoint :
      (i j : TableIndex)
      → i ≢ j
      → (table file i).row_count ≢ 0
      → (table file j).row_count ≢ 0
      → ((table file i).data_start + extent (table file i) ≤ (table file j).data_start)
        ⊎ ((table file j).data_start + extent (table file j) ≤ (table file i).data_start)
  new-disjoint i j differ rows_i rows_j =
      rw (table_placed i, table_placed j)
        (set_data_all-disjoint data_order run.filled run.placed run.data_view run.end (kept_id i)
          (kept_id j) data_order-Distinct (data_order-slots _ slots) run.data_set
          (kept_id_ne i j differ) (kept_id-is_table i) (kept_id-is_table j)
          (rw (← (same_rows (kept_id i)).0, ← table_placed i) rows_i)
          (rw (← (same_rows (kept_id j)).0, ← table_placed j) rows_j)).0
