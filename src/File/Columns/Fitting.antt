-- ===== src/File/Columns/Fitting.antt =====
-- The columns of the tables after the calls of `set_columns`.
use winrt_rs.Base.{
  ℕ, ◌≡◌, refl, ◌∙◌, inl, inr, true, List, [], ◌∷◌, arith, ◌==◌, ==_iff, Bool-cases, length, set,
  length-set, ok, >>=-eq-ok,
}
use winrt_rs.File.TableData.{TableData, empty_table, set_columns}
use winrt_rs.File.TableData.Cut.{ColumnsFit, set_columns_inv, set_columns-ColumnsFit}
use winrt_rs.File.Rows.{Tables, table_at, is_table}
use winrt_rs.File.Rows.Store.{Distinct, table_at-set, table_at-set_ne, is_table_ne}
use winrt_rs.File.Columns.Fill.{Call, set_columns_at, set_columns_all}

abbrev pub ids : List Call → List ℕ
ids [] = []
ids ((id, widths) ∷ calls) = id ∷ ids calls

-- The columns of the tables that the list names are not set yet.
abbrev pub Blank : List ℕ → Tables → Type 0
Blank order s = (j : ℕ) → is_table j order ≡ true → (table_at s j).columns ≡ empty_table.columns

abbrev pub AllFit : Tables → Type 0
AllFit s = (j : ℕ) → ColumnsFit (table_at s j)

-- The table that a call leaves in its slot.
set_columns_at_inv :
    (call : Call) (s s' : Tables)
    → set_columns_at s call ≡ ok s'
    → (t : TableData) × (s' ≡ set s call.0 t)
      × (set_columns
            (table_at s call.0)
            (call.1 s).0
            (call.1 s).1
            (call.1 s).2
            (call.1 s).3
            (call.1 s).4
            (call.1 s).5
          ≡ ok t)
unfolding set_columns_at
set_columns_at_inv (id, widths) s s' h =
    let (t, e, h') =
      >>=-eq-ok
        (set_columns (table_at s id) (widths s).0 (widths s).1 (widths s).2 (widths s).3
          (widths s).4 (widths s).5)
        _ h in
    (t, cc, e)

-- The first call, and the rest.
set_columns_all_step :
    (call : Call) (calls : List Call) (s s' : Tables)
    → set_columns_all (call ∷ calls) s ≡ ok s'
    → (s1 : Tables) × (set_columns_at s call ≡ ok s1) × (set_columns_all calls s1 ≡ ok s')
unfolding set_columns_all
set_columns_all_step call calls s s' h = >>=-eq-ok (set_columns_at s call) (set_columns_all calls) h

-- After calls on distinct tables whose columns are not set yet, every table has six columns, and
-- none of them passes the end of the row.
pub set_columns_all-AllFit :
    (calls : List Call) (s s' : Tables)
    → Distinct (ids calls)
    → Blank (ids calls) s
    → AllFit s
    → set_columns_all calls s ≡ ok s'
    → AllFit s'
set_columns_all-AllFit [] s s' distinct blank fit h =
    let e : s' ≡ s = unfold set_columns_all in cc in rw e fit
set_columns_all-AllFit ((id, widths) ∷ calls) s s' distinct blank fit h =
    let (s1, e, h') = set_columns_all_step (id, widths) calls s s' h in
    let (t, written, cut) = set_columns_at_inv (id, widths) s s1 e in
    let first : is_table id (id ∷ ids calls) ≡ true = unfold is_table in ground arith in
    let fit_t = set_columns-ColumnsFit (table_at s id) t _ _ _ _ _ _ cut (blank id first) in
    set_columns_all-AllFit calls s1 s' distinct.1
      (λ j listed.
        let later : is_table j (id ∷ ids calls) ≡ true = unfold is_table in ground arith in
        rw (written, table_at-set_ne s t id j (is_table_ne id j (ids calls) distinct.0 listed))
          (blank j later))
      (λ j. rw written (table_at-set s t id j ColumnsFit fit_t (fit j))) h'

-- The calls change neither a row count nor an offset, and no slot appears or goes.
abbrev pub SameCounts : Tables → Tables → Type 0
SameCounts s s' =
    (length s' ≡ length s) × ((j : ℕ) → (table_at s' j).row_count ≡ (table_at s j).row_count)

pub set_columns_all-SameCounts :
    (calls : List Call) (s s' : Tables) → set_columns_all calls s ≡ ok s' → SameCounts s s'
set_columns_all-SameCounts [] s s' h =
    let e : s' ≡ s = unfold set_columns_all in cc in rw e (refl, λ j. refl)
set_columns_all-SameCounts (call ∷ calls) s s' h =
    let (s1, e, h') = set_columns_all_step call calls s s' h in
    let (t, written, cut) = set_columns_at_inv call s s1 e in
    let same = set_columns_inv (table_at s call.0) t _ _ _ _ _ _ cut in
    let rest = set_columns_all-SameCounts calls s1 s' h' in
    (
      rest.0 ∙ rw written (length-set s call.0 t),
      λ j. rest.1 j ∙ rw written (row_count-set s call.0 t j same.2),
    )
  where
    row_count-set :
        (s : Tables) (i : ℕ) (t : TableData) (j : ℕ)
        → t.row_count ≡ (table_at s i).row_count
        → (table_at (set s i t) j).row_count ≡ (table_at s j).row_count
    row_count-set s i t j same = elim (Bool-cases (i == j)) [
      | inl here ↦
          let e : i ≡ j = (==_iff i j).0 here in
          table_at-set s t i j (λ u. u.row_count ≡ (table_at s j).row_count) (rw e at same) refl
      | inr apart ↦ rw (table_at-set_ne s t i j (λ e. ground arith))
    ]
