-- ===== src/File/TableData/Cut.antt =====
-- How `set_columns` cuts a row.
use winrt_rs.Base.{
  add32, get_or, zero, suc, ap, sym, refl, Bool-cases, inl, inr, ◌==◌, if◌then◌else◌, ℕ, ◌+◌, ◌≤◌,
  ◌≡◌, ◌≢◌, List, [], ◌∷◌, All, length, set, arith, ok,
}
use winrt_rs.File.TableData.{empty_table, TableData, set_columns, set_column}

-- From `start` on, the columns stand side by side; one of width 0 is not looked at.
abbrev pub Cuts : (start : ℕ) → List ℕ → List (ℕ × ℕ) → Type 0
Cuts start [] columns = Unit {0}
Cuts start (w ∷ ws) [] = ⊥
Cuts start (w ∷ ws) (column ∷ columns) = (w ≢ 0 → column ≡ (start, w)) × Cuts (start + w) ws columns

abbrev pub Fits : ℕ → ℕ × ℕ → Type 0
Fits row_size column = column.0 + column.1 ≤ row_size

-- No column reaches past the end of the row.
abbrev pub ColumnsFit : TableData → Type 0
ColumnsFit t = (length t.columns ≡ 6) × All (Fits t.row_size) t.columns

-- The columns that `set_columns` leaves, from those that the table had.
abbrev pub cut_columns : List (ℕ × ℕ) → (a b c d e f : ℕ) → List (ℕ × ℕ)
cut_columns columns a b c d e f = set_column 5 (a + b + c + d + e) f (
    set_column 4 (a + b + c + d) e (
      set_column 3 (a + b + c) d
        (set_column 2 (a + b) c (set_column 1 a b (set columns 0 (0, a))))))

-- The column that stands in a slot afterwards.
pick : ℕ → ℕ → ℕ × ℕ → ℕ × ℕ
pick offset width old = if width == 0 then old else (offset, width)

set-get_or_self :
    (columns : List (ℕ × ℕ)) (i : ℕ) → set columns i (get_or columns i (0, 0)) ≡ columns
set-get_or_self [] i = refl
set-get_or_self (k ∷ columns) zero = refl
set-get_or_self (k ∷ columns) (suc i) = ap (λ rest. k ∷ rest) (set-get_or_self columns i)

set_column-pick :
    (i offset width : ℕ) (columns : List (ℕ × ℕ))
    → set_column i offset width columns
      ≡ set columns i (pick offset width (get_or columns i (0, 0)))
unfolding set_column pick
set_column-pick i offset width columns = elim (Bool-cases (width == 0)) [
  | inl none_set ↦ rw none_set (sym (set-get_or_self columns i))
  | inr some_set ↦ rw some_set
]

pick_ne : (offset width : ℕ) (old : ℕ × ℕ) → width ≢ 0 → pick offset width old ≡ (offset, width)
unfolding pick
pick_ne offset width old h = ground arith

pick-Fits :
    (offset width row_size : ℕ) (old : ℕ × ℕ)
    → old ≡ (0, 0)
    → offset + width ≤ row_size
    → Fits row_size (pick offset width old)
unfolding pick
pick-Fits offset width row_size old e h = ground arith

cut_columns-Cuts :
    (columns : List (ℕ × ℕ)) (a b c d e f : ℕ)
    → length columns ≡ 6
    → Cuts 0 (a ∷ b ∷ c ∷ d ∷ e ∷ f ∷ []) (cut_columns columns a b c d e f)
cut_columns-Cuts (k0 ∷ k1 ∷ k2 ∷ k3 ∷ k4 ∷ k5 ∷ []) a b c d e f six = simp set_column-pick (
  λ _. refl,
  (
    λ h. ground (arith, pick_ne a b k1 h),
    (
      λ h. ground (arith, pick_ne (a + b) c k2 h),
      (
        λ h. ground (arith, pick_ne (a + b + c) d k3 h),
        (
          λ h. ground (arith, pick_ne (a + b + c + d) e k4 h),
          (λ h. ground (arith, pick_ne (a + b + c + d + e) f k5 h), tt),
        ),
      ),
    ),
  ),
)
cut_columns-Cuts _ a b c d e f six = absurd (omega arith)

cut_columns-fit :
    (columns : List (ℕ × ℕ)) (a b c d e f : ℕ)
    → columns ≡ empty_table.columns
    → (length (cut_columns columns a b c d e f) ≡ 6)
      × All (Fits (a + b + c + d + e + f)) (cut_columns columns a b c d e f)
cut_columns-fit columns a b c d e f blank = rw blank (
    simp set_column-pick (
      refl,
      (
        omega arith,
        (
          pick-Fits a b _ (0, 0) refl (omega arith),
          (
            pick-Fits (a + b) c _ (0, 0) refl (omega arith),
            (
              pick-Fits (a + b + c) d _ (0, 0) refl (omega arith),
              (
                pick-Fits (a + b + c + d) e _ (0, 0) refl (omega arith),
                (pick-Fits (a + b + c + d + e) f _ (0, 0) refl (omega arith), tt),
              ),
            ),
          ),
        ),
      ),
    ))

module _ (t t' : TableData) (a b c d e f : ℕ) (done : set_columns t a b c d e f ≡ ok t') where
  pub set_columns_inv :
      (t'.row_size ≡ a + b + c + d + e + f)
      × (t'.data_start ≡ t.data_start)
      × (t'.row_count ≡ t.row_count)
      × (t'.columns ≡ cut_columns t.columns a b c d e f)
  unfolding set_columns add32
  set_columns_inv = ground arith

  -- A call of `set_columns` that returns on a table with six columns keeps the offset and the row
  -- count, sets the row size to the sum of the widths, and leaves the columns of nonzero width side
  -- by side, in order, from the start of the row.
  pub set_columns-Cuts :
      length t.columns ≡ 6
      → (t'.row_size ≡ a + b + c + d + e + f)
        × (t'.data_start ≡ t.data_start)
        × (t'.row_count ≡ t.row_count)
        × Cuts 0 (a ∷ b ∷ c ∷ d ∷ e ∷ f ∷ []) t'.columns
  set_columns-Cuts six = (
    set_columns_inv.0,
    set_columns_inv.1,
    set_columns_inv.2,
    rw set_columns_inv.3 (cut_columns-Cuts t.columns a b c d e f six),
  )

  -- On a table whose columns are not set yet, no column then passes the end of the row.
  pub set_columns-ColumnsFit : t.columns ≡ empty_table.columns → ColumnsFit t'
  set_columns-ColumnsFit blank =
      rw (set_columns_inv.3, set_columns_inv.0) (cut_columns-fit t.columns a b c d e f blank)
