-- ===== src/File/Rows/Placed.antt =====
-- Where `set_data` puts the tables.
use winrt_rs.Base.{
  ℕ, ◌+◌, ◌*◌, ◌≤◌, ◌<◌, ◌≡◌, refl, ◌∙◌, ◌≢◌, ◌⊎◌, inl, inr, true, false, List, [], ◌∷◌, arith,
  ◌==◌, if◌then◌else◌, ==_iff, Bool-cases, length, set, All, length-set, ok, >>=-eq-ok, add32,
  mul32,
}
use winrt_rs.File.Rows.Store.{Distinct, table_at-set, table_at-set_self, table_at-set_ne}
use winrt_rs.File.TableData.{TableData, set_data}
use winrt_rs.File.Rows.{Tables, table_at, set_data_all, is_table}

-- The bytes that the rows of a table take.
abbrev pub extent : TableData → ℕ
extent t = t.row_count * t.row_size

-- The offset of table `j`, if the tables of the list follow one another from `view` on.
unfoldable pub start_of : List ℕ → Tables → (view j : ℕ) → ℕ
start_of [] tables view j = view
start_of (i ∷ rest) tables view j =
    if i == j then view else start_of rest tables (view + extent (table_at tables i)) j

-- Two tables that differ in the offset only.
abbrev pub SameRows : TableData → TableData → Type 0
SameRows t t' = (t'.row_count ≡ t.row_count) × (t'.row_size ≡ t.row_size) × (t'.columns ≡ t.columns)

set_data_inv :
    (t t' : TableData) (view view' : ℕ)
    → set_data t view ≡ ok (t', view')
    → SameRows t t' × (view' ≡ view + extent t) × (t.row_count ≢ 0 → t'.data_start ≡ view)
unfolding set_data add32 mul32
set_data_inv t t' view view' h = ground arith

-- One call of the loop.
set_data_all_step :
    (i : ℕ) (rest : List ℕ) (s s' : Tables) (view end : ℕ)
    → set_data_all (i ∷ rest) s view ≡ ok (s', end)
    → (t : TableData) × (view' : ℕ) × (set_data (table_at s i) view ≡ ok (t, view'))
      × (set_data_all rest (set s i t) view' ≡ ok (s', end))
unfolding set_data_all
set_data_all_step i rest s s' view end h =
    let ((t, view'), e, h') = >>=-eq-ok (set_data (table_at s i) view) _ h in (t, view', e, h')

-- A call with a table number that is not in the list, and a call with one that is.
module _ (i : ℕ) (s : Tables) (t : TableData) where
  rows_kept : (j : ℕ) → SameRows (table_at s i) t → SameRows (table_at s j) (table_at (set s i t) j)
  rows_kept j same = elim (Bool-cases (i == j)) [
    | inl here ↦
        let e : i ≡ j = (==_iff i j).0 here in
        table_at-set s t i j (SameRows (table_at s j)) (rw e at same) (refl, refl, refl)
    | inr apart ↦ rw (table_at-set_ne s t i j (λ e. ground arith)) (refl, refl, refl)
  ]

SameRows-trans : (t u v : TableData) → SameRows t u → SameRows u v → SameRows t v
SameRows-trans t u v p q = (q.0 ∙ p.0, q.1 ∙ p.1, q.2 ∙ p.2)

pub set_data_all-SameRows :
    (order : List ℕ) (s s' : Tables) (view end : ℕ)
    → set_data_all order s view ≡ ok (s', end)
    → (j : ℕ) → SameRows (table_at s j) (table_at s' j)
set_data_all-SameRows [] s s' view end h j =
    let e : s' ≡ s = unfold set_data_all in cc in rw e (refl, refl, refl)
set_data_all-SameRows (i ∷ rest) s s' view end h j =
    let (t, view', e, h') = set_data_all_step i rest s s' view end h in
    SameRows-trans (table_at s j) (table_at (set s i t) j) (table_at s' j)
      (rows_kept i s t j (set_data_inv (table_at s i) t view view' e).0)
      (set_data_all-SameRows rest (set s i t) s' view' end h' j)

extent-SameRows : (t t' : TableData) → SameRows t t' → extent t' ≡ extent t
extent-SameRows t t' h = rw (h.0, h.1)

start_of_cong :
    (order : List ℕ) (s s' : Tables) (view j : ℕ)
    → ((k : ℕ) → extent (table_at s' k) ≡ extent (table_at s k))
    → start_of order s' view j ≡ start_of order s view j
unfolding start_of
start_of_cong [] s s' view j same = refl
start_of_cong (i ∷ rest) s s' view j same =
    rw (same i, start_of_cong rest s s' (view + extent (table_at s i)) j same)

-- The calls leave the other slots alone.
set_data_all-other :
    (order : List ℕ) (s s' : Tables) (view end j : ℕ)
    → set_data_all order s view ≡ ok (s', end)
    → is_table j order ≡ false
    → table_at s' j ≡ table_at s j
set_data_all-other [] s s' view end j h out = let e : s' ≡ s = unfold set_data_all in cc in rw e
set_data_all-other (i ∷ rest) s s' view end j h out =
    let (t, view', e, h') = set_data_all_step i rest s s' view end h in
    let later : is_table j rest ≡ false = unfold is_table in ground arith in
    let apart : i ≢ j = unfold is_table in λ e. ground arith in
    set_data_all-other rest (set s i t) s' view' end j h' later ∙ table_at-set_ne s t i j apart

-- `start_of` at the head of the list, and past it.
module _ (i j : ℕ) (rest : List ℕ) (s : Tables) (view : ℕ) where
  start_of-here : (i == j) ≡ true → start_of (i ∷ rest) s view j ≡ view
  unfolding start_of
  start_of-here here = rw here

  start_of-later :
      (i == j) ≡ false
      → start_of (i ∷ rest) s view j ≡ start_of rest s (view + extent (table_at s i)) j
  unfolding start_of
  start_of-later apart = rw apart

  listed-later : (i == j) ≡ false → is_table j (i ∷ rest) ≡ true → is_table j rest ≡ true
  unfolding is_table
  listed-later apart listed = ground arith

All-length-set :
    (order : List ℕ) (s : Tables) (i : ℕ) (t : TableData)
    → All (λ k. k < length s) order
    → All (λ k. k < length (set s i t)) order
All-length-set [] s i t h = tt
All-length-set (k ∷ order) s i t h =
    (omega (arith, length-set s i t, h.0), All-length-set order s i t h.1)

-- After a run over distinct slots, each table that has rows begins where the rows of the tables
-- before it end.
pub set_data_all-start_of :
    (order : List ℕ) (s s' : Tables) (view end j : ℕ)
    → Distinct order
    → All (λ i. i < length s) order
    → set_data_all order s view ≡ ok (s', end)
    → is_table j order ≡ true
    → (table_at s j).row_count ≢ 0
    → (table_at s' j).data_start ≡ start_of order s view j
set_data_all-start_of [] s s' view end j distinct slots h listed some_rows =
    absurd (unfold is_table in ground arith)
set_data_all-start_of (i ∷ rest) s s' view end j distinct slots h listed some_rows =
    let (t, view', e, h') = set_data_all_step i rest s s' view end h in
    let inv = set_data_inv (table_at s i) t view view' e in
    elim (Bool-cases (i == j)) [
      | inl here ↦
          let same : i ≡ j = (==_iff i j).0 here in
          let kept = set_data_all-other rest (set s i t) s' view' end i h' distinct.0 in
          let written = table_at-set_self s t i slots.0 in
          let some_rows' : (table_at s i).row_count ≢ 0 = rw same some_rows in
          rw (start_of-here i j rest s view here, ← same, kept, written) (inv.2 some_rows')
      | inr apart ↦
          let s1 = set s i t in
          let unwritten = table_at-set_ne s t i j (λ same. ground arith) in
          let some_rows' : (table_at s1 j).row_count ≢ 0 = rw unwritten some_rows in
          let extents =
            λ (k : ℕ). extent-SameRows (table_at s k) (table_at s1 k) (rows_kept i s t k inv.0) in
          set_data_all-start_of rest s1 s' view' end j distinct.1
            (All-length-set rest s i t slots.1) h' (listed-later i j rest s view apart listed)
            some_rows'
          ∙ rw (start_of-later i j rest s view apart, inv.1)
              (start_of_cong rest s s1 (view + extent (table_at s i)) j extents)
    ]

-- The bytes that the rows of all the tables of the list take.
unfoldable pub total : List ℕ → Tables → ℕ
total [] s = 0
total (i ∷ rest) s = extent (table_at s i) + total rest s

start_of_bounds :
    (order : List ℕ) (s : Tables) (view j : ℕ)
    → is_table j order ≡ true
    → (view ≤ start_of order s view j)
      × (start_of order s view j + extent (table_at s j) ≤ view + total order s)
unfolding total
start_of_bounds [] s view j listed = absurd (unfold is_table in ground arith)
start_of_bounds (i ∷ rest) s view j listed = elim (Bool-cases (i == j)) [
  | inl here ↦
      let same : i ≡ j = (==_iff i j).0 here in
      rw (start_of-here i j rest s view here, same) (omega arith, omega arith)
  | inr apart ↦
      let later =
        start_of_bounds rest s (view + extent (table_at s i)) j
          (listed-later i j rest s view apart listed) in
      rw (start_of-later i j rest s view apart) (omega arith, omega arith)
]

-- The rows of two tables of the list do not meet, and all of them end by `view + total`.
start_of_disjoint :
    (order : List ℕ) (s : Tables) (view i j : ℕ)
    → i ≢ j
    → is_table i order ≡ true
    → is_table j order ≡ true
    → (start_of order s view i + extent (table_at s i) ≤ start_of order s view j)
      ⊎ (start_of order s view j + extent (table_at s j) ≤ start_of order s view i)
start_of_disjoint [] s view i j differ li lj = absurd (unfold is_table in ground arith)
start_of_disjoint (k ∷ rest) s view i j differ li lj = elim (Bool-cases (k == i)) [
  | inl at_i ↦ elim (Bool-cases (k == j)) [
    | inl at_j ↦ absurd (ground arith)
    | inr past_j ↦
        let same : k ≡ i = (==_iff k i).0 at_i in
        let bound =
          start_of_bounds rest s (view + extent (table_at s k)) j
            (listed-later k j rest s view past_j lj) in
        rw (start_of-here k i rest s view at_i, start_of-later k j rest s view past_j, ← same)
          (inl bound.0)
  ]
  | inr past_i ↦ elim (Bool-cases (k == j)) [
    | inl at_j ↦
        let same : k ≡ j = (==_iff k j).0 at_j in
        let bound =
          start_of_bounds rest s (view + extent (table_at s k)) i
            (listed-later k i rest s view past_i li) in
        rw (start_of-here k j rest s view at_j, start_of-later k i rest s view past_i, ← same)
          (inr bound.0)
    | inr past_j ↦
        rw (start_of-later k i rest s view past_i, start_of-later k j rest s view past_j)
          (start_of_disjoint rest s (view + extent (table_at s k)) i j differ
            (listed-later k i rest s view past_i li) (listed-later k j rest s view past_j lj))
  ]
]

total_cong :
    (order : List ℕ) (s s' : Tables)
    → ((k : ℕ) → extent (table_at s' k) ≡ extent (table_at s k))
    → total order s' ≡ total order s
unfolding total
total_cong [] s s' same = refl
total_cong (i ∷ rest) s s' same = rw (same i, total_cong rest s s' same)

set_data_all-total :
    (order : List ℕ) (s s' : Tables) (view end : ℕ)
    → set_data_all order s view ≡ ok (s', end)
    → end ≡ view + total order s
unfolding total
set_data_all-total [] s s' view end h = unfold set_data_all in ground arith
set_data_all-total (i ∷ rest) s s' view end h =
    let (t, view', e, h') = set_data_all_step i rest s s' view end h in
    let inv = set_data_inv (table_at s i) t view view' e in
    let extents = λ (k : ℕ).
      extent-SameRows (table_at s k) (table_at (set s i t) k) (rows_kept i s t k inv.0) in
    omega (
      arith,
      inv.1,
      set_data_all-total rest (set s i t) s' view' end h',
      total_cong rest s (set s i t) extents,
    )

-- After a run over distinct slots, the rows of two tables that have some do not overlap, and stand
-- between the offset where the run began and the one where it ended.
pub set_data_all-disjoint :
    (order : List ℕ) (s s' : Tables) (view end i j : ℕ)
    → Distinct order
    → All (λ k. k < length s) order
    → set_data_all order s view ≡ ok (s', end)
    → i ≢ j
    → is_table i order ≡ true
    → is_table j order ≡ true
    → (table_at s i).row_count ≢ 0
    → (table_at s j).row_count ≢ 0
    → ((table_at s' i).data_start + extent (table_at s' i) ≤ (table_at s' j).data_start
        ⊎ (table_at s' j).data_start + extent (table_at s' j) ≤ (table_at s' i).data_start)
      × (view ≤ (table_at s' i).data_start)
      × ((table_at s' i).data_start + extent (table_at s' i) ≤ end)
set_data_all-disjoint order s s' view end i j distinct slots h differ li lj rows_i rows_j =
    let same = λ (k : ℕ).
      extent-SameRows (table_at s k) (table_at s' k)
        (set_data_all-SameRows order s s' view end h k) in
    let bounds = start_of_bounds order s view i li in
    rw
      (
        same i,
        same j,
        set_data_all-start_of order s s' view end i distinct slots h li rows_i,
        set_data_all-start_of order s s' view end j distinct slots h lj rows_j,
        set_data_all-total order s s' view end h,
      )
      (start_of_disjoint order s view i j differ li lj, bounds.0, bounds.1)
