-- ===== src/File/Rows/Store.antt =====
-- The slots of the tables: what a write leaves, and lists of table numbers without repetition.
use winrt_rs.Base.{
  ℕ, zero, suc, ◌<◌, ◌≡◌, ◌≢◌, inl, inr, Bool, true, false, not, ◌&&◌, List, [], ◌∷◌, arith, ◌==◌,
  ==_iff, Bool-cases, length, set, get_or-set_self, get_or-set_ne,
}
use winrt_rs.File.TableData.{TableData, empty_table}
use winrt_rs.File.Rows.{Tables, table_at, is_table}

module _ (tables : Tables) (t : TableData) where
  pub table_at-set_self : (i : ℕ) → i < length tables → table_at (set tables i t) i ≡ t
  unfolding table_at
  table_at-set_self i h = get_or-set_self tables i t empty_table h

  pub table_at-set_ne : (i j : ℕ) → i ≢ j → table_at (set tables i t) j ≡ table_at tables j
  unfolding table_at
  table_at-set_ne i j h = get_or-set_ne tables i j t empty_table h

-- A write puts the table in its slot, or there is no such slot.
set_cases :
    (tables : Tables) (t : TableData) (i : ℕ) (P : TableData → Type 0)
    → P t
    → P (table_at tables i)
    → P (table_at (set tables i t) i)
unfolding table_at
set_cases [] t i P written kept = kept
set_cases (x ∷ tables) t zero P written kept = written
set_cases (x ∷ tables) t (suc i) P written kept = set_cases tables t i P written kept

-- What holds of the written table and of what stood in the slot holds of the slot afterwards.
pub table_at-set :
    (tables : Tables) (t : TableData) (i j : ℕ) (P : TableData → Type 0)
    → P t
    → P (table_at tables j)
    → P (table_at (set tables i t) j)
table_at-set tables t i j P written kept = elim (Bool-cases (i == j)) [
  | inl same ↦ let e : i ≡ j = (==_iff i j).0 same in rw e (set_cases tables t j P written kept)
  | inr differ ↦ rw (table_at-set_ne tables t i j (λ e. ground arith)) kept
]

-- No number stands twice in the list.
abbrev pub Distinct : List ℕ → Type 0
Distinct [] = Unit {0}
Distinct (i ∷ rest) = (is_table i rest ≡ false) × Distinct rest

pub is_table_ne :
    (i j : ℕ) (rest : List ℕ) → is_table i rest ≡ false → is_table j rest ≡ true → i ≢ j
is_table_ne i j rest absent present e = let absent' : is_table j rest ≡ false = rw e at absent in cc

-- The same as a test.
unfoldable pub distinct : List ℕ → Bool
distinct [] = true
distinct (i ∷ rest) = not (is_table i rest) && distinct rest

pub distinct→Distinct : (order : List ℕ) → distinct order ≡ true → Distinct order
unfolding distinct
distinct→Distinct [] h = tt
distinct→Distinct (i ∷ rest) h = (ground arith, distinct→Distinct rest (ground arith))
