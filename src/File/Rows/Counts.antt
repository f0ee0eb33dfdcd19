-- ===== src/File/Rows/Counts.antt =====
-- The row counts that `read_row_counts` stores.
use winrt_rs.Base.{
  ℕ, zero, suc, ◌+◌, ◌*◌, ◌/◌, ◌^◌, ◌<◌, bit_and, ◌≡◌, refl, ◌∙◌, inl, inr, true, false, List, [],
  ◌∷◌, arith, ◌==◌, if◌then◌else◌, ==_iff, Bool-cases, length, set, length-set, ok, >>=-eq-ok,
  add32, add32-inv,
}
use winrt_rs.File.View.{copy_as}
use winrt_rs.File.TableData.{TableData}
use winrt_rs.File.TableId.{table_ids}
use winrt_rs.File.Rows.{Tables, table_at, is_table, set_row_count, read_row_counts}
use winrt_rs.File.Rows.Store.{table_at-set, table_at-set_ne, table_at-set_self}

-- The numbers of the tables that are present, from `i` on.
unfoldable pub present : ℕ → (valid_bits i : ℕ) → List ℕ
present zero valid_bits i = []
present (suc rounds) valid_bits i =
    let rest = present rounds valid_bits (i + 1) in
    if bit_and (valid_bits / 2 ^ i) 1 == 0 then rest else i ∷ rest

set_row_count_inv :
    (s s' : Tables) (i n : ℕ)
    → set_row_count s i n ≡ ok s'
    → (is_table i table_ids ≡ true) × (s' ≡ set s i (record (table_at s i) { row_count = n }))
unfolding set_row_count
set_row_count_inv s s' i n h = elim (Bool-cases (is_table i table_ids)) [
  | inl known ↦ (known, cc (rw known at h))
  | inr unknown ↦ cc (rw unknown at h)
]

-- What one round does: pass over a table that is not there, or store the count of one that is.
module _ (rounds : ℕ) (bytes : List ℕ) (valid_bits i view : ℕ) (s s' : Tables) (end : ℕ)
    (h : read_row_counts (suc rounds) bytes valid_bits i view s ≡ ok (s', end)) where
  round_absent :
      (bit_and (valid_bits / 2 ^ i) 1 == 0) ≡ true
      → read_row_counts rounds bytes valid_bits (i + 1) view s ≡ ok (s', end)
  unfolding read_row_counts
  round_absent absent = ground arith

  round_present :
      (bit_and (valid_bits / 2 ^ i) 1 == 0) ≡ false
      → (n : ℕ) × (copy_as 4 bytes view ≡ ok n)
        × (is_table i table_ids ≡ true)
        × (read_row_counts rounds bytes valid_bits
              (i + 1)
              (view + 4)
              (set s i (record (table_at s i) { row_count = n }))
            ≡ ok (s', end))
  unfolding read_row_counts
  round_present there =
      let (n, read, h1) = >>=-eq-ok (copy_as 4 bytes view) _ (rw (there, read_row_counts) at h) in
      let (view', moved, h2) = >>=-eq-ok (add32 view 4) _ h1 in
      let (s1, stored, h3) = >>=-eq-ok (set_row_count s i n) _ h2 in
      let inv = set_row_count_inv s s1 i n stored in
      (n, read, inv.0, rw (← (add32-inv view 4 view' moved).0, ← inv.1) h3)

-- The loop goes up: a slot below `i` is not written any more.
read_row_counts_below :
    (rounds : ℕ) (bytes : List ℕ) (valid_bits i view : ℕ) (s s' : Tables) (end j : ℕ)
    → read_row_counts rounds bytes valid_bits i view s ≡ ok (s', end)
    → j < i
    → table_at s' j ≡ table_at s j
read_row_counts_below zero bytes valid_bits i view s s' end j h below =
    let e : s' ≡ s = unfold read_row_counts in cc in rw e
read_row_counts_below (suc rounds) bytes valid_bits i view s s' end j h below =
    elim (Bool-cases (bit_and (valid_bits / 2 ^ i) 1 == 0)) [
      | inl absent ↦
          read_row_counts_below rounds bytes valid_bits (i + 1) view s s' end j
            (round_absent rounds bytes valid_bits i view s s' end h absent) (omega arith)
      | inr there ↦
          let (n, read, known, h') =
            round_present rounds bytes valid_bits i view s s' end h there in
          let t = record (table_at s i) { row_count = n } in
          read_row_counts_below rounds bytes valid_bits (i + 1) (view + 4) (set s i t) s' end j h'
            (omega arith)
          ∙ table_at-set_ne s t i j (λ e. omega arith)
    ]

-- The counts stand one after the other from `view` on, in the order of the table numbers.
abbrev pub Counted : List ℕ → List ℕ → ℕ → Tables → Type 0
Counted [] bytes view s = Unit {0}
Counted (i ∷ rest) bytes view s =
    (copy_as 4 bytes view ≡ ok (table_at s i).row_count)
    × (is_table i table_ids ≡ true)
    × Counted rest bytes (view + 4) s

-- All slots exist.
abbrev pub SlotsExist : Tables → Type 0
SlotsExist s = (i : ℕ) → is_table i table_ids ≡ true → i < length s

SlotsExist-set : (s : Tables) (i : ℕ) (t : TableData) → SlotsExist s → SlotsExist (set s i t)
SlotsExist-set s i t slots j known = omega (arith, length-set s i t, slots j known)

-- When the loop returns, the tables that the mask names are tables of the format; each holds the
-- count that stands at its place in the file, and the loop ends behind the last count.
pub read_row_counts-Counted :
    (rounds : ℕ) (bytes : List ℕ) (valid_bits i view : ℕ) (s s' : Tables) (end : ℕ)
    → SlotsExist s
    → read_row_counts rounds bytes valid_bits i view s ≡ ok (s', end)
    → Counted (present rounds valid_bits i) bytes view s'
      × (end ≡ view + 4 * length (present rounds valid_bits i))
unfolding present
read_row_counts-Counted zero bytes valid_bits i view s s' end slots h =
    let e : end ≡ view = unfold read_row_counts in ground arith in (tt, omega arith)
read_row_counts-Counted (suc rounds) bytes valid_bits i view s s' end slots h =
    elim (Bool-cases (bit_and (valid_bits / 2 ^ i) 1 == 0)) [
      | inl absent ↦ rw absent (
          read_row_counts-Counted rounds bytes valid_bits (i + 1) view s s' end slots
            (round_absent rounds bytes valid_bits i view s s' end h absent))
      | inr there ↦
          let (n, read, known, h') =
            round_present rounds bytes valid_bits i view s s' end h there in
          let t = record (table_at s i) { row_count = n } in
          let rest =
            read_row_counts-Counted rounds bytes valid_bits (i + 1) (view + 4) (set s i t) s' end
              (SlotsExist-set s i t slots) h' in
          let kept =
            read_row_counts_below rounds bytes valid_bits (i + 1) (view + 4) (set s i t) s' end i h'
              (omega arith) in
          let written = table_at-set_self s t i (slots i known) in
          rw there ((rw (kept, written) read, known, rest.0), omega (arith, rest.1))
    ]

-- The loop writes row counts only.
abbrev pub CountsOnly : Tables → Tables → Type 0
CountsOnly s s' =
    (length s' ≡ length s)
    × ((j : ℕ)
        → ((table_at s' j).columns ≡ (table_at s j).columns)
          × ((table_at s' j).row_size ≡ (table_at s j).row_size))

counts_only_set :
    (s : Tables) (i n j : ℕ)
    → let t = record (table_at s i) { row_count = n } in
      ((table_at (set s i t) j).columns ≡ (table_at s j).columns)
      × ((table_at (set s i t) j).row_size ≡ (table_at s j).row_size)
counts_only_set s i n j = elim (Bool-cases (i == j)) [
  | inl here ↦
      let e : i ≡ j = (==_iff i j).0 here in
      table_at-set s (record (table_at s i) { row_count = n }) i j
        (λ u. (u.columns ≡ (table_at s j).columns) × (u.row_size ≡ (table_at s j).row_size))
        (rw e (refl, refl)) (refl, refl)
  | inr apart ↦
      rw (table_at-set_ne s (record (table_at s i) { row_count = n }) i j (λ e. ground arith))
        (refl, refl)
]

pub read_row_counts-CountsOnly :
    (rounds : ℕ) (bytes : List ℕ) (valid_bits i view : ℕ) (s s' : Tables) (end : ℕ)
    → read_row_counts rounds bytes valid_bits i view s ≡ ok (s', end)
    → CountsOnly s s'
read_row_counts-CountsOnly zero bytes valid_bits i view s s' end h =
    let e : s' ≡ s = unfold read_row_counts in cc in rw e (refl, λ j. (refl, refl))
read_row_counts-CountsOnly (suc rounds) bytes valid_bits i view s s' end h =
    elim (Bool-cases (bit_and (valid_bits / 2 ^ i) 1 == 0)) [
      | inl absent ↦
          read_row_counts-CountsOnly rounds bytes valid_bits (i + 1) view s s' end
            (round_absent rounds bytes valid_bits i view s s' end h absent)
      | inr there ↦
          let (n, read, known, h') =
            round_present rounds bytes valid_bits i view s s' end h there in
          let t = record (table_at s i) { row_count = n } in
          let rest =
            read_row_counts-CountsOnly rounds bytes valid_bits (i + 1) (view + 4) (set s i t) s' end
              h' in
          (
            rest.0 ∙ length-set s i t,
            λ j. (
              (rest.1 j).0 ∙ (counts_only_set s i n j).0,
              (rest.1 j).1 ∙ (counts_only_set s i n j).1,
            ),
          )
    ]
