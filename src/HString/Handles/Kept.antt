-- ===== src/HString/Handles/Kept.antt =====
-- Each call on a handle keeps the counts of the blocks right, and the strings of the other handles.
use winrt_rs.Base.{
  ℕ, ◌<◌, ◌≡◌, refl, sym, ◌∙◌, ◌≢◌, ◌⊎◌, inl, inr, Option, none, some, List, [], ◌∷◌, ◌++◌, arith,
  ◌==◌, ==_iff, Bool-cases, Option-cases, length, set, u32_mod,
}
use winrt_rs.RefCount
use winrt_rs.RefCount.{RefCount}
use winrt_rs.HString.{Header, Memory, HString, cell, header_at, units_at}
use winrt_rs.HString.Memory.{
  cell-lt-length, cell-length, cell-set_self, cell-set_ne, cell-append_self, cell-append_ne,
}
use winrt_rs.HString.Written.{Holds, units_at-Holds}
use winrt_rs.HString.Handles.Refs.{
  points, points_self, refs, refs-cons, as_wide-some, Views, Views-frame,
}

-- A block that is freed has no handle; another one has as many as it counts, and room for its text.
abbrev pub Sound : ℕ → Option Header → Type 0
Sound n none = n ≡ 0
Sound n (some header) =
    (header.count.value ≡ n)
    × (0 < n)
    × (n < u32_mod)
    × (header.flags ≡ 0)
    × (header.len < length header.units)

abbrev pub Inv : Memory → List HString → Type 0
Inv memory handles = (p : ℕ) → Sound (refs p handles) (cell memory p)

pub units_at-cell :
    (memory memory' : Memory) (p : ℕ)
    → cell memory' p ≡ cell memory p
    → units_at memory' p ≡ units_at memory p
unfolding units_at header_at
units_at-cell memory memory' p e = rw e refl

-- A handle that points nowhere changes nothing.
pub Inv-same :
    (memory : Memory) (handles handles' : List HString)
    → ((p : ℕ) → refs p handles' ≡ refs p handles)
    → Inv memory handles
    → Inv memory handles'
Inv-same memory handles handles' same inv p = rw (same p) (inv p)

-- A block that a handle points to.
pub Inv-found :
    (memory : Memory) (handles : List HString) (p : ℕ)
    → Inv memory handles
    → 0 < refs p handles
    → (header : Header) × (cell memory p ≡ some header) × Sound (refs p handles) (some header)
Inv-found memory handles p inv used = elim (Option-cases (cell memory p)) [
  | inl e ↦ let none_left : refs p handles ≡ 0 = rw e at (inv p) in absurd (omega arith)
  | inr (header, e) ↦ (header, e, rw e at (inv p))
]

pub points_ne : (p q : ℕ) → p ≢ q → points p (some q) ≡ 0
points_ne p q h = elim (Bool-cases (q == p)) [
  | inl e ↦ absurd (h (sym ((==_iff q p).0 e)))
  | inr e ↦ rw e refl
]

pub ℕ-cases : (p q : ℕ) → (p ≡ q) ⊎ (p ≢ q)
ℕ-cases p q = elim (Bool-cases (p == q)) [
  | inl e ↦ inl ((==_iff p q).0 e)
  | inr e ↦ inr (λ same. ground (arith, e, same))
]

-- A new block behind the others, with its one handle.
module _ (memory : Memory) (handles : List HString) (header : Header) where
  abbrev pub owner : HString
  owner = record { ptr = some (length memory) }

  abbrev pub more : Memory
  more = memory ++ (some header ∷ [])

  free : Inv memory handles → refs (length memory) handles ≡ 0
  free inv = rw (cell-length memory) at (inv (length memory))

  pub append-Inv :
      (wide : List ℕ)
      → Inv memory handles
      → Holds header wide
      → header.count.value ≡ 1
      → Inv more (owner ∷ handles)
  append-Inv wide inv holds one p =
      let zero_before = free inv in
      elim (ℕ-cases p (length memory)) [
        | inl e ↦
            let self = points_self (length memory) in
            let total : refs (length memory) (owner ∷ handles) ≡ 1 =
              refs-cons (length memory) owner handles ∙ omega (arith, self, zero_before) in
            rw (e, cell-append_self memory (some header), total)
              (one, omega arith, omega arith, holds.plain, holds.room)
        | inr ne ↦
            let same : refs p (owner ∷ handles) ≡ refs p handles =
              refs-cons p owner handles ∙ omega (arith, points_ne p (length memory) ne) in
            rw (cell-append_ne memory (some header) p ne, same) (inv p)
      ]

  pub append-Views :
      (strings : List (List ℕ)) (wide : List ℕ)
      → Inv memory handles
      → Views memory handles strings
      → Holds header wide
      → Views more (owner ∷ handles) (wide ∷ strings)
  append-Views strings wide inv views holds = (
    as_wide-some more (length memory)
        ∙ units_at-Holds more (length memory) header wide (cell-append_self memory (some header))
            holds,
    Views-frame memory more handles strings
        (λ p used.
          units_at-cell memory more p
            (cell-append_ne memory (some header) p (λ e. unused p e used)))
        views,
  )
    where
      unused : (p : ℕ) → p ≡ length memory → 0 < refs p handles → ⊥
      unused p e used =
          let zero_before = free inv in
          let used' : 0 < refs (length memory) handles = rw e at used in omega arith

-- A block whose count is another, for handles that are as many.
module _ (memory : Memory) (handles handles' : List HString) (p : ℕ) (header : Header) (n : ℕ) where
  abbrev pub counted : Header
  counted = record header { count = RefCount.new n }

  abbrev pub written : Memory
  written = set memory p (some counted)

  pub set-units_at : cell memory p ≡ some header → (q : ℕ) → units_at written q ≡ units_at memory q
  unfolding units_at header_at
  set-units_at found q = elim (ℕ-cases q p) [
    | inl e ↦
        rw (e, found, cell-set_self memory p (some counted) (cell-lt-length memory p header found))
          refl
    | inr ne ↦
        units_at-cell memory written q (cell-set_ne memory p q (some counted) (λ e. ne (sym e)))
  ]

  pub set-Inv :
      cell memory p ≡ some header
      → Inv memory handles
      → ((q : ℕ) → q ≢ p → refs q handles' ≡ refs q handles)
      → refs p handles' ≡ n
      → 0 < n
      → n < u32_mod
      → Inv written handles'
  set-Inv found inv others here some_left small q =
      let (_, _, _, plain, room) = old in
      elim (ℕ-cases q p) [
        | inl e ↦
            rw
              (
                e,
                cell-set_self memory p (some counted) (cell-lt-length memory p header found),
                here,
              )
              (refl, some_left, small, plain, room)
        | inr ne ↦ rw (cell-set_ne memory p q (some counted) (λ e. ne (sym e)), others q ne) (inv q)
      ]
    where
      old : Sound (refs p handles) (some header)
      old = rw found at (inv p)
