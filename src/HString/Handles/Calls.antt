-- ===== src/HString/Handles/Calls.antt =====
-- `clear` and `clone` on one of the handles: they return, and keep the counts and the strings.
use winrt_rs.Base.{
  ℕ, ◌+◌, ◌-◌, ◌%◌, ◌<◌, ◌≡◌, refl, sym, ap, ◌∙◌, ◌≢◌, ◌⊎◌, inl, inr, Bool, true, none, some, List,
  [], ◌∷◌, arith, ltb, ◌==◌, ==_iff, Bool-cases, Option-cases, get_elem?, set, bit_and, overflow,
  ok, panic, ◌>>=◌, Returns, u32_mod, add32, sub-eq-ok, checked,
}
use winrt_rs.RefCount
use winrt_rs.RefCount.{RefCount, addref, release}
use winrt_rs.HString
use winrt_rs.HString.{
  Header, Memory, HString, cell, header_at, units_at, as_wide, duplicate, clone, clear,
}
use winrt_rs.HString.Memory.{cell-lt-length, cell-set_self, cell-set_ne}
use winrt_rs.HString.Handles.Refs.{
  points, points_self, refs, refs-cons, as_wide-some, refs-pos, Views, Views-frame,
}
use winrt_rs.HString.Handles.Kept.{
  Inv, Inv-same, Inv-found, points_ne, ℕ-cases, units_at-cell, set-units_at, set-Inv,
}

release_lem :
    (n : ℕ) → 0 < n → n < u32_mod → release (RefCount.new n) ≡ ok (n - 1, RefCount.new (n - 1))
unfolding release
release_lem n h small =
    let left : (n + u32_mod - 1) % u32_mod ≡ n - 1 = omega arith in
    rw (sub-eq-ok n 1 (omega arith), left) refl

addref_lem :
    (n : ℕ)
    → ((n + 1 < u32_mod) × (addref (RefCount.new n) ≡ ok (n + 1, RefCount.new (n + 1))))
      ⊎ (addref (RefCount.new n) ≡ panic overflow)
unfolding addref add32 checked
addref_lem n = elim (Bool-cases (ltb (n + 1) u32_mod)) [
  | inl e ↦
      let small : n + 1 < u32_mod = ground arith in
      let kept : (n + 1) % u32_mod ≡ n + 1 = omega arith in inl (small, rw (e, kept) refl)
  | inr e ↦ inr (rw e refl)
]

-- The block goes with its last handle.
module _ (memory : Memory) (handles handles' : List HString) (p : ℕ) (header : Header) where
  abbrev freed : Memory
  freed = set memory p none

  freed-Inv :
      cell memory p ≡ some header
      → Inv memory handles
      → ((q : ℕ) → q ≢ p → refs q handles' ≡ refs q handles)
      → refs p handles' ≡ 0
      → Inv freed handles'
  freed-Inv found inv others gone q = elim (ℕ-cases q p) [
    | inl e ↦ rw (e, cell-set_self memory p none (cell-lt-length memory p header found)) gone
    | inr ne ↦ rw (cell-set_ne memory p q none (λ e. ne (sym e)), others q ne) (inv q)
  ]

  freed-Views :
      (strings : List (List ℕ))
      → refs p handles' ≡ 0
      → Views memory handles' strings
      → Views freed handles' strings
  freed-Views strings gone views =
      Views-frame memory freed handles' strings
        (λ q used.
          units_at-cell memory freed q (cell-set_ne memory p q none (λ e. unused q (sym e) used)))
        views
    where
      unused : (q : ℕ) → q ≡ p → 0 < refs q handles' → ⊥
      unused q e used = let used' : 0 < refs p handles' = rw e at used in omega (arith, gone)

-- `clear` on a handle, where the others, or an empty one in its place, are what is left.
module _ (memory : Memory) (handles handles' : List HString) (strings : List (List ℕ)) where
  abbrev pub Kept : HString × Memory → Type 0
  Kept r = (r.0 ≡ HString.new) × Inv r.1 handles' × Views r.1 handles' strings

  clear-some :
      (p : ℕ)
      → Inv memory handles
      → Views memory handles' strings
      → ((q : ℕ) → refs q handles' + points q (some p) ≡ refs q handles)
      → 0 < refs p handles
      → Returns (clear (record { ptr = some p }) memory) Kept
  unfolding clear header_at
  clear-some p inv views less used =
      let (header, found, (count, some_left, small, plain, room)) =
        Inv-found memory handles p inv used in
      let n = refs p handles in
      let one = points_self p in
      let here : refs p handles' ≡ n - 1 = omega (arith, less p, one) in
      let same : header.count ≡ RefCount.new n = ap RefCount.new count in
      let read : header_at memory p ≡ ok header = rw (header_at, found) refl in
      let flag : (bit_and header.flags HString.reference_flag == 0) ≡ true = rw plain refl in
      let released : release header.count ≡ ok (n - 1, RefCount.new (n - 1)) =
        rw same (release_lem n some_left small) in
      let others : (q : ℕ) → q ≢ p → refs q handles' ≡ refs q handles =
        λ q ne. omega (arith, less q, points_ne q p ne) in
      elim (Bool-cases (n - 1 == 0)) [
        | inl last ↦
            let done : n - 1 ≡ 0 = (==_iff (n - 1) 0).0 last in
            rw (Returns, read, flag, released, last)
              (
                refl,
                freed-Inv memory handles handles' p header found inv others (here ∙ done),
                freed-Views memory handles handles' p header strings (here ∙ done) views,
              )
        | inr left ↦
            let not_last : 0 < n - 1 = ground (arith, left) in
            rw (Returns, read, flag, released, left)
              (
                refl,
                set-Inv memory handles handles' p header (n - 1) found inv others here not_last
                    (omega arith),
                Views-frame memory
                    (set memory p (some (record header { count = RefCount.new (n - 1) }))) handles'
                    strings
                    (λ q used'. set-units_at memory handles handles' p header (n - 1) found q)
                    views,
              )
      ]

  pub clear-Kept :
      (string : HString) (i : ℕ)
      → Inv memory handles
      → get_elem? handles i ≡ some string
      → Views memory handles' strings
      → ((q : ℕ) → refs q handles' + points q string.ptr ≡ refs q handles)
      → Returns (clear string memory) Kept
  unfolding clear
  clear-Kept string i inv found views less = elim (Option-cases string.ptr) [
    | inl e ↦
        rw (Returns, e)
          (
            ap (λ ptr. record { ptr = ptr }) e,
            Inv-same memory handles handles' (λ q. same q e) inv,
            views,
          )
    | inr (p, e) ↦
        let whole : string ≡ record { ptr = some p } = ap (λ ptr. record { ptr = ptr }) e in
        rw whole (clear-some p inv views (rw e at less) (refs-pos p i handles string found e))
  ]
    where
      same : (q : ℕ) → string.ptr ≡ none → refs q handles' ≡ refs q handles
      same q e = let l : refs q handles' + 0 ≡ refs q handles = rw e at (less q) in omega arith

-- A copy goes to the front of the handles; it fails only where the count is full.
module _ (grants : Memory → (bytes : ℕ) → Bool) (blank : ℕ) (memory : Memory)
    (handles : List HString) (strings : List (List ℕ)) where
  abbrev pub Copied : List ℕ → HString × Memory → Type 0
  Copied text r = Inv r.1 (r.0 ∷ handles) × Views r.1 (r.0 ∷ handles) (text ∷ strings)

  pub new-Inv : Inv memory handles → Inv memory (HString.new ∷ handles)
  new-Inv inv =
      Inv-same memory handles (HString.new ∷ handles)
        (λ q. refs-cons q HString.new handles ∙ omega arith) inv

  clone-some :
      (p : ℕ) (text : List ℕ)
      → Inv memory handles
      → 0 < refs p handles
      → Views memory handles strings
      → units_at memory p ≡ ok text
      → Returns (clone grants blank (record { ptr = some p }) memory) (Copied text)
        ⊎ (clone grants blank (record { ptr = some p }) memory ≡ panic overflow)
  unfolding clone duplicate header_at
  clone-some p text inv used views seen =
      let (header, found, (count, some_left, small, plain, room)) =
        Inv-found memory handles p inv used in
      let n = refs p handles in
      let same : header.count ≡ RefCount.new n = ap RefCount.new count in
      let read : header_at memory p ≡ ok header = rw (header_at, found) refl in
      let flag : (bit_and header.flags HString.reference_flag == 0) ≡ true = rw plain refl in
      let copy : HString = record { ptr = some p } in
      let memory' = set memory p (some (record header { count = RefCount.new (n + 1) })) in
      elim (addref_lem n) [
        | inl (fits, added) ↦
            let counts : addref header.count ≡ ok (n + 1, RefCount.new (n + 1)) = rw same added in
            let one = points_self p in
            let here : refs p (copy ∷ handles) ≡ n + 1 =
              refs-cons p copy handles ∙ omega (arith, one) in
            let others : (q : ℕ) → q ≢ p → refs q (copy ∷ handles) ≡ refs q handles =
              λ q ne. refs-cons q copy handles ∙ omega (arith, points_ne q p ne) in
            let kept : (q : ℕ) → units_at memory' q ≡ units_at memory q =
              set-units_at memory handles handles p header (n + 1) found in
            inl (
              rw (Returns, read, flag, counts)
                (
                  set-Inv memory handles (copy ∷ handles) p header (n + 1) found inv others here
                      (omega arith) fits,
                  (
                    as_wide-some memory' p ∙ (kept p ∙ seen),
                    Views-frame memory memory' handles strings (λ q used'. kept q) views,
                  ),
                ))
        | inr full ↦
            let counts : addref header.count ≡ panic overflow = rw same full in
            inr (rw (read, ◌>>=◌, flag, counts) refl)
      ]

  pub clone-Copied :
      (string : HString) (i : ℕ) (text : List ℕ)
      → Inv memory handles
      → get_elem? handles i ≡ some string
      → Views memory handles strings
      → as_wide memory string ≡ ok text
      → Returns (clone grants blank string memory) (Copied text)
        ⊎ (clone grants blank string memory ≡ panic overflow)
  unfolding clone as_wide
  clone-Copied string i text inv found views same = elim (Option-cases string.ptr) [
    | inl e ↦ inl (rw (Returns, e) (new-Inv inv, (empty string e same, views)))
    | inr (p, e) ↦
        let whole : string ≡ record { ptr = some p } = ap (λ ptr. record { ptr = ptr }) e in
        rw whole
          (clone-some p text inv (refs-pos p i handles string found e) views (rw whole at same))
  ]
    where
      empty : (s : HString) → s.ptr ≡ none → as_wide memory s ≡ ok text → ok [] ≡ ok text
      empty s e same = rw e at same
