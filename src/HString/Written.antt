-- ===== src/HString/Written.antt =====
-- What `HString::from` leaves in its block: the text in UTF-16, inside the bounds of the block.
use winrt_rs.Base.{
  ℕ, zero, suc, ◌+◌, ◌-◌, ◌*◌, ◌/◌, ◌%◌, ◌^◌, ◌≤◌, ◌<◌, ◌≡◌, refl, ap, ◌∙◌, ◌⊎◌, inl, inr, Bool,
  true, false, some, List, [], ◌∷◌, ◌++◌, arith, ltb, leb, ◌==◌, lt→ltb, Bool-cases, Option-cases,
  length, set, take, replicate, length-set, explicit, ok, panic, Returns, Returns-ok, u32_mod,
  add32-eq-ok, append_assoc, append_nil,
}
use winrt_rs.Text.{Text, lead, utf8_from, from_utf8, utf16_units, utf16_from, encode_utf16}
use winrt_rs.RefCount
use winrt_rs.RefCount.{RefCount}
use winrt_rs.HString.{
  Header, Memory, HString, cell, header_at, units_at, header_size, buffer_offset, write_units,
  alloc, from,
}
use winrt_rs.HString.Memory.{set-append, take-set, take-set_next, cell-append_self}

-- No more units than bytes; one more while a character has begun.
abbrev begun : ℕ → ℕ
begun zero = 0
begun (suc n) = 1

utf16_from-le :
    (n code : ℕ) (bytes : List ℕ) → length (utf16_from n code bytes) ≤ length bytes + begun n
unfolding utf16_from utf16_units
utf16_from-le zero code [] = omega arith
utf16_from-le (suc n) code [] = omega arith
utf16_from-le zero code (b ∷ bs) = elim (Option-cases (lead b)) [
  | inl e ↦ rw (length, e) (omega arith)
  | inr ((zero, low, high), e) ↦ rw (length, e) (omega (arith, utf16_from-le zero 0 bs))
  | inr ((suc n, low, high), e) ↦
      rw (length, e) (omega (arith, utf16_from-le (suc n) (b % 2 ^ (5 - n)) bs))
]
utf16_from-le (suc zero) code (b ∷ bs) =
    let rest = utf16_from-le zero 0 bs in
    let c = code * 2 ^ 6 + b % 2 ^ 6 in
    elim (Bool-cases (ltb c 0x1_0000)) [
      | inl one ↦ rw one (omega (arith, rest))
      | inr pair ↦ rw pair (omega (arith, rest))
    ]
utf16_from-le (suc (suc n)) code (b ∷ bs) =
    let rest = utf16_from-le (suc n) (code * 2 ^ 6 + b % 2 ^ 6) bs in omega (arith, rest)

pub encode_utf16-le : (text : Text) → length (encode_utf16 text) ≤ length text
unfolding encode_utf16
encode_utf16-le text = omega (arith, utf16_from-le 0 0 text)

utf16_from-cons :
    (n code low high : ℕ) (bytes : List ℕ)
    → utf8_from (suc n) low high bytes ≡ true
    → 0 < length (utf16_from (suc n) code bytes)
unfolding utf16_from utf16_units utf8_from
utf16_from-cons n code low high [] h = absurd (cc)
utf16_from-cons zero code low high (b ∷ bs) h =
    let c = code * 2 ^ 6 + b % 2 ^ 6 in
    elim (Bool-cases (ltb c 0x1_0000)) [
      | inl one ↦ rw one (omega arith)
      | inr pair ↦ rw pair (omega arith)
    ]
utf16_from-cons (suc n) code low high (b ∷ bs) h =
    utf16_from-cons n (code * 2 ^ 6 + b % 2 ^ 6) 0x80 0xBF bs (ground (arith, h))

-- A text has bytes that `from_utf8` takes.
abbrev pub IsUtf8 : Text → Type 0
IsUtf8 text = from_utf8 text ≡ ok text

encode_utf16-cons : (b : ℕ) (text : Text) → IsUtf8 (b ∷ text) → 0 < length (encode_utf16 (b ∷ text))
unfolding encode_utf16 utf16_from utf8_from from_utf8
encode_utf16-cons b text h = elim (Option-cases (lead b)) [
  | inl e ↦ ground (arith, e, h)
  | inr ((zero, low, high), e) ↦ rw (length, e) (omega arith)
  | inr ((suc n, low, high), e) ↦
      let valid : utf8_from (suc n) low high text ≡ true = ground (arith, e, h) in
      rw (length, e) (utf16_from-cons n (b % 2 ^ (5 - n)) low high text valid)
]

-- What the loop does to a header whose buffer has room.
abbrev Wrote : (index : ℕ) → List ℕ → Header → Header → Type 0
Wrote index wide before after =
    (after.flags ≡ before.flags)
    × (after.count ≡ before.count)
    × (length after.units ≡ length before.units)
    × (take (index + length wide) after.units ≡ take index before.units ++ wide)
    × (((wide ≡ []) × (after.len ≡ before.len)) ⊎ (after.len ≡ index + length wide))

Wrote-cons :
    (index w : ℕ) (wide : List ℕ) (header after : Header)
    → index < length header.units
    → Wrote
        (index + 1)
        wide
        (record header { units = set header.units index w; len = index + 1 })
        after
    → Wrote index (w ∷ wide) header after
Wrote-cons index w wide header after room (flags, count, size, units, len) =
    let places : index + length (w ∷ wide) ≡ index + 1 + length wide = omega arith in
    let next : index + 1 ≡ suc index = omega arith in
    (
      flags,
      count,
      size ∙ length-set header.units index w,
      rw (places) (
          units
          ∙ rw (next, take-set_next index header.units w room)
              (append_assoc (take index header.units) (w ∷ []) wide)),
      inr (last len),
    )
  where
    last :
        (((wide ≡ []) × (after.len ≡ index + 1)) ⊎ (after.len ≡ index + 1 + length wide))
        → after.len ≡ index + length (w ∷ wide)
    last (inl (e, l)) = rw e (omega (arith, l))
    last (inr l) = omega (arith, l)

write_units-Wrote :
    (index : ℕ) (wide : List ℕ) (header : Header)
    → index + length wide ≤ length header.units
    → index + length wide < u32_mod
    → Returns (write_units index wide header) (Wrote index wide header)
unfolding write_units
write_units-Wrote index [] header fits small =
    let same : index + length {A = ℕ} [] ≡ index = omega arith in
    (refl, refl, refl, rw (append_nil (take index header.units), same) refl, inl (refl, refl))
write_units-Wrote index (w ∷ wide) header fits small =
    let next = record header { units = set header.units index w; len = index + 1 } in
    let (after, run, more) = Returns-ok (write_units (index + 1) wide next) (
      write_units-Wrote (index + 1) wide next (rw (length-set header.units index w) (omega arith))
        (omega arith)) in
    let cut : index % u32_mod ≡ index = omega arith in
    let sum = add32-eq-ok index 1 (omega arith) in
    rw (lt→ltb index (length header.units) (omega arith), cut, sum, run)
      (Wrote-cons index w wide header after (omega arith) more)

-- A block of the text.
pub record Holds (header : Header) (wide : List ℕ) : Type 0 where
  pub plain : header.flags ≡ 0
  pub room : header.len < length header.units
  pub text : take header.len header.units ≡ wide

pub units_at-Holds :
    (memory : Memory) (p : ℕ) (header : Header) (wide : List ℕ)
    → cell memory p ≡ some header
    → Holds header wide
    → units_at memory p ≡ ok wide
unfolding units_at header_at
units_at-Holds memory p header wide found h =
    let room = h.room in
    let fits : leb header.len (length header.units) ≡ true = ground arith in
    rw (found, fits, h.text) refl

length-replicate : {A : Type 0} (n : ℕ) (a : A) → length (replicate n a) ≡ n
length-replicate zero a = refl
length-replicate (suc n) a = ap suc (length-replicate n a)

-- The text is written, and the unit behind it is 0.
finish :
    (wide : List ℕ) (header : Header)
    → 0 < length wide
    → length wide + 1 ≤ length header.units
    → length wide < u32_mod
    → header.flags ≡ 0
    → (written : Header) × (write_units 0 wide header ≡ ok written)
      × (ltb written.len (length written.units) ≡ true)
      × Holds (record written { units = set written.units written.len 0 }) wide
      × (written.count ≡ header.count)
finish wide header some_unit fits small plain =
    let (written, run, (flags, count, size, units, len)) =
      Returns-ok (write_units 0 wide header)
        (write_units-Wrote 0 wide header (omega arith) (omega arith)) in
    let same = filled written len in
    let room : written.len < length written.units = omega (arith, same, size) in
    (
      written,
      run,
      lt→ltb written.len (length written.units) room,
      record {
        plain = flags ∙ plain;
        room = rw (length-set written.units written.len 0) room;
        text = take-set written.len written.units 0 ∙ (ap (λ n. take n written.units) same ∙ units);
      },
      count,
    )
  where
    filled :
        (written : Header)
        → ((wide ≡ []) × (written.len ≡ header.len)) ⊎ (written.len ≡ 0 + length wide)
        → written.len ≡ 0 + length wide
    filled written (inl (e, l)) =
        let none_left : length wide ≡ 0 = ap length e in absurd (omega arith)
    filled written (inr l) = l

module _ (grants : Memory → ℕ → Bool) (blank : ℕ) where
  -- A new block, behind the others, that one handle owns.
  abbrev pub Fresh : Memory → List ℕ → HString × Memory → Type 0
  Fresh memory wide r =
      (header : Header) × (r
        ≡ (record { ptr = some (length memory) }, memory ++ (some header ∷ [])))
      × Holds header wide
      × (header.count.value ≡ 1)

  pub from-Fresh :
      (b : ℕ) (value : Text) (memory : Memory)
      → length (b ∷ value) < u32_mod
      → IsUtf8 (b ∷ value)
      → (from grants blank (b ∷ value) memory ≡ panic explicit)
        ⊎ Returns (from grants blank (b ∷ value) memory) (Fresh memory (encode_utf16 (b ∷ value)))
  unfolding from alloc header_at
  from-Fresh b value memory small utf8 =
      let size = length (b ∷ value) in
      let cut : size % u32_mod ≡ size = omega arith in
      let there : (size == 0) ≡ false = ground arith in
      let wide = encode_utf16 (b ∷ value) in
      let fewer = encode_utf16-le (b ∷ value) in
      let some_unit = encode_utf16-cons b value utf8 in
      let places = length-replicate ((header_size + 2 * size - buffer_offset) / 2) blank in
      let header : Header = record {
        flags = 0;
        len = size;
        units = replicate ((header_size + 2 * size - buffer_offset) / 2) blank;
        count = RefCount.new 1;
      } in
      let (written, run, inside, holds, count) =
        finish wide header some_unit (omega arith) (omega arith) refl in
      elim (Bool-cases (grants memory (header_size + 2 * size))) [
        | inr refused ↦ inl (rw (cut, there, refused) refl)
        | inl granted ↦
            let last : Header = record written { units = set written.units written.len 0 } in
            inr (
              rw (Returns, cut, there, granted, cell-append_self memory (some header), run, inside)
                (
                  last,
                  rw (set-append memory (some header) (some last)) refl,
                  holds,
                  ap RefCount.value count,
                ))
      ]
