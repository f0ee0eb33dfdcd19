-- ===== src/Blob/Ends.antt =====
-- The loop of `read_modifiers` ends, whatever the bytes are.
use winrt_rs.Base.{
  ℕ, zero, suc, ◌+◌, ◌≤◌, ◌<◌, ◌≡◌, ◌∙◌, ◌≢◌, inl, inr, Bool, true, false, not, ◌&&◌, List, [], ◌∷◌,
  arith, ◌==◌, length, length-drop, stuck, ok, panic, ◌>>=◌, >>=-eq-ok, Result-cases, checked,
  >>=-ne-panic,
}
use winrt_rs.File.View.{slice_from}
use winrt_rs.File.Load.{WinmdFile}
use winrt_rs.Reader.{file_at}
use winrt_rs.Blob.{
  Blob, file, bytes, advance, byte_at, unsigned_at, peek_unsigned, read_unsigned, modifiers_loop,
  read_modifiers,
}

-- Moving on.
advance-inv :
    (blob blob' : Blob) (n : ℕ)
    → advance blob n ≡ ok blob'
    → (blob'.offset ≡ blob.offset + n) × (file blob' ≡ file blob)
unfolding advance checked file
advance-inv blob blob' n h = ground arith

unsigned_at-inv :
    (view : List ℕ) (value offset : ℕ)
    → unsigned_at view ≡ ok (value, offset)
    → (1 ≤ length view) × (1 ≤ offset)
unfolding unsigned_at byte_at
unsigned_at-inv [] value offset h = ground arith
unsigned_at-inv (b ∷ bs) value offset h = (omega arith, ground arith)

unsigned_at-ends : (view : List ℕ) → unsigned_at view ≢ panic stuck
unfolding unsigned_at byte_at
unsigned_at-ends [] h = ground arith
unsigned_at-ends (b ∷ bs) h = ground arith

bytes-inv :
    (blob : Blob) (within : WinmdFile) (view : List ℕ)
    → file blob ≡ ok within
    → bytes blob ≡ ok view
    → length view + blob.offset ≡ length within.bytes
unfolding bytes slice_from
bytes-inv blob within view found h = ground (arith, length-drop blob.offset within.bytes)

peek_unsigned-inv :
    (blob : Blob) (within : WinmdFile) (p : ℕ × ℕ)
    → file blob ≡ ok within
    → peek_unsigned blob ≡ ok p
    → (blob.offset < length within.bytes) × (1 ≤ p.1)
unfolding peek_unsigned
peek_unsigned-inv blob within p found h =
    let (view, seen, h') = >>=-eq-ok (bytes blob) unsigned_at h in
    let inside = unsigned_at-inv view p.0 p.1 h' in
    (omega (arith, bytes-inv blob within view found seen, inside.0), inside.1)

bytes-ends : (blob : Blob) → bytes blob ≢ panic stuck
unfolding bytes file file_at slice_from
bytes-ends blob h = ground arith

peek_unsigned-ends : (blob : Blob) → peek_unsigned blob ≢ panic stuck
unfolding peek_unsigned
peek_unsigned-ends blob =
    >>=-ne-panic (bytes blob) unsigned_at stuck (bytes-ends blob) (λ view _. unsigned_at-ends view)

advance-ends : (blob : Blob) (n : ℕ) → advance blob n ≢ panic stuck
unfolding advance checked
advance-ends blob n h = ground arith

read_unsigned-ends : (blob : Blob) → read_unsigned blob ≢ panic stuck
unfolding read_unsigned
read_unsigned-ends blob =
    >>=-ne-panic (peek_unsigned blob) _ stuck (peek_unsigned-ends blob) (λ p _.
      >>=-ne-panic (advance blob p.1) _ stuck (advance-ends blob p.1) (λ moved _ h. ground arith))

-- The blob after a tag and a type.
read_unsigned-inv :
    (blob : Blob) (within : WinmdFile) (r : ℕ × Blob)
    → file blob ≡ ok within
    → read_unsigned blob ≡ ok r
    → (blob.offset < length within.bytes) × (blob.offset < r.1.offset) × (file r.1 ≡ ok within)
unfolding read_unsigned
read_unsigned-inv blob within r found h =
    let (p, seen, h') = >>=-eq-ok (peek_unsigned blob) _ h in
    let (moved, e, h'') = >>=-eq-ok (advance blob p.1) _ h' in
    let inside = peek_unsigned-inv blob within p found seen in
    let there = advance-inv blob moved p.1 e in
    let same : r ≡ (p.0, moved) = ground arith in
    rw same (inside.0, omega (arith, there.0, inside.1), there.1 ∙ found)

loop-ends :
    (fuel : ℕ) (blob : Blob) (within : WinmdFile)
    → file blob ≡ ok within
    → length within.bytes < blob.offset + fuel
    → 1 ≤ fuel
    → modifiers_loop fuel blob ≢ panic stuck
unfolding modifiers_loop
loop-ends zero blob within found enough some_fuel = λ _. omega arith
loop-ends (suc fuel) blob within found enough some_fuel =
    >>=-ne-panic (peek_unsigned blob) _ stuck (peek_unsigned-ends blob)
      (λ p seen. round p (not (p.0 == 32) && not (p.0 == 31)) seen (loop-ends fuel))
  where
    round :
        (p : ℕ × ℕ) (last : Bool)
        → peek_unsigned blob ≡ ok p
        → ((b : Blob) (w : WinmdFile)
            → file b ≡ ok w
            → length w.bytes < b.offset + fuel
            → 1 ≤ fuel
            → modifiers_loop fuel b ≢ panic stuck)
        → (elim (last) [
          | true ↦ ok blob
          | false ↦ advance blob p.1 >>= λ past_tag.
              read_unsigned past_tag >>= λ r. modifiers_loop fuel r.1
        ])
          ≢ panic stuck
    round p true seen later = λ h. ground arith
    round p false seen later =
        >>=-ne-panic (advance blob p.1) _ stuck (advance-ends blob p.1) (λ moved e.
          >>=-ne-panic (read_unsigned moved) _ stuck (read_unsigned-ends moved) (λ r read.
            let start = peek_unsigned-inv blob within p found seen in
            let there = advance-inv blob moved p.1 e in
            let next = read_unsigned-inv moved within r (there.1 ∙ found) read in
            later r.1 within next.2 (omega (arith, there.0, start.0, start.1, next.1))
              (omega (arith, start.0))))

-- The fuel of `read_modifiers` is enough: it returns or panics, as the code does, on any blob.
pub read_modifiers-ends : (blob : Blob) → read_modifiers blob ≢ panic stuck
unfolding read_modifiers file file_at
read_modifiers-ends blob h = elim (Result-cases (file blob)) [
  | inr (e, failed) ↦ ground (arith, failed)
  | inl (within, found) ↦
      loop-ends (length within.bytes + 1) blob within found (omega arith) (omega arith)
        (rw found at h)
]
