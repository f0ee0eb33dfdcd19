-- ===== src/Reader/BlobStart.antt =====
-- The blob that a cell of a row leads to: `TypeReader::blob` passes over the size of a blob.
use winrt_rs.Base.{
  ℕ, suc, ◌+◌, ◌-◌, ◌/◌, ◌%◌, ◌≤◌, ◌<◌, bit_and, ◌≡◌, refl, sym, ap, ◌∙◌, inl, inr, true, false,
  some, List, [], ◌∷◌, ◌++◌, arith, ltb, leb, ◌==◌, ltb→lt, lt→ltb, le→leb, Bool-cases, length,
  get_elem?, All, length-append, ok, Returns, u32_mod, usize_mod, checked, add32-eq-ok,
  append_assoc,
}
use winrt_rs.File.View.Copy.{drop-append, take-append}
use winrt_rs.File.Load.{WinmdFile}
use winrt_rs.Row.{Row}
use winrt_rs.Blob
use winrt_rs.Blob.{Blob}
use winrt_rs.Blob.Unsigned.{compress, Stands}
use winrt_rs.Reader.{TypeReader, file_at, u32}
use winrt_rs.Reader.Resolve.{slice, size_bytes, add_size_byte, add_size_bytes, blob}

slice-append :
    (front more rest : List ℕ)
    → slice (front ++ (more ++ rest)) (length front) (length front + length more) ≡ ok more
unfolding slice
slice-append front more rest =
    let total = length-append front (more ++ rest) in
    let behind = length-append more rest in
    let up : leb (length front) (length front + length more) ≡ true = le→leb _ _ (omega arith) in
    let inside : leb (length front + length more) (length (front ++ (more ++ rest))) ≡ true =
      le→leb _ _ (omega (arith, total, behind)) in
    let wide : length front + length more - length front ≡ length more = omega arith in
    rw (up, inside, wide, drop-append front (more ++ rest), take-append more rest) refl

add_size_bytes-returns :
    (more : List ℕ) (blob_size : ℕ)
    → All (λ b. b < 256) more
    → (n : ℕ) × (add_size_bytes blob_size more ≡ ok n)
unfolding add_size_bytes add_size_byte checked
add_size_bytes-returns [] blob_size h = (blob_size, refl)
add_size_bytes-returns (b ∷ bs) blob_size (small, h) =
    let (n, e) = add_size_bytes-returns bs (0 + b) h in
    let fits : ltb (0 + b) 256 ≡ true = lt→ltb _ _ (omega arith) in (n, rw fits e)

get_elem?-append :
    (front : List ℕ) (b : ℕ) (rest : List ℕ)
    → get_elem? (front ++ (b ∷ rest)) (length front) ≡ some b
get_elem?-append [] b rest = refl
get_elem?-append (x ∷ xs) b rest = get_elem?-append xs b rest

-- The slice behind one more byte.
slice-behind :
    (front more rest : List ℕ) (b : ℕ)
    → slice (front ++ (b ∷ (more ++ rest))) (length front + 1) (length front + 1 + length more)
      ≡ ok more
slice-behind front more rest b =
    let parted = append_assoc front (b ∷ []) (more ++ rest) in
    let place : length (front ++ (b ∷ [])) ≡ length front + 1 = length-append front (b ∷ []) in
    rw (parted, place) at (slice-append (front ++ (b ∷ [])) more rest)

-- What `size_bytes` makes of the first byte of a compressed size.
size_bytes_one : (b : ℕ) → b < 0x80 → (s : ℕ) × (size_bytes b ≡ ok (s, 1))
unfolding size_bytes
size_bytes_one b h =
    let low : leb (b / 32) 3 ≡ true = le→leb _ _ (omega arith) in (bit_and b 0x7F, rw low refl)

size_bytes_two : (b : ℕ) → 0x80 ≤ b → b < 0xC0 → (s : ℕ) × (size_bytes b ≡ ok (s, 2))
unfolding size_bytes
size_bytes_two b p q =
    let above : leb (b / 32) 3 ≡ false = ground arith in
    let low : leb (b / 32) 5 ≡ true = le→leb _ _ (omega arith) in
    (bit_and b 0x3F, rw (above, low) refl)

size_bytes_four : (b : ℕ) → 0xC0 ≤ b → b < 0xE0 → (s : ℕ) × (size_bytes b ≡ ok (s, 4))
unfolding size_bytes
size_bytes_four b p q =
    let above : leb (b / 32) 3 ≡ false = ground arith in
    let above' : leb (b / 32) 5 ≡ false = ground arith in
    let here : (b / 32 == 6) ≡ true = ground arith in
    (bit_and b 0x1F, rw (above, above', here) refl)

record Parts (size : ℕ) : Type 0 where
  initial : ℕ
  more : List ℕ
  bits : ℕ
  parted : compress size ≡ initial ∷ more
  sized : size_bytes initial ≡ ok (bits, suc (length more))
  bytes : All (λ b. b < 256) more

compress-Parts : (size : ℕ) → size < 0x2000_0000 → Parts size
unfolding compress
compress-Parts size h = elim (Bool-cases (ltb size 0x80)) [
  | inl one ↦
      let (bits, e) = size_bytes_one size (ltb→lt _ _ one) in
      record { initial = size; more = []; bits = bits; parted = rw one refl; sized = e; bytes = tt }
  | inr more ↦ elim (Bool-cases (ltb size 0x4000)) [
    | inl two ↦
        let below = ltb→lt _ _ two in
        let (bits, e) = size_bytes_two (0x80 + size / 256) (omega arith) (omega arith) in
        record {
          initial = 0x80 + size / 256;
          more = (size % 256) ∷ [];
          bits = bits;
          parted = rw (more, two) refl;
          sized = e;
          bytes = omega arith;
        }
    | inr four ↦
        let (bits, e) = size_bytes_four (0xC0 + size / 0x100_0000) (omega arith) (omega arith) in
        record {
          initial = 0xC0 + size / 0x100_0000;
          more = (size / 0x1_0000 % 256) ∷ (size / 256 % 256) ∷ (size % 256) ∷ [];
          bits = bits;
          parted = rw (more, four) refl;
          sized = e;
          bytes = omega arith;
        }
  ]
]

module _ (reader : TypeReader) (row : Row) (column start : ℕ) (file : WinmdFile) (front : List ℕ)
    (found : file_at reader row.file_index ≡ ok file) (read : u32 reader row column ≡ ok start)
    (here : length front ≡ file.blobs + start) (small : length front < u32_mod) where
  -- By the first byte of the size, and the bytes of the size behind it.
  blob-by_size :
      (initial blob_size : ℕ) (more rest : List ℕ)
      → file.bytes ≡ front ++ (initial ∷ (more ++ rest))
      → size_bytes initial ≡ ok (blob_size, suc (length more))
      → All (λ b. b < 256) more
      → blob reader row column
        ≡ ok (Blob.new reader row.file_index (length front + suc (length more)))
  unfolding blob
  blob-by_size initial blob_size more rest parted size bytes =
      let more_here : slice file.bytes (length front + 1) (length front + suc (length more))
          ≡ ok more =
        rw (parted, ends) (slice-behind front more rest initial) in
      let (n, added) = add_size_bytes-returns more blob_size bytes in
      rw
        (
          found,
          read,
          add32-eq-ok file.blobs start (omega arith),
          ← here,
          first_byte,
          size,
          more_here,
          added,
        )
        refl
    where
      first_byte : get_elem? file.bytes (length front) ≡ some initial
      first_byte = rw parted (get_elem?-append front initial (more ++ rest))

      ends : length front + suc (length more) ≡ length front + 1 + length more
      ends = omega arith

  -- Where the cell holds the offset, in the heap of blobs, of a compressed size, `blob` returns the
  -- place behind that size.
  pub blob-compress :
      (size : ℕ) (rest : List ℕ)
      → size < 0x2000_0000
      → file.bytes ≡ front ++ (compress size ++ rest)
      → length file.bytes < usize_mod
      → Returns (blob reader row column) (λ b. Stands b (front ++ compress size) rest)
  unfolding Blob.file
  blob-compress size rest h parted whole =
      let parts = compress-Parts size h in
      let split : file.bytes ≡ front ++ (parts.initial ∷ (parts.more ++ rest)) =
        parted ∙ ap (λ xs. front ++ (xs ++ rest)) parts.parted in
      let behind = length-append front (compress size) in
      let wide : length (compress size) ≡ suc (length parts.more) = ap length parts.parted in
      rw (blob-by_size parts.initial parts.bits parts.more rest split parts.sized parts.bytes)
        (record {
          within = file;
          found = found;
          parted = parted ∙ sym (append_assoc front (compress size) rest);
          here = omega arith;
          small = whole;
        })
