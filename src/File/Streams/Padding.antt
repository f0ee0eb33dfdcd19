-- ===== src/File/Streams/Padding.antt =====
-- Where the next stream header stands.
use winrt_rs.Base.{
  ℕ, ◌+◌, ◌*◌, ◌/◌, ◌%◌, ◌≤◌, ◌<◌, ◌≡◌, inl, inr, some, List, [], ◌∷◌, arith, Option-cases, length,
  length-drop, ok, >>=-eq-ok, u32_mod, add32, add32-inv,
}
use winrt_rs.File.View.{copy_as, slice_from, until_nul, view_as_str}
use winrt_rs.File.Streams.{Streams, padding, set_stream, read_stream}

padding_rounds :
    (len : ℕ) → (k : ℕ) × (len + padding len ≡ 4 * k) × (1 ≤ padding len) × (padding len ≤ 4)
unfolding padding
padding_rounds len = (len / 4 + 1, ground arith, ground arith, ground arith)

until_nul-length : (bytes name : List ℕ) → until_nul bytes ≡ some name → length name < length bytes
unfolding until_nul
until_nul-length [] name h = cc
until_nul-length (b ∷ bytes) name h = elim (Option-cases (until_nul bytes)) [
  | inl missing ↦ ground arith
  | inr (rest, e) ↦ ground (arith, until_nul-length bytes rest e)
]

slice_from-length :
    (bytes rest : List ℕ) (start : ℕ)
    → slice_from bytes start ≡ ok rest
    → length rest ≤ length bytes
unfolding slice_from
slice_from-length bytes rest start h = ground (arith, length-drop start bytes)

view_as_str-length :
    (bytes name : List ℕ) (offset : ℕ)
    → view_as_str bytes offset ≡ ok name
    → length name < length bytes
unfolding view_as_str
view_as_str-length bytes name offset h =
    let (rest, sliced, h') = >>=-eq-ok (slice_from bytes offset) _ h in
    let named : until_nul rest ≡ some name = ground arith in
    omega (arith, slice_from-length bytes rest offset sliced, until_nul-length rest name named)

-- When a stream header is read in a file shorter than 2 ^ 32 - 12 bytes, the next one stands at the
-- first multiple of four bytes, counted from this header, that leaves room for the name and a nul.
pub read_stream-next :
    (bytes : List ℕ) (cli_offset view next : ℕ) (s s' : Streams)
    → length bytes + 12 < u32_mod
    → read_stream bytes cli_offset view s ≡ ok (next, s')
    → (name : List ℕ) × (k : ℕ) × (view_as_str bytes (view + 8) ≡ ok name)
      × (next ≡ view + 8 + 4 * k)
      × (length name < 4 * k)
      × (4 * k ≤ length name + 4)
unfolding read_stream
read_stream-next bytes cli_offset view next s s' small h =
    let (stream_offset, _, h1) = >>=-eq-ok (copy_as 4 bytes view) _ h in
    let (size_at, _, h2) = >>=-eq-ok (add32 view 4) _ h1 in
    let (stream_size, _, h3) = >>=-eq-ok (copy_as 4 bytes size_at) _ h2 in
    let (name_at, at, h4) = >>=-eq-ok (add32 view 8) _ h3 in
    let (name, named, h5) = >>=-eq-ok (view_as_str bytes name_at) _ h4 in
    let (s1, _, h6) = >>=-eq-ok (set_stream s name cli_offset stream_offset stream_size) _ h5 in
    let step = (8 + length name + padding (length name)) % u32_mod in
    let (next', moved, h7) = >>=-eq-ok (add32 view step) _ h6 in
    let (k, rounds, low, high) = padding_rounds (length name) in
    let short = view_as_str-length bytes name name_at named in
    let sum = add32-inv view step next' moved in
    let same : next' ≡ next = ground arith in
    (name, k, rw (← (add32-inv view 8 name_at at).0) named, omega arith, omega arith, omega arith)
