-- ===== src/File/Streams.antt =====
-- crates/winmd/src/file.rs: the stream headers of `WinmdFile::new`, which give the heaps and the
-- table stream.
pub mod Padding
use Prim.Native.String.{String}
use Prim.Native.Char.{code}
use winrt_rs.Base.{
  ℕ, zero, suc, ◌+◌, ◌-◌, ◌%◌, List, [], ◌∷◌, length, bytes_eq, ◌==◌, if◌then◌else◌, add32, u32_mod,
  Result, ok, panic, ◌>>=◌, explicit,
}
use winrt_rs.File.View.{copy_as, view_as_str}

-- The bytes of an ASCII literal.
abbrev pub ascii : String → List ℕ
ascii String.[] = []
ascii (String.◌∷◌ c s) = code c ∷ ascii s

-- What the loop fills in: `file.strings`, `file.blobs`, `file.guids` and `tables_data`.
pub record Streams : Type 0 where
  pub strings : ℕ
  pub blobs : ℕ
  pub guids : ℕ
  pub tables_offset : ℕ
  pub tables_size : ℕ

abbrev pub no_streams : Streams
no_streams = record { strings = 0; blobs = 0; guids = 0; tables_offset = 0; tables_size = 0 }

-- `padding` is 4 to 1 bytes, the terminating nul among them; the test against 0 never holds.
unfoldable pub padding : ℕ → ℕ
padding len = let p = 4 - len % 4 in if p == 0 then 4 else p

unfoldable pub set_stream : Streams → List ℕ → (cli_offset stream_offset size : ℕ) → Result Streams
set_stream s name cli_offset stream_offset size =
    let start = add32 cli_offset stream_offset in
    if bytes_eq name (ascii "#Strings")
    then (start >>= λ at. ok (record s { strings = at }))
    else if bytes_eq name (ascii "#Blob")
    then (start >>= λ at. ok (record s { blobs = at }))
    else if bytes_eq name (ascii "#GUID")
    then (start >>= λ at. ok (record s { guids = at }))
    else if bytes_eq name (ascii "#~")
    then (start >>= λ at. ok (record s { tables_offset = at; tables_size = size }))
    else if bytes_eq name (ascii "#US")
    then ok s
    else panic explicit

-- One round: the header at `view`, and where the next one stands.
unfoldable pub read_stream : List ℕ → ℕ → ℕ → Streams → Result (ℕ × Streams)
read_stream bytes cli_offset view s = do
  stream_offset ← copy_as 4 bytes view
  size_at ← add32 view 4
  stream_size ← copy_as 4 bytes size_at
  name_at ← add32 view 8
  name ← view_as_str bytes name_at
  s' ← set_stream s name cli_offset stream_offset stream_size
  next ← add32 view ((8 + length name + padding (length name)) % u32_mod)
  ok (next, s')

unfoldable pub read_streams : ℕ → List ℕ → ℕ → ℕ → Streams → Result Streams
read_streams zero bytes cli_offset view s = ok s
read_streams (suc count) bytes cli_offset view s = do
  (view', s') ← read_stream bytes cli_offset view s
  read_streams count bytes cli_offset view' s'

-- The version string comes before the stream headers; `18` leads to their number.
unfoldable pub streams_at : List ℕ → ℕ → Result Streams
streams_at bytes cli_offset = do
  length_at ← add32 cli_offset 12
  version_length ← copy_as 4 bytes length_at
  version_end ← add32 cli_offset version_length
  view ← add32 version_end 20
  count_at ← add32 version_end 18
  count ← copy_as 2 bytes count_at
  read_streams count bytes cli_offset view no_streams
