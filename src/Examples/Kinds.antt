-- ===== src/Examples/Kinds.antt =====
-- Kinds, as they are read from signatures.
use winrt_rs.Base.{ℕ, ◌≡◌, refl, inl, true, List, [], ◌∷◌, ◌++◌, arith, Returns, ok}
use winrt_rs.File.Load.{WinmdFile}
use winrt_rs.Reader.{TypeReader, file_at}
use winrt_rs.Blob
use winrt_rs.Blob.{Blob}
use winrt_rs.Blob.Unsigned.{compress}
use winrt_rs.Blob.Modifiers.{modifiers}
use winrt_rs.Types.{TypeKind, TypeKinds, no_kinds, kind}
use winrt_rs.Types.Reading.{from_blob}
use winrt_rs.Types.Signature.{
  Sig, sig, param, bytes, rest_of, meaning, body_meaning, size, body_size, Written, BodyWritten,
}
use winrt_rs.Types.Signature.Steps.{At}
use winrt_rs.Types.Signature.Read.{from_blob-bytes}

-- An array of the second of two parameters, with a modifier before it.
abbrev second : Sig
second = sig true ((31, 0x85) ∷ []) (param 1)

abbrev generics : TypeKinds
generics = kind TypeKind.u8 (kind TypeKind.string no_kinds)

abbrev image : List ℕ
image = 9 ∷ 0x1D ∷ 31 ∷ 0x80 ∷ 0x85 ∷ 0x13 ∷ 1 ∷ 7 ∷ []

abbrev within : WinmdFile
within = record { bytes = image; strings = 0; blobs = 0; guids = 0; tables = [] }

abbrev reader : TypeReader
reader = record { files = within ∷ []; types = [] }

second-At : At 0 (Blob.new reader 0 1) (9 ∷ []) (bytes second ++ (7 ∷ []))
unfolding Blob.file file_at compress bytes rest_of modifiers
second-At = (
  record { within = within; found = refl; parted = refl; here = refl; small = omega arith },
  refl,
)

second-Written : Written second
unfolding Written BodyWritten
second-Written = (((inl refl, omega arith), tt), omega arith)

second_kind : meaning reader generics 0 second ≡ ok TypeKind.string
unfolding meaning body_meaning
second_kind = refl

second_size : size second ≡ 1
unfolding size body_size
second_size = refl

from_blob-bytes_example :
    Returns
      (from_blob reader generics 1 (Blob.new reader 0 1))
      (λ r. (r.0 ≡ TypeKind.string) × At 0 r.1 ((9 ∷ []) ++ bytes second) (7 ∷ []))
from_blob-bytes_example =
    from_blob-bytes reader generics 0 1 second (Blob.new reader 0 1) (9 ∷ []) (7 ∷ [])
      TypeKind.string (omega (arith, second_size)) second-Written second_kind second-At
