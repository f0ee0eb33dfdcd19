-- ===== src/Examples/Choices.antt =====
-- The methods that a type takes of two interfaces, and the guid of a digest.
use winrt_rs.Base.{ℕ, ◌+◌, ◌<◌, ◌≡◌, List, [], ◌∷◌, none, some, length, get_elem?, take}
use winrt_rs.File.TableId.{TableIndex}
use winrt_rs.Row
use winrt_rs.Text.{ascii}
use winrt_rs.Case.{MethodKind}
use winrt_rs.Types.{TypeName, type_name, no_kinds}
use winrt_rs.Types.TypeGuid
use winrt_rs.Types.TypeGuid.{hex_digit, fmt}
use winrt_rs.Types.Required.{InterfaceKind}
use winrt_rs.Types.Signing.{from_digest}
use winrt_rs.Types.Signing.Version.{fmt-from_digest}
use winrt_rs.Types.Method.{Method}
use winrt_rs.Types.Interfaces.{RequiredInterface, to_method_calls}
use winrt_rs.Types.Interfaces.Calls.{all_calls, calls_named, to_method_calls-named}
use Prim.Native.String.{String}

abbrev method : String → Method
method name = record {
  name = ascii name;
  kind = MethodKind.normal;
  params = [];
  return_type = none;
}

abbrev named : String → TypeName
named name =
    type_name (ascii "A") (ascii name) no_kinds (record { row = Row.new 0 TableIndex.type_def 0 })

-- Both have a method `close`.
abbrev interfaces : List RequiredInterface
interfaces =
    record {
      name = named "I";
      guid = TypeGuid.new;
      methods = method "open" ∷ method "close" ∷ [];
      kind = InterfaceKind.default;
    }
    ∷ record {
      name = named "J";
      guid = TypeGuid.new;
      methods = method "close" ∷ method "read" ∷ [];
      kind = InterfaceKind.non_default;
    }
    ∷ []

to_method_calls-named_example :
    calls_named (ascii "close") (to_method_calls interfaces)
    ≡ take 1 (calls_named (ascii "close") (all_calls interfaces))
to_method_calls-named_example = to_method_calls-named interfaces (ascii "close")

-- The digest of the empty text.
abbrev digest : List ℕ
digest =
    0xDA ∷ 0x39 ∷ 0xA3 ∷ 0xEE ∷ 0x5E ∷ 0x6B ∷ 0x4B ∷ 0x0D ∷ 0x32 ∷ 0x55 ∷ 0xBF ∷ 0xEF ∷ 0x95 ∷ 0x60
    ∷ 0x18 ∷ 0x90 ∷ 0xAF ∷ 0xD8 ∷ 0x07 ∷ 0x09 ∷ []

fmt-from_digest_example :
    (length (fmt (from_digest digest)) ≡ 36)
    × (get_elem? (fmt (from_digest digest)) 14 ≡ some (hex_digit 5))
    × ((m : ℕ) × (m < 4) × (get_elem? (fmt (from_digest digest)) 19 ≡ some (hex_digit (8 + m))))
fmt-from_digest_example = fmt-from_digest digest
