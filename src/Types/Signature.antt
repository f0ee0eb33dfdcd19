-- ===== src/Types/Signature.antt =====
-- The signatures of types as they are written into blobs, and the kinds they
-- tell of.
pub mod Steps
pub mod Read
use winrt_rs.Base.{
  ℕ, suc, ◌+◌, ◌<◌, ◌≡◌, ◌≢◌, ◌⊎◌, Bool, true, false, none, List, [], ◌++◌, All, get_elem?,
  out_of_range, explicit, stuck, Result, ok, panic, ◌>>=◌, require,
}
use winrt_rs.File.TableId.{TableIndex}
use winrt_rs.Row.{TypeRef, TypeDef}
use winrt_rs.Blob.{Blob}
use winrt_rs.Blob.Unsigned.{compress}
use winrt_rs.Blob.Modifiers.{Modifier, modifiers}
use winrt_rs.Codes.{TypeCode, decode}
use winrt_rs.Reader.{TypeReader}
use winrt_rs.Tables.{type_def_name, type_def_or_ref_resolve}
use winrt_rs.Types.{type_name, TypeKind, TypeKinds, no_kinds, kind, to_list}
use winrt_rs.Types.Reading.{plain_kind, from_type_name, from_type_def, from_type_ref}

-- A signature: whether the mark of an array is before it, its modifiers, and its body. A body is a
-- number, a class or a value type with its code, a parameter, or a generic type with its arguments.
mutual
  pub data Sig : Type 0 where
    sig : (array : Bool) (passed : List (ℕ × ℕ)) → Body → Sig

  pub data Body : Type 0 where
    plain : (tag : ℕ) → Body
    named : (tag code : ℕ) → Body
    param : (index : ℕ) → Body
    inst : (tag code : ℕ) → Sigs → Body

  pub data Sigs : Type 0 where
    no_sigs : Sigs
    more : Sig → Sigs → Sigs

abbrev pub count : Sigs → ℕ
count no_sigs = 0
count (more s ss) = suc (count ss)

abbrev pub mark : Bool → List ℕ
mark true = compress 0x1D
mark false = []

abbrev pub tag_of : Body → ℕ
tag_of (plain tag) = tag
tag_of (named tag code) = tag
tag_of (param index) = 0x13
tag_of (inst tag code args) = 0x15

unfoldable mutual
  pub bytes : Sig → List ℕ
  bytes (sig array ms body) =
      mark array ++ (modifiers ms ++ (compress (tag_of body) ++ rest_of body))

  pub rest_of : Body → List ℕ
  rest_of (plain tag) = []
  rest_of (named tag code) = compress code
  rest_of (param index) = compress index
  rest_of (inst tag code args) =
      compress tag ++ (compress code ++ (compress (count args) ++ all_bytes args))

  pub all_bytes : Sigs → List ℕ
  all_bytes no_sigs = []
  all_bytes (more s ss) = bytes s ++ all_bytes ss

unfoldable mutual
  pub size : Sig → ℕ
  size (sig array ms body) = suc (body_size body)

  pub body_size : Body → ℕ
  body_size (inst tag code args) = sizes args
  body_size (plain tag) = 0
  body_size (named tag code) = 0
  body_size (param index) = 0

  pub sizes : Sigs → ℕ
  sizes no_sigs = 0
  sizes (more s ss) = size s + sizes ss

-- The numbers are below 2^29, and the tags are those of the bodies.
unfoldable mutual
  pub Written : Sig → Type 0
  Written (sig array ms body) = All Modifier ms × BodyWritten body

  pub BodyWritten : Body → Type 0
  BodyWritten (plain tag) = plain_kind tag ≢ none
  BodyWritten (named tag code) = ((tag ≡ 0x11) ⊎ (tag ≡ 0x12)) × (code < 0x2000_0000)
  BodyWritten (param index) = index < 0x2000_0000
  BodyWritten (inst tag code args) =
      (tag < 0x2000_0000) × (code < 0x2000_0000) × (count args < 0x2000_0000) × AllWritten args

  pub AllWritten : Sigs → Type 0
  AllWritten no_sigs = Unit {0}
  AllWritten (more s ss) = Written s × AllWritten ss

-- The kinds that signatures of a file tell of: what the rows of their codes are named.
module _ (reader : TypeReader) (file_index : ℕ) where
  unfoldable pub named_kind : (code : ℕ) → Result TypeKind
  named_kind code = do
    coded ← decode TypeCode.type_def_or_ref code file_index
    elim (coded.variant) [
      | TableIndex.type_ref ↦ from_type_ref reader (record { row = coded.row })
      | TableIndex.type_def ↦ from_type_def reader (record { row = coded.row })
      | _ ↦ panic stuck
    ]

  unfoldable pub inst_kind : (code : ℕ) → TypeKinds → Result TypeKind
  inst_kind code args = do
    coded ← decode TypeCode.type_def_or_ref code file_index
    def ← type_def_or_ref_resolve reader coded
    (namespace, name) ← type_def_name reader def
    from_type_name reader (type_name namespace name args def)

unfoldable mutual
  pub meaning : TypeReader → TypeKinds → (file_index : ℕ) → Sig → Result TypeKind
  meaning reader generics file_index (sig array ms body) =
      body_meaning reader generics file_index body

  pub body_meaning : TypeReader → TypeKinds → (file_index : ℕ) → Body → Result TypeKind
  body_meaning reader generics file_index (plain tag) = require (plain_kind tag) explicit
  body_meaning reader generics file_index (named tag code) = named_kind reader file_index code
  body_meaning reader generics file_index (param index) =
      require (get_elem? (to_list generics) index) out_of_range
  body_meaning reader generics file_index (inst tag code args) =
      meanings reader generics file_index args >>= λ ks. inst_kind reader file_index code ks

  pub meanings : TypeReader → TypeKinds → (file_index : ℕ) → Sigs → Result TypeKinds
  meanings reader generics file_index no_sigs = ok no_kinds
  meanings reader generics file_index (more s ss) = meaning reader generics file_index s >>= λ k.
      meanings reader generics file_index ss >>= λ ks. ok (kind k ks)
