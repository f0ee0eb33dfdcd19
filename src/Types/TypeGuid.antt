-- ===== src/Types/TypeGuid.antt =====
-- crates/winmd/src/types/type_guid.rs: the guid of a type, as the arguments of its attribute tell it,
-- and its text.
use winrt_rs.Base.{
  ℕ, zero, suc, ◌+◌, ◌-◌, ◌/◌, ◌%◌, ◌^◌, List, [], ◌∷◌, ◌++◌, none, some, ltb, if◌then◌else◌,
  get_elem?, replicate, out_of_range, explicit, Result, ok, panic, ◌>>=◌, require, traverse,
}
use winrt_rs.Row.{TypeDef}
use winrt_rs.Text.{Text, ascii}
use winrt_rs.Reader.{TypeReader}
use winrt_rs.Tables.Attribute.{AttributeArg, args}
use winrt_rs.Tables.Attributes.{type_def_attribute}

pub data GuidConstant : Type 0 where
  u32 : ℕ → GuidConstant
  u16 : ℕ → GuidConstant
  u8 : ℕ → GuidConstant

-- A number that fits into `width` digits, in lower case.
unfoldable pub hex_digit : ℕ → ℕ
hex_digit d = if ltb d 10 then 0x30 + d else 0x61 + (d - 10)

unfoldable pub hex : (width : ℕ) → ℕ → Text
hex zero n = []
hex (suc width) n = hex_digit (n / 16 ^ width % 16) ∷ hex width n

unfoldable pub fmt_constant : GuidConstant → Text
fmt_constant (GuidConstant.u32 value) = hex 8 value
fmt_constant (GuidConstant.u16 value) = hex 4 value
fmt_constant (GuidConstant.u8 value) = hex 2 value

unfoldable pub from_arg : AttributeArg → Result GuidConstant
from_arg (AttributeArg.u32 value) = ok (GuidConstant.u32 value)
from_arg (AttributeArg.u16 value) = ok (GuidConstant.u16 value)
from_arg (AttributeArg.u8 value) = ok (GuidConstant.u8 value)
from_arg _ = panic explicit

-- The eleven constants.
pub record TypeGuid : Type 0 where
  pub constants : List GuidConstant

abbrev pub new : TypeGuid
new = record { constants = replicate 11 (GuidConstant.u8 0) }

-- `self.0[i]`, as it is written.
unfoldable pub fmt_at : TypeGuid → ℕ → Text
fmt_at guid i = elim (get_elem? guid.constants i) [ some c ↦ fmt_constant c | none ↦ [] ]

unfoldable pub fmt : TypeGuid → Text
fmt guid =
    fmt_at guid 0
    ++ (ascii "-"
        ++ (fmt_at guid 1
            ++ (ascii "-"
                ++ (fmt_at guid 2
                    ++ (ascii "-"
                        ++ (fmt_at guid 3
                            ++ (fmt_at guid 4
                                ++ (ascii "-"
                                    ++ (fmt_at guid 5
                                        ++ (fmt_at guid 6
                                            ++ (fmt_at guid 7
                                                ++ (fmt_at guid 8
                                                    ++ (fmt_at guid 9 ++ fmt_at guid 10)))))))))))))

unfoldable pub from_type_def : TypeReader → TypeDef → Result TypeGuid
from_type_def reader def = do
  attribute ←
      type_def_attribute reader def (ascii "Windows.Foundation.Metadata", ascii "GuidAttribute")
  values ← args reader attribute
  constants ←
      traverse (λ i. require (get_elem? values i) out_of_range >>= λ a. from_arg a.1)
        (0 ∷ 1 ∷ 2 ∷ 3 ∷ 4 ∷ 5 ∷ 6 ∷ 7 ∷ 8 ∷ 9 ∷ 10 ∷ [])
  ok (record { constants = constants })
