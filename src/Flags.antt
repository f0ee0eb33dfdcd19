-- ===== src/Flags.antt =====
-- crates/winmd/src/flags.rs: flags, and what a type or a method is.
use winrt_rs.Base.{ℕ, bit_and, Bool, not, ◌==◌}

pub record MethodFlags : Type 0 where
  pub bits : ℕ

pub record TypeFlags : Type 0 where
  pub bits : ℕ

pub record ParamFlags : Type 0 where
  pub bits : ℕ

unfoldable pub special : MethodFlags → Bool
special flags = not (bit_and flags.bits 0x800 == 0)

unfoldable pub windows_runtime : TypeFlags → Bool
windows_runtime flags = not (bit_and flags.bits 0x4000 == 0)

unfoldable pub interface_flag : TypeFlags → Bool
interface_flag flags = not (bit_and flags.bits 0x20 == 0)

unfoldable pub input : ParamFlags → Bool
input flags = not (bit_and flags.bits 1 == 0)

pub data TypeCategory : Type 0 where
  interface : TypeCategory
  class : TypeCategory
  enum : TypeCategory
  struct : TypeCategory
  delegate : TypeCategory

pub data MethodCategory : Type 0 where
  normal : MethodCategory
  get : MethodCategory
  set : MethodCategory
  add : MethodCategory
  remove : MethodCategory
