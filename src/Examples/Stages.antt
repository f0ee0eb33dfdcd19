-- ===== src/Examples/Stages.antt =====
-- The stage of two types, one of which depends on the other.
use winrt_rs.Base.{
  zero, suc, ◌≡◌, refl, inl, inr, ◌↔◌, List, [], ◌∷◌, ◌++◌, map, arith, some, Result, ok, Returns,
}
use mathlib.Core.List.{Perm}
use winrt_rs.Base.Maps.{lookup}
use winrt_rs.File.TableId.{TableIndex}
use winrt_rs.Row
use winrt_rs.Row.{TypeDef}
use winrt_rs.Text.{ascii}
use winrt_rs.Reader.{TypeReader}
use winrt_rs.Reader.Resolve.{namespace_types, get}
use winrt_rs.Limits.{TypeLimits}
use winrt_rs.Tree.{default}
use winrt_rs.Tree.Paths.{placed}
use winrt_rs.Types.{TypeName, type_name, no_kinds, TypeKind, dependencies, kind_dependencies}
use winrt_rs.Types.Order.Lawful.{def_order}
use winrt_rs.Types.Definitions.{WinrtType, type_dependencies, fields_dependencies}
use winrt_rs.Stage.{TypeStage, from_limits, into_tree}
use winrt_rs.Stage.Grown.{Has, Reached}
use winrt_rs.Stage.Closed.{Closed, asked, from_limits-Reached}
use winrt_rs.Stage.IntoTree.{place, into_tree-Perm}

abbrev pub point_def : TypeDef
point_def = record { row = Row.new 0 TableIndex.type_def 0 }

abbrev pub unit_def : TypeDef
unit_def = record { row = Row.new 1 TableIndex.type_def 0 }

abbrev pub unit_name : TypeName
unit_name = type_name (ascii "A.B") (ascii "Unit") no_kinds unit_def

abbrev pub point : WinrtType
point = WinrtType.struct (record {
  name = type_name (ascii "A") (ascii "Point") no_kinds point_def;
  fields = (ascii "unit", TypeKind.enum unit_name) ∷ [];
})

abbrev pub unit : WinrtType
unit = WinrtType.enum (record { name = unit_name; fields = [] })

abbrev pub type_info : TypeDef → Result WinrtType
type_info def = elim (def.row.index) [ zero ↦ ok point | suc n ↦ ok unit ]

abbrev pub reader : TypeReader
reader = record { files = []; types = (ascii "A", (ascii "Point", point_def) ∷ []) ∷ [] }

abbrev pub limits : TypeLimits
limits = record { namespaces = ascii "A" ∷ [] }

abbrev pub both : List TypeDef
both = point_def ∷ unit_def ∷ []

pub both-Closed : Closed type_info both
unfolding type_dependencies fields_dependencies kind_dependencies dependencies
both-Closed d (inl e) = rw e (point, refl, (inr (inl refl), tt))
both-Closed d (inr (inl e)) = rw e (unit, refl, tt)
both-Closed d (inr (inr never)) = absurd never

pub point_asked : asked reader limits.namespaces ≡ ok (point_def ∷ [])
unfolding asked namespace_types get
point_asked = refl

from_limits-Reached_example : Returns (from_limits type_info reader 3 limits) (λ s.
    ((d : TypeDef) → Has s d ↔ Reached type_info (point_def ∷ []) d)
    × ((d : TypeDef) (t : WinrtType) → lookup def_order d s ≡ some t → type_info d ≡ ok t))
from_limits-Reached_example =
    from_limits-Reached type_info reader both both-Closed 3 limits (point_def ∷ []) point_asked
      (inl refl, tt) (omega arith)

abbrev stage : TypeStage
stage = (point_def, point) ∷ (unit_def, unit) ∷ []

into_tree-Perm_example :
    Returns
      (into_tree stage default)
      (λ made. Perm (placed [] made) (map place stage ++ placed [] default))
into_tree-Perm_example = into_tree-Perm stage default
