-- ===== src/Stage.antt =====
-- crates/winmd/src/type_stage.rs: the types that are asked for, with all that they depend on. `type_info`
-- makes a type of its definition, as `type_from` does for a reader; the fuel is the depth of the chains
-- of dependencies.
pub mod Grown
pub mod Closed
pub mod Keys
pub mod IntoTree
use winrt_rs.Base.{ℕ, zero, suc, true, false, List, [], ◌∷◌, stuck, Result, ok, panic, ◌>>=◌}
use winrt_rs.Base.Maps
use winrt_rs.Base.Maps.{contains_key}
use winrt_rs.Row.{TypeDef}
use winrt_rs.Text.{Text}
use winrt_rs.Reader.{TypeReader}
use winrt_rs.Reader.Resolve.{namespace_types}
use winrt_rs.Limits.{TypeLimits}
use winrt_rs.Tree.{TypeTree, tree_insert}
use winrt_rs.Types.{namespace_of}
use winrt_rs.Types.Order.Lawful.{def_order}
use winrt_rs.Types.Definitions.{WinrtType, type_name_of, type_dependencies}

abbrev pub TypeStage : Type 0
TypeStage = List (TypeDef × WinrtType)

-- A loop that inserts definitions.
unfoldable pub insert_each :
    (TypeDef → TypeStage → Result TypeStage) → List TypeDef → TypeStage → Result TypeStage
insert_each one [] stage = ok stage
insert_each one (def ∷ defs) stage = one def stage >>= insert_each one defs

module _ (type_info : TypeDef → Result WinrtType) where
  unfoldable pub insert : (fuel : ℕ) → TypeDef → TypeStage → Result TypeStage
  insert zero def stage = panic stuck
  insert (suc fuel) def stage = elim (contains_key def_order def stage) [
    | true ↦ ok stage
    | false ↦ type_info def >>= λ info.
        insert_each (insert fuel) (type_dependencies info) (Maps.insert def_order def info stage)
  ]

  module _ (reader : TypeReader) (fuel : ℕ) where
    unfoldable pub insert_namespaces : List Text → TypeStage → Result TypeStage
    insert_namespaces [] stage = ok stage
    insert_namespaces (namespace ∷ rest) stage = do
      defs ← namespace_types reader namespace
      stage' ← insert_each (insert fuel) defs stage
      insert_namespaces rest stage'

    unfoldable pub from_limits : TypeLimits → Result TypeStage
    from_limits limits = insert_namespaces limits.namespaces []

unfoldable pub into_tree : TypeStage → TypeTree WinrtType → Result (TypeTree WinrtType)
into_tree [] into = ok into
into_tree ((def, t) ∷ rest) into =
    tree_insert (namespace_of (type_name_of t)) t into >>= into_tree rest
