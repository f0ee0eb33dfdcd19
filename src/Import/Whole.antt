-- ===== src/Import/Whole.antt =====
-- What the macro `import` comes to, with the limits, the stage and the tree.
use winrt_rs.Base.{
  ℕ, ◌<◌, ◌≡◌, ◌↔◌, List, [], map, All, length, Result, ok, Returns, Returns-ok, append_nil,
}
use mathlib.Core.List.{Perm}
use winrt_rs.Row.{TypeDef}
use winrt_rs.Text.{Text}
use winrt_rs.Reader.{TypeReader}
use winrt_rs.Limits.{TypeLimits}
use winrt_rs.Tree.{default}
use winrt_rs.Tree.Paths.{placed}
use winrt_rs.Types.Definitions.{WinrtType}
use winrt_rs.Stage.{TypeStage, from_limits, into_tree}
use winrt_rs.Stage.Grown.{Mem, Has, Reached}
use winrt_rs.Stage.Closed.{Closed, asked, from_limits-Reached}
use winrt_rs.Stage.Keys.{Distinct, from_limits-Distinct, Distinct-entries}
use winrt_rs.Stage.IntoTree.{place, into_tree-Perm}
use winrt_rs.Import.{TokenTree, parse_import_stream, insert_all, import_tree}

-- From the empty tree, the types of the stage alone.
into_tree-default :
    (stage : TypeStage)
    → Returns (into_tree stage default) (λ made. Perm (placed [] made) (map place stage))
unfolding placed
into_tree-default stage =
    let (made, run, perm) = Returns-ok (into_tree stage default) (into_tree-Perm stage default) in
    rw run (rw (append_nil (map place stage)) at perm)

module _ (to_lowercase : ℕ → List ℕ) (to_dependencies : Text → Result (List Text))
    (lower : Text → Text) (type_info : TypeDef → Result WinrtType) (reader : TypeReader)
    (all : List TypeDef) where
  -- Where the tokens ask for namespaces that `TypeLimits::insert` finds, and the definitions there and all
  -- that they depend on have types, `import` with fuel for more than the number of those definitions
  -- makes a tree. The types of the tree, each with the names that lead to it, are those of a stage, each
  -- under the parts of its namespace, in some order. The stage has exactly the definitions that can be
  -- reached from those of the limits, each of them once, and with each of them the type that `type_info`
  -- makes of it.
  pub import_tree-Reached :
      Closed type_info all
      → (fuel : ℕ) (tokens : List TokenTree) (paths names : List Text) (limits : TypeLimits)
        (roots : List TypeDef)
      → parse_import_stream to_lowercase to_dependencies tokens ≡ ok (paths, names)
      → insert_all lower reader names (record { namespaces = [] }) ≡ ok limits
      → asked reader limits.namespaces ≡ ok roots
      → All (λ d. Mem d all) roots
      → length all < fuel
      → Returns
          (import_tree to_lowercase to_dependencies lower type_info reader fuel tokens)
          (λ made.
            (stage : TypeStage) × Perm (placed [] made) (map place stage)
            × ((d : TypeDef) → Has stage d ↔ Reached type_info roots d)
            × Distinct stage
            × All (λ entry. type_info entry.0 ≡ ok entry.1) stage)
  unfolding import_tree
  import_tree-Reached closed fuel tokens paths names limits roots parsed inserted found inside
        fits =
      let (stage, run, (reached, typed)) =
        Returns-ok (from_limits type_info reader fuel limits)
          (from_limits-Reached type_info reader all closed fuel limits roots found inside fits) in
      let (made, run', perm) = Returns-ok (into_tree stage default) (into_tree-default stage) in
      let distinct = from_limits-Distinct type_info reader fuel limits stage run in
      rw (Returns, parsed, inserted, run, run')
        (stage, perm, reached, distinct, Distinct-entries type_info stage distinct typed)
