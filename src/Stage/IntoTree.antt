-- ===== src/Stage/IntoTree.antt =====
-- The tree of a stage has the types of the stage, each in its namespace.
use winrt_rs.Base.{sym, List, [], ◌∷◌, ◌++◌, map, Returns, Returns-ok, append_assoc}
use mathlib.Core.List.{Perm, perm_middle}
use mathlib.Core.List.Perm
use winrt_rs.Row.{TypeDef}
use winrt_rs.Text.{Text, split}
use winrt_rs.Tree.{TypeTree, tree_insert}
use winrt_rs.Tree.Paths.{placed, Adds, tree_insert-Adds}
use winrt_rs.Types.{namespace_of}
use winrt_rs.Types.Definitions.{WinrtType, type_name_of}
use winrt_rs.Stage.{TypeStage, into_tree}

-- A type under the names between the dots of its namespace.
abbrev pub place : TypeDef × WinrtType → List Text × WinrtType
place (d, t) = (split 0x2E (namespace_of (type_name_of t)), t)

Adds-Perm :
    {A : Type 0} (x : A) (zs xs ys : List A) → Adds x xs ys → Perm (zs ++ ys) (x ∷ (zs ++ xs))
Adds-Perm x zs xs ys (front, back, e, e') =
    rw (e, e', sym (append_assoc zs front (x ∷ back)), sym (append_assoc zs front back))
      (perm_middle (zs ++ front) back)

-- `into_tree` returns for every stage. The types of the tree, each with the names that lead to it, are
-- those of the stage, each under the names between the dots of its namespace, and those that the tree
-- had before, in some order.
pub into_tree-Perm :
    (stage : TypeStage) (into : TypeTree WinrtType)
    → Returns
        (into_tree stage into)
        (λ made. Perm (placed [] made) (map place stage ++ placed [] into))
unfolding into_tree
into_tree-Perm [] into = Perm.refl (placed [] into)
into_tree-Perm ((d, t) ∷ rest) into =
    let (first, run, adds) =
      Returns-ok (tree_insert (namespace_of (type_name_of t)) t into)
        (tree_insert-Adds (namespace_of (type_name_of t)) t into) in
    let (made, run', perm) = Returns-ok (into_tree rest first) (into_tree-Perm rest first) in
    rw (Returns, run, run')
      (Perm.trans perm
        (Adds-Perm (place (d, t)) (map place rest) (placed [] into) (placed [] first) adds))
