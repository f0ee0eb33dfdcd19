-- ===== src/Examples/Trees.antt =====
-- Three types, in two namespaces of which one is the parent of the other.
use winrt_rs.Base.{ℕ, ◌≡◌, refl, [], ◌∷◌, ok, ◌>>=◌, Returns}
use winrt_rs.Text.{split, ascii, split_first}
use winrt_rs.Tree.{TypeTree, tree, no_entries, entry, or_default, push, insert_within, tree_insert}
use winrt_rs.Tree.Paths.{placed, Adds, tree_insert-Adds}

abbrev one_type : TypeTree ℕ
one_type = tree [] (
    entry (ascii "W") (tree [] (entry (ascii "F") (tree (7 ∷ []) no_entries) no_entries))
      no_entries)

-- A second type of the namespace, and one of its child.
inserted :
    (tree_insert (ascii "W.F") 8 one_type >>= tree_insert (ascii "W.F.C") 9)
    ≡ ok (
        tree [] (
          entry
            (ascii "W")
            (tree [] (
              entry
                (ascii "F")
                (tree (7 ∷ 8 ∷ []) (entry (ascii "C") (tree (9 ∷ []) no_entries) no_entries))
                no_entries))
            no_entries))
unfolding tree_insert insert_within or_default push split_first
inserted = refl

tree_insert-Adds_example :
    Returns
      (tree_insert (ascii "W.F.C") 9 one_type)
      (λ made. Adds (split 0x2E (ascii "W.F.C"), 9) (placed [] one_type) (placed [] made))
tree_insert-Adds_example = tree_insert-Adds (ascii "W.F.C") 9 one_type
