-- ===== src/Examples/Imports.antt =====
-- The tokens of the macro, and the tree that comes of them.
use winrt_rs.Base.{
  ℕ, ◌+◌, ◌≡◌, refl, ◌↔◌, inl, true, false, ◌&&◌, List, [], ◌∷◌, map, arith, ltb, if◌then◌else◌,
  Result, ok, Returns, All,
}
use mathlib.Core.List.{Perm}
use winrt_rs.Row.{TypeDef}
use winrt_rs.Text.{Text, ascii, chars, chars_from, from_chars, following, lead, split_last}
use winrt_rs.Limits.{set_insert, find_key, insert_parents}
use winrt_rs.Limits
use winrt_rs.Tree.Paths.{placed}
use winrt_rs.Stage.{TypeStage}
use winrt_rs.Stage.Grown.{Has, Reached}
use winrt_rs.Stage.Keys.{Distinct}
use winrt_rs.Stage.IntoTree.{place}
use winrt_rs.Import.{
  TokenTree, parse_import_stream, parse_tokens, take_literal, category_of,
  namespace_literal_to_rough_namespace, rough_chars, insert_all, import_tree,
}
use winrt_rs.Import.Written.{Part, written, all_asks, parse_import_stream-written}
use winrt_rs.Import.Whole.{import_tree-Reached}
use winrt_rs.Examples.Stages.{type_info, reader, both, both-Closed, point_asked, point_def, limits}

abbrev to_lowercase : ℕ → List ℕ
to_lowercase c = (if ltb 0x40 c && ltb c 0x5B then c + 0x20 else c) ∷ []

-- Each dependency is a file.
abbrev to_dependencies : Text → Result (List Text)
to_dependencies name = ok (name ∷ [])

abbrev parts : List Part
parts =
    record { modules = false; colon = false; literals = ascii "\"os\"" ∷ [] }
    ∷ record {
      modules = true;
      colon = true;
      literals = ascii "\"windows.foundation\"" ∷ ascii "\"a_b\"" ∷ [];
    }
    ∷ []

parse_import_stream-written_example :
    parse_import_stream to_lowercase to_dependencies (written parts)
    ≡ all_asks to_lowercase to_dependencies parts ([], [])
parse_import_stream-written_example = parse_import_stream-written to_lowercase to_dependencies parts

abbrev tokens : List TokenTree
tokens =
    TokenTree.ident (ascii "modules")
    ∷ TokenTree.punct 0x3A
    ∷ TokenTree.literal (ascii "\"A\"")
    ∷ []

tokens_parsed : parse_import_stream to_lowercase to_dependencies tokens ≡ ok ([], ascii "a" ∷ [])
unfolding parse_import_stream parse_tokens take_literal category_of
    namespace_literal_to_rough_namespace rough_chars chars chars_from from_chars following lead
    set_insert
tokens_parsed = refl

names_inserted :
    insert_all (map (λ c. c + 0x20)) reader (ascii "a" ∷ []) (record { namespaces = [] })
    ≡ ok limits
unfolding insert_all Limits.insert find_key insert_parents Limits.add set_insert split_last
names_inserted = refl

import_tree-Reached_example :
    Returns
      (import_tree to_lowercase to_dependencies (map (λ c. c + 0x20)) type_info reader 3 tokens)
      (λ made.
        (stage : TypeStage) × Perm (placed [] made) (map place stage)
        × ((d : TypeDef) → Has stage d ↔ Reached type_info (point_def ∷ []) d)
        × Distinct stage
        × All (λ entry. type_info entry.0 ≡ ok entry.1) stage)
import_tree-Reached_example =
    import_tree-Reached to_lowercase to_dependencies (map (λ c. c + 0x20)) type_info reader both
      both-Closed 3 tokens [] (ascii "a" ∷ []) limits (point_def ∷ []) tokens_parsed names_inserted
      point_asked (inl refl, tt) (omega arith)
