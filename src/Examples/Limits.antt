-- ===== src/Examples/Limits.antt =====
-- The limits for a namespace with a parent that has types, and one that has none.
use winrt_rs.Base.{
  ◌+◌, ◌≡◌, refl, ◌⊎◌, true, ◌&&◌, ◌||◌, none, some, [], ◌∷◌, leb, if◌then◌else◌, map, bytes_eq,
  explicit, ok, panic, Returns,
}
use winrt_rs.Text.{Text, ascii}
use winrt_rs.Reader.{TypeReader}
use winrt_rs.Limits.{TypeLimits, set_insert, add, contains_key, find_key, insert_parents, insert}
use winrt_rs.Limits.Parents.{has, encloses, insert-has}

abbrev lower : Text → Text
lower name = map (λ c. if leb 0x41 c && leb c 0x5A then c + 0x20 else c) name

abbrev namespaces_reader : TypeReader
namespaces_reader = record {
  files = [];
  types = (ascii "W.F", []) ∷ (ascii "W.F.C", []) ∷ (ascii "X", []) ∷ [];
}

abbrev no_limits : TypeLimits
no_limits = record { namespaces = [] }

insert-has_example :
    ((find_key (λ name. bytes_eq (lower name) (ascii "w.f.c")) namespaces_reader.types ≡ none)
      × (insert lower namespaces_reader (ascii "w.f.c") no_limits ≡ panic explicit))
    ⊎ ((found : Text) × (find_key
            (λ name. bytes_eq (lower name) (ascii "w.f.c"))
            namespaces_reader.types
          ≡ some found)
        × (lower found ≡ ascii "w.f.c")
        × (contains_key namespaces_reader found ≡ true)
        × Returns (insert lower namespaces_reader (ascii "w.f.c") no_limits) (λ after.
          (y : Text)
          → has y after.namespaces ≡ (
              has y no_limits.namespaces
              || (bytes_eq found y || (encloses y found && contains_key namespaces_reader y)))))
insert-has_example = insert-has lower namespaces_reader (ascii "w.f.c") no_limits

-- The parent of the parent has no types.
inserted :
    insert lower namespaces_reader (ascii "w.f.c") no_limits
    ≡ ok (record { namespaces = ascii "W.F" ∷ ascii "W.F.C" ∷ [] })
unfolding insert insert_parents add set_insert find_key contains_key winrt_rs.Reader.Resolve.get
    winrt_rs.Text.split_last winrt_rs.Text.text_lt
inserted = refl
