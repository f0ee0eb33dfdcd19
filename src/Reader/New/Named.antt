-- ===== src/Reader/New/Named.antt =====
-- The runs of `TypeReader::new`: a name resolves to the type of the first row that has it.
use winrt_rs.Base.{
  ℕ, zero, suc, ◌+◌, ◌%◌, ◌≡◌, refl, sym, ap, ◌∙◌, Bool, true, false, Option, none, some, List, [],
  ◌∷◌, ◌++◌, map, arith, All, length, length-append, explicit, ok, ◌>>=◌, require, >>=-eq-ok,
  append_assoc, append_nil, u16_mod,
}
use winrt_rs.File.TableId.{TableIndex}
use winrt_rs.File.Load.{WinmdFile, type_def_table}
use winrt_rs.Row
use winrt_rs.Row.{TypeDef}
use winrt_rs.Reader.{TypeReader}
use winrt_rs.Reader.Resolve.{Name, get, resolve_type_def}
use winrt_rs.Reader.New.{insert_type, add_type, add_types, add_files, new}
use winrt_rs.Reader.New.Filed.{found, in_namespace, resolve_type_def-found}
use winrt_rs.Tables.{type_def_name}
use winrt_rs.Tables.Attributes.{type_def_ignore}
use winrt_rs.Reader.New.Visits.{
  Visit, Told, Visited, or_else, first_named, rows_of, type_rows, Files, Files-nil, Files-append,
  Files-ignored, Files-insert,
}

add_type-Files :
    (reader reader' : TypeReader) (def : TypeDef)
    → add_type reader def ≡ ok reader'
    → (name : Option Name) × Told reader def name
      × (reader'.files ≡ reader.files)
      × Files reader.types (record { reader = reader; def = def; name = name } ∷ []) reader'.types
unfolding add_type
add_type-Files reader reader' def h =
    let (ignored, told, h1) = >>=-eq-ok (type_def_ignore reader def) _ h in by_test ignored told h1
  where
    by_test :
        (ignored : Bool)
        → type_def_ignore reader def ≡ ok ignored
        → (elim (ignored) [
          | true ↦ ok reader
          | false ↦ type_def_name reader def >>= λ name.
              ok (record reader { types = insert_type reader.types name def })
        ])
          ≡ ok reader'
        → (name : Option Name) × Told reader def name
          × (reader'.files ≡ reader.files)
          × Files reader.types
              (record { reader = reader; def = def; name = name } ∷ [])
              reader'.types
    by_test true told e =
        let same : reader' ≡ reader = ground arith in
        (none, told, ap (λ r. r.files) same, rw same (Files-ignored reader def reader.types))
    by_test false told e =
        let (name, named, e1) = >>=-eq-ok (type_def_name reader def) _ e in
        let same : reader' ≡ record reader { types = insert_type reader.types name def } =
          ground arith in
        (
          some name,
          (told, named),
          ap (λ r. r.files) same,
          rw same (Files-insert reader reader.types name def),
        )

All-append : (P : Visit → Type 0) (xs ys : List Visit) → All P xs → All P ys → All P (xs ++ ys)
All-append P [] ys all more = more
All-append P (x ∷ xs) ys (p, all) more = (p, All-append P xs ys all more)

map-append :
    (xs ys : List Visit) → map (λ v. v.def) (xs ++ ys) ≡ map (λ v. v.def) xs ++ map (λ v. v.def) ys
map-append [] ys = refl
map-append (x ∷ xs) ys = ap (λ l. x.def ∷ l) (map-append xs ys)

add_types-Files :
    (all later : List WinmdFile) (count row index : ℕ) (reader reader' : TypeReader)
    → all ≡ reader.files ++ later
    → length reader.files ≡ index + 1
    → add_types count row index reader ≡ ok reader'
    → (visits : List Visit) × (map (λ v. v.def) visits ≡ rows_of count row index)
      × Visited all visits
      × (reader'.files ≡ reader.files)
      × Files reader.types visits reader'.types
unfolding add_types
add_types-Files all later zero row index reader reader' so_far place h =
    let same : reader' ≡ reader = ground arith in
    ([], refl, tt, ap (λ r. r.files) same, rw same (Files-nil reader.types))
add_types-Files all later (suc count) row index reader reader' so_far place h =
    let def : TypeDef = record { row = Row.new row TableIndex.type_def (index % u16_mod) } in
    let (next, e, h1) = >>=-eq-ok (add_type reader def) _ h in
    let (name, told, same, first) = add_type-Files reader next def e in
    let (visits, rows, visited, same', rest) =
      add_types-Files all later count (row + 1) index next reader' (rw same so_far) (rw same place)
        h1 in
    (
      record { reader = reader; def = def; name = name } ∷ visits,
      ap (λ l. def ∷ l) rows,
      ((told, (index, later, so_far, place, refl)), visited),
      same' ∙ same,
      Files-append reader.types next.types reader'.types (_ ∷ []) visits first rest,
    )

add_files-Files :
    (all files : List WinmdFile) (index : ℕ) (reader reader' : TypeReader)
    → all ≡ reader.files ++ files
    → length reader.files ≡ index
    → add_files files index reader ≡ ok reader'
    → (visits : List Visit) × (map (λ v. v.def) visits ≡ type_rows files index)
      × Visited all visits
      × (reader'.files ≡ all)
      × Files reader.types visits reader'.types
unfolding add_files
add_files-Files all [] index reader reader' so_far place h =
    let same : reader' ≡ reader = ground arith in
    (
      [],
      refl,
      tt,
      ap (λ r. r.files) same ∙ sym (append_nil reader.files) ∙ sym so_far,
      rw same (Files-nil reader.types),
    )
add_files-Files all (file ∷ files) index reader reader' so_far place h =
    let (next, e, h1) = >>=-eq-ok (add_types (type_def_table file).row_count 0 index _) _ h in
    step next e (λ before there. add_files-Files all files (index + 1) next reader' before there h1)
  where
    with_file : TypeReader
    with_file = record reader { files = reader.files ++ (file ∷ []) }

    longer : all ≡ with_file.files ++ files
    longer = so_far ∙ sym (append_assoc reader.files (file ∷ []) files)

    count : length with_file.files ≡ index + 1
    count = length-append reader.files (file ∷ []) ∙ ap (λ n. n + 1) place

    step :
        (next : TypeReader)
        → add_types (type_def_table file).row_count 0 index with_file ≡ ok next
        → (all ≡ next.files ++ files
            → length next.files ≡ index + 1
            → (visits : List Visit) × (map (λ v. v.def) visits ≡ type_rows files (index + 1))
              × Visited all visits
              × (reader'.files ≡ all)
              × Files next.types visits reader'.types)
        → (visits : List Visit) × (map (λ v. v.def) visits ≡ type_rows (file ∷ files) index)
          × Visited all visits
          × (reader'.files ≡ all)
          × Files reader.types visits reader'.types
    step next e continue =
        let (visits, rows, visited, same, first) =
          add_types-Files all files (type_def_table file).row_count 0 index with_file next longer
            count e in
        let (more, rows', visited', ends, rest) = continue (rw same longer) (rw same count) in
        (
          visits ++ more,
          map-append visits more
              ∙ ap (λ l. l ++ map (λ v. v.def) more) rows
              ∙ ap (λ l. rows_of (type_def_table file).row_count 0 index ++ l) rows',
          All-append _ visits more visited visited',
          ends,
          Files-append reader.types next.types reader'.types visits more first rest,
        )

-- Where `new` returns a reader, it has the files that it was given, and `new` has visited the rows of
-- their type tables in order, each with a reader that had the files up to the row's own. A row was passed
-- over if its type is ignored, and else has the name of its type, both as that reader tells them. A name
-- resolves to the type of the first row with that name, and to nothing where there is no such row.
pub new-first_named :
    (files : List WinmdFile) (reader : TypeReader)
    → new files ≡ ok reader
    → (reader.files ≡ files)
      × (visits : List Visit) × (map (λ v. v.def) visits ≡ type_rows files 0)
      × Visited files visits
      × ((name : Name) → resolve_type_def reader name ≡ require (first_named name visits) explicit)
unfolding new
new-first_named files reader h =
    let (visits, rows, visited, same, filed) =
      add_files-Files files files 0 (record { files = []; types = [] }) reader refl refl h in
    (
      same,
      visits,
      rows,
      visited,
      (λ name.
          resolve_type_def-found reader name
          ∙ ap (λ o. require o explicit)
              (filed.finds (tt, tt) name ∙ (unfold found in_namespace or_else get in refl))),
    )
