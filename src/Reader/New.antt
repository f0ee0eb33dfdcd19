-- ===== src/Reader/New.antt =====
-- crates/winmd/src/type_reader.rs: `TypeReader::new`, which files the types of the files under their
-- names. A `BTreeMap` is the list of its entries in the order of their keys.
pub mod Filed
pub mod Runs
pub mod Visits
pub mod Named
use winrt_rs.Base.{
  ℕ, zero, suc, ◌+◌, ◌%◌, true, false, List, [], ◌∷◌, ◌++◌, if◌then◌else◌, bytes_eq, Result, ok,
  ◌>>=◌, ◌>>◌, u16_mod,
}
use winrt_rs.File.TableId.{TableIndex}
use winrt_rs.File.TableData.{TableData}
use winrt_rs.File.Load.{WinmdFile, type_def_table}
use winrt_rs.Row
use winrt_rs.Row.{TypeDef}
use winrt_rs.Text.{Text, text_lt}
use winrt_rs.Reader.{TypeReader}
use winrt_rs.Reader.Resolve.{Name}
use winrt_rs.Tables.{type_def_name}
use winrt_rs.Tables.Attributes.{type_def_ignore}

-- `entry(key)`, with `or_insert(value)` for a key that is not there, and then `update` on the value.
unfoldable pub upsert {ℓ} :
    {A : Type ℓ} → Text → (value : A) → (update : A → A) → List (Text × A) → List (Text × A)
upsert key value update [] = (key, update value) ∷ []
upsert key value update ((k, old) ∷ rest) =
    let later = upsert key value update rest in
    if bytes_eq k key
    then (k, update old) ∷ rest
    else if text_lt key k
    then (key, update value) ∷ (k, old) ∷ rest
    else (k, old) ∷ later

unfoldable pub or_insert {ℓ} : {A : Type ℓ} → Text → A → List (Text × A) → List (Text × A)
or_insert key value = upsert key value (λ old. old)

abbrev pub Types : Type 0
Types = List (Text × List (Text × TypeDef))

unfoldable pub insert_type : Types → Name → TypeDef → Types
insert_type types (namespace, name) def = upsert namespace [] (or_insert name def) types

-- One turn of the inner loop: the type of a row, unless it is ignored.
unfoldable pub add_type : TypeReader → TypeDef → Result TypeReader
add_type reader def = do
  ignored ← type_def_ignore reader def
  elim (ignored) [
    | true ↦ ok reader
    | false ↦ do
      name ← type_def_name reader def
      ok (record reader { types = insert_type reader.types name def })
  ]

unfoldable pub add_types : (count row file_index : ℕ) → TypeReader → Result TypeReader
add_types zero row file_index reader = ok reader
add_types (suc count) row file_index reader = do
  reader' ←
      add_type reader (record { row = Row.new row TableIndex.type_def (file_index % u16_mod) })
  add_types count (row + 1) file_index reader'

unfoldable pub add_files : List WinmdFile → (file_index : ℕ) → TypeReader → Result TypeReader
add_files [] file_index reader = ok reader
add_files (file ∷ rest) file_index reader = do
  reader' ←
      add_types (type_def_table file).row_count 0 file_index
        (record reader { files = reader.files ++ (file ∷ []) })
  add_files rest (file_index + 1) reader'

unfoldable pub new : List WinmdFile → Result TypeReader
new files = add_files files 0 (record { files = []; types = [] })
