-- ===== src/Reader/New/Runs.antt =====
-- Runs of `TypeReader::new`: the map stays in order, and a name that resolves keeps its type.
use winrt_rs.Base.{
  ℕ, zero, suc, ◌+◌, ◌≡◌, refl, sym, ap, ◌∙◌, Bool, true, false, some, List, [], ◌∷◌, ◌++◌, arith,
  length, explicit, ok, ◌>>=◌, require, >>=-eq-ok, Returns, require-inv, append_assoc, append_nil,
}
use winrt_rs.File.Load.{WinmdFile, type_def_table}
use winrt_rs.Row.{TypeDef}
use winrt_rs.Reader.{TypeReader}
use winrt_rs.Reader.Resolve.{Name, resolve_type_def}
use winrt_rs.Reader.New.{Types, insert_type, add_type, add_types, add_files, new}
use winrt_rs.Reader.New.Filed.{
  Filed, found, insert_type-Filed, insert_type-kept, resolve_type_def-found,
}
use winrt_rs.Tables.{type_def_name}
use winrt_rs.Tables.Attributes.{type_def_ignore}

-- A later state of the map: in order if the first is, and with all its types.
record Grows (before after : Types) : Type 0 where
  ordered : Filed before → Filed after
  kept :
      (name : Name) (def : TypeDef)
      → Filed before
      → found before name ≡ some def
      → found after name ≡ some def

Grows-refl : (types : Types) → Grows types types
Grows-refl types = record { ordered = λ h. h; kept = λ name def filed h. h }

Grows-trans : (a b c : Types) → Grows a b → Grows b c → Grows a c
Grows-trans a b c g g' = record {
  ordered = λ h. g'.ordered (g.ordered h);
  kept = λ name def filed h. g'.kept name def (g.ordered filed) (g.kept name def filed h);
}

Grows-insert :
    (types : Types) (name : Name) (def : TypeDef) → Grows types (insert_type types name def)
Grows-insert types name def = record {
  ordered = insert_type-Filed types name def;
  kept = λ other old filed h. insert_type-kept types name other def old filed h;
}

add_type-Grows :
    (reader reader' : TypeReader) (def : TypeDef)
    → add_type reader def ≡ ok reader'
    → (reader'.files ≡ reader.files) × Grows reader.types reader'.types
unfolding add_type
add_type-Grows reader reader' def h =
    let (ignored, _, h1) = >>=-eq-ok (type_def_ignore reader def) _ h in by_test ignored h1
  where
    by_test :
        (ignored : Bool)
        → (elim (ignored) [
          | true ↦ ok reader
          | false ↦ type_def_name reader def >>= λ name.
              ok (record reader { types = insert_type reader.types name def })
        ])
          ≡ ok reader'
        → (reader'.files ≡ reader.files) × Grows reader.types reader'.types
    by_test true e =
        let same : reader' ≡ reader = ground arith in rw same (refl, Grows-refl reader.types)
    by_test false e =
        let (name, _, e1) = >>=-eq-ok (type_def_name reader def) _ e in
        let same : reader' ≡ record reader { types = insert_type reader.types name def } =
          ground arith in
        rw same (refl, Grows-insert reader.types name def)

add_types-Grows :
    (count row file_index : ℕ) (reader reader' : TypeReader)
    → add_types count row file_index reader ≡ ok reader'
    → (reader'.files ≡ reader.files) × Grows reader.types reader'.types
unfolding add_types
add_types-Grows zero row file_index reader reader' h =
    let same : reader' ≡ reader = ground arith in rw same (refl, Grows-refl reader.types)
add_types-Grows (suc count) row file_index reader reader' h =
    let (next, e, h1) = >>=-eq-ok (add_type reader _) _ h in
    let first = add_type-Grows reader next _ e in
    let rest = add_types-Grows count (row + 1) file_index next reader' h1 in
    (rest.0 ∙ first.0, Grows-trans reader.types next.types reader'.types first.1 rest.1)

add_files-Grows :
    (files : List WinmdFile) (file_index : ℕ) (reader reader' : TypeReader)
    → add_files files file_index reader ≡ ok reader'
    → (reader'.files ≡ reader.files ++ files) × Grows reader.types reader'.types
unfolding add_files
add_files-Grows [] file_index reader reader' h =
    let same : reader' ≡ reader = ground arith in
    rw same (sym (append_nil reader.files), Grows-refl reader.types)
add_files-Grows (file ∷ rest) file_index reader reader' h =
    let (next, e, h1) = >>=-eq-ok (add_types (type_def_table file).row_count 0 file_index _) _ h in
    let first = add_types-Grows (type_def_table file).row_count 0 file_index _ next e in
    let later = add_files-Grows rest (file_index + 1) next reader' h1 in
    (
      later.0 ∙ ap (λ fs. fs ++ rest) first.0 ∙ append_assoc reader.files (file ∷ []) rest,
      Grows-trans reader.types next.types reader'.types first.1 later.1,
    )

add_files-append :
    (files more : List WinmdFile) (file_index : ℕ) (reader reader' : TypeReader)
    → add_files (files ++ more) file_index reader ≡ ok reader'
    → (middle : TypeReader) × (add_files files file_index reader ≡ ok middle)
      × (add_files more (file_index + length files) middle ≡ ok reader')
unfolding add_files
add_files-append [] more file_index reader reader' h =
    let here : file_index + 0 ≡ file_index = omega arith in (reader, refl, rw here h)
add_files-append (file ∷ rest) more file_index reader reader' h =
    let (next, e, h1) = >>=-eq-ok (add_types (type_def_table file).row_count 0 file_index _) _ h in
    let (middle, p, q) = add_files-append rest more (file_index + 1) next reader' h1 in
    let place : file_index + 1 + length rest ≡ file_index + suc (length rest) = omega arith in
    (middle, rw e p, rw place at q)

-- The reader that `new` returns holds the files it was given, in their order, and both levels of its
-- map are in the order of their keys.
pub new-Filed :
    (files : List WinmdFile) (reader : TypeReader)
    → new files ≡ ok reader
    → (reader.files ≡ files) × Filed reader.types
unfolding new
new-Filed files reader h =
    let run = add_files-Grows files 0 _ reader h in (run.0, run.1.ordered (tt, tt))

-- Where `new` returns on some files and more files behind them, it returns on the first files alone,
-- and every name that resolves there resolves to the same type with the further files.
pub new-resolve_type_def :
    (files more : List WinmdFile) (reader : TypeReader)
    → new (files ++ more) ≡ ok reader
    → Returns (new files) (λ first.
      (name : Name) (def : TypeDef)
      → resolve_type_def first name ≡ ok def
      → resolve_type_def reader name ≡ ok def)
unfolding new
new-resolve_type_def files more reader h =
    let (middle, p, q) = add_files-append files more 0 _ reader h in
    let first = new-Filed files middle p in
    let rest = add_files-Grows more (0 + length files) middle reader q in
    rw p (λ name def resolved.
      let there =
        require-inv (found middle.types name) explicit def
          (sym (resolve_type_def-found middle name) ∙ resolved) in
      resolve_type_def-found reader name
      ∙ ap (λ o. require o explicit) (rest.1.kept name def first.1 there))
