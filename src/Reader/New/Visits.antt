-- ===== src/Reader/New/Visits.antt =====
-- What `TypeReader::new` makes of rows of the type tables, and what each does to its map.
use winrt_rs.Base.{
  ℕ, zero, suc, ◌+◌, ◌%◌, ◌≡◌, refl, sym, ap, ◌∙◌, inl, inr, true, false, Option, none, some, List,
  [], ◌∷◌, ◌++◌, arith, if◌then◌else◌, Bool-cases, Option-cases, All, length, ok, bytes_eq→eq,
  u16_mod,
}
use winrt_rs.File.TableId.{TableIndex}
use winrt_rs.File.Load.{WinmdFile, type_def_table}
use winrt_rs.Row
use winrt_rs.Row.{TypeDef}
use winrt_rs.Reader.{TypeReader}
use winrt_rs.Reader.Resolve.{Name}
use winrt_rs.Reader.New.{Types, insert_type}
use winrt_rs.Reader.New.Filed.{Filed, found, same_name, insert_type-Filed, insert_type-found}
use winrt_rs.Tables.{type_def_name}
use winrt_rs.Tables.Attributes.{type_def_ignore}

-- A row of a type table, the reader as it stands when the row is met, and the name of the row's type
-- unless it is ignored.
pub record Visit : Type 0 where
  pub reader : TypeReader
  pub def : TypeDef
  pub name : Option Name

-- The reader tells that the type is ignored, or that it is not, and its name.
abbrev pub Told : TypeReader → TypeDef → Option Name → Type 0
Told reader def none = type_def_ignore reader def ≡ ok true
Told reader def (some name) =
    (type_def_ignore reader def ≡ ok false) × (type_def_name reader def ≡ ok name)

-- The reader of a visit has the files up to that of the row.
abbrev pub UpTo : List WinmdFile → Visit → Type 0
UpTo files visit =
    (index : ℕ) × (later : List WinmdFile) × (files ≡ visit.reader.files ++ later)
    × (length visit.reader.files ≡ index + 1)
    × (visit.def.row.file_index ≡ index % u16_mod)

abbrev pub Visited : List WinmdFile → List Visit → Type 0
Visited files = All (λ visit. Told visit.reader visit.def visit.name × UpTo files visit)

unfoldable pub or_else : Option TypeDef → Option TypeDef → Option TypeDef
or_else none other = other
or_else (some def) other = some def

-- The type of a visit, if it has the name.
abbrev pub own : Name → TypeDef → Option Name → Option TypeDef
own name def none = none
own name def (some other) = if same_name other name then some def else none

-- The type of the first visit with the name.
unfoldable pub first_named : Name → List Visit → Option TypeDef
first_named name [] = none
first_named name (visit ∷ visits) =
    or_else (own name visit.def visit.name) (first_named name visits)

-- The rows of the type tables of some files, in their order.
abbrev pub rows_of : (count row file_index : ℕ) → List TypeDef
rows_of zero row file_index = []
rows_of (suc count) row file_index =
    record { row = Row.new row TableIndex.type_def (file_index % u16_mod) }
    ∷ rows_of count (row + 1) file_index

abbrev pub type_rows : List WinmdFile → (file_index : ℕ) → List TypeDef
type_rows [] file_index = []
type_rows (file ∷ files) file_index =
    rows_of (type_def_table file).row_count 0 file_index ++ type_rows files (file_index + 1)

or_else_assoc : (a b c : Option TypeDef) → or_else (or_else a b) c ≡ or_else a (or_else b c)
unfolding or_else
or_else_assoc none b c = refl
or_else_assoc (some a) b c = refl

or_else_none : (a : Option TypeDef) → a ≡ or_else a none
unfolding or_else
or_else_none none = refl
or_else_none (some a) = refl

first_named-append :
    (name : Name) (xs ys : List Visit)
    → first_named name (xs ++ ys) ≡ or_else (first_named name xs) (first_named name ys)
unfolding first_named
first_named-append name [] ys = unfold or_else in refl
first_named-append name (x ∷ xs) ys =
    ap (or_else (own name x.def x.name)) (first_named-append name xs ys)
    ∙ sym (or_else_assoc (own name x.def x.name) (first_named name xs) (first_named name ys))

-- What some visits do to the map.
pub record Files (before : Types) (visits : List Visit) (after : Types) : Type 0 where
  pub ordered : Filed before → Filed after
  pub finds :
      Filed before
      → (name : Name) → found after name ≡ or_else (found before name) (first_named name visits)

pub Files-nil : (types : Types) → Files types [] types
unfolding first_named
Files-nil types = record { ordered = λ h. h; finds = λ h name. or_else_none (found types name) }

pub Files-append :
    (a b c : Types) (xs ys : List Visit) → Files a xs b → Files b ys c → Files a (xs ++ ys) c
Files-append a b c xs ys f g = record {
  ordered = λ h. g.ordered (f.ordered h);
  finds = λ h name.
      g.finds (f.ordered h) name
      ∙ ap (λ o. or_else o (first_named name ys)) (f.finds h name)
      ∙ or_else_assoc (found a name) (first_named name xs) (first_named name ys)
      ∙ ap (or_else (found a name)) (sym (first_named-append name xs ys));
}

same_name→eq : (a b : Name) → same_name a b ≡ true → a ≡ b
same_name→eq (a, a') (b, b') h =
    let p : a ≡ b = bytes_eq→eq a b (ground arith) in
    let q : a' ≡ b' = bytes_eq→eq a' b' (ground arith) in cc

pub Files-ignored :
    (reader : TypeReader) (def : TypeDef) (types : Types)
    → Files types (record { reader = reader; def = def; name = none } ∷ []) types
unfolding first_named or_else
Files-ignored reader def types = record {
  ordered = λ h. h;
  finds = λ h name. unfold first_named or_else in or_else_none (found types name);
}

pub Files-insert :
    (reader : TypeReader) (types : Types) (name : Name) (def : TypeDef)
    → Files types
        (record { reader = reader; def = def; name = some name } ∷ [])
        (insert_type types name def)
unfolding first_named
Files-insert reader types name def = record {
  ordered = insert_type-Filed types name def;
  finds = λ filed other.
      insert_type-found types name other def filed ∙ elim (Bool-cases (same_name name other)) [
        | inr apart ↦ rw apart (unfold or_else in or_else_none (found types other))
        | inl same ↦
            let e = same_name→eq name other same in
            rw same (
              rw e (elim (Option-cases (found types other)) [
                | inl absent ↦ rw absent (unfold or_else in refl)
                | inr (old, there) ↦ rw there (unfold or_else in refl)
              ]))
      ];
}
