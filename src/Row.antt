-- ===== src/Row.antt =====
-- crates/winmd/src/row.rs, and the newtypes of crates/winmd/src/tables: a row by its table and file.
use winrt_rs.Base.{ℕ, Result, ok, ◌>>=◌, add32}
use winrt_rs.File.TableId.{TableIndex}

pub record Row : Type 0 where
  pub index : ℕ
  pub table_index : TableIndex
  pub file_index : ℕ

abbrev pub new : ℕ → TableIndex → ℕ → Row
new row table_index file = record { index = row; table_index = table_index; file_index = file }

unfoldable pub next : Row → Result Row
next row = do index ← add32 row.index 1; ok (new index row.table_index row.file_index)

pub record TypeDef : Type 0 where
  pub row : Row

pub record TypeRef : Type 0 where
  pub row : Row

pub record TypeSpec : Type 0 where
  pub row : Row

pub record MethodDef : Type 0 where
  pub row : Row

pub record Field : Type 0 where
  pub row : Row

pub record Param : Type 0 where
  pub row : Row

pub record InterfaceImpl : Type 0 where
  pub row : Row

pub record MemberRef : Type 0 where
  pub row : Row

pub record GenericParam : Type 0 where
  pub row : Row

pub record Constant : Type 0 where
  pub row : Row

pub record Attribute : Type 0 where
  pub row : Row
