-- ===== src/File/Columns.antt =====
-- crates/winmd/src/file.rs: the middle of `WinmdFile::new`, the widths of the coded indices and the
-- columns of every table.
pub mod Widths
pub mod Fill
pub mod Fitting
