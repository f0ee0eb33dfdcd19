-- ===== src/File.antt =====
-- crates/winmd/src/file.rs: a Windows metadata file, from its bytes to its eleven tables.
pub mod View
pub mod Pe
pub mod TableData
pub mod IndexSize
pub mod Sections
pub mod Streams
pub mod TableId
pub mod Rows
pub mod Columns
pub mod Load
