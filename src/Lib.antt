-- ===== src/Lib.antt =====
-- Verification library of winrt: the Windows metadata reader, the types that are made of metadata, and
-- the guids, strings and COM pointers of the runtime.
--
-- The program. `crates/winmd` reads Windows metadata files: a PE image whose CLI header leads to
-- heaps of texts and blobs and to tables of fixed-width rows. `WinmdFile::new` finds the tables and
-- computes the widths and offsets of their columns; `TypeReader` reads cells, searches sorted
-- columns, and files the types of all files under their namespaces and names; `tables` gives the
-- columns of each table their meaning; `Blob` reads signatures and values. `TypeLimits` holds the
-- namespaces that are asked for, `TypeStage` their types with all that these depend on, and `TypeTree`
-- the types by their namespaces: the macro `import` runs these one after the other. The generated code
-- calls the runtime in `src`, whose strings and pointers count their references.
--
-- The files of this library, and the code that they model:
--   Base: numbers, lists, maps, panics and machine words, shared by all.
--   File (crates/winmd/src/file.rs): View (the trait `View`), Pe (the headers), Sections (the
--     headers up to the metadata root), Streams (the heaps), TableData, IndexSize
--     (`composite_index_size`), TableId, Rows (row counts and offsets), Columns (widths and
--     columns) and Load (`WinmdFile::new`, which runs these parts in the order of the code).
--   Row (crates/winmd/src/row.rs), Flags (crates/winmd/src/flags.rs), Text (texts as UTF-8 bytes).
--   Reader (crates/winmd/src/type_reader.rs): cells, texts and lists; Search holds the binary
--     searches, Resolve `blob` and the look-up of names, New `TypeReader::new`.
--   Blob (crates/winmd/src/blob.rs): a call that takes `&mut self` returns the blob it leaves.
--   Codes (crates/winmd/macros/src/lib.rs and crates/winmd/src/codes.rs): `type_code` as a function
--     on the declarations of the six enums; a value is a variant's name and a row. Widths ties the
--     codes to the widths that File computes.
--   Tables (crates/winmd/src/tables): the typed accessors, the names and arguments of attributes,
--     and the tests by which types are ignored or sorted into categories.
--   Case (crates/winmd/src/case.rs): `to_snake` on lists of characters.
--   Limits (crates/winmd/src/type_limits.rs): the namespaces that are asked for, with their parents.
--   Tree (crates/winmd/src/type_tree.rs and type_namespaces.rs): the tree of types by namespaces.
--   Namespace (crates/winmd/src/types/namespace.rs and lib.rs): the paths between the generated
--     modules, and the identifiers.
--   Types (crates/winmd/src/types/type_name.rs and type_kind.rs): names and kinds, the order that
--     Rust derives for them, and their reading; Signature has the signatures as they are written. The
--     other files of crates/winmd/src/types: TypeGuid (type_guid.rs), Required (required_interfaces.rs),
--     Signing (the signatures and guids of type_name.rs), Method (method.rs and param.rs), Interfaces
--     (required_interface.rs) and Definitions (the sorts of types, and `Type`).
--   Stage (crates/winmd/src/type_stage.rs): the types that are asked for, and all they depend on.
--   RefCount and HString (src/ref_count.rs, src/hstring.rs): the counted strings, on a heap of blocks;
--     Handles holds the calls of a program that owns some of them.
--   Import (crates/macros/src/lib.rs): the macro `import`, from its tokens to the tree of types.
--   Com (src/error.rs, com_ptr.rs, com_interface.rs, try_into.rs and activation.rs): the codes of errors,
--     and the counted pointers to COM objects.
--   Guid (src/guid.rs): `Guid`, its text form and the parser of that form.
--   Examples: a small metadata file, and runs at concrete inputs.
--
-- Conventions. A call that can panic returns a `Result`, with the panic's kind. Arithmetic on
-- machine words is checked, as in a build with overflow checks; shifts and masks drop bits. The
-- targets are little-endian with 64-bit `usize`. A byte is a number below 256; texts are lists of
-- bytes. A table is a slot of a list under the number that the file format gives it, for the tables
-- that the code keeps in variables of its own too.
--
-- Fuel. The searches run on as much fuel as there are rows, which each round reduces;
-- `read_modifiers` runs on one more than the number of bytes, since a round moves on by two bytes
-- at least; `bits_needed` runs on one more than the number of tables, which a round halves;
-- `insert_parents` and `insert_within` run on one more than the length of the namespace, which gets
-- shorter. `from_blob` runs on the nesting of a signature, for which its size is enough. The
-- nesting of types and the chain of bases have fuels of their own, and so has the depth of
-- dependencies, for which the number of definitions is enough. The panic `stuck` marks a run out of
-- fuel and an arm that the code does not have.
--
-- Arguments. What `std::fs::read` returned, and the address at which the buffer was allocated, on
-- which the tests of alignment depend. In Case, what the standard library tells of a character: its
-- case, and its lower-case form; in Limits, the lower-case form of a text. In Tree, the type of the
-- types. In Signing, what the crate sha1 makes of bytes; in Stage and Import, how a definition
-- becomes a type; in Import, what the file system tells of a dependency. In HString, whether
-- `HeapAlloc` grants a block, and what stands in a new one. In Namespace, what the crate
-- proc_macro2 takes for an identifier. In Com, what the functions of the objects and of the system do
-- to the world, which may be anything; what COM documents of the pointers that they give out is
-- `Documented`.
--
-- Not modelled: the Rust code that comes of the types, so the tokens of every `to_tokens`; the
-- search of the system's metadata folder; of the runtime in src, the arrays and what only passes a
-- value on. In an optional header, only the magic number and the data directory are fields.
pub mod Base
pub mod File
pub mod Row
pub mod Text
pub mod Reader
pub mod Blob
pub mod Codes
pub mod Flags
pub mod Tables
pub mod Guid
pub mod Case
pub mod Limits
pub mod Tree
pub mod Namespace
pub mod RefCount
pub mod HString
pub mod Types
pub mod Stage
pub mod Import
pub mod Com
mod Examples
