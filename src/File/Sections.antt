-- ===== src/File/Sections.antt =====
-- crates/winmd/src/file.rs: from a relative virtual address to an offset in the file, and the first
-- part of `WinmdFile::new`, the headers up to the metadata root.
pub mod Inside
use winrt_rs.Base.{
  ℕ, List, [], ◌∷◌, Bool, false, get_elem?, map, ltb, leb, ◌==◌, if◌then◌else◌, add32, sub, Result,
  ok, panic, require, guard, ◌>>=◌, ◌>>◌, out_of_range, invalid_file, explicit,
}
use winrt_rs.File.View.{view_as, view_as_slice_of, copy_as}
use winrt_rs.File.Pe.{
  ImageSectionHeader, ImageDataDirectory, ImageNtHeader, image_dos_header, image_nt_header,
  image_nt_header_plus, image_section_header, image_cor_header, dos_size, nt_size, nt_plus_size,
  section_size, cor_size, image_dos_signature, magic_pe32, magic_pe32plus, storage_magic_sig,
  image_directory_entry_com_descriptor,
}

-- `rva >= va && rva < va + size`: the sum is computed only after the first test.
unfoldable pub contains_rva : ImageSectionHeader → ℕ → Result Bool
contains_rva s rva =
    let below_end : Result Bool =
      add32 s.virtual_address s.physical_address_or_virtual_size >>= λ end. ok (ltb rva end) in
    if leb s.virtual_address rva then below_end else ok false

unfoldable pub section_from_rva : List ImageSectionHeader → ℕ → Result ImageSectionHeader
section_from_rva [] rva = panic invalid_file
section_from_rva (s ∷ rest) rva =
    let later = section_from_rva rest rva in
    contains_rva s rva >>= λ found. if found then ok s else later

unfoldable pub offset_from_rva : ImageSectionHeader → ℕ → Result ℕ
offset_from_rva section rva = do
  inside ← sub rva section.virtual_address
  add32 inside section.pointer_to_raw_data

-- `data_directory[IMAGE_DIRECTORY_ENTRY_COM_DESCRIPTOR as usize]`.
unfoldable pub directory_of : ImageNtHeader → Result ImageDataDirectory
directory_of pe =
    require (get_elem? pe.optional_header.data_directory image_directory_entry_com_descriptor)
      out_of_range

-- The address of the CLI header and the section headers, by the magic number.
unfoldable pub com_descriptor :
    (address : ℕ) → List ℕ → (lfanew : ℕ) → Result (ℕ × List ImageSectionHeader)
com_descriptor address bytes lfanew = do
  view ← view_as address 4 nt_size bytes lfanew
  let pe = image_nt_header view
  let sections = pe.file_header.number_of_sections
  let plus = do
    wide ← view_as address 8 nt_plus_size bytes lfanew
    directory ← directory_of (image_nt_header_plus wide)
    start ← add32 lfanew nt_plus_size
    headers ← view_as_slice_of address 4 section_size bytes start sections
    ok (directory.virtual_address, map image_section_header headers)
  let narrow = do
    directory ← directory_of pe
    start ← add32 lfanew nt_size
    headers ← view_as_slice_of address 4 section_size bytes start sections
    ok (directory.virtual_address, map image_section_header headers)
  let magic = pe.optional_header.magic
  if magic == magic_pe32 then narrow else if magic == magic_pe32plus then plus else panic explicit

-- The offset of the metadata root.
unfoldable pub metadata_root : (address : ℕ) → List ℕ → Result ℕ
metadata_root address bytes = do
  dos_view ← view_as address 4 dos_size bytes 0
  let dos = image_dos_header dos_view
  guard (dos.signature == image_dos_signature) explicit
  (com_virtual_address, sections) ← com_descriptor address bytes dos.lfanew
  com_section ← section_from_rva sections com_virtual_address
  com_offset ← offset_from_rva com_section com_virtual_address
  cli_view ← view_as address 4 cor_size bytes com_offset
  let cli = image_cor_header cli_view
  guard (cli.cb == cor_size) explicit
  section ← section_from_rva sections cli.meta_data.virtual_address
  cli_offset ← offset_from_rva section cli.meta_data.virtual_address
  signature ← copy_as 4 bytes cli_offset
  guard (signature == storage_magic_sig) explicit
  ok cli_offset
