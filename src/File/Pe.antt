-- ===== src/File/Pe.antt =====
-- crates/winmd/src/file.rs: the PE and CLI headers, `#[repr(C)]` structures read in place. Each
-- field stands at the offset that the layout rules of C give it.
use winrt_rs.Base.{ℕ, List, map, take, drop}
use winrt_rs.File.View.{field_at, chunks}

abbrev pub image_dos_signature : ℕ
image_dos_signature = 0x5A4D

abbrev pub magic_pe32 : ℕ
magic_pe32 = 0x10B

abbrev pub magic_pe32plus : ℕ
magic_pe32plus = 0x20B

abbrev pub image_directory_entry_com_descriptor : ℕ
image_directory_entry_com_descriptor = 14

abbrev pub storage_magic_sig : ℕ
storage_magic_sig = 0x424A_5342

pub record ImageDosHeader : Type 0 where
  pub signature : ℕ
  pub cblp : ℕ
  pub cp : ℕ
  pub crlc : ℕ
  pub cparhdr : ℕ
  pub minalloc : ℕ
  pub maxalloc : ℕ
  pub ss : ℕ
  pub sp : ℕ
  pub csum : ℕ
  pub ip : ℕ
  pub cs : ℕ
  pub lfarlc : ℕ
  pub ovno : ℕ
  pub res : List ℕ
  pub oemid : ℕ
  pub oeminfo : ℕ
  pub res2 : List ℕ
  pub lfanew : ℕ

abbrev pub dos_size : ℕ
dos_size = 64

-- An array of `n` fields of two bytes.
unfoldable pub u16_array : ℕ → List ℕ → List ℕ
u16_array n view = map (λ chunk. field_at 2 chunk 0) (chunks 2 n view)

-- `lfanew` is an `i32`; it is used as `u32`, the same bits.
unfoldable pub image_dos_header : List ℕ → ImageDosHeader
image_dos_header v = record {
  signature = field_at 2 v 0;
  cblp = field_at 2 v 2;
  cp = field_at 2 v 4;
  crlc = field_at 2 v 6;
  cparhdr = field_at 2 v 8;
  minalloc = field_at 2 v 10;
  maxalloc = field_at 2 v 12;
  ss = field_at 2 v 14;
  sp = field_at 2 v 16;
  csum = field_at 2 v 18;
  ip = field_at 2 v 20;
  cs = field_at 2 v 22;
  lfarlc = field_at 2 v 24;
  ovno = field_at 2 v 26;
  res = u16_array 4 (drop 28 v);
  oemid = field_at 2 v 36;
  oeminfo = field_at 2 v 38;
  res2 = u16_array 10 (drop 40 v);
  lfanew = field_at 4 v 60;
}

pub record ImageFileHeader : Type 0 where
  pub machine : ℕ
  pub number_of_sections : ℕ
  pub time_date_stamp : ℕ
  pub pointer_to_symbol_table : ℕ
  pub number_of_symbols : ℕ
  pub size_of_optional_header : ℕ
  pub characteristics : ℕ

unfoldable pub image_file_header : List ℕ → ImageFileHeader
image_file_header v = record {
  machine = field_at 2 v 0;
  number_of_sections = field_at 2 v 2;
  time_date_stamp = field_at 4 v 4;
  pointer_to_symbol_table = field_at 4 v 8;
  number_of_symbols = field_at 4 v 12;
  size_of_optional_header = field_at 2 v 16;
  characteristics = field_at 2 v 18;
}

pub record ImageDataDirectory : Type 0 where
  pub virtual_address : ℕ
  pub size : ℕ

unfoldable pub image_data_directory : List ℕ → ImageDataDirectory
image_data_directory v = record { virtual_address = field_at 4 v 0; size = field_at 4 v 4 }

-- Of the two optional headers, which differ in the width of the addresses, the code reads the
-- magic number and the data directory.
pub record ImageOptionalHeader : Type 0 where
  pub magic : ℕ
  pub data_directory : List ImageDataDirectory

unfoldable pub image_optional_header : (directory_offset : ℕ) → List ℕ → ImageOptionalHeader
image_optional_header directory_offset v = record {
  magic = field_at 2 v 0;
  data_directory = map image_data_directory (chunks 8 16 (drop directory_offset v));
}

pub record ImageNtHeader : Type 0 where
  pub signature : ℕ
  pub file_header : ImageFileHeader
  pub optional_header : ImageOptionalHeader

abbrev pub nt_size : ℕ
nt_size = 248

unfoldable pub image_nt_header : List ℕ → ImageNtHeader
image_nt_header v = record {
  signature = field_at 4 v 0;
  file_header = image_file_header (drop 4 v);
  optional_header = image_optional_header 96 (drop 24 v);
}

abbrev pub nt_plus_size : ℕ
nt_plus_size = 264

-- The 64-bit fields align the whole structure to eight bytes.
unfoldable pub image_nt_header_plus : List ℕ → ImageNtHeader
image_nt_header_plus v = record {
  signature = field_at 4 v 0;
  file_header = image_file_header (drop 4 v);
  optional_header = image_optional_header 112 (drop 24 v);
}

pub record ImageSectionHeader : Type 0 where
  pub name : List ℕ
  pub physical_address_or_virtual_size : ℕ
  pub virtual_address : ℕ
  pub size_of_raw_data : ℕ
  pub pointer_to_raw_data : ℕ
  pub pointer_to_relocations : ℕ
  pub pointer_to_line_numbers : ℕ
  pub number_of_relocations : ℕ
  pub number_of_line_numbers : ℕ
  pub characteristics : ℕ

abbrev pub section_size : ℕ
section_size = 40

unfoldable pub image_section_header : List ℕ → ImageSectionHeader
image_section_header v = record {
  name = take 8 v;
  physical_address_or_virtual_size = field_at 4 v 8;
  virtual_address = field_at 4 v 12;
  size_of_raw_data = field_at 4 v 16;
  pointer_to_raw_data = field_at 4 v 20;
  pointer_to_relocations = field_at 4 v 24;
  pointer_to_line_numbers = field_at 4 v 28;
  number_of_relocations = field_at 2 v 32;
  number_of_line_numbers = field_at 2 v 34;
  characteristics = field_at 4 v 36;
}

pub record ImageCorHeader : Type 0 where
  pub cb : ℕ
  pub major_runtime_version : ℕ
  pub minor_runtime_version : ℕ
  pub meta_data : ImageDataDirectory
  pub flags : ℕ
  pub entry_point_token_or_entry_point_rva : ℕ
  pub resources : ImageDataDirectory
  pub strong_name_signature : ImageDataDirectory
  pub code_manager_table : ImageDataDirectory
  pub vtable_fixups : ImageDataDirectory
  pub export_address_table_jumps : ImageDataDirectory
  pub managed_native_header : ImageDataDirectory

abbrev pub cor_size : ℕ
cor_size = 72

unfoldable pub image_cor_header : List ℕ → ImageCorHeader
image_cor_header v = record {
  cb = field_at 4 v 0;
  major_runtime_version = field_at 2 v 4;
  minor_runtime_version = field_at 2 v 6;
  meta_data = image_data_directory (drop 8 v);
  flags = field_at 4 v 16;
  entry_point_token_or_entry_point_rva = field_at 4 v 20;
  resources = image_data_directory (drop 24 v);
  strong_name_signature = image_data_directory (drop 32 v);
  code_manager_table = image_data_directory (drop 40 v);
  vtable_fixups = image_data_directory (drop 48 v);
  export_address_table_jumps = image_data_directory (drop 56 v);
  managed_native_header = image_data_directory (drop 64 v);
}
