-- ===== src/Examples/Image.antt =====
-- A file with one section: two interfaces of the namespace `N`, and one method.
use winrt_rs.Base.{ℕ, List, [], ◌∷◌, ◌++◌, replicate}
use winrt_rs.File.TableData.{TableData}
use winrt_rs.File.Load.{WinmdFile}

-- The headers: 64 bytes for DOS, 248 for PE32, 40 for the section and 72 for the CLI.
abbrev pub dos_part : List ℕ
dos_part = (77 ∷ 90 ∷ []) ++ replicate 58 0 ++ (64 ∷ 0 ∷ 0 ∷ 0 ∷ [])

abbrev pub nt_part : List ℕ
nt_part =
    (80 ∷ 69 ∷ 0 ∷ 0 ∷ 0 ∷ 0 ∷ 1 ∷ [])
    ++ replicate 17 0
    ++ (11 ∷ 1 ∷ [])
    ++ replicate 207 0
    ++ (16 ∷ 0 ∷ 0 ∷ 72 ∷ [])
    ++ replicate 11 0

abbrev pub section_part : List ℕ
section_part =
    (46 ∷ 116 ∷ 101 ∷ 120 ∷ 116 ∷ 0 ∷ 0 ∷ 0 ∷ 0 ∷ 4 ∷ 0 ∷ 0 ∷ 0 ∷ 16 ∷ 0 ∷ 0 ∷ 0 ∷ 4 ∷ 0 ∷ 0 ∷ 96
      ∷ 1 ∷ [])
    ++ replicate 18 0

abbrev pub cor_part : List ℕ
cor_part = (72 ∷ []) ++ replicate 7 0 ++ (72 ∷ 16 ∷ 0 ∷ 0 ∷ 0 ∷ 2 ∷ []) ++ replicate 58 0

-- The metadata root with its three stream headers.
abbrev pub root_part : List ℕ
root_part =
    (66 ∷ 83 ∷ 74 ∷ 66 ∷ 1 ∷ 0 ∷ 1 ∷ 0 ∷ 0 ∷ 0 ∷ 0 ∷ 0 ∷ 4 ∷ 0 ∷ 0 ∷ 0 ∷ 118 ∷ 52 ∷ 0 ∷ 0 ∷ 0 ∷ 0
      ∷ 3 ∷ 0 ∷ 72 ∷ 0 ∷ 0 ∷ 0 ∷ 76 ∷ 0 ∷ 0 ∷ 0 ∷ 35 ∷ 126 ∷ 0 ∷ 0 ∷ 148 ∷ 0 ∷ 0 ∷ 0 ∷ 12 ∷ 0 ∷ 0
      ∷ 0 ∷ 35 ∷ 83 ∷ 116 ∷ 114 ∷ 105 ∷ 110 ∷ 103 ∷ 115 ∷ 0 ∷ 0 ∷ 0 ∷ 0 ∷ 160 ∷ 0 ∷ 0 ∷ 0 ∷ 4 ∷ 0
      ∷ 0 ∷ 0 ∷ 35 ∷ 66 ∷ 108 ∷ 111 ∷ 98 ∷ 0 ∷ 0 ∷ 0 ∷ [])

-- The table stream, with two rows of `TypeDef` and one of `MethodDef`.
abbrev pub tables_part : List ℕ
tables_part =
    (0 ∷ 0 ∷ 0 ∷ 0 ∷ 2 ∷ 0 ∷ 0 ∷ 1 ∷ 68 ∷ [])
    ++ replicate 15 0
    ++ (2 ∷ 0 ∷ 0 ∷ 0 ∷ 1 ∷ 0 ∷ 0 ∷ 0 ∷ 32 ∷ 64 ∷ 0 ∷ 0 ∷ 3 ∷ 0 ∷ 1 ∷ 0 ∷ 0 ∷ 0 ∷ 1 ∷ 0 ∷ 1 ∷ 0 ∷ 32
        ∷ 64 ∷ 0 ∷ 0 ∷ 5 ∷ 0 ∷ 1 ∷ 0 ∷ 0 ∷ 0 ∷ 1 ∷ 0 ∷ 2 ∷ [])
    ++ replicate 9 0
    ++ (7 ∷ 0 ∷ 0 ∷ 0 ∷ 1 ∷ 0 ∷ 0 ∷ 0 ∷ [])

abbrev pub strings_part : List ℕ
strings_part = (0 ∷ 78 ∷ 0 ∷ 73 ∷ 0 ∷ 74 ∷ 0 ∷ 114 ∷ 117 ∷ 110 ∷ 0 ∷ 0 ∷ [])

abbrev pub image : List ℕ
image =
    dos_part
    ++ (nt_part
        ++ (section_part
            ++ (cor_part ++ (root_part ++ (tables_part ++ (strings_part ++ replicate 4 0))))))

-- The file that `WinmdFile::new` makes of it.
abbrev pub laid_out : (data_start row_count row_size : ℕ) → List (ℕ × ℕ) → TableData
laid_out data_start row_count row_size columns = record {
  data_start = data_start;
  row_count = row_count;
  row_size = row_size;
  columns = columns;
}

abbrev pub image_file : WinmdFile
image_file = record {
  bytes = image;
  strings = 572;
  blobs = 584;
  guids = 0;
  tables =
      laid_out 0 0 6 ((0, 2) ∷ (2, 2) ∷ (4, 2) ∷ replicate 3 (0, 0))
      ∷ laid_out 0 0 6 ((0, 2) ∷ (2, 2) ∷ (4, 2) ∷ replicate 3 (0, 0))
      ∷ laid_out 0 0 6 ((0, 2) ∷ (2, 2) ∷ (4, 2) ∷ replicate 3 (0, 0))
      ∷ laid_out 0 0 8 ((0, 2) ∷ (2, 2) ∷ (4, 2) ∷ (6, 2) ∷ replicate 2 (0, 0))
      ∷ laid_out 0 0 4 ((0, 2) ∷ (2, 2) ∷ replicate 4 (0, 0))
      ∷ laid_out 0 0 6 ((0, 2) ∷ (2, 2) ∷ (4, 2) ∷ replicate 3 (0, 0))
      ∷ laid_out 556 1 14 ((0, 4) ∷ (4, 2) ∷ (6, 2) ∷ (8, 2) ∷ (10, 2) ∷ (12, 2) ∷ [])
      ∷ laid_out 0 0 6 ((0, 2) ∷ (2, 2) ∷ (4, 2) ∷ replicate 3 (0, 0))
      ∷ laid_out 528 2 14 ((0, 4) ∷ (4, 2) ∷ (6, 2) ∷ (8, 2) ∷ (10, 2) ∷ (12, 2) ∷ [])
      ∷ laid_out 0 0 6 ((0, 2) ∷ (2, 2) ∷ (4, 2) ∷ replicate 3 (0, 0))
      ∷ laid_out 0 0 2 ((0, 2) ∷ replicate 5 (0, 0))
      ∷ [];
}
