-- ===== src/Reader/Texts.antt =====
-- The text that a cell of a row leads to.
use winrt_rs.Base.{
  ℕ, ◌+◌, ◌<◌, ◌≡◌, refl, ◌≢◌, true, some, List, [], ◌∷◌, ◌++◌, arith, leb, le→leb, length, All,
  length-append, ok, u32_mod, add32-eq-ok,
}
use winrt_rs.File.View.{slice_from, until_nul}
use winrt_rs.File.View.Copy.{drop-append}
use winrt_rs.File.Load.{WinmdFile}
use winrt_rs.Row.{Row}
use winrt_rs.Text.{Text, from_utf8}
use winrt_rs.Reader.{TypeReader, file_at, u32, str}

-- No byte of the text is a nul.
abbrev pub NoNul : Text → Type 0
NoNul text = All (λ b. b ≢ 0) text

until_nul-append : (text rest : List ℕ) → NoNul text → until_nul (text ++ (0 ∷ rest)) ≡ some text
unfolding until_nul
until_nul-append [] rest h = refl
until_nul-append (b ∷ bs) rest (some_byte, h) = ground (arith, until_nul-append bs rest h)

slice_from-append : (front rest : List ℕ) → slice_from (front ++ rest) (length front) ≡ ok rest
unfolding slice_from
slice_from-append front rest =
    let inside : leb (length front) (length (front ++ rest)) ≡ true =
      le→leb _ _ (omega (arith, length-append front rest)) in
    rw (inside, drop-append front rest) refl

-- Where a cell holds the offset, in the heap of texts, of a UTF-8 text that ends with a nul, `str`
-- returns that text.
pub str-eq-ok :
    (reader : TypeReader) (row : Row) (column start : ℕ) (file : WinmdFile)
    (front text rest : List ℕ)
    → file_at reader row.file_index ≡ ok file
    → u32 reader row column ≡ ok start
    → file.bytes ≡ front ++ (text ++ (0 ∷ rest))
    → length front ≡ file.strings + start
    → length front < u32_mod
    → NoNul text
    → from_utf8 text ≡ ok text
    → str reader row column ≡ ok text
unfolding str
str-eq-ok reader row column start file front text rest found read parted here small no_nul valid =
    rw
      (
        found,
        read,
        add32-eq-ok file.strings start (omega arith),
        ← here,
        parted,
        slice_from-append front (text ++ (0 ∷ rest)),
        until_nul-append text rest no_nul,
        valid,
      )
      refl
