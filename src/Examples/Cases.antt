-- ===== src/Examples/Cases.antt =====
-- A name in snake case, with the letters of ASCII.
use winrt_rs.Base.{ℕ, ◌+◌, ◌≡◌, refl, Bool, ◌&&◌, List, [], ◌∷◌, leb, if◌then◌else◌, ok}
use winrt_rs.Text.{ascii}
use winrt_rs.Case.{MethodKind, preamble, breaks, push_rest, to_snake}
use winrt_rs.Case.Words.{Words}

abbrev pub is_upper : ℕ → Bool
is_upper c = leb 0x41 c && leb c 0x5A

abbrev pub is_lower : ℕ → Bool
is_lower c = leb 0x61 c && leb c 0x7A

abbrev pub to_lower : ℕ → List ℕ
to_lower c = if is_upper c then (c + 0x20) ∷ [] else c ∷ []

snake_name :
    to_snake is_upper is_lower to_lower (ascii "UIElementTheme") MethodKind.set
    ≡ ok (ascii "set_ui_element_theme")
unfolding to_snake preamble push_rest breaks
snake_name = refl

-- Without the counter, the underscore would go before `Int` too.
counted_name :
    to_snake is_upper is_lower to_lower (ascii "CreateUInt8Array") MethodKind.normal
    ≡ ok (ascii "create_uint8_array")
unfolding to_snake preamble push_rest breaks
counted_name = refl

abbrev theme : List ℕ
theme = ascii "UIElementTheme"
