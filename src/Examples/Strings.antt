-- ===== src/Examples/Strings.antt =====
-- Counted strings: two handles of one text.
use winrt_rs.Base.{
  ℕ, ◌≡◌, refl, Bool, true, none, some, List, [], ◌∷◌, arith, All, ok, checked, add32, sub,
}
use winrt_rs.Text.{ascii, lead, utf8_from, from_utf8, utf16_units, utf16_from, encode_utf16}
use winrt_rs.RefCount.{addref, release}
use winrt_rs.HString
use winrt_rs.HString.{Memory, cell, header_at, write_units, alloc, duplicate}
use winrt_rs.HString.Handles.{Call, start, step, run, string_step, string_run}
use winrt_rs.HString.Handles.Refines.{
  Fits, Refines, HoldsOrFull, run-start-Refines, run-start-freed,
}

abbrev always : Memory → ℕ → Bool
always memory bytes = true

abbrev calls : List Call
calls = Call.from (ascii "Hi") ∷ Call.clone 0 ∷ Call.new ∷ Call.clear 1 ∷ []

abbrev ended : List Call
ended = Call.from (ascii "Hi") ∷ Call.clone 0 ∷ Call.drop 0 ∷ Call.drop 0 ∷ []

calls_fit : All Fits calls
unfolding from_utf8 utf8_from lead
calls_fit = ((omega arith, refl), (tt, (tt, (tt, tt))))

ended_fit : All Fits ended
unfolding from_utf8 utf8_from lead
ended_fit = ((omega arith, refl), (tt, (tt, (tt, tt))))

-- The block is in use, with one of its handles left.
one_left :
    run always 9 start calls
    ≡ ok (record {
      memory =
          some (record {
            flags = 0;
            len = 2;
            units = 72 ∷ 105 ∷ 0 ∷ 9 ∷ [];
            count = record { value = 1 };
          })
          ∷ [];
      handles = record { ptr = none } ∷ record { ptr = none } ∷ record { ptr = some 0 } ∷ [];
    })
unfolding run step HString.from HString.clone HString.clear alloc duplicate write_units header_at
    cell encode_utf16 utf16_from utf16_units lead addref release add32 sub checked
one_left = refl

strings_left : string_run [] calls ≡ [] ∷ [] ∷ ascii "Hi" ∷ []
unfolding string_run string_step encode_utf16 utf16_from lead
strings_left = refl

run-start-Refines_example :
    HoldsOrFull (run always 9 start calls) (λ after. Refines after (string_run [] calls))
run-start-Refines_example = run-start-Refines always 9 calls calls_fit

run-start-freed_example :
    HoldsOrFull (run always 9 start ended) (λ after. (p : ℕ) → cell after.memory p ≡ none)
unfolding string_run string_step
run-start-freed_example = run-start-freed always 9 ended ended_fit refl
