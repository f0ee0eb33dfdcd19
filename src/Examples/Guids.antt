-- ===== src/Examples/Guids.antt =====
-- A guid, written and read.
use winrt_rs.Base.{◌≡◌, refl, [], ◌∷◌, arith, ok}
use winrt_rs.Guid.{Guid, from_values, fmt, from}
use winrt_rs.Guid.RoundTrip.{Fits, from-fmt}

abbrev some_guid : Guid
some_guid = from_values 0x12AB 0xC0DE 7 (1 ∷ 2 ∷ 0xFF ∷ 4 ∷ 5 ∷ 6 ∷ 7 ∷ 0xA0 ∷ [])

some_guid-Fits : Fits some_guid
some_guid-Fits = record {
  word = omega arith;
  half = omega arith;
  half' = omega arith;
  eight = refl;
  bytes = omega arith;
}

from-fmt_example : from (fmt some_guid) ≡ ok some_guid
from-fmt_example = from-fmt some_guid some_guid-Fits
