-- ===== src/Mac/Tests.antt =====
-- An address in its three spellings.
use imaged.Base.{◌≡◌, refl, arith}
use imaged.Text.{Text, text}
use imaged.Error.{ok}
use imaged.Mac
use imaged.Mac.RoundTrip.{IsMac, from_str-display}

abbrev sample : Mac.MacAddress
sample = record { a = 2; b = 171; c = 0; d = 255; e = 16; g = 1 }

sample-IsMac : IsMac sample
sample-IsMac = record {
  a = omega arith;
  b = omega arith;
  c = omega arith;
  d = omega arith;
  e = omega arith;
  g = omega arith;
}

-- Upper case with dashes is read as well.
with_dashes :
    (quoted : Text → Text)
    → Mac.canonical_mac quoted (text "02-AB-00-FF-10-01") ≡ ok (text "02:ab:00:ff:10:01")
unfolding Mac.canonical_mac Mac.from_str Mac.display Mac.six_bytes Mac.next_byte Mac.no_more text
with_dashes quoted = refl

from_str-display_example : Mac.from_str (λ t. t) (Mac.display sample) ≡ ok sample
from_str-display_example = from_str-display (λ t. t) sample sample-IsMac
