-- ===== src/Tests/Text.antt =====
-- Hexadecimal text, endpoints and the cryptographic wrappers on concrete values.
use openmesh_messenger.Base.{◌≡◌, refl, none, some, [], ◌∷◌, ◌++◌, arith, Bytes, is_empty}
use openmesh_messenger.Core.Hex.{to_hex, from_hex}
use openmesh_messenger.Net.Endpoint.{Endpoint, to_string, parse_endpoint}
use openmesh_messenger.Net.Endpoint.Decimal.{decimal, strtoul}
use openmesh_messenger.Net.Endpoint.RoundTrip.{parse_endpoint-to_string}

to_hex_values : to_hex (0 ∷ 175 ∷ 255 ∷ []) ≡ b'0' ∷ b'0' ∷ b'a' ∷ b'f' ∷ b'f' ∷ b'f' ∷ []
unfolding to_hex
to_hex_values = refl

from_hex_values :
    (from_hex (b'A' ∷ b'f' ∷ []) ≡ some (175 ∷ []))
    × (from_hex (b'a' ∷ []) ≡ none)
    × (from_hex (b'g' ∷ b'0' ∷ []) ≡ none)
unfolding from_hex
from_hex_values = (refl, refl, refl)

-- "::1" with a port.
abbrev loopback : Endpoint
loopback = record { host = b':' ∷ b':' ∷ b'1' ∷ []; port = 4433 }

to_string-loopback : to_string loopback ≡ b':' ∷ b':' ∷ b'1' ∷ b':' ∷ b'4' ∷ b'4' ∷ b'3' ∷ b'3' ∷ []
unfolding to_string decimal
to_string-loopback = refl

-- Spaces and a sign are read as `strtoul` reads them, and the port wraps.
parse_endpoint_values :
    (parse_endpoint (b'h' ∷ b':' ∷ b' ' ∷ b'+' ∷ b'7' ∷ b'x' ∷ [])
      ≡ some (record { host = b'h' ∷ []; port = 7 }))
    × (parse_endpoint (b'h' ∷ b':' ∷ b'-' ∷ b'1' ∷ [])
        ≡ some (record { host = b'h' ∷ []; port = 65535 }))
    × (parse_endpoint (b'h' ∷ b':' ∷ []) ≡ none)
unfolding parse_endpoint strtoul is_empty
parse_endpoint_values = (refl, refl, refl)

parse_endpoint-to_string_example : parse_endpoint (to_string loopback) ≡ some loopback
parse_endpoint-to_string_example = parse_endpoint-to_string loopback (omega arith)

abbrev nonce : Bytes
nonce =
    1 ∷ 2 ∷ 3 ∷ 4 ∷ 5 ∷ 6 ∷ 7 ∷ 8 ∷ 9 ∷ 10 ∷ 11 ∷ 12 ∷ 13 ∷ 14 ∷ 15 ∷ 16 ∷ 17 ∷ 18 ∷ 19 ∷ 20 ∷ 21
    ∷ 22 ∷ 23 ∷ 24 ∷ []

abbrev key : Bytes
key = nonce ++ (25 ∷ 26 ∷ 27 ∷ 28 ∷ 29 ∷ 30 ∷ 31 ∷ 32 ∷ [])
