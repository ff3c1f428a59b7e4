-- ===== src/Protocol/Names.antt =====
-- The two `to_string` tables of libs/protocol: packet_type.hpp and src/packet.cpp.
use openmesh_messenger.Base.{[], ◌∷◌, Bytes, ◌==◌, if◌then◌else◌}
use openmesh_messenger.Protocol.PacketType.{
  PacketType, hello, register, discover, connect, contact_request, contact_response, message, ack,
  heartbeat, disconnect,
}
use openmesh_messenger.Protocol.Wire.{
  ParseError, ok, too_short, bad_magic, unsupported_version, truncated_field, trailing_bytes,
}

unfoldable pub error_name : ParseError → Bytes
error_name ok = b'o' ∷ b'k' ∷ []
error_name too_short = b't' ∷ b'o' ∷ b'o' ∷ b'-' ∷ b's' ∷ b'h' ∷ b'o' ∷ b'r' ∷ b't' ∷ []
error_name bad_magic = b'b' ∷ b'a' ∷ b'd' ∷ b'-' ∷ b'm' ∷ b'a' ∷ b'g' ∷ b'i' ∷ b'c' ∷ []
error_name unsupported_version =
    b'u' ∷ b'n' ∷ b's' ∷ b'u' ∷ b'p' ∷ b'p' ∷ b'o' ∷ b'r' ∷ b't' ∷ b'e' ∷ b'd' ∷ b'-' ∷ b'v' ∷ b'e'
    ∷ b'r' ∷ b's' ∷ b'i' ∷ b'o' ∷ b'n' ∷ []
error_name truncated_field =
    b't' ∷ b'r' ∷ b'u' ∷ b'n' ∷ b'c' ∷ b'a' ∷ b't' ∷ b'e' ∷ b'd' ∷ b'-' ∷ b'f' ∷ b'i' ∷ b'e' ∷ b'l'
    ∷ b'd' ∷ []
error_name trailing_bytes =
    b't' ∷ b'r' ∷ b'a' ∷ b'i' ∷ b'l' ∷ b'i' ∷ b'n' ∷ b'g' ∷ b'-' ∷ b'b' ∷ b'y' ∷ b't' ∷ b'e' ∷ b's'
    ∷ []

-- A byte that is none of the enumerators is "UNKNOWN".
unfoldable pub type_name : PacketType → Bytes
type_name type =
    if type == hello
    then b'H' ∷ b'E' ∷ b'L' ∷ b'L' ∷ b'O' ∷ []
    else if type == register
    then b'R' ∷ b'E' ∷ b'G' ∷ b'I' ∷ b'S' ∷ b'T' ∷ b'E' ∷ b'R' ∷ []
    else if type == discover
    then b'D' ∷ b'I' ∷ b'S' ∷ b'C' ∷ b'O' ∷ b'V' ∷ b'E' ∷ b'R' ∷ []
    else if type == connect
    then b'C' ∷ b'O' ∷ b'N' ∷ b'N' ∷ b'E' ∷ b'C' ∷ b'T' ∷ []
    else if type == contact_request
    then b'C' ∷ b'O' ∷ b'N' ∷ b'T' ∷ b'A' ∷ b'C' ∷ b'T' ∷ b'_' ∷ b'R' ∷ b'E' ∷ b'Q' ∷ b'U' ∷ b'E'
      ∷ b'S' ∷ b'T' ∷ []
    else if type == contact_response
    then b'C' ∷ b'O' ∷ b'N' ∷ b'T' ∷ b'A' ∷ b'C' ∷ b'T' ∷ b'_' ∷ b'R' ∷ b'E' ∷ b'S' ∷ b'P' ∷ b'O'
      ∷ b'N' ∷ b'S' ∷ b'E' ∷ []
    else if type == message
    then b'M' ∷ b'E' ∷ b'S' ∷ b'S' ∷ b'A' ∷ b'G' ∷ b'E' ∷ []
    else if type == ack
    then b'A' ∷ b'C' ∷ b'K' ∷ []
    else if type == heartbeat
    then b'H' ∷ b'E' ∷ b'A' ∷ b'R' ∷ b'T' ∷ b'B' ∷ b'E' ∷ b'A' ∷ b'T' ∷ []
    else if type == disconnect
    then b'D' ∷ b'I' ∷ b'S' ∷ b'C' ∷ b'O' ∷ b'N' ∷ b'N' ∷ b'E' ∷ b'C' ∷ b'T' ∷ []
    else b'U' ∷ b'N' ∷ b'K' ∷ b'N' ∷ b'O' ∷ b'W' ∷ b'N' ∷ []
