-- ===== src/Protocol/PacketType.antt =====
-- libs/protocol/include/openmesh/protocol/packet_type.hpp. The enumeration stands on
-- `std::uint8_t`, and a received byte is cast to it unchecked, so a value is any byte.
use openmesh_messenger.Base.{ℕ}

abbrev pub PacketType : Type 0
PacketType = ℕ

abbrev pub hello : PacketType
hello = 0x01

abbrev pub register : PacketType
register = 0x02

abbrev pub discover : PacketType
discover = 0x03

abbrev pub connect : PacketType
connect = 0x04

abbrev pub contact_request : PacketType
contact_request = 0x05

abbrev pub contact_response : PacketType
contact_response = 0x06

abbrev pub message : PacketType
message = 0x07

abbrev pub ack : PacketType
ack = 0x08

abbrev pub heartbeat : PacketType
heartbeat = 0x09

abbrev pub disconnect : PacketType
disconnect = 0x0a
