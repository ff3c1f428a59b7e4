-- ===== src/Protocol/Packet.antt =====
-- libs/protocol/include/openmesh/protocol/packet.hpp: the envelope and its constants.
use Prim.Native.Nat.{bit_and}
use openmesh_messenger.Base.{
  ℕ, ◌+◌, ◌*◌, ◌^◌, ◌<◌, ◌≡◌, [], Bool, not, ◌==◌, Bytes, IsBytes, length,
}
use openmesh_messenger.Protocol.PacketType.{PacketType}
use openmesh_messenger.Protocol.PacketType

-- "OM".
abbrev pub magic : ℕ
magic = 0x4f4d

abbrev pub protocol_version : ℕ
protocol_version = 1

-- magic, version, type, flags and counter.
abbrev pub header_size : ℕ
header_size = 13

abbrev pub min_packet_size : ℕ
min_packet_size = header_size + 3 * 2

abbrev pub flag_none : ℕ
flag_none = 0x00

abbrev pub flag_encrypted : ℕ
flag_encrypted = 0x01

pub record Packet : Type 0 where
  pub version : ℕ
  pub type : PacketType
  pub flags : ℕ
  pub counter : ℕ
  pub source : Bytes
  pub destination : Bytes
  pub payload : Bytes

-- `Packet{}`: the default member initialisers.
abbrev pub blank : Packet
blank = record {
  version = protocol_version;
  type = PacketType.hello;
  flags = flag_none;
  counter = 0;
  source = [];
  destination = [];
  payload = [];
}

unfoldable pub has_flag : Packet → ℕ → Bool
has_flag p f = not (bit_and p.flags f == 0)

unfoldable pub encrypted : Packet → Bool
unfolding has_flag
encrypted p = has_flag p flag_encrypted

-- A packet that the wire format can carry: its numbers lie in their C++ types, it has this
-- version, and each variable field fits the u16 length prefix.
pub record IsWire (p : Packet) : Type 0 where
  pub version_ok : p.version ≡ protocol_version
  pub type_byte : p.type < 256
  pub flags_byte : p.flags < 256
  pub counter_u64 : p.counter < 2 ^ 64
  pub source_fits : length p.source < 2 ^ 16
  pub destination_fits : length p.destination < 2 ^ 16
  pub payload_fits : length p.payload < 2 ^ 16
  pub source_bytes : IsBytes p.source
  pub destination_bytes : IsBytes p.destination
  pub payload_bytes : IsBytes p.payload
