-- ===== src/Protocol.antt =====
-- libs/protocol: the packet envelope and its wire format.
pub mod PacketType
pub mod Packet
pub mod Wire
pub mod Names
