-- ===== src/Net.antt =====
-- libs/net: endpoints and their text form.
pub mod Endpoint
pub mod Datagram
pub mod Posix
pub mod Transport
pub mod UdpSocket
pub mod SignalingClient
