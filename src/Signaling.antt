-- ===== src/Signaling.antt =====
-- servers/signaling: the volunteer signaling server.
pub mod Registry
pub mod Server
pub mod Registration
