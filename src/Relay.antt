-- ===== src/Relay.antt =====
-- servers/relay: the optional relay server.
pub mod Router
pub mod Server
