-- ===== src/Messaging.antt =====
-- libs/messaging: sessions and the messaging engine.
pub mod Session
pub mod Engine
