-- ===== src/Core.antt =====
-- libs/core: the helpers that every other component uses.
pub mod Hex
