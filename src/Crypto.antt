-- ===== src/Crypto.antt =====
-- libs/crypto: the wrappers over libsodium, which itself is a parameter.
pub mod Sodium
pub mod Sizes
pub mod Aead
pub mod Sign
pub mod KeyAgreement
pub mod Kdf
pub mod Identity
