-- ===== src/Crypto/Kdf.antt =====
-- libs/crypto/src/kdf.cpp.
use openmesh_messenger.Base.{
  not, Option, is_empty, none, some, [], Bytes, length, ◌==◌, if◌then◌else◌,
}
use openmesh_messenger.Crypto.Sodium.{Sodium}
use openmesh_messenger.Crypto.Sizes.{kdf_salt_bytes}

module _ (na : Sodium) where
  -- Empty if the salt has the wrong size or the derivation fails.
  unfoldable pub derive_key : Bytes → Bytes → Bytes
  derive_key passphrase salt =
      if not (length salt == kdf_salt_bytes)
      then []
      else elim (na.pwhash passphrase salt) [ none ↦ [] | some key ↦ key ]

  -- The callers' test `key.empty()`.
  unfoldable pub derived : Bytes → Bytes → Option Bytes
  unfolding derive_key
  derived passphrase salt =
      let key = derive_key passphrase salt in if is_empty key then none else some key
