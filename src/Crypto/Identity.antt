-- ===== src/Crypto/Identity.antt =====
-- libs/crypto/src/identity.cpp and identity.hpp. The seed of a generated pair is an argument.
use openmesh_messenger.Base.{
  not, Bool, ◌&&◌, Option, none, some, Bytes, length, ◌==◌, if◌then◌else◌,
}
use openmesh_messenger.Core.Hex.{to_hex}
use openmesh_messenger.Crypto.Sizes.{public_key_bytes, secret_key_bytes}
use openmesh_messenger.Crypto.Sodium.{Sodium}

pub record Identity : Type 0 where
  pub public_key : Bytes
  pub secret_key : Bytes

unfoldable pub valid : Identity → Bool
valid id = length id.public_key == public_key_bytes && length id.secret_key == secret_key_bytes

module _ (na : Sodium) where
  -- BLAKE2b of the public key, in hexadecimal.
  unfoldable pub fingerprint : Identity → Bytes
  unfolding to_hex
  fingerprint id = to_hex (na.generichash id.public_key)

  unfoldable pub generate_identity : Bytes → Identity
  generate_identity seed =
      let sk = na.keypair seed in record { public_key = na.sk_to_pk sk; secret_key = sk }

  unfoldable pub identity_from_secret : Bytes → Option Identity
  identity_from_secret secret_key =
      if not (length secret_key == secret_key_bytes)
      then none
      else some (record { public_key = na.sk_to_pk secret_key; secret_key = secret_key })
