-- ===== src/Crypto/Sodium.antt =====
-- libsodium, as far as libs/crypto calls it. The library is not part of the repository: it is a
-- parameter, and what its documentation promises is a record of hypotheses beside it.
use openmesh_messenger.Base.{◌+◌, ◌≡◌, Bool, true, Option, some, Bytes, IsBytes, length}
use openmesh_messenger.Crypto.Sizes.{
  secret_key_bytes, signature_bytes, session_key_bytes, aead_tag_bytes, public_key_bytes,
}

pub record Sodium : Type 0 where
  -- crypto_sign_keypair: the secret key that a random seed gives
  pub keypair : Bytes → Bytes
  -- crypto_sign_ed25519_sk_to_pk
  pub sk_to_pk : Bytes → Bytes
  -- crypto_sign_detached, of a message and a secret key
  pub sign : Bytes → Bytes → Bytes
  -- crypto_sign_verify_detached, of a signature, a message and a public key
  pub verify : Bytes → Bytes → Bytes → Bool
  -- crypto_aead_xchacha20poly1305_ietf_encrypt, of a key, a nonce, a plaintext and associated data
  pub aead_encrypt : Bytes → Bytes → Bytes → Bytes → Bytes
  -- crypto_aead_xchacha20poly1305_ietf_decrypt, of a key, a nonce, a ciphertext and associated data
  pub aead_decrypt : Bytes → Bytes → Bytes → Bytes → Option Bytes
  -- crypto_pwhash, of a passphrase and a salt
  pub pwhash : Bytes → Bytes → Option Bytes
  -- crypto_generichash
  pub generichash : Bytes → Bytes
  -- crypto_sign_ed25519_sk_to_curve25519 and crypto_sign_ed25519_pk_to_curve25519
  pub sk_to_curve : Bytes → Option Bytes
  pub pk_to_curve : Bytes → Option Bytes
  -- crypto_scalarmult and crypto_scalarmult_base
  pub scalarmult : Bytes → Bytes → Option Bytes
  pub scalarmult_base : Bytes → Bytes

-- What the code relies on.
pub record IsSodium (na : Sodium) : Type 0 where
  -- Keys and signatures have their fixed sizes, and are bytes.
  pub length-keypair : (seed : Bytes) → length (na.keypair seed) ≡ secret_key_bytes
  pub length-sk_to_pk : (seed : Bytes) → length (na.sk_to_pk (na.keypair seed)) ≡ public_key_bytes
  pub sk_to_pk-IsBytes : (seed : Bytes) → IsBytes (na.sk_to_pk (na.keypair seed))
  pub length-sign : (m sk : Bytes) → length (na.sign m sk) ≡ signature_bytes
  -- A signature verifies under the public key of the pair that made it.
  pub verify-sign :
      (m seed : Bytes)
      → na.verify (na.sign m (na.keypair seed)) m (na.sk_to_pk (na.keypair seed)) ≡ true
  -- A ciphertext is longer than its plaintext by the tag, and decrypts under what it was made with.
  pub length-encrypt :
      (k n m ad : Bytes) → length (na.aead_encrypt k n m ad) ≡ length m + aead_tag_bytes
  pub encrypt-IsBytes : (k n m ad : Bytes) → IsBytes m → IsBytes (na.aead_encrypt k n m ad)
  pub decrypt-encrypt :
      (k n m ad : Bytes) → na.aead_decrypt k n (na.aead_encrypt k n m ad) ad ≡ some m
  -- The Curve25519 form of a pair: the public key is the base point times the scalar.
  pub curve :
      (seed : Bytes)
      → (c : Bytes) × (na.sk_to_curve (na.keypair seed) ≡ some c)
        × (na.pk_to_curve (na.sk_to_pk (na.keypair seed)) ≡ some (na.scalarmult_base c))
  -- The Diffie-Hellman function is symmetric.
  pub scalarmult_comm :
      (a b : Bytes)
      → na.scalarmult a (na.scalarmult_base b) ≡ na.scalarmult b (na.scalarmult_base a)
  -- Hashes have the size that is asked for.
  pub length-generichash : (m : Bytes) → length (na.generichash m) ≡ session_key_bytes
