-- ===== src/Crypto/Sign.antt =====
-- libs/crypto/src/sign.cpp.
use openmesh_messenger.Base.{
  ◌≡◌, Bool, true, false, not, ◌||◌, [], arith, Bytes, length, ◌==◌, if◌then◌else◌,
}
use openmesh_messenger.Crypto.Sodium.{Sodium, IsSodium}
use openmesh_messenger.Crypto.Sizes.{secret_key_bytes, signature_bytes, public_key_bytes}

module _ (na : Sodium) where
  unfoldable pub sign_detached : Bytes → Bytes → Bytes
  sign_detached message secret_key =
      if not (length secret_key == secret_key_bytes) then [] else na.sign message secret_key

  unfoldable pub verify_detached : Bytes → Bytes → Bytes → Bool
  verify_detached signature message public_key =
      if not (length signature == signature_bytes) || not (length public_key == public_key_bytes)
      then false
      else na.verify signature message public_key

module _ (na : Sodium) (laws : IsSodium na) where
  -- A signature by a generated secret key verifies under its public key.
  pub verify-sign_detached :
      (m seed : Bytes)
      → let sk = na.keypair seed in
        verify_detached na (sign_detached na m sk) m (na.sk_to_pk sk) ≡ true
  unfolding sign_detached verify_detached
  verify-sign_detached m seed = ground (
    arith,
    laws.length-keypair seed,
    laws.length-sign m (na.keypair seed),
    laws.length-sk_to_pk seed,
    laws.verify-sign m seed,
  )

  pub length-sign_detached :
      (m seed : Bytes) → length (sign_detached na m (na.keypair seed)) ≡ signature_bytes
  unfolding sign_detached
  length-sign_detached m seed =
      ground (arith, laws.length-keypair seed, laws.length-sign m (na.keypair seed))
