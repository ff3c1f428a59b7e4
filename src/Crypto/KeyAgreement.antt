-- ===== src/Crypto/KeyAgreement.antt =====
-- libs/crypto/src/key_agreement.cpp.
use openmesh_messenger.Base.{
  ◌>>=◌, ◌≡◌, refl, Bool, true, false, not, ◌||◌, Option, none, some, [], ◌∷◌, ◌++◌, arith, Bytes,
  length, ltb, ◌==◌, if◌then◌else◌,
}
use openmesh_messenger.Crypto.Sodium.{Sodium, IsSodium}
use openmesh_messenger.Crypto.Sizes.{secret_key_bytes, public_key_bytes, session_key_bytes}

-- `std::memcmp(a, b, n) > 0`, for two arrays of one size.
memcmp_gt : Bytes → Bytes → Bool
memcmp_gt [] ys = false
memcmp_gt (x ∷ xs) [] = true
memcmp_gt (x ∷ xs) (y ∷ ys) = if x == y then memcmp_gt xs ys else ltb y x

-- The two Curve25519 public keys in their canonical order, one behind the other.
sorted_keys : Bytes → Bytes → Bytes
sorted_keys mine theirs = if memcmp_gt mine theirs then theirs ++ mine else mine ++ theirs

module _ (na : Sodium) where
  unfoldable pub agree_shared_key : Bytes → Bytes → Option Bytes
  unfolding sorted_keys memcmp_gt
  agree_shared_key my_secret_key their_public_key =
      if not (length my_secret_key == secret_key_bytes)
        || not (length their_public_key == public_key_bytes)
      then none
      else (do
        my_curve_sk ← na.sk_to_curve my_secret_key
        my_curve_pk ← na.pk_to_curve (na.sk_to_pk my_secret_key)
        their_curve_pk ← na.pk_to_curve their_public_key
        dh ← na.scalarmult my_curve_sk their_curve_pk
        some (na.generichash (dh ++ sorted_keys my_curve_pk their_curve_pk)))

memcmp_antisym : (a b : Bytes) → memcmp_gt a b ≡ false → memcmp_gt b a ≡ false → a ≡ b
unfolding memcmp_gt
memcmp_antisym [] [] p q = refl
memcmp_antisym [] (y ∷ b) p q = cc
memcmp_antisym (x ∷ a) [] p q = cc
memcmp_antisym (x ∷ a) (y ∷ b) p q = ground (arith, memcmp_antisym a b)

memcmp_asym : (a b : Bytes) → memcmp_gt a b ≡ true → memcmp_gt b a ≡ false
unfolding memcmp_gt
memcmp_asym [] b p = cc
memcmp_asym (x ∷ a) [] p = refl
memcmp_asym (x ∷ a) (y ∷ b) p = ground (arith, memcmp_asym a b)

-- The canonical order does not depend on who is asking.
sorted_keys_comm : (a b : Bytes) → sorted_keys a b ≡ sorted_keys b a
unfolding sorted_keys
sorted_keys_comm a b = ground (arith, memcmp_antisym a b, memcmp_asym a b, memcmp_asym b a)

module _ (na : Sodium) (laws : IsSodium na) where
  agree_at :
      (s t c d : Bytes)
      → na.sk_to_curve (na.keypair s) ≡ some c
      → na.pk_to_curve (na.sk_to_pk (na.keypair s)) ≡ some (na.scalarmult_base c)
      → na.pk_to_curve (na.sk_to_pk (na.keypair t)) ≡ some (na.scalarmult_base d)
      → agree_shared_key na (na.keypair s) (na.sk_to_pk (na.keypair t)) ≡ (
          na.scalarmult c (na.scalarmult_base d) >>= λ dh.
          some (na.generichash (dh ++ sorted_keys (na.scalarmult_base c) (na.scalarmult_base d))))
  unfolding agree_shared_key
  agree_at s t c d e f g = rw (laws.length-keypair s, laws.length-sk_to_pk t, e, f, g) refl

  -- With libsodium as its documentation has it, two generated identities derive one and the same
  -- answer, a shared key or a failure, each from its own secret key and the public key of the
  -- other.
  pub agree_shared_key_comm :
      (s t : Bytes)
      → agree_shared_key na (na.keypair s) (na.sk_to_pk (na.keypair t))
        ≡ agree_shared_key na (na.keypair t) (na.sk_to_pk (na.keypair s))
  agree_shared_key_comm s t =
      let (c, sc, pc) = laws.curve s in
      let (d, sd, pd) = laws.curve t in
      rw (
        agree_at s t c d sc pc pd,
        agree_at t s d c sd pd pc,
        laws.scalarmult_comm c d,
        sorted_keys_comm (na.scalarmult_base c) (na.scalarmult_base d),
      )

  pub length-agree_shared_key :
      (sk pk key : Bytes) → agree_shared_key na sk pk ≡ some key → length key ≡ session_key_bytes
  unfolding agree_shared_key
  length-agree_shared_key sk pk key e = grind (arith, laws.length-generichash)
