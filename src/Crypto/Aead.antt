-- ===== src/Crypto/Aead.antt =====
-- libs/crypto/src/aead.cpp. The random nonce of `seal` is an argument.
use openmesh_messenger.Base.{
  ◌+◌, ◌≡◌, sym, ◌∙◌, ap, not, ◌||◌, Option, none, some, [], ◌++◌, arith, Bytes, IsBytes, length,
  take, drop, take-append, drop-append, length-append, All-append, ltb, inl, inr, Bool-cases, ◌==◌,
  if◌then◌else◌,
}
use openmesh_messenger.Crypto.Sodium.{Sodium, IsSodium}
use openmesh_messenger.Crypto.Sizes.{session_key_bytes, aead_nonce_bytes, aead_tag_bytes}

module _ (na : Sodium) where
  -- nonce || ciphertext || tag; empty if the key has the wrong size.
  unfoldable pub seal : Bytes → Bytes → Bytes → Bytes → Bytes
  seal nonce key plaintext aad =
      if not (length key == session_key_bytes)
      then []
      else nonce ++ na.aead_encrypt key nonce plaintext aad

  unfoldable pub open_sealed : Bytes → Bytes → Bytes → Option Bytes
  open_sealed key sealed aad =
      if not (length key == session_key_bytes)
        || ltb (length sealed) (aead_nonce_bytes + aead_tag_bytes)
      then none
      else na.aead_decrypt key (take aead_nonce_bytes sealed) (drop aead_nonce_bytes sealed) aad

module _ (na : Sodium) (laws : IsSodium na) where
  -- With libsodium as its documentation has it, under one key and the same associated data, and a
  -- key and a nonce of their sizes, `open` gives back what `seal` was given.
  pub open-seal :
      (nonce key m aad : Bytes)
      → length nonce ≡ aead_nonce_bytes
      → length key ≡ session_key_bytes
      → open_sealed na key (seal na nonce key m aad) aad ≡ some m
  unfolding seal open_sealed
  open-seal nonce key m aad n k =
      let c = na.aead_encrypt key nonce m aad in
      let front : take aead_nonce_bytes (nonce ++ c) ≡ nonce =
        ap (λ i. take i (nonce ++ c)) (sym n) ∙ take-append nonce c in
      let back : drop aead_nonce_bytes (nonce ++ c) ≡ c =
        ap (λ i. drop i (nonce ++ c)) (sym n) ∙ drop-append nonce c in
      let size : length (nonce ++ c) ≡ length m + 40 =
        omega (arith, length-append nonce c, laws.length-encrypt key nonce m aad) in
      ground (arith, front, back, size, laws.decrypt-encrypt key nonce m aad)

  pub length-seal :
      (nonce key m aad : Bytes)
      → length nonce ≡ aead_nonce_bytes
      → length key ≡ session_key_bytes
      → length (seal na nonce key m aad) ≡ length m + 40
  unfolding seal
  length-seal nonce key m aad n k = ground (
    arith,
    length-append nonce (na.aead_encrypt key nonce m aad),
    laws.length-encrypt key nonce m aad,
  )

  pub seal-IsBytes :
      (nonce key m aad : Bytes) → IsBytes nonce → IsBytes m → IsBytes (seal na nonce key m aad)
  unfolding seal
  seal-IsBytes nonce key m aad n b =
      let all =
        All-append _ nonce (na.aead_encrypt key nonce m aad) n
          (laws.encrypt-IsBytes key nonce m aad b) in
      elim (Bool-cases (length key == session_key_bytes)) [
        | inl fits ↦ rw fits all
        | inr wrong ↦ rw wrong tt
      ]
