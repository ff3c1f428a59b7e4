-- ===== src/Messaging/Session/Transfer.antt =====
-- From one end of a session to the other.
use openmesh_messenger.Base.{
  ◌≡◌, refl, sym, ap, ◌∙◌, ◌⊎◌, true, false, some, arith, Bytes, length, bytes_eq_iff, Option-cases,
  inl, inr,
}
use openmesh_messenger.Crypto.Sodium.{Sodium, IsSodium}
use openmesh_messenger.Crypto.Sizes.{session_key_bytes, aead_nonce_bytes}
use openmesh_messenger.Crypto.Aead.{seal, open_sealed, open-seal}
use openmesh_messenger.Crypto.KeyAgreement.{
  agree_shared_key, agree_shared_key_comm, length-agree_shared_key,
}
use openmesh_messenger.Protocol.Packet.{Packet, encrypted}
use openmesh_messenger.Protocol.PacketType.{PacketType}
use openmesh_messenger.Protocol.Wire.{associated_data, header_and_routing}
use openmesh_messenger.Messaging.Session.Replay.{received_at, decrypt-passes}
use openmesh_messenger.Messaging.Session.{
  Session, session, envelope, advance, encrypt_as, is_fresh, is_for_us, decrypt,
}

-- Two ends of one session.
pub record Paired (a b : Session) : Type 0 where
  pub valid_a : a.valid ≡ true
  pub valid_b : b.valid ≡ true
  pub key : a.shared_key ≡ b.shared_key
  pub key_sized : length a.shared_key ≡ session_key_bytes
  pub there : a.remote_public ≡ b.local_public
  pub back : b.remote_public ≡ a.local_public

module _ (na : Sodium) (laws : IsSodium na) where
  -- With libsodium as its documentation has it, two generated identities that each open a session
  -- with the public key of the other either both have no valid session, or hold the two ends of
  -- one.
  pub sessions_pair :
      (s t : Bytes)
      → let pk = na.sk_to_pk (na.keypair s) in
        let pk' = na.sk_to_pk (na.keypair t) in
        let a = session na pk (na.keypair s) pk' in
        let b = session na pk' (na.keypair t) pk in
        ((a.valid ≡ false) × (b.valid ≡ false)) ⊎ Paired a b
  unfolding session
  sessions_pair s t =
      let pk = na.sk_to_pk (na.keypair s) in
      let pk' = na.sk_to_pk (na.keypair t) in
      let same = agree_shared_key_comm na laws s t in
      elim (Option-cases (agree_shared_key na (na.keypair s) pk')) [
        | inl gone ↦ inl (ground (arith, gone, same))
        | inr (key, e) ↦
            let sized = length-agree_shared_key na laws (na.keypair s) pk' key e in
            inr (record {
              valid_a = ground (arith, e);
              valid_b = ground (arith, e, same);
              key = ground (arith, e, same);
              key_sized = ground (arith, e, sized);
              there = ground (arith, e, same);
              back = ground (arith, e, same);
            })
      ]

  -- The packet that a valid session makes.
  unfoldable pub sealed : Session → PacketType → Bytes → Bytes → Packet
  sealed a type nonce m = record (envelope a type) {
    payload = seal na nonce a.shared_key m (associated_data (envelope a type));
  }

  pub encrypt_as-sealed :
      (a : Session) (type : PacketType) (nonce m : Bytes)
      → a.valid ≡ true
      → encrypt_as na nonce a type m ≡ (sealed a type nonce m, advance a)
  unfolding encrypt_as sealed
  encrypt_as-sealed a type nonce m v = ground (arith, v)

  -- Whether or not the session is valid, `encrypt_as` takes the next counter.
  pub encrypt_as-counter :
      (a : Session) (type : PacketType) (nonce m : Bytes)
      → ((encrypt_as na nonce a type m).0.counter ≡ a.send_counter)
        × ((encrypt_as na nonce a type m).1 ≡ advance a)
  unfolding encrypt_as envelope
  encrypt_as-counter a type nonce m = ground arith

  sealed-opens :
      (a b : Session) (type : PacketType) (nonce m : Bytes)
      → Paired a b
      → length nonce ≡ aead_nonce_bytes
      → open_sealed na b.shared_key
          (sealed a type nonce m).payload
          (associated_data (sealed a type nonce m))
        ≡ some m
  unfolding sealed associated_data header_and_routing
  sealed-opens a b type nonce m p n =
      ap
        (λ (key : Bytes).
          open_sealed na key (seal na nonce a.shared_key m (associated_data (envelope a type)))
            (associated_data (envelope a type)))
        (sym p.key)
      ∙ open-seal na laws nonce a.shared_key m (associated_data (envelope a type)) n p.key_sized

  sealed-is_for_us :
      (a b : Session) (type : PacketType) (nonce m : Bytes)
      → Paired a b
      → is_for_us b (sealed a type nonce m) ≡ true
  unfolding sealed envelope is_for_us
  sealed-is_for_us a b type nonce m p = ground (
    arith,
    p.there,
    p.back,
    bytes_eq_iff a.local_public b.remote_public,
    bytes_eq_iff a.remote_public b.local_public,
  )

  sealed-encrypted :
      (a : Session) (type : PacketType) (nonce m : Bytes) → encrypted (sealed a type nonce m) ≡ true
  unfolding sealed envelope encrypted
  sealed-encrypted a type nonce m = refl

  -- With libsodium as its documentation has it: a packet that one end of a session encrypts under a
  -- nonce of the right size, the other end decrypts to the plaintext, provided the counter is above
  -- what it has accepted; that counter is then its last.
  pub decrypt-encrypt_as :
      (a b : Session) (type : PacketType) (nonce m : Bytes)
      → Paired a b
      → length nonce ≡ aead_nonce_bytes
      → is_fresh b a.send_counter ≡ true
      → decrypt na b (encrypt_as na nonce a type m).0 ≡ (some m, received_at b a.send_counter)
  unfolding sealed envelope
  decrypt-encrypt_as a b type nonce m p n fresh = rw (encrypt_as-sealed a type nonce m p.valid_a) (
      decrypt-passes na b (sealed a type nonce m) m p.valid_b (sealed-encrypted a type nonce m)
        (sealed-is_for_us a b type nonce m p) fresh (sealed-opens a b type nonce m p n))
