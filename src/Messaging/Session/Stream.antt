-- ===== src/Messaging/Session/Stream.antt =====
-- A run of messages over a session, of which any may be lost on the way, and one message as a
-- datagram.
use openmesh_messenger.Base.{
  ℕ, ◌+◌, ◌^◌, ◌<◌, ◌≡◌, refl, ap, ◌∙◌, Bool, true, Option, some, List, [], ◌∷◌, arith, Bytes,
  IsBytes, All, length, if◌then◌else◌, inl, inr, Bool-cases,
}
use openmesh_messenger.Crypto.Sodium.{Sodium, IsSodium}
use openmesh_messenger.Crypto.Sizes.{aead_nonce_bytes}
use openmesh_messenger.Crypto.Aead.{length-seal, seal-IsBytes}
use openmesh_messenger.Protocol.Packet.{Packet, IsWire}
use openmesh_messenger.Protocol.PacketType.{PacketType}
use openmesh_messenger.Protocol.Wire.{associated_data, parse, serialize, ok}
use openmesh_messenger.Protocol.Wire.RoundTrip.{parse-serialize}
use openmesh_messenger.Messaging.Session.Replay.{received_at, Above, receive_all}
use openmesh_messenger.Messaging.Session.Transfer.{
  Paired, sealed, encrypt_as-sealed, encrypt_as-counter, decrypt-encrypt_as,
}
use openmesh_messenger.Messaging.Session.{Session, envelope, advance, encrypt_as, is_fresh, decrypt}

-- One message: its type and text, the nonce that was drawn for it, and whether its datagram is lost.
pub record Sending : Type 0 where
  pub type : PacketType
  pub text : Bytes
  pub nonce : Bytes
  pub lost : Bool

module _ (na : Sodium) where
  -- The packets that arrive.
  unfoldable pub arriving : Session → List Sending → List Packet
  arriving a [] = []
  arriving a (x ∷ xs) =
      let (p, a') = encrypt_as na x.nonce a x.type x.text in
      let rest = arriving a' xs in if x.lost then rest else p ∷ rest

-- The messages that were not lost, with the counters that they were sent under.
unfoldable pub surviving : ℕ → List Sending → List (ℕ × Bytes)
surviving n [] = []
surviving n (x ∷ xs) =
    let rest = surviving (n + 1) xs in if x.lost then rest else (n, x.text) ∷ rest

Paired-advance : (a b : Session) → Paired a b → Paired (advance a) b
unfolding advance
Paired-advance a b p = ground arith

Paired-received : (a b : Session) (n : ℕ) → Paired a b → Paired a (received_at b n)
Paired-received a b n p = ground arith

counter-advance :
    (a : Session) → a.send_counter + 1 < 2 ^ 64 → (advance a).send_counter ≡ a.send_counter + 1
unfolding advance
counter-advance a h = omega arith

fresh : (b : Session) (n : ℕ) → Above b n → is_fresh b n ≡ true
unfolding is_fresh
fresh b n h = ground (arith, h)

module _ (na : Sodium) (laws : IsSodium na) where
  -- Between the two ends of one session, with libsodium as its documentation has it and nonces of
  -- its size: however many messages are lost on the way, the receiving end accepts the others, each
  -- once and in the order in which they were sent. This holds while the counters stay below 2 ^ 64
  -- and start above what it has accepted.
  pub surviving_messages_arrive :
      (a b : Session) (xs : List Sending)
      → Paired a b
      → All (λ (x : Sending). length x.nonce ≡ aead_nonce_bytes) xs
      → Above b a.send_counter
      → a.send_counter + length xs < 2 ^ 64
      → receive_all na b (arriving na a xs) ≡ surviving a.send_counter xs
  unfolding arriving surviving receive_all
  surviving_messages_arrive a b [] p n u c = refl
  surviving_messages_arrive a b (x ∷ xs) p n u c =
      let next = counter-advance a (omega arith) in
      let (taken, moved) = encrypt_as-counter na laws a x.type x.nonce x.text in
      let text =
        decrypt-encrypt_as na laws a b x.type x.nonce x.text p n.0 (fresh b a.send_counter u) in
      elim (Bool-cases x.lost) [
        | inl lost ↦
            rw (lost, moved)
              (surviving_messages_arrive (advance a) b xs (Paired-advance a b p) n.1
                  (λ r. omega (arith, u r, next)) (omega (arith, next))
                ∙ ap (λ k. surviving k xs) next)
        | inr kept ↦
            let b' = received_at b a.send_counter in
            rw (kept, text, taken, moved)
              (ap (λ (rest : List (ℕ × Bytes)). (a.send_counter, x.text) ∷ rest)
                (surviving_messages_arrive (advance a) b' xs
                    (Paired-advance a b' (Paired-received a b a.send_counter p)) n.1
                    (λ r. omega (arith, next)) (omega (arith, next))
                  ∙ ap (λ k. surviving k xs) next))
      ]

  -- With libsodium as its documentation has it, from one end of a session to the other: the
  -- datagram that `serialize` makes of the packet of a message parses, and what comes out decrypts
  -- to the message. The message has at most 65,495 bytes, the two keys fit their fields, the nonce
  -- has its size, and the counter is above what the other end has accepted.
  pub datagram_arrives :
      (a b : Session) (type : PacketType) (nonce m : Bytes) (out : Packet)
      → Paired a b
      → length nonce ≡ aead_nonce_bytes
      → is_fresh b a.send_counter ≡ true
      → type < 256
      → a.send_counter < 2 ^ 64
      → length a.local_public < 2 ^ 16
      → length a.remote_public < 2 ^ 16
      → length m + 40 < 2 ^ 16
      → IsBytes a.local_public
      → IsBytes a.remote_public
      → IsBytes nonce
      → IsBytes m
      → let (e, p) = parse (serialize (encrypt_as na nonce a type m).0) out in
        (e ≡ ok) × ((decrypt na b p).0 ≡ some m)
  unfolding sealed envelope
  datagram_arrives a b type nonce m out p n f t c ls rs ms lb rb nb mb =
      let packet = sealed na laws a type nonce m in
      let same = encrypt_as-sealed na laws a type nonce m p.valid_a in
      let w : IsWire packet = record {
        version_ok = refl;
        type_byte = t;
        flags_byte = omega arith;
        counter_u64 = c;
        source_fits = ls;
        destination_fits = rs;
        payload_fits = omega (
          arith,
          length-seal na laws nonce a.shared_key m (associated_data (envelope a type)) n
              p.key_sized,
        );
        source_bytes = lb;
        destination_bytes = rb;
        payload_bytes =
            seal-IsBytes na laws nonce a.shared_key m (associated_data (envelope a type)) nb mb;
      } in
      let got = parse-serialize packet out w in
      let read = decrypt-encrypt_as na laws a b type nonce m p n f in
      rw same (rw got (refl, ap (λ (r : Option Bytes × Session). r.0) (rw same at read)))
