-- ===== src/Messaging/Engine/Gate.antt =====
-- Who becomes a contact, and whose messages are kept.
use openmesh_messenger.Base.{
  ℕ, ◌≡◌, refl, ap, ◌⊎◌, inl, inr, Bool, true, false, not, ◌&&◌, Option, none, some, [], ◌∷◌, ◌++◌,
  arith, Bytes, bytes_eq, is_empty, is_some, ◌==◌, Bool-cases,
}
use openmesh_messenger.Base.Assoc.{find}
use openmesh_messenger.Base.Int.{ℤ}
use openmesh_messenger.Core.Hex.{to_hex}
use openmesh_messenger.Crypto.Sodium.{Sodium}
use openmesh_messenger.Messaging.Engine.{Host, is_accepted, set_session}
use openmesh_messenger.Messaging.Engine.Contacts.{ensure_session, session_or_new}
use openmesh_messenger.Messaging.Engine.Paths.{handle_probe, handle_connect, probe_advertised}
use openmesh_messenger.Messaging.Engine.Poll.{
  track, dispatch, decrypted, with_session, handle_packet, poll,
}
use openmesh_messenger.Messaging.Session.{Session, decrypt}
use openmesh_messenger.Net.Datagram.{Delivery, Datagram}
use openmesh_messenger.Net.Endpoint.{Endpoint, parse_endpoint}
use openmesh_messenger.Protocol.Packet.{Packet, blank}
use openmesh_messenger.Protocol.PacketType
use openmesh_messenger.Protocol.Wire.{deserialize}
use openmesh_messenger.Storage.Disk.{Disk}
use openmesh_messenger.Storage.Store
use openmesh_messenger.Storage.Store.{Store}
use openmesh_messenger.Messaging.Engine.Carried.{
  Same, handle_probe-Same, advertised-Same, track-Same, session-Same,
}
use openmesh_messenger.Messaging.Engine.Effects.{
  Asked, request-effect, response-effect, message-effect,
}

module _ (na : Sodium) (disk : Disk) (random : ℕ → Bytes) (delivers : Delivery) where
  -- What one packet may do: who is accepted, and which message joins the history.
  abbrev pub Allowed : Bytes → Packet → ℤ → Host disk → Host disk → Type 0
  Allowed k packet now h h' =
      Asked na disk random delivers k h h'
      × ((h'.engine.contacts.messages ≡ h.engine.contacts.messages)
          ⊎ ((text : Bytes) × (is_accepted (Store.trust_of packet.source h.engine.contacts) ≡ true)
              × (h'.engine.contacts.messages
                  ≡ h.engine.contacts.messages
                    ++ (record {
                      peer = packet.source;
                      text = text;
                      outgoing = false;
                      timestamp = now;
                    }
                        ∷ []))))

  Same-Allowed :
      (k : Bytes) (packet : Packet) (now : ℤ) (h h1 h' : Host disk)
      → Same na disk random delivers h h1
      → Allowed k packet now h1 h'
      → Allowed k packet now h h'
  Same-Allowed k packet now h h1 h' p a = rw (p.0, p.1) at a

  unchanged :
      (k : Bytes) (packet : Packet) (now : ℤ) (h h' : Host disk)
      → Same na disk random delivers h h'
      → Allowed k packet now h h'
  unchanged k packet now h h' p =
      ((λ acc. inl (rw p.0 at acc)), inl (ap (λ (s : Store). s.messages) p.0))

  dispatch-Allowed :
      (k : Bytes) (packet : Packet) (text : Bytes) (now : ℤ) (h : Host disk)
      → (packet.type ≡ PacketType.message
          → is_accepted (Store.trust_of packet.source h.engine.contacts) ≡ true)
      → Allowed k packet now h (dispatch na disk random delivers packet text now h).1
  unfolding dispatch
  dispatch-Allowed k packet text now h gate =
      elim (Bool-cases (packet.type == PacketType.message)) [
        | inl is ↦
            let (a, m) = message-effect na disk random delivers packet.source text k now h in
            rw is (a, inr (text, gate (ground (arith, is)), m))
        | inr is_not ↦ elim (Bool-cases (packet.type == PacketType.contact_request)) [
          | inl asks ↦
              let (a, m) = request-effect na disk random delivers packet.source text k now h in
              rw (is_not, asks) (a, inl m)
          | inr asks_not ↦ elim (Bool-cases (packet.type == PacketType.contact_response)) [
            | inl answers ↦
                let (a, m) = response-effect na disk random delivers packet.source text k h in
                rw (is_not, asks_not, answers) (a, inl m)
            | inr answers_not ↦
                rw (is_not, asks_not, answers_not) (unchanged k packet now h h (refl, refl))
          ]
        ]
      ]

  decrypted-Allowed :
      (k : Bytes) (packet : Packet) (from : Endpoint) (now : ℤ) (h : Host disk)
      (r : Option Bytes × Session)
      → (packet.type ≡ PacketType.message
          → is_accepted (Store.trust_of packet.source h.engine.contacts) ≡ true)
      → Allowed k packet now h (decrypted na disk random delivers packet from now h r).1
  unfolding decrypted set_session
  decrypted-Allowed k packet from now h (none, s) gate =
      unchanged k packet now h (set_session na disk random delivers (to_hex packet.source) s h)
        (refl, refl)
  decrypted-Allowed k packet from now h (some text, s) gate =
      let h1 = set_session na disk random delivers (to_hex packet.source) s h in
      let h2 = track na disk random delivers packet.source from h1 in
      let same = track-Same na disk random delivers packet.source from h1 in
      Same-Allowed k packet now h h2 (dispatch na disk random delivers packet text now h2).1 same
        (dispatch-Allowed k packet text now h2 (λ t. rw same.0 (gate t)))

  with_session-Allowed :
      (k : Bytes) (packet : Packet) (from : Endpoint) (now : ℤ) (h : Host disk)
      (r : Option Session × Host disk)
      → Same na disk random delivers h r.1
      → (packet.type ≡ PacketType.message
          → is_accepted (Store.trust_of packet.source h.engine.contacts) ≡ true)
      → Allowed k packet now h (with_session na disk random delivers packet from now r).1
  unfolding with_session
  with_session-Allowed k packet from now h (none, h1) same gate = unchanged k packet now h h1 same
  with_session-Allowed k packet from now h (some s, h1) same gate =
      Same-Allowed k packet now h h1
        (decrypted na disk random delivers packet from now h1 (decrypt na s packet)).1 same
        (decrypted-Allowed k packet from now h1 (decrypt na s packet) (λ t. rw same.0 (gate t)))

  packet-Allowed :
      (k : Bytes) (from : Endpoint) (now clock : ℤ) (h : Host disk) (q : Bool × Packet)
      → Allowed k q.1 now h (handle_packet na disk random delivers from now clock h q).1
  unfolding handle_packet handle_connect ensure_session
  packet-Allowed k from now clock h (false, packet) = unchanged k packet now h h (refl, refl)
  packet-Allowed k from now clock h (true, packet) =
      let o = find (to_hex packet.source) h.engine.sessions in
      let trusted = is_accepted (Store.trust_of packet.source h.engine.contacts) in
      elim (Bool-cases (packet.type == PacketType.hello)) [
        | inl hello ↦
            elim (Bool-cases
              (bytes_eq packet.destination h.engine.local_public && not (is_empty packet.source))) [
                | inl ours ↦
                    rw (hello, ours)
                      (unchanged k packet now h
                        (handle_probe na disk random delivers packet.source from h)
                        (handle_probe-Same na disk random delivers packet.source from h))
                | inr not_ours ↦ rw (hello, not_ours) (unchanged k packet now h h (refl, refl))
              ]
        | inr other ↦ elim (Bool-cases (packet.type == PacketType.connect)) [
          | inl connects ↦
              let e = parse_endpoint packet.payload in
              rw (other, connects)
                (unchanged k packet now h
                  (probe_advertised na disk random delivers packet.source e clock h)
                  (advertised-Same na disk random delivers packet.source e clock h))
          | inr neither ↦ elim (Bool-cases (packet.type == PacketType.message && not trusted)) [
            | inl spam ↦ rw (other, neither, spam) (unchanged k packet now h h (refl, refl))
            | inr fine ↦
                rw (other, neither, fine)
                  (with_session-Allowed k packet from now h
                    (session_or_new na disk random delivers o packet.source h)
                    (session-Same na disk random delivers o packet.source h)
                    (λ t. ground (arith, fine, t)))
          ]
        ]
      ]

  poll-Allowed :
      (k : Bytes) (dg : Datagram) (now clock : ℤ) (h : Host disk)
      → Allowed k
          (deserialize dg.content blank).1
          now
          h
          (poll na disk random delivers (some dg) now clock h).1
  unfolding poll
  poll-Allowed k dg now clock h =
      packet-Allowed k dg.from now clock h (deserialize dg.content blank)

  -- Whatever datagram an engine polls, a peer is an accepted contact afterwards only if it was one
  -- before, or if this engine had an open contact request to it.
  pub contact_only_if_asked :
      (dg : Datagram) (now clock : ℤ) (h : Host disk) (k : Bytes)
      → is_accepted
          (Store.trust_of k (poll na disk random delivers (some dg) now clock h).1.engine.contacts)
        ≡ true
      → (is_accepted (Store.trust_of k h.engine.contacts) ≡ true)
        ⊎ (is_some (find (to_hex k) h.engine.outgoing_requests) ≡ true)
  contact_only_if_asked dg now clock h k = (poll-Allowed k dg now clock h).0

  -- Whatever datagram an engine polls, its message history stays as it was, or grows at its end by
  -- one received message of the source that the packet names, which then was an accepted contact.
  pub received_only_from_contacts :
      (dg : Datagram) (now clock : ℤ) (h : Host disk)
      → let p = (deserialize dg.content blank).1 in
        let messages =
          (poll na disk random delivers (some dg) now clock h).1.engine.contacts.messages in
        (messages ≡ h.engine.contacts.messages)
        ⊎ ((text : Bytes) × (is_accepted (Store.trust_of p.source h.engine.contacts) ≡ true)
            × (messages
                ≡ h.engine.contacts.messages
                  ++ (record { peer = p.source; text = text; outgoing = false; timestamp = now }
                      ∷ [])))
  received_only_from_contacts dg now clock h = (poll-Allowed [] dg now clock h).1
