-- ===== src/Messaging/Engine/Decisions.antt =====
-- What `accept_contact` and `reject_contact` of libs/messaging/src/engine.cpp make of a peer.
use openmesh_messenger.Base.{
  ℕ, ◌≡◌, refl, ap, ◌∙◌, true, Option, none, some, ◌∷◌, Bytes, bytes_eq_refl, inl, inr, Bool-cases,
  is_some, [],
}
use openmesh_messenger.Base.Assoc.{find, erase}
use openmesh_messenger.Core.Hex.{to_hex}
use openmesh_messenger.Crypto.Sodium.{Sodium}
use openmesh_messenger.Messaging.Engine.{Host, change, accept_decision, reject_decision}
use openmesh_messenger.Messaging.Engine.Commands.{decided, accept_contact, reject_contact}
use openmesh_messenger.Messaging.Engine.Contacts.{set_trust, ensure_session}
use openmesh_messenger.Messaging.Engine.Effects.{set_trust-effect}
use openmesh_messenger.Messaging.Engine.Grows.{sent-Same}
use openmesh_messenger.Messaging.Session.{Session}
use openmesh_messenger.Net.Datagram.{Delivery}
use openmesh_messenger.Protocol.PacketType
use openmesh_messenger.Storage.Disk.{Disk}
use openmesh_messenger.Storage.Records.{TrustStatus, accepted, rejected}
use openmesh_messenger.Storage.Store
use openmesh_messenger.Storage.Store.{Store}

module _ (na : Sodium) (disk : Disk) (random : ℕ → Bytes) (delivers : Delivery) where
  -- A decision that was sent has set the peer's trust.
  decided-trust :
      (peer : Bytes) (t : TrustStatus) (d : ℕ) (r : Option Session × Host disk)
      → (decided na disk random delivers peer t d r).0 ≡ true
      → Store.trust_of peer (decided na disk random delivers peer t d r).1.engine.contacts ≡ some t
  unfolding decided
  decided-trust peer t d (none, h) sent = absurd (cc sent)
  decided-trust peer t d (some s, h) sent =
      let h1 : Host disk = record h {
        engine = record h.engine {
          incoming_requests = erase (to_hex peer) h.engine.incoming_requests;
        };
      } in
      let h2 =
        change na disk random delivers (λ nonce fs. Store.remove_request na disk nonce fs peer)
          h1 in
      let h3 = set_trust na disk random delivers peer t h2 in
      let same =
        (sent-Same na disk random delivers peer s PacketType.contact_response (d ∷ []) h3).0 in
      ap (Store.trust_of peer) same
      ∙ (set_trust-effect na disk random delivers peer peer t h2).0
      ∙ rw (bytes_eq_refl peer) refl

  pub accept-trust :
      (peer : Bytes) (h : Host disk)
      → (accept_contact na disk random delivers peer h).0 ≡ true
      → Store.trust_of peer (accept_contact na disk random delivers peer h).1.engine.contacts
        ≡ some accepted
  unfolding accept_contact
  accept-trust peer h ok =
      elim (Bool-cases (is_some (find (to_hex peer) h.engine.incoming_requests))) [
        | inr closed ↦ absurd (cc (rw closed at ok))
        | inl waiting ↦ rw waiting (
            decided-trust peer accepted accept_decision
              (ensure_session na disk random delivers peer h) (rw waiting at ok))
      ]

  pub reject-trust :
      (peer : Bytes) (h : Host disk)
      → (reject_contact na disk random delivers peer h).0 ≡ true
      → Store.trust_of peer (reject_contact na disk random delivers peer h).1.engine.contacts
        ≡ some rejected
  unfolding reject_contact
  reject-trust peer h ok =
      elim (Bool-cases (is_some (find (to_hex peer) h.engine.incoming_requests))) [
        | inr closed ↦ absurd (cc (rw closed at ok))
        | inl waiting ↦ rw waiting (
            decided-trust peer rejected reject_decision
              (ensure_session na disk random delivers peer h) (rw waiting at ok))
      ]
