-- ===== src/Messaging/Engine/Commands.antt =====
-- What the application calls on an `Engine`: libs/messaging/src/engine.cpp.
use openmesh_messenger.Base.{
  ℕ, suc, Bool, true, false, not, Option, none, some, List, [], ◌∷◌, Bytes, is_some, if◌then◌else◌,
}
use openmesh_messenger.Base.Assoc.{Assoc, find, insert_or_assign, erase}
use openmesh_messenger.Base.Int.{ℤ}
use openmesh_messenger.Core.Hex.{to_hex}
use openmesh_messenger.Crypto.Sodium.{Sodium}
use openmesh_messenger.Messaging.Engine.{
  Host, accept_decision, reject_decision, is_accepted, destination_of, transmit, change,
  set_endpoint, set_session,
}
use openmesh_messenger.Messaging.Engine.Contacts.{ensure_session, set_trust}
use openmesh_messenger.Messaging.Session.{Session, encrypt_as}
use openmesh_messenger.Net.Datagram.{Delivery}
use openmesh_messenger.Net.Endpoint.{Endpoint}
use openmesh_messenger.Protocol.Packet.{Packet}
use openmesh_messenger.Protocol.PacketType
use openmesh_messenger.Protocol.PacketType.{PacketType}
use openmesh_messenger.Storage.Disk.{Disk}
use openmesh_messenger.Storage.Records.{TrustStatus, pending, accepted, rejected, Request}
use openmesh_messenger.Storage.Store
use openmesh_messenger.Storage.Store.{Store}

-- The requests of a store that was opened, made known again.
unfoldable pub resurface : List Request → Assoc (Unit {0}) → Assoc (Unit {0})
resurface [] incoming = incoming
resurface (q ∷ requests) incoming =
    resurface requests (insert_or_assign (to_hex q.peer) tt incoming)

module _ (na : Sodium) (disk : Disk) (random : ℕ → Bytes) (delivers : Delivery) where
  unfoldable pub opened_store : Host disk → Bool × Store × disk.State → Bool × Host disk
  unfolding resurface
  opened_store h (false, s, fs) = (
    false,
    record h { engine = record h.engine { contacts = s }; fs = fs; drawn = suc (suc h.drawn) },
  )
  opened_store h (true, s, fs) = (
    true,
    record h {
      engine = record h.engine {
        contacts = s;
        incoming_requests = resurface s.requests h.engine.incoming_requests;
      };
      fs = fs;
      drawn = suc (suc h.drawn);
    },
  )

  -- `salt` is what `generate_salt` draws.
  unfoldable pub open_store : Bytes → Bytes → Bytes → Host disk → Bool × Host disk
  unfolding opened_store
  open_store salt path passphrase h =
      opened_store h
        (Store.open_store na disk salt (random h.drawn) h.fs path passphrase h.engine.contacts)

  unfoldable pub send_to_known : Option Endpoint → Packet → Host disk → Bool × Host disk
  send_to_known none packet h = (false, h)
  send_to_known (some to) packet h = transmit na disk random delivers to packet h

  unfoldable pub send_packet : Bytes → Packet → Host disk → Bool × Host disk
  unfolding send_to_known
  send_packet key packet h =
      send_to_known (destination_of (find key h.engine.endpoints) h.engine.relay) packet h

  -- `session->encrypt_as(type, plaintext)` under the next nonce, and `send_packet`.
  unfoldable pub encrypt_and_send :
      Bytes → Session → PacketType → Bytes → Host disk → Bool × Host disk
  unfolding send_packet
  encrypt_and_send peer s type plaintext h =
      let (packet, s') = encrypt_as na (random h.drawn) s type plaintext in
      send_packet (to_hex peer) packet
        (set_session na disk random delivers (to_hex peer) s' (record h { drawn = suc h.drawn }))

  unfoldable pub added_peer : Bytes → Endpoint → Option Session × Host disk → Bool × Host disk
  added_peer peer e (none, h) = (false, h)
  added_peer peer e (some s, h) = (
    true,
    set_trust na disk random delivers peer accepted
        (set_endpoint na disk random delivers (to_hex peer) e h),
  )

  unfoldable pub add_peer : Bytes → Endpoint → Host disk → Bool × Host disk
  unfolding added_peer
  add_peer peer e h = added_peer peer e (ensure_session na disk random delivers peer h)

  unfoldable pub requested :
      Bytes → Endpoint → Bytes → Option Session × Host disk → Bool × Host disk
  unfolding encrypt_and_send
  requested peer e greeting (none, h) = (false, h)
  requested peer e greeting (some s, h) =
      let h1 = set_endpoint na disk random delivers (to_hex peer) e h in
      let h2 = record h1 {
        engine = record h1.engine {
          outgoing_requests = insert_or_assign (to_hex peer) tt h1.engine.outgoing_requests;
        };
      } in
      encrypt_and_send peer s PacketType.contact_request greeting
        (set_trust na disk random delivers peer pending h2)

  unfoldable pub send_contact_request : Bytes → Endpoint → Bytes → Host disk → Bool × Host disk
  unfolding requested
  send_contact_request peer e greeting h =
      if is_accepted (Store.trust_of peer h.engine.contacts)
      then (false, h)
      else requested peer e greeting (ensure_session na disk random delivers peer h)

  -- The common body of `accept_contact` and `reject_contact`, behind `ensure_session`.
  unfoldable pub decided : Bytes → TrustStatus → ℕ → Option Session × Host disk → Bool × Host disk
  unfolding encrypt_and_send
  decided peer trust decision (none, h) = (false, h)
  decided peer trust decision (some s, h) =
      let h1 = record h {
        engine = record h.engine {
          incoming_requests = erase (to_hex peer) h.engine.incoming_requests;
        };
      } in
      let h2 =
        change na disk random delivers (λ nonce fs. Store.remove_request na disk nonce fs peer)
          h1 in
      encrypt_and_send peer s PacketType.contact_response (decision ∷ [])
        (set_trust na disk random delivers peer trust h2)

  unfoldable pub accept_contact : Bytes → Host disk → Bool × Host disk
  unfolding decided
  accept_contact peer h =
      if not (is_some (find (to_hex peer) h.engine.incoming_requests))
      then (false, h)
      else decided peer accepted accept_decision (ensure_session na disk random delivers peer h)

  unfoldable pub reject_contact : Bytes → Host disk → Bool × Host disk
  unfolding decided
  reject_contact peer h =
      if not (is_some (find (to_hex peer) h.engine.incoming_requests))
      then (false, h)
      else decided peer rejected reject_decision (ensure_session na disk random delivers peer h)

  -- Behind `send_packet`: a message that was sent joins the history.
  unfoldable pub recorded : Bytes → Bytes → ℤ → Bool × Host disk → Bool × Host disk
  recorded peer plaintext now (false, h) = (false, h)
  recorded peer plaintext now (true, h) = (
    true,
    change na disk random delivers
        (λ nonce fs.
          Store.append_message na disk nonce fs
            (record { peer = peer; text = plaintext; outgoing = true; timestamp = now }))
        h,
  )

  unfoldable pub sent : Bytes → Bytes → ℤ → Option Session × Host disk → Bool × Host disk
  unfolding recorded encrypt_and_send
  sent peer plaintext now (none, h) = (false, h)
  sent peer plaintext now (some s, h) =
      recorded peer plaintext now (encrypt_and_send peer s PacketType.message plaintext h)

  unfoldable pub send : Bytes → Bytes → ℤ → Host disk → Bool × Host disk
  unfolding sent
  send peer plaintext now h =
      if not (is_accepted (Store.trust_of peer h.engine.contacts))
      then (false, h)
      else sent peer plaintext now (ensure_session na disk random delivers peer h)
