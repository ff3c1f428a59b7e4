-- ===== src/Messaging/Engine/Contacts.antt =====
-- Sessions, contacts and requests of the engine, in libs/messaging/src/engine.cpp.
use openmesh_messenger.Base.{
  ℕ, Bool, false, not, ◌||◌, Option, none, some, [], ◌∷◌, Bytes, is_empty, is_some, ◌==◌,
  if◌then◌else◌,
}
use openmesh_messenger.Base.Assoc.{find, insert_or_assign, erase}
use openmesh_messenger.Base.Int.{ℤ}
use openmesh_messenger.Core.Hex.{to_hex}
use openmesh_messenger.Crypto.Sodium.{Sodium}
use openmesh_messenger.Messaging.Engine.{
  notify, message_came, request_came, response_came, Host, accept_decision, contact_or_blank,
  change, set_session,
}
use openmesh_messenger.Messaging.Session.{Session, session}
use openmesh_messenger.Net.Datagram.{Delivery}
use openmesh_messenger.Storage.Disk.{Disk}
use openmesh_messenger.Storage.Records.{TrustStatus, pending, accepted, rejected}
use openmesh_messenger.Storage.Store
use openmesh_messenger.Storage.Store.{Store}

-- `!decision.empty() && decision[0] == kAccept`.
unfoldable pub says_yes : Bytes → Bool
says_yes [] = false
says_yes (b ∷ decision) = b == accept_decision

module _ (na : Sodium) (disk : Disk) (random : ℕ → Bytes) (delivers : Delivery) where
  -- The session, and the engine that holds it.
  unfoldable pub session_or_new : Option Session → Bytes → Host disk → Option Session × Host disk
  unfolding set_session
  session_or_new (some s) peer h = (some s, h)
  session_or_new none peer h =
      let s = session na h.engine.local_public h.engine.local_secret peer in
      if not s.valid
      then (none, h)
      else (some s, set_session na disk random delivers (to_hex peer) s h)

  unfoldable pub ensure_session : Bytes → Host disk → Option Session × Host disk
  unfolding session_or_new
  ensure_session peer h = session_or_new (find (to_hex peer) h.engine.sessions) peer h

  unfoldable pub set_trust : Bytes → TrustStatus → Host disk → Host disk
  unfolding change
  set_trust peer trust h =
      let c = record (contact_or_blank (Store.find peer h.engine.contacts)) {
        public_key = peer;
        trust = trust;
      } in
      change na disk random delivers (λ nonce fs. Store.upsert na disk nonce fs c) h

  unfoldable pub set_nickname : Bytes → Bytes → Host disk → Host disk
  unfolding change
  set_nickname peer name h =
      let c = record (contact_or_blank (Store.find peer h.engine.contacts)) {
        public_key = peer;
        nickname = name;
      } in
      change na disk random delivers (λ nonce fs. Store.upsert na disk nonce fs c) h

  unfoldable pub handle_message : Bytes → Bytes → ℤ → Host disk → Host disk
  unfolding change
  handle_message peer plaintext now h = notify (message_came peer plaintext) (
      change na disk random delivers
        (λ nonce fs.
          Store.append_message na disk nonce fs
            (record { peer = peer; text = plaintext; outgoing = false; timestamp = now }))
        h)

  unfoldable pub handle_contact_request : Bytes → Bytes → ℤ → Host disk → Host disk
  unfolding change set_trust set_nickname
  handle_contact_request peer greeting now h =
      let key = to_hex peer in
      let asked = record h {
        engine = record h.engine {
          incoming_requests = insert_or_assign key tt h.engine.incoming_requests;
        };
      } in
      let marked = set_trust peer pending asked in
      let named = if is_empty greeting then marked else set_nickname peer greeting marked in
      if is_some (Store.trust_of peer h.engine.contacts)
        || is_some (find key h.engine.incoming_requests)
      then h
      else notify (request_came peer greeting) (
          change na disk random delivers
            (λ nonce fs.
              Store.add_request na disk nonce fs
                (record { peer = peer; greeting = greeting; timestamp = now }))
            named)

  unfoldable pub handle_contact_response : Bytes → Bytes → Host disk → Host disk
  unfolding set_trust says_yes
  handle_contact_response peer decision h =
      let key = to_hex peer in
      let answered = record h {
        engine = record h.engine { outgoing_requests = erase key h.engine.outgoing_requests };
      } in
      if not (is_some (find key h.engine.outgoing_requests))
      then h
      else notify (response_came peer (says_yes decision))
          (set_trust peer (if says_yes decision then accepted else rejected) answered)
