-- ===== src/Tests/Engine.antt =====
-- An engine that has asked a peer to be a contact, and the peer's answer.
use openmesh_messenger.Base.{
  ℕ, ◌≡◌, refl, ◌⊎◌, true, false, none, some, [], ◌∷◌, ◌++◌, Bytes, bytes_eq, is_empty, is_some,
}
use openmesh_messenger.Base.Assoc.{find}
use openmesh_messenger.Base.Int.{pos}
use openmesh_messenger.Core.Hex.{to_hex}
use openmesh_messenger.Crypto.Aead.{seal, open_sealed}
use openmesh_messenger.Endian.{get_u16, get_u64}
use openmesh_messenger.Messaging.Engine.{
  Engine, Host, is_accepted, change, set_session, set_endpoint, has_direct_path,
}
use openmesh_messenger.Messaging.Engine.Contacts.{
  handle_contact_response, says_yes, set_trust, ensure_session, session_or_new,
}
use openmesh_messenger.Messaging.Engine.Poll.{
  poll, handle_packet, with_session, decrypted, dispatch, track,
}
use openmesh_messenger.Messaging.Engine.Gate.{contact_only_if_asked, received_only_from_contacts}
use openmesh_messenger.Messaging.Session.{
  Session, envelope, advance, encrypt_as, decrypt, is_for_us, is_fresh, opened,
}
use openmesh_messenger.Net.Datagram.{Delivery, Datagram}
use openmesh_messenger.Protocol.Packet.{blank, encrypted, has_flag}
use openmesh_messenger.Protocol.PacketType
use openmesh_messenger.Protocol.Wire.{
  serialize, deserialize, parse, associated_data, header_and_routing, put_field, read_field,
}
use openmesh_messenger.Storage.Store
use openmesh_messenger.Storage.Store.{Store}
use openmesh_messenger.Tests.Disk.{toy_disk}
use openmesh_messenger.Tests.Toy.{toy, block, tag, total, checked, toy_encrypt, toy_decrypt}

abbrev pub session_key : Bytes
session_key = block 32 (7 ∷ [])

abbrev pub contacts : Store
contacts = record {
  contacts = [];
  messages = [];
  requests = [];
  persistent = false;
  path = [];
  key = [];
  salt = [];
}

abbrev pub alice_session : Session
alice_session = record {
  local_public = 1 ∷ [];
  remote_public = 2 ∷ [];
  shared_key = session_key;
  valid = true;
  send_counter = 0;
  have_received = false;
  last_received = 0;
}

abbrev pub bob_session : Session
bob_session = record alice_session { local_public = 2 ∷ []; remote_public = 1 ∷ [] }

abbrev pub alice : Engine
alice = record {
  local_public = 1 ∷ [];
  local_secret = [];
  contacts = contacts;
  relay = none;
  sessions = (to_hex (2 ∷ []), alice_session) ∷ [];
  endpoints = [];
  probes = [];
  incoming_requests = [];
  outgoing_requests = (to_hex (2 ∷ []), tt) ∷ [];
}

abbrev pub host : Host toy_disk
host = record { engine = alice; fs = λ path. none; drawn = 0; out = []; notices = [] }

abbrev pub random : ℕ → Bytes
random n = block 24 (n ∷ [])

abbrev pub delivers : Delivery
delivers before t = true

abbrev pub answer : Datagram
answer = record {
  from = record { host = b'b' ∷ []; port = 4000 };
  content =
      serialize (encrypt_as toy (random 9) bob_session PacketType.contact_response (1 ∷ [])).0;
}

pub now_accepted :
    is_accepted (
      Store.trust_of
        (2 ∷ [])
        (poll toy toy_disk random delivers (some answer) (pos 5) (pos 6) host).1.engine.contacts)
    ≡ true
unfolding poll handle_packet with_session decrypted dispatch track ensure_session session_or_new
    set_session set_endpoint has_direct_path handle_contact_response says_yes set_trust change
    encrypt_as envelope advance decrypt is_for_us is_fresh opened seal open_sealed serialize
    deserialize parse associated_data header_and_routing put_field read_field encrypted has_flag
    find to_hex bytes_eq is_empty block tag total checked toy_encrypt toy_decrypt Store.trust_of
    Store.trust_in Store.upsert Store.put_contact_in Store.autosave Store.find Store.find_in get_u16
    get_u64
now_accepted = refl

contact_only_if_asked_example :
    (is_accepted (Store.trust_of (2 ∷ []) host.engine.contacts) ≡ true)
    ⊎ (is_some (find (to_hex (2 ∷ [])) host.engine.outgoing_requests) ≡ true)
contact_only_if_asked_example =
    contact_only_if_asked toy toy_disk random delivers answer (pos 5) (pos 6) host (2 ∷ [])
      now_accepted

received_only_from_contacts_example :
    let p = (deserialize answer.content blank).1 in
    let messages =
      (poll toy toy_disk random delivers
        (some answer)
        (pos 5)
        (pos 6)
        host).1.engine.contacts.messages in
    (messages ≡ host.engine.contacts.messages)
    ⊎ ((text : Bytes) × (is_accepted (Store.trust_of p.source host.engine.contacts) ≡ true)
        × (messages
            ≡ host.engine.contacts.messages
              ++ (record { peer = p.source; text = text; outgoing = false; timestamp = pos 5 }
                  ∷ [])))
received_only_from_contacts_example =
    received_only_from_contacts toy toy_disk random delivers answer (pos 5) (pos 6) host
