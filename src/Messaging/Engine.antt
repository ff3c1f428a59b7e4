-- ===== src/Messaging/Engine.antt =====
-- `Engine` of libs/messaging/src/engine.cpp and engine.hpp. Its maps and sets are association lists.
-- The callbacks, which report to the interface, are left out; the readings of the clocks are
-- arguments.
pub mod Paths
pub mod Contacts
pub mod Poll
pub mod Carried
pub mod Effects
pub mod Gate
pub mod Commands
pub mod Steps
pub mod Untouched
pub mod Probes
pub mod Budget
pub mod Grows
pub mod History
pub mod Decisions
pub mod Asked
pub mod Consent
use openmesh_messenger.Base.{
  ℕ, suc, ◌+◌, Bool, true, false, not, ◌&&◌, ◌||◌, Option, none, some, List, [], ◌∷◌, ◌++◌, Bytes,
  bytes_eq, is_empty, is_some, ◌==◌, leb, if◌then◌else◌,
}
use openmesh_messenger.Base.Assoc.{Assoc, find, insert_or_assign, erase}
use openmesh_messenger.Base.Int.{ℤ, pos}
use openmesh_messenger.Core.Hex.{to_hex}
use openmesh_messenger.Crypto.Sodium.{Sodium}
use openmesh_messenger.Messaging.Session.{Session, session, encrypt_as, decrypt}
use openmesh_messenger.Net.Datagram.{Delivery, Datagram, Transmission}
use openmesh_messenger.Net.Endpoint.{Endpoint, parse_endpoint}
use openmesh_messenger.Protocol.Packet.{Packet, blank}
use openmesh_messenger.Protocol.PacketType
use openmesh_messenger.Protocol.PacketType.{PacketType}
use openmesh_messenger.Protocol.Wire.{serialize, deserialize}
use openmesh_messenger.Storage.Disk.{Disk}
use openmesh_messenger.Storage.Records.{
  Contact, Message, Request, TrustStatus, pending, accepted, rejected,
}
use openmesh_messenger.Storage.Store
use openmesh_messenger.Storage.Store.{Store}

pub record Probe : Type 0 where
  pub peer : Bytes
  pub candidate : Endpoint
  pub confirmed : Bool
  pub attempts : ℕ
  pub last : ℤ

pub record Engine : Type 0 where
  pub local_public : Bytes
  pub local_secret : Bytes
  pub contacts : Store
  pub relay : Option Endpoint
  pub sessions : Assoc Session
  pub endpoints : Assoc Endpoint
  pub probes : Assoc Probe
  pub incoming_requests : Assoc (Unit {0})
  pub outgoing_requests : Assoc (Unit {0})

-- A call of one of the three handlers of the application, with its arguments.
pub data Notice : Type 0 where
  message_came : Bytes → Bytes → Notice
  request_came : Bytes → Bytes → Notice
  response_came : Bytes → Bool → Notice

-- An engine with what it acts on: the file system, the number of nonces drawn so far, the
-- datagrams handed to the socket, and the calls of the application's handlers so far.
pub record Host (disk : Disk) : Type 0 where
  pub engine : Engine
  pub fs : disk.State
  pub drawn : ℕ
  pub out : List Transmission
  pub notices : List Notice

abbrev pub notify : {disk : Disk} → Notice → Host disk → Host disk
notify n h = record h { notices = h.notices ++ (n ∷ []) }

abbrev pub accept_decision : ℕ
accept_decision = 0x01

abbrev pub reject_decision : ℕ
reject_decision = 0x00

-- `storage::Contact{}`.
abbrev pub blank_contact : Contact
blank_contact = record { public_key = []; nickname = []; trust = pending; last_seen = pos 0 }

abbrev pub contact_or_blank : Option Contact → Contact
contact_or_blank none = blank_contact
contact_or_blank (some c) = c

-- `Probe{}`.
abbrev pub blank_probe : Probe
blank_probe = record {
  peer = [];
  candidate = record { host = []; port = 0 };
  confirmed = false;
  attempts = 0;
  last = pos 0;
}

abbrev pub probe_or_blank : Option Probe → Probe
probe_or_blank none = blank_probe
probe_or_blank (some p) = p

abbrev pub is_confirmed : Option Probe → Bool
is_confirmed none = false
is_confirmed (some p) = p.confirmed

abbrev pub is_accepted : Option TrustStatus → Bool
is_accepted none = false
is_accepted (some t) = t == accepted

unfoldable pub has_direct_path : Engine → Bytes → Bool
has_direct_path e peer = is_confirmed (find (to_hex peer) e.probes)

-- The endpoint that `send_packet` sends to.
unfoldable pub destination_of : Option Endpoint → Option Endpoint → Option Endpoint
destination_of none relay = relay
destination_of (some e) relay = some e

-- The nonces that `randombytes_buf` draws, and which datagrams `send_to` reports as sent.
module _ (na : Sodium) (disk : Disk) (random : ℕ → Bytes) (delivers : Delivery) where
  unfoldable pub transmit : Endpoint → Packet → Host disk → Bool × Host disk
  transmit to packet h =
      let t : Transmission = record { to = to; content = serialize packet } in
      (delivers h.out t, record h { out = h.out ++ (t ∷ []) })

  -- A change of the contact store, under the next nonce.
  unfoldable pub change : (Bytes → disk.State → Store → Store × disk.State) → Host disk → Host disk
  change f h =
      let (s, fs) = f (random h.drawn) h.fs h.engine.contacts in
      record h { engine = record h.engine { contacts = s }; fs = fs; drawn = suc h.drawn }

  unfoldable pub set_probe : Bytes → Probe → Host disk → Host disk
  set_probe key p h = record h {
    engine = record h.engine { probes = insert_or_assign key p h.engine.probes };
  }

  unfoldable pub set_endpoint : Bytes → Endpoint → Host disk → Host disk
  set_endpoint key e h = record h {
    engine = record h.engine { endpoints = insert_or_assign key e h.engine.endpoints };
  }

  unfoldable pub set_session : Bytes → Session → Host disk → Host disk
  set_session key s h = record h {
    engine = record h.engine { sessions = insert_or_assign key s h.engine.sessions };
  }
