-- ===== src/Signaling/Server.antt =====
-- servers/signaling/src/server.hpp and server.cpp. libsodium is the section's parameter; the bytes of
-- `crypto::random_bytes(kChallengeBytes)` and the time are arguments. Log lines are left out.
pub mod Invariant
pub mod Handshake
pub mod Completion
pub mod Queries
pub mod Expiry
use openmesh_messenger.Base.{
  ℕ, Bool, true, false, not, Option, none, some, List, [], ◌∷◌, ◌++◌, Bytes, length, is_empty, ◌==◌,
  if◌then◌else◌,
}
use openmesh_messenger.Base.Assoc.{Assoc, find, insert_or_assign, erase, erase_if}
use openmesh_messenger.Base.Int.{ℤ, pos, ◌+ℤ◌, ◌-ℤ◌, ltb_ℤ}
use openmesh_messenger.Core.Hex.{to_hex}
use openmesh_messenger.Crypto.Sizes.{public_key_bytes, signature_bytes}
use openmesh_messenger.Crypto.Sodium.{Sodium}
use openmesh_messenger.Crypto.Sign.{verify_detached}
use openmesh_messenger.Net.Endpoint.{Endpoint, same_endpoint, to_string}
use openmesh_messenger.Net.Datagram.{Datagram, Transmission}
use openmesh_messenger.Protocol.Packet.{Packet, blank}
use openmesh_messenger.Protocol.PacketType.{PacketType}
use openmesh_messenger.Protocol.PacketType
use openmesh_messenger.Protocol.Wire.{serialize, deserialize}
use openmesh_messenger.Signaling.Registry
use openmesh_messenger.Signaling.Registry.{PeerRegistry}

pub record Outgoing : Type 0 where
  pub to : Endpoint
  pub packet : Packet

pub record Config : Type 0 where
  pub peer_ttl_seconds : ℤ
  pub challenge_ttl_seconds : ℤ

abbrev pub default_config : Config
default_config = record { peer_ttl_seconds = pos 120; challenge_ttl_seconds = pos 30 }

pub record Pending : Type 0 where
  pub challenge : Bytes
  pub endpoint : Endpoint
  pub expiry : ℤ

pub record Server : Type 0 where
  pub config : Config
  pub registry : PeerRegistry
  pub pending : Assoc Pending

abbrev pub init : Config → Server
init config = record { config = config; registry = []; pending = [] }

unfoldable pub make : PacketType → Bytes → Bytes → Bytes → Packet
make type source destination payload = record blank {
  type = type;
  source = source;
  destination = destination;
  payload = payload;
}

-- A handler returns the server and `out` with its responses appended.
abbrev pub Handled : Type 0
Handled = Server × List Outgoing

abbrev pub push : List Outgoing → Endpoint → Packet → List Outgoing
push out to packet = out ++ (record { to = to; packet = packet } ∷ [])

-- Step 1: a fresh challenge, bound to the observed endpoint.
unfoldable pub challenge_peer : Server → Bytes → Bytes → Endpoint → ℤ → List Outgoing → Handled
unfolding make
challenge_peer s challenge key from now out = (
  record s {
    pending =
        insert_or_assign key
          (record {
            challenge = challenge;
            endpoint = from;
            expiry = now +ℤ s.config.challenge_ttl_seconds;
          })
          s.pending;
  },
  push out from (make PacketType.hello [] [] challenge),
)

-- The peer is registered where it was observed, and is told that endpoint.
unfoldable pub admit : Server → Bytes → Endpoint → ℤ → List Outgoing → Handled
unfolding make
admit s key from now out = (
  record s { registry = Registry.upsert key from now s.registry; pending = erase key s.pending },
  push out from (make PacketType.ack [] [] (to_string from)),
)

module _ (na : Sodium) where
  -- Step 2: the signature over the pending challenge.
  unfoldable pub check_signature :
      Server → Option Pending → Packet → Bytes → Endpoint → ℤ → List Outgoing → Handled
  check_signature s none packet key from now out = (s, out)
  check_signature s (some p) packet key from now out =
      if ltb_ℤ p.expiry now
      then (s, out)
      else if not (same_endpoint p.endpoint from)
      then (s, out)
      else if not (verify_detached na packet.payload p.challenge packet.source)
      then (record s { pending = erase key s.pending }, out)
      else admit s key from now out

  unfoldable pub handle_register : Server → Bytes → Packet → Endpoint → ℤ → List Outgoing → Handled
  unfolding check_signature challenge_peer admit
  handle_register s challenge packet from now out =
      let key = to_hex packet.source in
      if not (length packet.source == public_key_bytes)
      then (s, out)
      else if is_empty packet.payload
      then challenge_peer s challenge key from now out
      else if length packet.payload == signature_bytes
      then check_signature s (find key s.pending) packet key from now out
      else (s, out)

-- The text of a found endpoint, or nothing.
unfoldable pub endpoint_text : Option Endpoint → Bytes
endpoint_text none = []
endpoint_text (some e) = to_string e

unfoldable pub handle_discover : Server → Packet → Endpoint → List Outgoing → Handled
unfolding make endpoint_text
handle_discover s packet from out = if is_empty packet.destination then (s, out) else (
  s,
  push out from (
      make PacketType.connect packet.destination []
        (endpoint_text (Registry.lookup (to_hex packet.destination) s.registry))),
)

unfoldable pub forward_to : Option Endpoint → Packet → List Outgoing → List Outgoing
forward_to none packet out = out
forward_to (some e) packet out = push out e packet

unfoldable pub handle_connect : Server → Packet → List Outgoing → Handled
unfolding forward_to
handle_connect s packet out =
    if is_empty packet.destination
    then (s, out)
    else (s, forward_to (Registry.lookup (to_hex packet.destination) s.registry) packet out)

-- The registry after a heartbeat: a registered peer is seen again, at the endpoint it came from.
unfoldable pub refresh : PeerRegistry → Bytes → Option Endpoint → Endpoint → ℤ → PeerRegistry
refresh peers key none from now = peers
refresh peers key (some e) from now = Registry.upsert key from now peers

unfoldable pub handle_heartbeat : Server → Packet → Endpoint → ℤ → List Outgoing → Handled
unfolding make refresh
handle_heartbeat s packet from now out =
    let key = to_hex packet.source in
    let reply = push out from (make PacketType.heartbeat [] [] []) in
    if length packet.source == public_key_bytes
    then (
      record s { registry = refresh s.registry key (Registry.lookup key s.registry) from now },
      reply,
    )
    else (s, reply)

unfoldable pub handle_disconnect : Server → Packet → Server
handle_disconnect s packet =
    if length packet.source == public_key_bytes
    then record s { registry = (Registry.remove (to_hex packet.source) s.registry).1 }
    else s

module _ (na : Sodium) where
  unfoldable pub handle : Server → Bytes → Packet → Endpoint → ℤ → List Outgoing → Handled
  handle s challenge packet from now out =
      if packet.type == PacketType.register
      then handle_register na s challenge packet from now out
      else if packet.type == PacketType.discover
      then handle_discover s packet from out
      else if packet.type == PacketType.connect
      then handle_connect s packet out
      else if packet.type == PacketType.heartbeat
      then handle_heartbeat s packet from now out
      else if packet.type == PacketType.disconnect
      then (handle_disconnect s packet, out)
      else (s, out)

abbrev pub is_expired : ℤ → Pending → Bool
is_expired now p = ltb_ℤ p.expiry now

unfoldable pub expire : Server → ℤ → Server
expire s now = record s {
  registry = Registry.expire (now -ℤ s.config.peer_ttl_seconds) s.registry;
  pending = erase_if (is_expired now) s.pending;
}

-- The loop over the responses.
sent : List Outgoing → List Transmission
sent [] = []
sent (o ∷ out) = record { to = o.to; content = serialize o.packet } ∷ sent out

module _ (na : Sodium) where
  -- The packet part of a turn: the server, and what `handle` put out for a packet that parsed.
  received : Server → Bytes → Datagram → ℤ → Bool × Packet → Handled
  received s challenge dg now (false, packet) = (s, [])
  received s challenge dg now (true, packet) = handle na s challenge packet dg.from now []

  -- One turn: the server afterwards, the datagrams that it hands to `send_to` with their
  -- destinations, and whether a packet was processed. Expiry runs in every turn.
  unfoldable pub run_once : Server → Bytes → Option Datagram → ℤ → Server × List Transmission × Bool
  unfolding received sent
  run_once s challenge none now = (expire s now, [], false)
  run_once s challenge (some dg) now =
      let parsed = deserialize dg.content blank in
      let (s', out) = received s challenge dg now parsed in (expire s' now, sent out, parsed.0)

  -- The turns of `run`, each with the random bytes, the datagram and the time of its turn.
  unfoldable pub run_turns : Server → List (Bytes × Option Datagram × ℤ) → Server
  run_turns s [] = s
  run_turns s ((challenge, dg, now) ∷ turns) = run_turns (run_once s challenge dg now).0 turns
