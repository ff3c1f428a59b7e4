-- ===== src/Net/SignalingClient.antt =====
-- `SignalingClient` of libs/net/src/signaling_client.cpp. What the socket returns is a script: each
-- `receive` takes its next answer, a datagram or a timeout, and when it is used up nothing comes any
-- more. A deadline that has passed is a timeout in the script.
pub mod Bounds
use openmesh_messenger.Base.{
  ℕ, zero, suc, Bool, true, false, ◌&&◌, Option, none, some, List, [], ◌∷◌, ◌++◌, Bytes, is_some,
  ◌==◌, if◌then◌else◌,
}
use openmesh_messenger.Net.Datagram.{Delivery, Datagram, Transmission}
use openmesh_messenger.Net.Endpoint.{Endpoint, parse_endpoint}
use openmesh_messenger.Protocol.Packet.{Packet, blank}
use openmesh_messenger.Protocol.PacketType
use openmesh_messenger.Protocol.PacketType.{PacketType}
use openmesh_messenger.Protocol.Wire.{serialize, deserialize}

-- The client, with the script of its socket and what it has sent.
pub record Client : Type 0 where
  pub server : Endpoint
  pub public_key : Bytes
  pub public_endpoint : Option Endpoint
  pub incoming : List (Option Datagram)
  pub out : List Transmission

pub record DiscoverResult : Type 0 where
  pub responded : Bool
  pub endpoint : Option Endpoint

-- The loop of `await_packet`, over the script: the packet, and the rest of the script.
unfoldable pub await_in :
    PacketType → List (Option Datagram) → Option Packet × List (Option Datagram)
await_in expected [] = (none, [])
await_in expected (none ∷ rest) = (none, rest)
await_in expected (some dg ∷ rest) =
    let (ok, packet) = deserialize dg.content blank in
    let later = await_in expected rest in
    if ok && (packet.type == expected) then (some packet, rest) else later

unfoldable pub await_packet : PacketType → Client → Option Packet × Client
unfolding await_in
await_packet expected c =
    let (packet, rest) = await_in expected c.incoming in (packet, record c { incoming = rest })

-- `delivers` is the answer of `send_to`; `signer` is the callback that signs a challenge.
module _ (delivers : Delivery) (signer : Bytes → Bytes) where
  unfoldable pub send : Packet → Client → Bool × Client
  send packet c =
      let t : Transmission = record { to = c.server; content = serialize packet } in
      (delivers c.out t, record c { out = c.out ++ (t ∷ []) })

  -- The end of an attempt to register: `none` where the loop continues.
  unfoldable pub acknowledged : Option Packet × Client → Bool × Client
  acknowledged (none, c) = (false, c)
  acknowledged (some ack, c) = (true, record c { public_endpoint = parse_endpoint ack.payload })

  unfoldable pub signed_sent : Bool × Client → Bool × Client
  unfolding acknowledged await_packet
  signed_sent (false, c) = (false, c)
  signed_sent (true, c) = acknowledged (await_packet PacketType.ack c)

  unfoldable pub challenged : Option Packet × Client → Bool × Client
  unfolding signed_sent send
  challenged (none, c) = (false, c)
  challenged (some challenge, c) = signed_sent (
      send
        (record blank {
          type = PacketType.register;
          source = c.public_key;
          payload = signer challenge.payload;
        })
        c)

  unfoldable pub request_sent : Bool × Client → Bool × Client
  unfolding challenged await_packet
  request_sent (false, c) = (false, c)
  request_sent (true, c) = challenged (await_packet PacketType.hello c)

  -- One turn of the loop of `register_self`.
  unfoldable pub attempt_register : Client → Bool × Client
  unfolding request_sent send
  attempt_register c =
      request_sent (send (record blank { type = PacketType.register; source = c.public_key }) c)

  unfoldable pub register_self : ℕ → Client → Bool × Client
  unfolding attempt_register
  register_self zero c = (false, c)
  register_self (suc attempts) c =
      let (done, c') = attempt_register c in
      let later = register_self attempts c' in if done then (true, c') else later

  unfoldable pub query_sent : Bool × Client → Option Packet × Client
  unfolding await_packet
  query_sent (false, c) = (none, c)
  query_sent (true, c) = await_packet PacketType.connect c

  unfoldable pub answered :
      Option Packet × Client → DiscoverResult × Client → DiscoverResult × Client
  answered (none, c) later = later
  answered (some packet, c) later =
      (record { responded = true; endpoint = parse_endpoint packet.payload }, c)

  unfoldable pub discover : Bytes → ℕ → Client → DiscoverResult × Client
  unfolding query_sent answered send
  discover target zero c = (record { responded = false; endpoint = none }, c)
  discover target (suc attempts) c =
      let r =
        query_sent (send (record blank { type = PacketType.discover; destination = target }) c) in
      let later = discover target attempts r.1 in answered r later

  unfoldable pub send_connect : Bytes → Bytes → Client → Bool × Client
  unfolding send
  send_connect target info c =
      send
        (record blank {
          type = PacketType.connect;
          source = c.public_key;
          destination = target;
          payload = info;
        })
        c

  unfoldable pub beat_sent : Bool × Client → Bool × Client
  unfolding await_packet
  beat_sent (false, c) = (false, c)
  beat_sent (true, c) = let (reply, c') = await_packet PacketType.heartbeat c in (is_some reply, c')

  unfoldable pub heartbeat : Client → Bool × Client
  unfolding beat_sent send
  heartbeat c =
      beat_sent (send (record blank { type = PacketType.heartbeat; source = c.public_key }) c)

  unfoldable pub disconnect : Client → Client
  unfolding send
  disconnect c = (send (record blank { type = PacketType.disconnect; source = c.public_key }) c).1
