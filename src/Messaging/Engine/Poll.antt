-- ===== src/Messaging/Engine/Poll.antt =====
-- `Engine::poll` of libs/messaging/src/engine.cpp.
use openmesh_messenger.Base.{
  ℕ, Bool, true, false, not, ◌&&◌, Option, none, some, Bytes, bytes_eq, is_empty, ◌==◌,
  if◌then◌else◌,
}
use openmesh_messenger.Base.Int.{ℤ}
use openmesh_messenger.Core.Hex.{to_hex}
use openmesh_messenger.Crypto.Sodium.{Sodium}
use openmesh_messenger.Messaging.Engine.{
  Host, is_accepted, has_direct_path, set_endpoint, set_session,
}
use openmesh_messenger.Messaging.Engine.Contacts.{
  ensure_session, handle_message, handle_contact_request, handle_contact_response,
}
use openmesh_messenger.Messaging.Engine.Paths.{handle_probe, handle_connect}
use openmesh_messenger.Messaging.Session.{Session, decrypt}
use openmesh_messenger.Net.Datagram.{Delivery, Datagram}
use openmesh_messenger.Net.Endpoint.{Endpoint}
use openmesh_messenger.Protocol.Packet.{Packet, blank}
use openmesh_messenger.Protocol.PacketType
use openmesh_messenger.Protocol.Wire.{deserialize}
use openmesh_messenger.Storage.Disk.{Disk}
use openmesh_messenger.Storage.Store

module _ (na : Sodium) (disk : Disk) (random : ℕ → Bytes) (delivers : Delivery) where
  -- The peer's current address, unless a direct path is confirmed.
  unfoldable pub track : Bytes → Endpoint → Host disk → Host disk
  track peer from h =
      if has_direct_path h.engine peer
      then h
      else set_endpoint na disk random delivers (to_hex peer) from h

  -- The switch over the type of a decrypted packet. `now` is `now_seconds()`.
  unfoldable pub dispatch : Packet → Bytes → ℤ → Host disk → Bool × Host disk
  dispatch packet plaintext now h =
      if packet.type == PacketType.message
      then (true, handle_message na disk random delivers packet.source plaintext now h)
      else if packet.type == PacketType.contact_request
      then (true, handle_contact_request na disk random delivers packet.source plaintext now h)
      else if packet.type == PacketType.contact_response
      then (true, handle_contact_response na disk random delivers packet.source plaintext h)
      else (false, h)

  -- Behind `decrypt`, whose session is put back.
  unfoldable pub decrypted :
      Packet → Endpoint → ℤ → Host disk → Option Bytes × Session → Bool × Host disk
  unfolding track dispatch
  decrypted packet from now h (none, s) =
      (false, set_session na disk random delivers (to_hex packet.source) s h)
  decrypted packet from now h (some plaintext, s) =
      dispatch packet plaintext now
        (track packet.source from (set_session na disk random delivers (to_hex packet.source) s h))

  -- Behind `ensure_session`.
  unfoldable pub with_session :
      Packet → Endpoint → ℤ → Option Session × Host disk → Bool × Host disk
  unfolding decrypted
  with_session packet from now (none, h) = (false, h)
  with_session packet from now (some s, h) = decrypted packet from now h (decrypt na s packet)

  -- Behind `deserialize`. `clock` is the steady clock.
  unfoldable pub handle_packet : Endpoint → ℤ → ℤ → Host disk → Bool × Packet → Bool × Host disk
  unfolding with_session
  handle_packet from now clock h (false, packet) = (false, h)
  handle_packet from now clock h (true, packet) =
      if packet.type == PacketType.hello
      then (
        true,
        if bytes_eq packet.destination h.engine.local_public && not (is_empty packet.source)
            then handle_probe na disk random delivers packet.source from h
            else h,
      )
      else if packet.type == PacketType.connect
      then (true, handle_connect na disk random delivers packet.source packet.payload clock h)
      else if packet.type == PacketType.message
          && not (is_accepted (Store.trust_of packet.source h.engine.contacts))
      then (false, h)
      else with_session packet from now (ensure_session na disk random delivers packet.source h)

  unfoldable pub poll : Option Datagram → ℤ → ℤ → Host disk → Bool × Host disk
  unfolding handle_packet
  poll none now clock h = (false, h)
  poll (some dg) now clock h = handle_packet dg.from now clock h (deserialize dg.content blank)
