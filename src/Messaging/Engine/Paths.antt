-- ===== src/Messaging/Engine/Paths.antt =====
-- The ways to a peer: hole punching and the relay, in libs/messaging/src/engine.cpp.
use openmesh_messenger.Base.{
  ℕ, ◌+◌, Bool, true, false, not, ◌&&◌, ◌||◌, Option, none, some, [], ◌∷◌, Bytes, leb,
  if◌then◌else◌,
}
use openmesh_messenger.Base.Assoc.{Assoc, find}
use openmesh_messenger.Base.Int.{ℤ, pos, ◌+ℤ◌, ltb_ℤ}
use openmesh_messenger.Core.Hex.{to_hex}
use openmesh_messenger.Crypto.Sodium.{Sodium}
use openmesh_messenger.Messaging.Engine.{
  Engine, Probe, Host, probe_or_blank, has_direct_path, transmit, set_probe, set_endpoint,
}
use openmesh_messenger.Net.Datagram.{Delivery}
use openmesh_messenger.Net.Endpoint.{Endpoint, parse_endpoint}
use openmesh_messenger.Protocol.Packet.{Packet, blank}
use openmesh_messenger.Protocol.PacketType
use openmesh_messenger.Protocol.PacketType.{PacketType}
use openmesh_messenger.Storage.Disk.{Disk}

abbrev pub max_probes : ℕ
max_probes = 12

-- In milliseconds.
abbrev pub probe_interval : ℤ
probe_interval = pos 250

unfoldable pub probe_packet : Engine → Bytes → Packet
probe_packet e peer = record blank {
  type = PacketType.hello;
  source = e.local_public;
  destination = peer;
}

-- Whether `tick` probes again.
unfoldable pub is_due : ℤ → Probe → Bool
is_due now p =
    not (p.confirmed || leb max_probes p.attempts) && not (ltb_ℤ now (p.last +ℤ probe_interval))

module _ (na : Sodium) (disk : Disk) (random : ℕ → Bytes) (delivers : Delivery) where
  unfoldable pub send_probe : Bytes → Endpoint → Host disk → Host disk
  unfolding transmit probe_packet
  send_probe peer to h = (transmit na disk random delivers to (probe_packet h.engine peer) h).1

  unfoldable pub start_probing : Bytes → Endpoint → ℤ → Host disk → Host disk
  unfolding set_probe send_probe has_direct_path
  start_probing peer candidate now h =
      if has_direct_path h.engine peer
      then h
      else send_probe peer candidate (
          set_probe na disk random delivers (to_hex peer)
            (record {
              peer = peer;
              candidate = candidate;
              confirmed = false;
              attempts = 1;
              last = now;
            })
            h)

  unfoldable pub handle_probe : Bytes → Endpoint → Host disk → Host disk
  unfolding set_probe set_endpoint send_probe
  handle_probe peer from h =
      let p = probe_or_blank (find (to_hex peer) h.engine.probes) in
      let h' = set_endpoint na disk random delivers (to_hex peer) from (
        set_probe na disk random delivers (to_hex peer) (record p { peer = peer; confirmed = true })
          h) in
      if p.confirmed then h' else send_probe peer from h'

  -- The relay as a path to a peer that has none.
  unfoldable pub with_fallback : Bytes → Option Endpoint → Option Endpoint → Host disk → Host disk
  unfolding set_endpoint
  with_fallback key none (some relay) h = set_endpoint na disk random delivers key relay h
  with_fallback key none none h = h
  with_fallback key (some e) relay h = h

  unfoldable pub probe_advertised : Bytes → Option Endpoint → ℤ → Host disk → Host disk
  unfolding with_fallback start_probing
  probe_advertised peer none now h = h
  probe_advertised peer (some ep) now h =
      start_probing peer ep now
        (with_fallback (to_hex peer) (find (to_hex peer) h.engine.endpoints) h.engine.relay h)

  unfoldable pub handle_connect : Bytes → Bytes → ℤ → Host disk → Host disk
  unfolding probe_advertised
  handle_connect peer payload now h = probe_advertised peer (parse_endpoint payload) now h

  unfoldable pub announce_to : Endpoint → Host disk → Bool × Host disk
  announce_to relay h =
      transmit na disk random delivers relay
        (record blank { type = PacketType.hello; source = h.engine.local_public }) h

  unfoldable pub connect : Bytes → Endpoint → ℤ → Host disk → Endpoint × Host disk
  connect peer candidate clock h =
      let active : Endpoint = elim h.engine.relay [ none ↦ candidate | some relay ↦ relay ] in
      (
        active,
        start_probing peer candidate clock
            (set_endpoint na disk random delivers (to_hex peer) active h),
      )

  -- The loop of `tick`, over the probes in the order of the map: the host after the sends, and the
  -- probes.
  unfoldable pub tick_each : ℤ → Assoc Probe → Host disk → Assoc Probe × Host disk
  unfolding is_due
  tick_each now [] h = ([], h)
  tick_each now ((key, p) ∷ probes) h =
      let due = is_due now p in
      let p' = if due then record p { attempts = p.attempts + 1; last = now } else p in
      let h' = if due then send_probe p.peer p.candidate h else h in
      let (probes', h'') = tick_each now probes h' in ((key, p') ∷ probes', h'')

  unfoldable pub tick : ℤ → Host disk → Host disk
  unfolding tick_each
  tick now h =
      let (probes, h') = tick_each now h.engine.probes h in
      record h' { engine = record h'.engine { probes = probes } }
