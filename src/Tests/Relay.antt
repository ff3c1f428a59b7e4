-- ===== src/Tests/Relay.antt =====
-- A relay, a peer that announces itself and one that writes to it.
use openmesh_messenger.Base.{
  ◌≡◌, refl, All, Option, none, some, List, [], ◌∷◌, arith, ◌≢◌, false, is_empty,
}
use openmesh_messenger.Base.Int.{ℤ, pos, ◌+ℤ◌, ltb_ℤ}
use openmesh_messenger.Net.Datagram.{Datagram}
use openmesh_messenger.Net.Endpoint.{Endpoint}
use openmesh_messenger.Protocol.Packet.{Packet, IsWire, blank}
use openmesh_messenger.Protocol.PacketType
use openmesh_messenger.Protocol.Wire.{serialize, header_and_routing, put_field}
use openmesh_messenger.Endian.{put_u16, put_u64, put_be}
use openmesh_messenger.Relay.Server.{Relay, default_config, init, push, forward_to, handle, expire}
use openmesh_messenger.Relay.Server.Forwarding.{payload_is_opaque}
use openmesh_messenger.Relay.Server.Ideal.{IsByteTurn, outputs, ideal_outputs, relay_is_ideal}
use openmesh_messenger.Relay.Server.Routes.{announced_peer_is_reached}

abbrev relay : Relay
relay = init default_config

abbrev here : Endpoint
here = record { host = b'h' ∷ []; port = 4000 }

abbrev there : Endpoint
there = record { host = b't' ∷ []; port = 4001 }

abbrev hello : Packet
hello = record blank { type = PacketType.heartbeat; source = 1 ∷ 2 ∷ [] }

abbrev letter : Packet
letter = record blank {
  type = PacketType.message;
  source = 3 ∷ 4 ∷ [];
  destination = 1 ∷ 2 ∷ [];
  payload = 7 ∷ 8 ∷ [];
}

abbrev other_letter : Packet
other_letter = record letter { payload = 9 ∷ [] }

hello-IsWire : IsWire hello
hello-IsWire = omega arith

letter-IsWire : IsWire letter
letter-IsWire = omega arith

other_letter-IsWire : IsWire other_letter
other_letter-IsWire = omega arith

payload_is_opaque_example :
    ((handle relay (serialize letter) there (pos 5) []).0
      ≡ (handle relay (serialize other_letter) there (pos 5) []).0)
    × ((to : Option Endpoint) × ((handle relay (serialize letter) there (pos 5) []).1
          ≡ forward_to to (serialize letter) [])
        × ((handle relay (serialize other_letter) there (pos 5) []).1
            ≡ forward_to to (serialize other_letter) []))
payload_is_opaque_example =
    payload_is_opaque relay letter other_letter there (pos 5) [] letter-IsWire other_letter-IsWire
      refl refl

in_time : ltb_ℤ (pos 5 +ℤ relay.config.route_ttl_seconds) (pos 60) ≡ false
unfolding ◌+ℤ◌
in_time = refl

not_self : letter.source ≢ hello.source
not_self = λ h. ground (arith, h)

announced_peer_is_reached_example :
    let relay' = expire (handle relay (serialize hello) here (pos 5) []).0 (pos 60) in
    (handle relay' (serialize letter) there (pos 61) []).1 ≡ push [] here (serialize letter)
unfolding is_empty
announced_peer_is_reached_example =
    announced_peer_is_reached relay hello letter here there (pos 5) (pos 60) (pos 61) [] []
      hello-IsWire letter-IsWire tt refl refl not_self in_time

abbrev turns : List (Option Datagram × ℤ)
turns = (some (record { from = here; content = serialize hello }), pos 5) ∷ (none, pos 6) ∷ []

abbrev relay_turns : List (Option Datagram × ℤ)
relay_turns =
    (some (record { from = here; content = serialize hello }), pos 5)
    ∷ (some (record { from = there; content = serialize letter }), pos 7)
    ∷ (none, pos 9)
    ∷ []

bytes : All IsByteTurn relay_turns
unfolding serialize header_and_routing put_field put_u16 put_u64 put_be
bytes = omega arith

relay_is_ideal_example :
    outputs (init default_config) relay_turns
    ≡ ideal_outputs default_config.route_ttl_seconds (λ k. none) relay_turns
relay_is_ideal_example = relay_is_ideal default_config relay_turns bytes
