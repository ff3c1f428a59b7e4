-- ===== src/Relay/Server.antt =====
-- servers/relay/src/server.hpp and server.cpp.
pub mod Forwarding
pub mod Routes
pub mod Ideal
use openmesh_messenger.Base.{
  Bool, true, false, Option, none, some, List, [], ◌∷◌, ◌++◌, Bytes, is_empty, if◌then◌else◌,
}
use openmesh_messenger.Base.Int.{ℤ, pos, ◌-ℤ◌}
use openmesh_messenger.Core.Hex.{to_hex}
use openmesh_messenger.Net.Endpoint.{Endpoint}
use openmesh_messenger.Net.Datagram.{Datagram, Transmission}
use openmesh_messenger.Protocol.Packet.{Packet, blank}
use openmesh_messenger.Protocol.Wire.{deserialize}
use openmesh_messenger.Relay.Router
use openmesh_messenger.Relay.Router.{RouteTable}

pub record Config : Type 0 where
  pub route_ttl_seconds : ℤ

abbrev pub default_config : Config
default_config = record { route_ttl_seconds = pos 60 }

pub record Relay : Type 0 where
  pub config : Config
  pub routes : RouteTable

abbrev pub init : Config → Relay
init config = record { config = config; routes = [] }

-- The C++ `Forward`: an endpoint and the raw bytes for it.
abbrev pub Forward : Type 0
Forward = Transmission

abbrev pub push : List Forward → Endpoint → Bytes → List Forward
push out to datagram = out ++ (record { to = to; content = datagram } ∷ [])

-- Learn where the source is reachable.
unfoldable pub learn : RouteTable → Packet → Endpoint → ℤ → RouteTable
learn routes packet from now =
    if is_empty packet.source then routes else Router.upsert (to_hex packet.source) from now routes

unfoldable pub forward_to : Option Endpoint → Bytes → List Forward → List Forward
forward_to none datagram out = out
forward_to (some e) datagram out = push out e datagram

-- Forward anything addressed to a peer with a known route.
unfoldable pub forward : RouteTable → Packet → Bytes → List Forward → List Forward
unfolding forward_to
forward routes packet datagram out =
    if is_empty packet.destination
    then out
    else forward_to (Router.lookup (to_hex packet.destination) routes) datagram out

-- The part of `handle` behind `deserialize`.
unfoldable pub handle_parsed :
    Relay → Bytes → Endpoint → ℤ → List Forward → Bool × Packet → Relay × List Forward
handle_parsed r datagram from now out (false, packet) = (r, out)
handle_parsed r datagram from now out (true, packet) =
    let routes = learn r.routes packet from now in
    (record r { routes = routes }, forward routes packet datagram out)

unfoldable pub handle : Relay → Bytes → Endpoint → ℤ → List Forward → Relay × List Forward
handle r datagram from now out = handle_parsed r datagram from now out (deserialize datagram blank)

unfoldable pub expire : Relay → ℤ → Relay
expire r now = record r { routes = Router.expire (now -ℤ r.config.route_ttl_seconds) r.routes }

-- One turn: the relay afterwards, what it sends, and whether a datagram came.
unfoldable pub run_once : Relay → Option Datagram → ℤ → Relay × List Transmission × Bool
run_once r none now = (expire r now, [], false)
run_once r (some dg) now =
    let (r', out) = handle r dg.content dg.from now [] in (expire r' now, out, true)

-- The turns of `run`, each with its datagram and its time.
unfoldable pub run_turns : Relay → List (Option Datagram × ℤ) → Relay
run_turns r [] = r
run_turns r ((dg, now) ∷ turns) = run_turns (run_once r dg now).0 turns
