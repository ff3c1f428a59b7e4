-- ===== src/Relay/Server/Routes.antt =====
-- Who is reached through the relay, and for how long.
use openmesh_messenger.Base.{
  ◌≡◌, ◌≢◌, refl, ap, ◌∙◌, Bool, true, false, Option, none, some, List, [], ◌∷◌, arith, Bytes,
  IsBytes, is_empty, bytes_eq, bytes_eq_refl, bytes_eq_iff, if◌then◌else◌, inl, inr, Bool-cases,
}
use openmesh_messenger.Base.Assoc.{IsUnique}
use openmesh_messenger.Base.Int.{ℤ, ltb_ℤ, ◌+ℤ◌, ◌-ℤ◌}
use openmesh_messenger.Core.Hex.{to_hex, to_hex_injective}
use openmesh_messenger.Net.Endpoint.{Endpoint}
use openmesh_messenger.Net.Datagram.{Datagram}
use openmesh_messenger.Protocol.Packet.{Packet, IsWire, blank}
use openmesh_messenger.Protocol.Wire.{serialize, deserialize}
use openmesh_messenger.Relay.Router.{
  RouteTable, lookup, find-upsert, lookup-upsert, find-expire, upsert-IsUnique, expire-IsUnique,
}
use openmesh_messenger.Relay.Server.Forwarding.{handle-serialize}
use openmesh_messenger.Relay.Server.{
  Relay, Config, Forward, push, init, learn, forward_to, forward, handle_parsed, handle, expire,
  run_once, run_turns,
}

pub learn-IsUnique :
    (m : RouteTable) (p : Packet) (from : Endpoint) (now : ℤ)
    → IsUnique m
    → IsUnique (learn m p from now)
unfolding learn
learn-IsUnique m p from now u = elim (Bool-cases (is_empty p.source)) [
  | inl empty ↦ rw empty u
  | inr full ↦ rw full (upsert-IsUnique (to_hex p.source) from now m u)
]

parsed-IsUnique :
    (r : Relay) (d : Bytes) (from : Endpoint) (now : ℤ) (out : List Forward) (q : Bool × Packet)
    → IsUnique r.routes
    → IsUnique (handle_parsed r d from now out q).0.routes
unfolding handle_parsed
parsed-IsUnique r d from now out (false, p) u = u
parsed-IsUnique r d from now out (true, p) u = learn-IsUnique r.routes p from now u

pub expired-IsUnique : (r : Relay) (now : ℤ) → IsUnique r.routes → IsUnique (expire r now).routes
unfolding expire
expired-IsUnique r now u = expire-IsUnique _ r.routes u

run_once-IsUnique :
    (r : Relay) (dg : Option Datagram) (now : ℤ)
    → IsUnique r.routes
    → IsUnique (run_once r dg now).0.routes
unfolding run_once handle
run_once-IsUnique r none now u = expired-IsUnique r now u
run_once-IsUnique r (some dg) now u =
    expired-IsUnique _ now
      (parsed-IsUnique r dg.content dg.from now [] (deserialize dg.content blank) u)

run_turns-IsUnique :
    (r : Relay) (turns : List (Option Datagram × ℤ))
    → IsUnique r.routes
    → IsUnique (run_turns r turns).routes
unfolding run_turns
run_turns-IsUnique r [] u = u
run_turns-IsUnique r ((dg, now) ∷ turns) u =
    run_turns-IsUnique (run_once r dg now).0 turns (run_once-IsUnique r dg now u)

-- After any history of datagrams a started relay has at most one route for each key.
pub run_turns-init-IsUnique :
    (config : Config) (turns : List (Option Datagram × ℤ))
    → IsUnique (run_turns (init config) turns).routes
run_turns-init-IsUnique config turns = run_turns-IsUnique (init config) turns tt

stale_iff : (seen now ttl : ℤ) → ltb_ℤ seen (now -ℤ ttl) ≡ ltb_ℤ (seen +ℤ ttl) now
unfolding ◌+ℤ◌ ◌-ℤ◌
stale_iff seen now ttl = ground arith

module _ (r : Relay) (p : Packet) (here : Endpoint) (t sweep : ℤ) (out : List Forward)
    (v : IsWire p) (u : IsUnique r.routes) (full : is_empty p.source ≡ false) where
  -- The route of the peer after the sweep.
  learned :
      lookup (to_hex p.source) (expire (handle r (serialize p) here t out).0 sweep).routes
      ≡ (if ltb_ℤ (t +ℤ r.config.route_ttl_seconds) sweep then none else some here)
  unfolding expire lookup learn
  learned =
      let key = to_hex p.source in
      rw (handle-serialize r p here t out v) (
        ground (
          arith,
          full,
          find-expire (sweep -ℤ r.config.route_ttl_seconds) key (learn r.routes p here t)
              (learn-IsUnique r.routes p here t u),
          find-upsert key key here t r.routes,
          bytes_eq_refl key,
          stale_iff t sweep r.config.route_ttl_seconds,
        ))

-- The packets of another peer leave a route alone.
learn-other :
    (m : RouteTable) (q : Packet) (k : Bytes) (there : Endpoint) (t : ℤ)
    → IsBytes q.source
    → IsBytes k
    → q.source ≢ k
    → lookup (to_hex k) (learn m q there t) ≡ lookup (to_hex k) m
unfolding learn
learn-other m q k there t hq hk other = elim (Bool-cases (bytes_eq (to_hex q.source) (to_hex k))) [
  | inl same ↦ absurd (other (to_hex_injective q.source k hq hk ((bytes_eq_iff _ _).0 same)))
  | inr differ ↦ ground (arith, differ, lookup-upsert (to_hex q.source) (to_hex k) there t m)
]

forward-known :
    (m : RouteTable) (q : Packet) (d : Bytes) (out : List Forward) (e : Endpoint)
    → is_empty q.destination ≡ false
    → lookup (to_hex q.destination) m ≡ some e
    → forward m q d out ≡ push out e d
unfolding forward forward_to
forward-known m q d out e full known = ground (arith, full, known)

-- A peer whose packet `p` has reached the relay is reached through it: when the relay, which has
-- each key at most once, next sweeps its routes and `p` is no older than the route ttl, a packet
-- `q` of another sender that is addressed to it is forwarded, as its own bytes, to the endpoint
-- that `p` came from. Both packets are ones that the wire format can carry, and `p` names its
-- source.
pub announced_peer_is_reached :
    (r : Relay) (p q : Packet) (here there : Endpoint) (t sweep t' : ℤ) (out out' : List Forward)
    → IsWire p
    → IsWire q
    → IsUnique r.routes
    → is_empty p.source ≡ false
    → q.destination ≡ p.source
    → q.source ≢ p.source
    → ltb_ℤ (t +ℤ r.config.route_ttl_seconds) sweep ≡ false
    → let r' = expire (handle r (serialize p) here t out).0 sweep in
      (handle r' (serialize q) there t' out').1 ≡ push out' here (serialize q)
announced_peer_is_reached r p q here there t sweep t' out out' v w u full to other fresh =
    let r' = expire (handle r (serialize p) here t out).0 sweep in
    let kept : lookup (to_hex p.source) r'.routes ≡ some here =
      learned r p here t sweep out v u full ∙ rw fresh refl in
    let found : lookup (to_hex q.destination) (learn r'.routes q there t') ≡ some here =
      simp to
        (learn-other r'.routes q p.source there t' w.source_bytes v.source_bytes other ∙ kept) in
    ap (λ (s : Relay × List Forward). s.1) (handle-serialize r' q there t' out' w)
    ∙ forward-known (learn r'.routes q there t') q (serialize q) out' here (simp to full) found
