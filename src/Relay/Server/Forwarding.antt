-- ===== src/Relay/Server/Forwarding.antt =====
-- What the relay sends, and that it does not look at payloads.
use openmesh_messenger.Base.{
  ◌≡◌, refl, ap, ◌∙◌, ◌⊎◌, inl, inr, Bool, true, false, Option, none, List, arith, Bytes, is_empty,
  if◌then◌else◌, Option-cases, Bool-cases,
}
use openmesh_messenger.Base.Int.{ℤ}
use openmesh_messenger.Core.Hex.{to_hex}
use openmesh_messenger.Net.Endpoint.{Endpoint}
use openmesh_messenger.Protocol.Packet.{Packet, IsWire, blank}
use openmesh_messenger.Protocol.Wire.{serialize, deserialize, ParseError, succeeded}
use openmesh_messenger.Protocol.Wire.RoundTrip.{parse-serialize}
use openmesh_messenger.Relay.Router.{RouteTable, lookup}
use openmesh_messenger.Relay.Server.{
  Relay, Forward, push, learn, forward_to, forward, handle_parsed, handle,
}

pub deserialize-serialize : (p out : Packet) → IsWire p → deserialize (serialize p) out ≡ (true, p)
unfolding deserialize
deserialize-serialize p out w =
    ap (λ (r : ParseError × Packet). (succeeded r.0, r.1)) (parse-serialize p out w)

-- What the relay sends for a parsed packet: the very datagram, to a route of the packet's destination.
module _ (r : Relay) (datagram : Bytes) (from : Endpoint) (now : ℤ) (out : List Forward) where
  abbrev pub Sends : List Forward → Type 0
  Sends new = (new ≡ out) ⊎ ((e : Endpoint) × (new ≡ push out e datagram))

  parsed-Sends : (q : Bool × Packet) → Sends (handle_parsed r datagram from now out q).1
  unfolding handle_parsed forward forward_to
  parsed-Sends (false, packet) = inl refl
  parsed-Sends (true, packet) =
      let routes = learn r.routes packet from now in
      elim (Option-cases (lookup (to_hex packet.destination) routes)) [
        | inl gone ↦ inl (ground (arith, gone))
        | inr (e, there) ↦ elim (Bool-cases (is_empty packet.destination)) [
          | inl empty ↦ inl (ground (arith, empty))
          | inr full ↦ inr (e, ground (arith, full, there))
        ]
      ]

  -- Whatever bytes arrive, the relay sends at most one datagram, and that one is the bytes that
  -- arrived, unchanged.
  pub forwards_verbatim : Sends (handle r datagram from now out).1
  unfolding handle
  forwards_verbatim = parsed-Sends (deserialize datagram blank)

  -- A datagram that does not parse changes no route and is not forwarded.
  pub garbage_is_dropped :
      (deserialize datagram blank).0 ≡ false → handle r datagram from now out ≡ (r, out)
  unfolding handle handle_parsed
  garbage_is_dropped h = ground (arith, h)

module _ (r : Relay) (p : Packet) (from : Endpoint) (now : ℤ) (out : List Forward)
    (w : IsWire p) where
  -- On a packet that the wire format can carry, `handle` first learns the source and then looks up the
  -- destination in what it has learned.
  pub handle-serialize :
      let routes = learn r.routes p from now in
      handle r (serialize p) from now out
      ≡ (record r { routes = routes }, forward routes p (serialize p) out)
  unfolding handle
  handle-serialize = rw (deserialize-serialize p blank w) (unfold handle_parsed in refl)

-- Where a packet is forwarded to.
pub target : RouteTable → Packet → Option Endpoint
target routes p = if is_empty p.destination then none else lookup (to_hex p.destination) routes

pub forward-target :
    (routes : RouteTable) (p : Packet) (datagram : Bytes) (out : List Forward)
    → forward routes p datagram out ≡ forward_to (target routes p) datagram out
unfolding forward target
forward-target routes p datagram out = ground arith

-- The routing decision does not depend on the payload, nor on any other field but the source and
-- the destination: two packets that the wire format can carry and that agree in those lead to the
-- same routes, and each is forwarded, as its own bytes, to the same endpoint as the other or not at
-- all.
pub payload_is_opaque :
    (r : Relay) (p q : Packet) (from : Endpoint) (now : ℤ) (out : List Forward)
    → IsWire p
    → IsWire q
    → p.source ≡ q.source
    → p.destination ≡ q.destination
    → ((handle r (serialize p) from now out).0 ≡ (handle r (serialize q) from now out).0)
      × ((to : Option Endpoint) × ((handle r (serialize p) from now out).1
            ≡ forward_to to (serialize p) out)
          × ((handle r (serialize q) from now out).1 ≡ forward_to to (serialize q) out))
unfolding learn target
payload_is_opaque r p q from now out v w s d =
    let routes = learn r.routes p from now in
    let same : learn r.routes q from now ≡ routes = rw s refl in
    rw (handle-serialize r p from now out v, handle-serialize r q from now out w)
      (
        rw same refl,
        (
          target routes p,
          forward-target routes p (serialize p) out,
          rw same (forward-target routes q (serialize q) out ∙ rw d refl),
        ),
      )
