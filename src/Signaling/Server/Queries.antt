-- ===== src/Signaling/Server/Queries.antt =====
-- DISCOVER, CONNECT, HEARTBEAT and DISCONNECT, and where replies go.
use openmesh_messenger.Base.{
  ◌^◌, ◌<◌, ◌≡◌, refl, ◌∙◌, ◌⊎◌, inl, inr, false, Option, none, some, List, [], arith, Bytes,
  is_empty, Bool-cases, Option-cases,
}
use openmesh_messenger.Base.Assoc.{find}
use openmesh_messenger.Base.Int.{ℤ}
use openmesh_messenger.Crypto.Sodium.{Sodium}
use openmesh_messenger.Core.Hex.{to_hex}
use openmesh_messenger.Net.Endpoint.{Endpoint, to_string, parse_endpoint}
use openmesh_messenger.Net.Endpoint.RoundTrip.{parse_endpoint-to_string}
use openmesh_messenger.Protocol.Packet.{Packet}
use openmesh_messenger.Protocol.PacketType
use openmesh_messenger.Signaling.Registry.{lookup}
use openmesh_messenger.Signaling.Server.{
  Server, Pending, Outgoing, make, push, challenge_peer, admit, check_signature, handle_register,
  endpoint_text, handle_discover, forward_to, handle_connect, handle_heartbeat, handle,
}

parse-endpoint_text :
    (o : Option Endpoint)
    → ((e : Endpoint) → o ≡ some e → e.port < 2 ^ 16)
    → parse_endpoint (endpoint_text o) ≡ o
unfolding endpoint_text
parse-endpoint_text none h = unfold parse_endpoint is_empty in refl
parse-endpoint_text (some e) h = parse_endpoint-to_string e (h e refl)

module _ (na : Sodium) (s : Server) (c : Bytes) (packet : Packet) (from : Endpoint) (now : ℤ)
    (out : List Outgoing) where
  -- The answer to DISCOVER.
  abbrev pub description : Packet
  description =
      make PacketType.connect packet.destination []
        (endpoint_text (lookup (to_hex packet.destination) s.registry))

  -- A DISCOVER with a destination changes nothing in the server and is answered by one CONNECT
  -- about that destination, from which the client's `parse_endpoint` reads exactly what the
  -- registry holds: the endpoint of a registered peer, and nothing for any other. The port in the
  -- registry is a 16-bit number.
  pub discover_answers :
      packet.type ≡ PacketType.discover
      → is_empty packet.destination ≡ false
      → ((e : Endpoint) → lookup (to_hex packet.destination) s.registry ≡ some e → e.port < 2 ^ 16)
      → (handle na s c packet from now out ≡ (s, push out from description))
        × (description.source ≡ packet.destination)
        × (parse_endpoint description.payload ≡ lookup (to_hex packet.destination) s.registry)
  unfolding handle handle_discover make
  discover_answers t d ports = (ground (arith, t, d), refl, parse-endpoint_text _ ports)

  -- What one packet may add to the output.
  abbrev pub Replies : List Outgoing → Type 0
  Replies new =
      (new ≡ out)
      ⊎ ((r : Packet) × (new ≡ push out from r))
      ⊎ ((e : Endpoint) × (packet.type ≡ PacketType.connect)
          × (lookup (to_hex packet.destination) s.registry ≡ some e)
          × (new ≡ push out e packet))

  signature-replies :
      (o : Option Pending) (key : Bytes)
      → ((check_signature na s o packet key from now out).1 ≡ out)
        ⊎ ((check_signature na s o packet key from now out).1
            ≡ push out from (make PacketType.ack [] [] (to_string from)))
  unfolding check_signature admit
  signature-replies none key = inl refl
  signature-replies (some p) key = ground arith

  register-replies :
      ((handle_register na s c packet from now out).1 ≡ out)
      ⊎ ((handle_register na s c packet from now out).1
          ≡ push out from (make PacketType.hello [] [] c))
      ⊎ ((handle_register na s c packet from now out).1
          ≡ push out from (make PacketType.ack [] [] (to_string from)))
  unfolding handle_register challenge_peer
  register-replies =
      let key = to_hex packet.source in ground (arith, signature-replies (find key s.pending) key)

  discover-replies :
      ((handle_discover s packet from out).1 ≡ out)
      ⊎ ((handle_discover s packet from out).1 ≡ push out from description)
  unfolding handle_discover
  discover-replies = ground arith

  connect-replies :
      ((handle_connect s packet out).1 ≡ out)
      ⊎ ((e : Endpoint) × (lookup (to_hex packet.destination) s.registry ≡ some e)
          × ((handle_connect s packet out).1 ≡ push out e packet))
  unfolding handle_connect forward_to
  connect-replies = elim (Option-cases (lookup (to_hex packet.destination) s.registry)) [
    | inl gone ↦ inl (ground (arith, gone))
    | inr (e, there) ↦ elim (Bool-cases (is_empty packet.destination)) [
      | inl empty ↦ inl (ground (arith, empty))
      | inr full ↦ inr (e, there, ground (arith, full, there))
    ]
  ]

  heartbeat-replies :
      (handle_heartbeat s packet from now out).1
      ≡ push out from (make PacketType.heartbeat [] [] [])
  unfolding handle_heartbeat
  heartbeat-replies = ground arith

  handled : List Outgoing
  handled = (handle na s c packet from now out).1

  dispatch :
      (handled ≡ (handle_register na s c packet from now out).1)
      ⊎ (handled ≡ (handle_discover s packet from out).1)
      ⊎ ((packet.type ≡ PacketType.connect) × (handled ≡ (handle_connect s packet out).1))
      ⊎ (handled ≡ (handle_heartbeat s packet from now out).1)
      ⊎ (handled ≡ out)
  unfolding handled handle
  dispatch = ground arith

  -- Any packet, whatever its type, makes the server send at most one packet: a reply to the
  -- endpoint that the packet came from, or a CONNECT itself, unchanged, to the registered endpoint
  -- of its destination.
  pub handle-Replies : Replies (handle na s c packet from now out).1
  unfolding handled
  handle-Replies = elim dispatch [
    | inl e ↦ elim register-replies [
      | inl none' ↦ inl (e ∙ none')
      | inr (inl hi) ↦ inr (inl (_, e ∙ hi))
      | inr (inr ok) ↦ inr (inl (_, e ∙ ok))
    ]
    | inr (inl e) ↦ elim discover-replies [
      | inl none' ↦ inl (e ∙ none')
      | inr found ↦ inr (inl (_, e ∙ found))
    ]
    | inr (inr (inl (t, e))) ↦ elim connect-replies [
      | inl none' ↦ inl (e ∙ none')
      | inr (to, known, fwd) ↦ inr (inr (to, t, known, e ∙ fwd))
    ]
    | inr (inr (inr (inl e))) ↦ inr (inl (_, e ∙ heartbeat-replies))
    | inr (inr (inr (inr e))) ↦ inl e
  ]
