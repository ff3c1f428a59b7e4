-- ===== src/Signaling/Server/Handshake.antt =====
-- REGISTER: who gets into the registry, and how often a challenge serves.
use openmesh_messenger.Base.{
  ◌≡◌, refl, ap, ◌⊎◌, inl, inr, true, false, Option, none, some, List, arith, Bytes, is_empty,
  bytes_eq, bytes_eq_iff, if◌then◌else◌, ◌==◌, Bool-cases, length,
}
use openmesh_messenger.Base.Assoc.{IsUnique, find}
use openmesh_messenger.Base.Int.{ℤ, ltb_ℤ}
use openmesh_messenger.Crypto.Sodium.{Sodium}
use openmesh_messenger.Crypto.Sizes.{public_key_bytes, signature_bytes}
use openmesh_messenger.Crypto.Sign.{verify_detached}
use openmesh_messenger.Core.Hex.{to_hex}
use openmesh_messenger.Net.Endpoint.{Endpoint, same_endpoint}
use openmesh_messenger.Protocol.Packet.{Packet}
use openmesh_messenger.Protocol.PacketType
use openmesh_messenger.Signaling.Registry.{lookup, lookup-upsert, lookup-remove}
use openmesh_messenger.Signaling.Server.Invariant.{IsValid}
use openmesh_messenger.Signaling.Server.{
  Server, Pending, Outgoing, challenge_peer, admit, check_signature, handle_register,
  handle_discover, handle_connect, refresh, handle_heartbeat, handle_disconnect, handle,
}

module _ (na : Sodium) where
  -- The packet answers, in time and from the same endpoint, a challenge that the server issued for
  -- the key, by a signature that verifies under the very public key that it names.
  pub record Proves (s : Server) (packet : Packet) (from : Endpoint) (now : ℤ) (k : Bytes)
      : Type 0 where
    pub typed : packet.type ≡ PacketType.register
    pub named : to_hex packet.source ≡ k
    pub sized : length packet.source ≡ public_key_bytes
    pub pending : Pending
    pub issued : find k s.pending ≡ some pending
    pub in_time : ltb_ℤ pending.expiry now ≡ false
    pub same_path : same_endpoint pending.endpoint from ≡ true
    pub signed : verify_detached na packet.payload pending.challenge packet.source ≡ true

  module _ (s : Server) (c : Bytes) (packet : Packet) (from : Endpoint) (now : ℤ)
      (out : List Outgoing) (k : Bytes) where
    admit-lookup :
        lookup k (admit s (to_hex packet.source) from now out).0.registry
        ≡ (if bytes_eq (to_hex packet.source) k then some from else lookup k s.registry)
    unfolding admit
    admit-lookup = lookup-upsert (to_hex packet.source) k from now s.registry

    -- Either the key is looked up as before, or it was proved and is found at the packet's origin.
    abbrev Outcome : Server → Type 0
    Outcome t =
        (lookup k t.registry ≡ lookup k s.registry)
        ⊎ (Proves s packet from now k × (lookup k t.registry ≡ some from))

    check_signature-cases :
        (o : Option Pending)
        → packet.type ≡ PacketType.register
        → length packet.source ≡ public_key_bytes
        → find (to_hex packet.source) s.pending ≡ o
        → Outcome (check_signature na s o packet (to_hex packet.source) from now out).0
    unfolding check_signature
    check_signature-cases none t z e = inl refl
    check_signature-cases (some p) t z e = elim (Bool-cases (ltb_ℤ p.expiry now)) [
      | inl late ↦ inl (ground (arith, late))
      | inr in_time ↦ elim (Bool-cases (same_endpoint p.endpoint from)) [
        | inr elsewhere ↦ inl (ground (arith, in_time, elsewhere))
        | inl here ↦
            elim (Bool-cases (verify_detached na packet.payload p.challenge packet.source)) [
              | inr forged ↦ inl (ground (arith, in_time, here, forged))
              | inl signed ↦ elim (Bool-cases (bytes_eq (to_hex packet.source) k)) [
                | inr other ↦ inl (ground (arith, in_time, here, signed, other, admit-lookup))
                | inl same ↦ inr (
                  record {
                    typed = t;
                    named = (bytes_eq_iff _ _).0 same;
                    sized = z;
                    pending = p;
                    issued = rw (← (bytes_eq_iff (to_hex packet.source) k).0 same) e;
                    in_time = in_time;
                    same_path = here;
                    signed = signed;
                  },
                  ground (arith, in_time, here, signed, same, admit-lookup),
                )
              ]
            ]
      ]
    ]

    challenge_peer-registry :
        (challenge_peer s c (to_hex packet.source) from now out).0.registry ≡ s.registry
    unfolding challenge_peer
    challenge_peer-registry = refl

    register-cases :
        packet.type ≡ PacketType.register → Outcome (handle_register na s c packet from now out).0
    unfolding handle_register
    register-cases t = elim (Bool-cases (length packet.source == public_key_bytes)) [
      | inr wrong ↦ inl (ground (arith, wrong))
      | inl fits ↦ elim (Bool-cases (is_empty packet.payload)) [
        | inl first ↦ inl (ground (arith, fits, first, ap (lookup k) challenge_peer-registry))
        | inr second ↦ elim (Bool-cases (length packet.payload == signature_bytes)) [
          | inr other ↦ inl (ground (arith, fits, second, other))
          | inl sig ↦
              rw (fits, second, sig, handle_register)
                (check_signature-cases (find (to_hex packet.source) s.pending) t (ground arith)
                  refl)
        ]
      ]
    ]

    heartbeat-none :
        lookup k s.registry ≡ none
        → lookup k (handle_heartbeat s packet from now out).0.registry ≡ none
    unfolding handle_heartbeat refresh
    heartbeat-none h = ground (
      arith,
      lookup-upsert (to_hex packet.source) k from now s.registry,
      bytes_eq_iff (to_hex packet.source) k,
    )

    disconnect-none :
        IsUnique s.registry
        → lookup k s.registry ≡ none
        → lookup k (handle_disconnect s packet).registry ≡ none
    unfolding handle_disconnect
    disconnect-none u h = ground (arith, lookup-remove (to_hex packet.source) k s.registry u)

    queries-registry :
        ((handle_discover s packet from out).0 ≡ s) × ((handle_connect s packet out).0 ≡ s)
    unfolding handle_discover handle_connect
    queries-registry = ground arith

    -- In a server with each key at most once in its registry and its pending challenges, a key that
    -- was not registered becomes registered by no packet but a signed REGISTER for it that answers
    -- a pending, unexpired challenge from the endpoint that was challenged, and then at the
    -- endpoint that the packet came from.
    pub registered_only_by_proof :
        {e : Endpoint}
        → IsValid s
        → lookup k s.registry ≡ none
        → lookup k (handle na s c packet from now out).0.registry ≡ some e
        → Proves s packet from now k × (e ≡ from)
    unfolding handle
    registered_only_by_proof v absent found =
        elim (Bool-cases (packet.type == PacketType.register)) [
          | inl is ↦ elim (register-cases (ground arith)) [
            | inl same ↦ absurd (ground (arith, is, same))
            | inr (proved, there) ↦ (proved, ground (arith, is, there))
          ]
          | inr is_not ↦ absurd (
              ground (
                arith,
                is_not,
                heartbeat-none absent,
                disconnect-none v.registry absent,
                queries-registry,
              ))
        ]
