-- ===== src/Signaling/Server/Expiry.antt =====
-- What `expire` takes out, and the two packets that move or remove a registered peer without proof.
use openmesh_messenger.Base.{
  ◌≡◌, refl, ap, ◌∙◌, Bool, ◌&&◌, ◌==◌, is_some, none, some, List, arith, Bytes, bytes_eq,
  if◌then◌else◌, length,
}
use openmesh_messenger.Base.Int.{ℤ, ltb_ℤ, ◌+ℤ◌, ◌-ℤ◌}
use openmesh_messenger.Base.Assoc.{find, find-erase_if, find-insert, unless}
use openmesh_messenger.Crypto.Sodium.{Sodium}
use openmesh_messenger.Crypto.Sizes.{public_key_bytes}
use openmesh_messenger.Core.Hex.{to_hex}
use openmesh_messenger.Net.Endpoint.{Endpoint}
use openmesh_messenger.Protocol.Packet.{Packet}
use openmesh_messenger.Protocol.PacketType
use openmesh_messenger.Signaling.Registry.{Entry, lookup, upsert, lookup-remove, find-expire}
use openmesh_messenger.Signaling.Server.Invariant.{IsValid}
use openmesh_messenger.Signaling.Server.{
  Server, Pending, Outgoing, refresh, handle_heartbeat, handle_disconnect, handle, expire,
  is_expired,
}

-- An entry is older than the cutoff `now - ttl` exactly if its time plus the ttl lies before now.
stale_iff : (seen now ttl : ℤ) → ltb_ℤ seen (now -ℤ ttl) ≡ ltb_ℤ (seen +ℤ ttl) now
unfolding ◌+ℤ◌ ◌-ℤ◌
stale_iff seen now ttl = ground arith

-- In a server with each key at most once: after `expire`, the entry of each key in the registry is
-- the one it had, unless its last sign of life plus the peer ttl lies before now, when there is
-- none; and the pending challenge of each key is the one it had, unless its own expiry time lies
-- before now, when there is none.
pub expire_exact :
    (s : Server) (now : ℤ) (k : Bytes)
    → IsValid s
    → (find k (expire s now).registry
        ≡ unless
            (λ (e : Entry). ltb_ℤ (e.last_seen +ℤ s.config.peer_ttl_seconds) now)
            (find k s.registry))
      × (find k (expire s now).pending
          ≡ unless (λ (p : Pending). ltb_ℤ p.expiry now) (find k s.pending))
unfolding expire
expire_exact s now k v = (
  find-expire (now -ℤ s.config.peer_ttl_seconds) k s.registry v.registry
      ∙ ap (λ (f : Entry → Bool). unless f (find k s.registry))
          (λ i e. stale_iff e.last_seen now s.config.peer_ttl_seconds i),
  find-erase_if (is_expired now) k s.pending v.pending,
)

-- `expire` brings nothing in: a key that is not registered stays so.
pub expire_adds_nothing :
    (s : Server) (now : ℤ) (k : Bytes)
    → IsValid s
    → find k s.registry ≡ none
    → find k (expire s now).registry ≡ none
unfolding expire
expire_adds_nothing s now k v r =
    rw (find-expire (now -ℤ s.config.peer_ttl_seconds) k s.registry v.registry, r) refl

module _ (na : Sodium) (s : Server) (c : Bytes) (packet : Packet) (from : Endpoint) (now : ℤ)
    (out : List Outgoing) where
  -- A HEARTBEAT that names a registered key, of the size of a public key, moves that key's
  -- registration to wherever the packet came from, seen now, whatever endpoint was proved at
  -- registration and whatever the payload is: no signature is asked for. Every other key keeps its
  -- entry, no HEARTBEAT registers a key that was not, and the pending challenges stay.
  pub heartbeat_moves_peer :
      (k : Bytes)
      → packet.type ≡ PacketType.heartbeat
      → let s' = (handle na s c packet from now out).0 in
        let key = to_hex packet.source in
        let moves = length packet.source == public_key_bytes && is_some (find key s.registry) in
        (find k s'.registry ≡ (
          if moves && bytes_eq key k
          then some (record { endpoint = from; last_seen = now })
          else find k s.registry))
        × (s'.pending ≡ s.pending)
  unfolding handle handle_heartbeat refresh upsert lookup
  heartbeat_moves_peer k t =
      let key = to_hex packet.source in
      let there = find-insert key k (record { endpoint = from; last_seen = now }) s.registry in
      (ground (arith, t, there), ground (arith, t))

  -- In a server with each key at most once, a DISCONNECT from anywhere removes the key that it
  -- names, of the size of a public key, and no other, with no signature asked for.
  pub disconnect_removes_peer :
      (k : Bytes)
      → IsValid s
      → packet.type ≡ PacketType.disconnect
      → length packet.source ≡ public_key_bytes
      → lookup k (handle na s c packet from now out).0.registry
        ≡ (if bytes_eq (to_hex packet.source) k then none else lookup k s.registry)
  unfolding handle handle_disconnect
  disconnect_removes_peer k v t z =
      ground (arith, t, z, lookup-remove (to_hex packet.source) k s.registry v.registry)
