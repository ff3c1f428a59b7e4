-- ===== src/Signaling/Server/Invariant.antt =====
-- No handler puts a key twice into a map of the server.
use openmesh_messenger.Base.{
  ◌≡◌, Bool, true, false, Option, none, some, List, [], ◌∷◌, arith, Bytes,
}
use openmesh_messenger.Base.Assoc.{
  IsUnique, insert-IsUnique, erase-IsUnique, erase_if-IsUnique, find,
}
use openmesh_messenger.Base.Int.{ℤ}
use openmesh_messenger.Crypto.Sodium.{Sodium}
use openmesh_messenger.Core.Hex.{to_hex}
use openmesh_messenger.Net.Endpoint.{Endpoint}
use openmesh_messenger.Net.Datagram.{Datagram}
use openmesh_messenger.Protocol.Packet.{Packet, blank}
use openmesh_messenger.Protocol.Wire.{deserialize}
use openmesh_messenger.Signaling.Registry.{
  PeerRegistry, upsert-IsUnique, remove-IsUnique, expire-IsUnique, lookup,
}
use openmesh_messenger.Signaling.Server.{
  Server, Config, Pending, Outgoing, init, challenge_peer, admit, check_signature, handle_register,
  handle_discover, handle_connect, refresh, handle_heartbeat, handle_disconnect, handle, expire,
  received, run_once, run_turns,
}

pub record IsValid (s : Server) : Type 0 where
  pub registry : IsUnique s.registry
  pub pending : IsUnique s.pending

challenge_peer-IsValid :
    (s : Server) (c key : Bytes) (from : Endpoint) (now : ℤ) (out : List Outgoing)
    → IsValid s
    → IsValid (challenge_peer s c key from now out).0
unfolding challenge_peer
challenge_peer-IsValid s c key from now out v = record {
  registry = v.registry;
  pending = insert-IsUnique key _ s.pending v.pending;
}

admit-IsValid :
    (s : Server) (key : Bytes) (from : Endpoint) (now : ℤ) (out : List Outgoing)
    → IsValid s
    → IsValid (admit s key from now out).0
unfolding admit
admit-IsValid s key from now out v = record {
  registry = upsert-IsUnique key from now s.registry v.registry;
  pending = erase-IsUnique key s.pending v.pending;
}

refresh-IsUnique :
    (m : PeerRegistry) (key : Bytes) (o : Option Endpoint) (from : Endpoint) (now : ℤ)
    → IsUnique m
    → IsUnique (refresh m key o from now)
unfolding refresh
refresh-IsUnique m key none from now u = u
refresh-IsUnique m key (some e) from now u = upsert-IsUnique key from now m u

handle_heartbeat-IsValid :
    (s : Server) (packet : Packet) (from : Endpoint) (now : ℤ) (out : List Outgoing)
    → IsValid s
    → IsValid (handle_heartbeat s packet from now out).0
unfolding handle_heartbeat
handle_heartbeat-IsValid s packet from now out v =
    let key = to_hex packet.source in
    ground (arith, refresh-IsUnique s.registry key (lookup key s.registry) from now v.registry)

handle_disconnect-IsValid :
    (s : Server) (packet : Packet) → IsValid s → IsValid (handle_disconnect s packet)
unfolding handle_disconnect
handle_disconnect-IsValid s packet v =
    ground (arith, remove-IsUnique (to_hex packet.source) s.registry v.registry)

pub expire-IsValid : (s : Server) (now : ℤ) → IsValid s → IsValid (expire s now)
unfolding expire
expire-IsValid s now v = record {
  registry = expire-IsUnique _ s.registry v.registry;
  pending = erase_if-IsUnique _ s.pending v.pending;
}

module _ (na : Sodium) where
  check_signature-IsValid :
      (s : Server) (o : Option Pending) (packet : Packet) (key : Bytes) (from : Endpoint) (now : ℤ)
      (out : List Outgoing)
      → IsValid s
      → IsValid (check_signature na s o packet key from now out).0
  unfolding check_signature
  check_signature-IsValid s none packet key from now out v = v
  check_signature-IsValid s (some p) packet key from now out v =
      ground (arith, admit-IsValid s key from now out v, erase-IsUnique key s.pending v.pending)

  handle_register-IsValid :
      (s : Server) (c : Bytes) (packet : Packet) (from : Endpoint) (now : ℤ) (out : List Outgoing)
      → IsValid s
      → IsValid (handle_register na s c packet from now out).0
  unfolding handle_register
  handle_register-IsValid s c packet from now out v =
      let key = to_hex packet.source in
      ground (
        arith,
        challenge_peer-IsValid s c key from now out v,
        check_signature-IsValid s (find key s.pending) packet key from now out v,
      )

  handle_queries-registry :
      (s : Server) (packet : Packet) (from : Endpoint) (out : List Outgoing)
      → ((handle_discover s packet from out).0 ≡ s) × ((handle_connect s packet out).0 ≡ s)
  unfolding handle_discover handle_connect
  handle_queries-registry s packet from out = ground arith

  -- Every packet leaves each key at most once in the registry and in the pending challenges.
  pub handle-IsValid :
      (s : Server) (c : Bytes) (packet : Packet) (from : Endpoint) (now : ℤ) (out : List Outgoing)
      → IsValid s
      → IsValid (handle na s c packet from now out).0
  unfolding handle
  handle-IsValid s c packet from now out v = ground (
    arith,
    handle_register-IsValid s c packet from now out v,
    handle_heartbeat-IsValid s packet from now out v,
    handle_disconnect-IsValid s packet v,
    handle_queries-registry s packet from out,
  )

  received-IsValid :
      (s : Server) (c : Bytes) (dg : Datagram) (now : ℤ) (r : Bool × Packet)
      → IsValid s
      → IsValid (received na s c dg now r).0
  unfolding received
  received-IsValid s c dg now (false, packet) v = v
  received-IsValid s c dg now (true, packet) v = handle-IsValid s c packet dg.from now [] v

  run_once-IsValid :
      (s : Server) (c : Bytes) (dg : Option Datagram) (now : ℤ)
      → IsValid s
      → IsValid (run_once na s c dg now).0
  unfolding run_once
  run_once-IsValid s c none now v = expire-IsValid s now v
  run_once-IsValid s c (some dg) now v =
      expire-IsValid _ now (received-IsValid s c dg now (deserialize dg.content blank) v)

  run_turns-IsValid :
      (s : Server) (turns : List (Bytes × Option Datagram × ℤ))
      → IsValid s
      → IsValid (run_turns na s turns)
  unfolding run_turns
  run_turns-IsValid s [] v = v
  run_turns-IsValid s ((c, dg, now) ∷ turns) v =
      run_turns-IsValid (run_once na s c dg now).0 turns (run_once-IsValid s c dg now v)

  -- After any history of datagrams, hostile ones too, a started server has each key at most once in
  -- its registry and in its pending challenges.
  run_turns-init-IsValid :
      (config : Config) (turns : List (Bytes × Option Datagram × ℤ))
      → IsValid (run_turns na (init config) turns)
  run_turns-init-IsValid config turns =
      run_turns-IsValid (init config) turns (record { registry = tt; pending = tt })
