-- ===== src/Tests/Signaling.antt =====
-- A signaling server with one generated peer.
use openmesh_messenger.Base.{
  ◌≡◌, refl, false, none, some, [], ◌∷◌, arith, Bytes, is_empty, if◌then◌else◌, length, bytes_eq,
  ◌^◌, ◌<◌,
}
use openmesh_messenger.Base.Assoc.{find}
use openmesh_messenger.Base.Int.{pos, ◌+ℤ◌, ltb_ℤ}
use openmesh_messenger.Core.Hex.{to_hex}
use openmesh_messenger.Crypto.Sign.{sign_detached, length-sign_detached}
use openmesh_messenger.Net.Endpoint.{Endpoint, to_string, parse_endpoint}
use openmesh_messenger.Protocol.Packet.{Packet, blank}
use openmesh_messenger.Protocol.PacketType
use openmesh_messenger.Signaling.Registry.{Entry, lookup}
use openmesh_messenger.Signaling.Server.{
  Server, Pending, default_config, init, make, push, handle, handle_register, challenge_peer,
  expire,
}
use openmesh_messenger.Signaling.Server.Invariant.{IsValid, handle-IsValid}
use openmesh_messenger.Signaling.Server.Handshake.{Proves, registered_only_by_proof}
use openmesh_messenger.Signaling.Server.Completion.{
  hello_server, answer, issued, handle-hello_server, same_endpoint_refl, challenge_serves_once,
  handshake_registers,
}
use openmesh_messenger.Signaling.Server.Queries.{
  description, Replies, discover_answers, handle-Replies,
}
use openmesh_messenger.Signaling.Server.Expiry.{
  expire_exact, heartbeat_moves_peer, disconnect_removes_peer,
}
use openmesh_messenger.Tests.Toy.{toy, toy-IsSodium, public_part, toy_keypair}

abbrev seed : Bytes
seed = 1 ∷ 2 ∷ []

abbrev sk : Bytes
sk = toy.keypair seed

abbrev pk : Bytes
pk = toy.sk_to_pk sk

abbrev nonce : Bytes
nonce = 5 ∷ 6 ∷ []

abbrev home : Endpoint
home = record { host = b'h' ∷ []; port = 4000 }

abbrev away : Endpoint
away = record { host = b'a' ∷ []; port = 4001 }

abbrev fresh_server : Server
fresh_server = init default_config

-- The server after the first REGISTER of the handshake.
abbrev challenged : Server
challenged = (handle toy fresh_server nonce (hello_server pk) home (pos 100) []).0

abbrev signed : Packet
signed = answer pk (sign_detached toy nonce sk)

challenged-IsValid : IsValid challenged
challenged-IsValid =
    handle-IsValid toy fresh_server nonce (hello_server pk) home (pos 100) []
      (record { registry = tt; pending = tt })

not_late : ltb_ℤ (pos 100 +ℤ fresh_server.config.challenge_ttl_seconds) (pos 110) ≡ false
unfolding ◌+ℤ◌
not_late = refl

sized : length pk ≡ 32
sized = toy-IsSodium.length-sk_to_pk seed

stored :
    find (to_hex pk) challenged.pending
    ≡ some (issued toy fresh_server nonce pk home (pos 100) [] sized)
stored = (handle-hello_server toy fresh_server nonce pk home (pos 100) [] sized).0

registered :
    (lookup (to_hex pk) (handle toy challenged [] signed home (pos 110) []).0.registry ≡ some home)
    × ((handle toy challenged [] signed home (pos 110) []).1
        ≡ push [] home (make PacketType.ack [] [] (to_string home)))
registered =
    handshake_registers toy fresh_server seed nonce [] home (pos 100) (pos 110) [] [] toy-IsSodium
      not_late

absent : lookup (to_hex pk) challenged.registry ≡ none
unfolding handle handle_register challenge_peer make lookup find is_empty public_part toy_keypair
absent = refl

registered_only_by_proof_example :
    Proves toy challenged signed home (pos 110) (to_hex pk) × (◌≡◌ {A = Endpoint} home home)
registered_only_by_proof_example =
    registered_only_by_proof toy challenged [] signed home (pos 110) [] (to_hex pk)
      challenged-IsValid absent registered.0

long : length (sign_detached toy nonce sk) ≡ 64
long = length-sign_detached toy toy-IsSodium nonce seed

challenge_serves_once_example :
    let t = (handle toy challenged [] signed home (pos 110) []).0 in
    handle toy t [] signed away (pos 111) [] ≡ (t, [])
unfolding make
challenge_serves_once_example =
    challenge_serves_once toy challenged signed signed home away (pos 110) (pos 111)
      (issued toy fresh_server nonce pk home (pos 100) [] sized) [] [] [] [] challenged-IsValid refl
      sized long stored not_late (same_endpoint_refl home) refl refl long

-- A server that knows one peer and waits for another.
abbrev entry : Entry
entry = record { endpoint = home; last_seen = pos 200 }

abbrev waiting : Pending
waiting = record { challenge = nonce; endpoint = away; expiry = pos 230 }

abbrev peer : Bytes
peer =
    1 ∷ 2 ∷ 3 ∷ 4 ∷ 5 ∷ 6 ∷ 7 ∷ 8 ∷ 9 ∷ 10 ∷ 11 ∷ 12 ∷ 13 ∷ 14 ∷ 15 ∷ 16 ∷ 17 ∷ 18 ∷ 19 ∷ 20 ∷ 21
    ∷ 22 ∷ 23 ∷ 24 ∷ 25 ∷ 26 ∷ 27 ∷ 28 ∷ 29 ∷ 30 ∷ 31 ∷ 32 ∷ []

abbrev busy : Server
busy = record {
  config = default_config;
  registry = (to_hex peer, entry) ∷ [];
  pending = (to_hex peer, waiting) ∷ [];
}

busy-IsValid : IsValid busy
unfolding find
busy-IsValid = record { registry = (refl, tt); pending = (refl, tt) }

known : lookup (to_hex peer) busy.registry ≡ some home
unfolding lookup find bytes_eq to_hex
known = refl

abbrev query : Packet
query = record blank { type = PacketType.discover; destination = peer }

small_port : (e : Endpoint) → lookup (to_hex peer) busy.registry ≡ some e → e.port < 2 ^ 16
small_port e h = omega (arith, ports e h)
  where
    ports : (d : Endpoint) → lookup (to_hex peer) busy.registry ≡ some d → d.port ≡ 4000
    ports d g = ground (arith, known, g)

discover_answers_example :
    let reply = description toy busy [] query away (pos 210) [] in
    (handle toy busy [] query away (pos 210) [] ≡ (busy, push [] away reply))
    × (reply.source ≡ query.destination)
    × (parse_endpoint reply.payload ≡ lookup (to_hex peer) busy.registry)
unfolding is_empty
discover_answers_example = discover_answers toy busy [] query away (pos 210) [] refl refl small_port

handle-Replies_example :
    Replies toy busy [] query away (pos 210) [] (handle toy busy [] query away (pos 210) []).1
handle-Replies_example = handle-Replies toy busy [] query away (pos 210) []

expire_exact_example :
    (find (to_hex peer) (expire busy (pos 231)).registry ≡ some entry)
    × (find (to_hex peer) (expire busy (pos 231)).pending ≡ none)
unfolding find bytes_eq to_hex ◌+ℤ◌
expire_exact_example = expire_exact busy (pos 231) (to_hex peer) busy-IsValid

abbrev beat : Packet
beat = record blank { type = PacketType.heartbeat; source = peer }

heartbeat_moves_peer_example :
    let s' = (handle toy busy [] beat away (pos 210) []).0 in
    (find (to_hex peer) s'.registry ≡ some (record { endpoint = away; last_seen = pos 210 }))
    × (s'.pending ≡ busy.pending)
unfolding find bytes_eq to_hex
heartbeat_moves_peer_example =
    heartbeat_moves_peer toy busy [] beat away (pos 210) [] (to_hex peer) refl

abbrev bye : Packet
bye = record blank { type = PacketType.disconnect; source = peer }

disconnect_removes_peer_example :
    lookup (to_hex peer) (handle toy busy [] bye away (pos 210) []).0.registry
    ≡ (if bytes_eq (to_hex peer) (to_hex peer) then none else lookup (to_hex peer) busy.registry)
disconnect_removes_peer_example =
    disconnect_removes_peer toy busy [] bye away (pos 210) [] (to_hex peer) busy-IsValid refl refl
