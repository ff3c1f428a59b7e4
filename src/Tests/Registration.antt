-- ===== src/Tests/Registration.antt =====
-- A client whose first request is lost, and the server that hears its second one.
use openmesh_messenger.Base.{
  leb, ◌+◌, ◌*◌, ◌≡◌, ◌≤◌, refl, ◌++◌, true, some, none, [], ◌∷◌, arith, Bytes, length,
}
use openmesh_messenger.Base.Int.{pos, ◌+ℤ◌}
use openmesh_messenger.Core.Hex.{to_hex}
use openmesh_messenger.Net.Endpoint.{Endpoint, to_string}
use openmesh_messenger.Net.Endpoint.Decimal.{decimal}
use openmesh_messenger.Net.SignalingClient.{Client, register_self}
use openmesh_messenger.Net.SignalingClient.Bounds.{register_sends_at_most}
use openmesh_messenger.Protocol.Packet.{IsWire}
use openmesh_messenger.Protocol.PacketType
use openmesh_messenger.Signaling.Registration.{
  lost, arriving, tried, sent_to, public_of, sign_of, first_turn, second_turn,
  registration_succeeds,
}
use openmesh_messenger.Signaling.Registry.{lookup}
use openmesh_messenger.Signaling.Server.{make, init, default_config, Server}
use openmesh_messenger.Signaling.Server.Completion.{hello_server, answer}
use openmesh_messenger.Tests.Toy.{toy, toy-IsSodium}

abbrev server : Server
server = init default_config

abbrev seed : Bytes
seed = 1 ∷ 2 ∷ []

abbrev nonce : Bytes
nonce = 5 ∷ 6 ∷ []

abbrev home : Endpoint
home = record { host = b'h' ∷ []; port = 4000 }

abbrev server_at : Endpoint
server_at = record { host = b's' ∷ []; port = 9000 }

abbrev client : Client
client = record {
  server = server_at;
  public_key = public_of toy server seed nonce [] home (pos 100) (pos 110);
  public_endpoint = none;
  incoming =
      lost 1
      ++ (arriving server_at (first_turn toy server seed nonce [] home (pos 100) (pos 110)).1
          ++ (arriving server_at (second_turn toy server seed nonce [] home (pos 100) (pos 110)).1
              ++ []));
  out = [];
}

hello-IsWire : IsWire (make PacketType.hello [] [] nonce)
unfolding make
hello-IsWire = omega arith

ack-IsWire : IsWire (make PacketType.ack [] [] (to_string home))
unfolding make to_string decimal
ack-IsWire = omega arith

registration_succeeds_example :
    let pk = public_of toy server seed nonce [] home (pos 100) (pos 110) in
    let sign = sign_of toy server seed nonce [] home (pos 100) (pos 110) in
    let (done, client') = register_self (λ before t. true) sign 3 client in
    (done ≡ true)
    × (client'.public_endpoint ≡ some home)
    × (lookup (to_hex pk) (second_turn toy server seed nonce [] home (pos 100) (pos 110)).0.registry
        ≡ some home)
    × (client'.out
        ≡ []
          ++ (tried 1 server_at pk
              ++ (sent_to client (hello_server pk) ∷ sent_to client (answer pk (sign nonce)) ∷ [])))
unfolding ◌+ℤ◌
registration_succeeds_example =
    registration_succeeds toy server seed nonce [] home (pos 100) (pos 110) 1 3 client server_at
      server_at [] toy-IsSodium hello-IsWire ack-IsWire (omega arith) refl (omega arith) refl refl

register_sends_at_most_example :
    length (register_self (λ before t. leb 1 (length before)) (λ c. c) 3 client).1.out ≤ 0 + 2 * 3
register_sends_at_most_example =
    register_sends_at_most (λ before t. leb 1 (length before)) (λ c. c) 3 client
