-- ===== src/Tests/Session.antt =====
-- Two peers with a session between them.
use openmesh_messenger.Base.{
  ◌≡◌, refl, ap, ◌⊎◌, ◌≤◌, Option, some, List, [], ◌∷◌, arith, IsBytes, Bytes, true, false, length,
}
use openmesh_messenger.Protocol.Packet.{Packet, blank}
use openmesh_messenger.Protocol.PacketType
use openmesh_messenger.Protocol.Wire.{serialize, parse, ok}
use openmesh_messenger.Messaging.Session.{Session, session, encrypt_as, decrypt, is_fresh}
use openmesh_messenger.Messaging.Session.Transfer.{Paired, sessions_pair, decrypt-encrypt_as}
use openmesh_messenger.Messaging.Session.Replay.{
  Accepts, Rising, received_at, receive_all, decrypt-Accepts, receive_all-Rising,
}
use openmesh_messenger.Messaging.Session.Stream.{
  Sending, arriving, surviving, surviving_messages_arrive, datagram_arrives,
}
use openmesh_messenger.Tests.Toy.{toy, toy-IsSodium, block, block-IsBytes}

abbrev alice_sk : Bytes
alice_sk = toy.keypair (1 ∷ [])

abbrev alice_pk : Bytes
alice_pk = toy.sk_to_pk alice_sk

abbrev bob_sk : Bytes
bob_sk = toy.keypair (2 ∷ [])

abbrev bob_pk : Bytes
bob_pk = toy.sk_to_pk bob_sk

sessions_pair_example :
    let a = session toy alice_pk alice_sk bob_pk in
    let b = session toy bob_pk bob_sk alice_pk in
    ((a.valid ≡ false) × (b.valid ≡ false)) ⊎ Paired a b
sessions_pair_example = sessions_pair toy toy-IsSodium (1 ∷ []) (2 ∷ [])

-- Two ends with small keys.
abbrev key : Bytes
key = block 32 (7 ∷ [])

abbrev a : Session
a = record {
  local_public = 1 ∷ [];
  remote_public = 2 ∷ [];
  shared_key = key;
  valid = true;
  send_counter = 4;
  have_received = false;
  last_received = 0;
}

abbrev b : Session
b = record a {
  local_public = 2 ∷ [];
  remote_public = 1 ∷ [];
  have_received = true;
  last_received = 3;
}

a-b-Paired : Paired a b
unfolding block
a-b-Paired = record {
  valid_a = refl;
  valid_b = refl;
  key = refl;
  key_sized = refl;
  there = refl;
  back = refl;
}

abbrev nonce : Bytes
nonce = block 24 (5 ∷ [])

nonce-length : length nonce ≡ 24
unfolding block
nonce-length = refl

abbrev text : Bytes
text = 104 ∷ 105 ∷ []

abbrev sent : Packet
sent = (encrypt_as toy nonce a PacketType.message text).0

b_fresh : is_fresh b 4 ≡ true
unfolding is_fresh
b_fresh = refl

read : decrypt toy b sent ≡ (some text, received_at b 4)
read =
    decrypt-encrypt_as toy toy-IsSodium a b PacketType.message nonce text a-b-Paired nonce-length
      b_fresh

read_text : (decrypt toy b sent).0 ≡ some text
read_text = ap (λ (r : Option Bytes × Session). r.0) read

decrypt-Accepts_example :
    Accepts toy b sent text × ((decrypt toy b sent).1 ≡ received_at b sent.counter)
decrypt-Accepts_example = decrypt-Accepts toy b sent text read_text

not_above : sent.counter ≤ sent.counter
not_above = omega arith

receive_all-Rising_example : Rising b (receive_all toy b (sent ∷ sent ∷ []))
receive_all-Rising_example = receive_all-Rising toy b (sent ∷ sent ∷ [])

abbrev run : List Sending
run =
    record { type = PacketType.message; text = text; nonce = nonce; lost = true }
    ∷ record { type = PacketType.message; text = 33 ∷ []; nonce = nonce; lost = false }
    ∷ []

surviving_messages_arrive_example : receive_all toy b (arriving toy a run) ≡ surviving 4 run
surviving_messages_arrive_example =
    surviving_messages_arrive toy toy-IsSodium a b run a-b-Paired (nonce-length, (nonce-length, tt))
      (λ r. omega arith) (omega arith)

datagram_arrives_example :
    let (e, p) = parse (serialize sent) blank in (e ≡ ok) × ((decrypt toy b p).0 ≡ some text)
datagram_arrives_example =
    datagram_arrives toy toy-IsSodium a b PacketType.message nonce text blank a-b-Paired
      nonce-length b_fresh (omega arith) (omega arith) (omega arith) (omega arith) (omega arith)
      (omega arith) (omega arith) nonce_bytes (omega arith)
  where
    nonce_bytes : IsBytes nonce
    nonce_bytes = block-IsBytes 24 (5 ∷ [])
