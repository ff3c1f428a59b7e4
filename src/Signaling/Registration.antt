-- ===== src/Signaling/Registration.antt =====
-- The client of libs/net/src/signaling_client.cpp and the server of servers/signaling together: a
-- peer registers.
use openmesh_messenger.Base.{
  ℕ, zero, suc, ◌^◌, ◌<◌, ◌≡◌, refl, ap, ◌∙◌, true, false, Option, none, some, List, [], ◌∷◌, ◌++◌,
  append-nil, append_assoc, arith, Bytes,
}
use openmesh_messenger.Base.Int.{ℤ, ltb_ℤ, ◌+ℤ◌}
use openmesh_messenger.Core.Hex.{to_hex}
use openmesh_messenger.Crypto.Sign.{sign_detached}
use openmesh_messenger.Crypto.Sodium.{Sodium, IsSodium}
use openmesh_messenger.Net.Datagram.{Datagram, Transmission}
use openmesh_messenger.Net.Endpoint.{Endpoint, parse_endpoint, to_string}
use openmesh_messenger.Net.Endpoint.RoundTrip.{parse_endpoint-to_string}
use openmesh_messenger.Net.SignalingClient
use openmesh_messenger.Net.SignalingClient.{
  Client, await_in, await_packet, acknowledged, signed_sent, challenged, request_sent,
  attempt_register, register_self,
}
use openmesh_messenger.Protocol.Packet.{Packet, IsWire, blank}
use openmesh_messenger.Protocol.PacketType
use openmesh_messenger.Protocol.PacketType.{PacketType}
use openmesh_messenger.Protocol.Wire.{serialize}
use openmesh_messenger.Relay.Server.Forwarding.{deserialize-serialize}
use openmesh_messenger.Signaling.Registry.{lookup}
use openmesh_messenger.Signaling.Server.{Server, Outgoing, make, handle}
use openmesh_messenger.Signaling.Server.Completion.{
  hello_server, answer, handle-hello_server, handshake_registers,
}

-- Receives that time out.
abbrev pub lost : ℕ → List (Option Datagram)
lost zero = []
lost (suc k) = none ∷ lost k

-- The packets of a server, as they arrive from an endpoint.
abbrev pub arriving : Endpoint → List Outgoing → List (Option Datagram)
arriving from [] = []
arriving from (o ∷ out) =
    some (record { from = from; content = serialize o.packet }) ∷ arriving from out

await-carried :
    (t : PacketType) (c : Client) (from : Endpoint) (p : Packet) (rest : List (Option Datagram))
    → IsWire p
    → p.type ≡ t
    → c.incoming ≡ some (record { from = from; content = serialize p }) ∷ rest
    → await_packet t c ≡ (some p, record c { incoming = rest })
unfolding await_packet await_in
await-carried t c from p rest w typed e =
    rw (e, deserialize-serialize p blank w) (ground (arith, typed))

-- What is sent in the attempts that get no answer.
abbrev pub tried : ℕ → Endpoint → Bytes → List Transmission
tried zero server key = []
tried (suc k) server key =
    record { to = server; content = serialize (hello_server key) } ∷ tried k server key

-- What a client sends, and the client afterwards.
abbrev pub sent_to : Client → Packet → Transmission
sent_to c p = record { to = c.server; content = serialize p }

abbrev pub with_out : Client → Packet → Client
with_out c p = record c { out = c.out ++ (sent_to c p ∷ []) }

append-two {ℓ} :
    {A : Type ℓ} (xs ys : List A) (x y : A)
    → ((xs ++ ys) ++ (x ∷ [])) ++ (y ∷ []) ≡ xs ++ (ys ++ (x ∷ y ∷ []))
append-two xs ys x y = append_assoc (xs ++ ys) (x ∷ []) (y ∷ []) ∙ append_assoc xs ys (x ∷ y ∷ [])

module _ (signer : Bytes → Bytes) where
  attempt-lost :
      (c : Client) (rest : List (Option Datagram))
      → c.incoming ≡ none ∷ rest
      → attempt_register (λ before t. true) signer c
        ≡ (false, record (with_out c (hello_server c.public_key)) { incoming = rest })
  unfolding attempt_register request_sent await_packet await_in SignalingClient.send challenged make
  attempt-lost c rest e = rw e refl

  attempt-answered :
      (c : Client) (from from' : Endpoint) (p q : Packet) (rest : List (Option Datagram))
      → IsWire p
      → IsWire q
      → p.type ≡ PacketType.hello
      → q.type ≡ PacketType.ack
      → c.incoming
        ≡ some (record { from = from; content = serialize p })
          ∷ some (record { from = from'; content = serialize q })
          ∷ rest
      → attempt_register (λ before t. true) signer c ≡ (
        true,
        record (with_out
            (with_out c (hello_server c.public_key))
            (answer c.public_key (signer p.payload))) {
              incoming = rest;
              public_endpoint = parse_endpoint q.payload;
            },
      )
  unfolding attempt_register request_sent SignalingClient.send challenged signed_sent acknowledged
      make
  attempt-answered c from from' p q rest w v tp tq e =
      let c1 = with_out c (hello_server c.public_key) in
      let later = some (record { from = from'; content = serialize q }) ∷ rest in
      let c2 = with_out (record c1 { incoming = later }) (answer c.public_key (signer p.payload)) in
      ap (challenged (λ before t. true) signer)
        (await-carried PacketType.hello c1 from p later w tp e)
      ∙ ap (acknowledged (λ before t. true) signer)
          (await-carried PacketType.ack c2 from' q rest v tq refl)

  register-arrives :
      (k attempts : ℕ) (c : Client) (from from' : Endpoint) (p q : Packet)
      (rest : List (Option Datagram))
      → IsWire p
      → IsWire q
      → p.type ≡ PacketType.hello
      → q.type ≡ PacketType.ack
      → k < attempts
      → c.incoming
        ≡ lost k
          ++ (some (record { from = from; content = serialize p })
              ∷ some (record { from = from'; content = serialize q })
              ∷ rest)
      → register_self (λ before t. true) signer attempts c ≡ (
        true,
        record (with_out
            (with_out
              (record c { out = c.out ++ tried k c.server c.public_key })
              (hello_server c.public_key))
            (answer c.public_key (signer p.payload))) {
              incoming = rest;
              public_endpoint = parse_endpoint q.payload;
            },
      )
  unfolding register_self
  register-arrives k zero c from from' p q rest w v tp tq few e = absurd (omega arith)
  register-arrives zero (suc attempts) c from from' p q rest w v tp tq few e =
      rw (attempt-answered c from from' p q rest w v tp tq e) (rw (append-nil c.out) refl)
  register-arrives (suc k) (suc attempts) c from from' p q rest w v tp tq few e =
      let later =
        lost k
        ++ (some (record { from = from; content = serialize p })
            ∷ some (record { from = from'; content = serialize q })
            ∷ rest) in
      let c1 : Client = record (with_out c (hello_server c.public_key)) { incoming = later } in
      let first = sent_to c (hello_server c.public_key) in
      rw (attempt-lost c later e) (
        rw (register-arrives k attempts c1 from from' p q rest w v tp tq (omega arith) refl)
          (rw (append_assoc c.out (first ∷ []) (tried k c.server c.public_key)) refl))

module _ (na : Sodium) (s : Server) (seed c c' : Bytes) (here : Endpoint) (now now' : ℤ) where
  -- The two turns of the server for an honest peer that is seen at `here`, and what it puts out.
  abbrev pub public_of : Bytes
  public_of = na.sk_to_pk (na.keypair seed)

  abbrev pub sign_of : Bytes → Bytes
  sign_of challenge = sign_detached na challenge (na.keypair seed)

  abbrev pub first_turn : Server × List Outgoing
  first_turn = handle na s c (hello_server public_of) here now []

  abbrev pub second_turn : Server × List Outgoing
  second_turn = handle na first_turn.0 c' (answer public_of (sign_of c)) here now' []

  -- A client registers with the server, with libsodium as its documentation has it and both replies
  -- packets that the wire format can carry, where every datagram is handed over: if the first `k`
  -- of its requests get no reply, with `k` less than the number of attempts, and the server's two
  -- replies, the second in time, then reach it, `register_self` succeeds. The client then knows the
  -- endpoint it was seen at, the server has it registered there, and the client has sent `k`
  -- requests in vain, the request that was heard, and the signed answer. The client holds the key
  -- pair of a seed, and the port it was seen at has sixteen bits.
  pub registration_succeeds :
      (k attempts : ℕ) (cl : Client) (from from' : Endpoint) (rest : List (Option Datagram))
      → IsSodium na
      → IsWire (make PacketType.hello [] [] c)
      → IsWire (make PacketType.ack [] [] (to_string here))
      → here.port < 2 ^ 16
      → ltb_ℤ (now +ℤ s.config.challenge_ttl_seconds) now' ≡ false
      → k < attempts
      → cl.public_key ≡ public_of
      → cl.incoming
        ≡ lost k ++ (arriving from first_turn.1 ++ (arriving from' second_turn.1 ++ rest))
      → let (done, cl') = register_self (λ before t. true) sign_of attempts cl in
        (done ≡ true)
        × (cl'.public_endpoint ≡ some here)
        × (lookup (to_hex public_of) second_turn.0.registry ≡ some here)
        × (cl'.out
            ≡ cl.out
              ++ (tried k cl.server public_of
                  ++ (sent_to cl (hello_server public_of)
                      ∷ sent_to cl (answer public_of (sign_of c))
                      ∷ [])))
  unfolding make
  registration_succeeds k attempts cl from from' rest laws wire_hello wire_ack port in_time few key
        script =
      let sized = laws.length-sk_to_pk seed in
      let (_, challenge) = handle-hello_server na s c public_of here now [] sized in
      let (there, ack) = handshake_registers na s seed c c' here now now' [] [] laws in_time in
      let p = make PacketType.hello [] [] c in
      let q = make PacketType.ack [] [] (to_string here) in
      let arrived : cl.incoming
          ≡ lost k
            ++ (some (record { from = from; content = serialize p })
                ∷ some (record { from = from'; content = serialize q })
                ∷ rest) =
        script ∙ rw (challenge, ack) refl in
      let done =
        register-arrives sign_of k attempts cl from from' p q rest wire_hello wire_ack refl refl few
          arrived in
      rw done (
        refl,
        parse_endpoint-to_string here port,
        there,
        append-two cl.out (tried k cl.server cl.public_key)
              (sent_to cl (hello_server cl.public_key))
              (sent_to cl (answer cl.public_key (sign_of c)))
            ∙ rw key refl,
      )
