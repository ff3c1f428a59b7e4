-- ===== src/Net/SignalingClient/Bounds.antt =====
-- How much a client sends, whatever its socket gives it.
use openmesh_messenger.Base.{
  ℕ, zero, suc, ◌+◌, ◌*◌, ◌≤◌, ◌≡◌, refl, Bool, true, false, Option, none, some, [], ◌∷◌, arith,
  Bytes, length, length-append, Bool-cases, inl, inr,
}
use openmesh_messenger.Net.Datagram.{Delivery}
use openmesh_messenger.Net.SignalingClient.{
  Client, await_packet, send, acknowledged, signed_sent, challenged, request_sent, attempt_register,
  register_self,
}
use openmesh_messenger.Protocol.Packet.{Packet, blank}
use openmesh_messenger.Protocol.PacketType
use openmesh_messenger.Protocol.PacketType.{PacketType}
use openmesh_messenger.Protocol.Wire.{serialize}

module _ (delivers : Delivery) (signer : Bytes → Bytes) where
  length-send :
      (p : Packet) (c : Client) → length (send delivers signer p c).1.out ≡ length c.out + 1
  unfolding send
  length-send p c = length-append c.out (record { to = c.server; content = serialize p } ∷ [])

  length-acknowledged :
      (r : Option Packet × Client) → length (acknowledged delivers signer r).1.out ≡ length r.1.out
  unfolding acknowledged
  length-acknowledged (none, c) = refl
  length-acknowledged (some p, c) = refl

  length-signed_sent :
      (r : Bool × Client) → length (signed_sent delivers signer r).1.out ≡ length r.1.out
  unfolding signed_sent await_packet
  length-signed_sent (false, c) = refl
  length-signed_sent (true, c) = length-acknowledged (await_packet PacketType.ack c)

  length-challenged :
      (r : Option Packet × Client)
      → length (challenged delivers signer r).1.out ≤ length r.1.out + 1
  unfolding challenged
  length-challenged (none, c) = omega arith
  length-challenged (some p, c) =
      let q : Packet = record blank {
        type = PacketType.register;
        source = c.public_key;
        payload = signer p.payload;
      } in
      omega (arith, length-signed_sent (send delivers signer q c), length-send q c)

  length-request_sent :
      (r : Bool × Client) → length (request_sent delivers signer r).1.out ≤ length r.1.out + 1
  unfolding request_sent await_packet
  length-request_sent (false, c) = omega arith
  length-request_sent (true, c) = length-challenged (await_packet PacketType.hello c)

  length-attempt :
      (c : Client) → length (attempt_register delivers signer c).1.out ≤ length c.out + 2
  unfolding attempt_register
  length-attempt c =
      let q : Packet = record blank { type = PacketType.register; source = c.public_key } in
      omega (arith, length-request_sent (send delivers signer q c), length-send q c)

  -- A registration makes at most two calls of `send_to` for each of its attempts, whether it
  -- succeeds or not, whatever each call answers and whatever the socket gives.
  pub register_sends_at_most :
      (attempts : ℕ) (c : Client)
      → length (register_self delivers signer attempts c).1.out ≤ length c.out + 2 * attempts
  unfolding register_self
  register_sends_at_most zero c = omega arith
  register_sends_at_most (suc attempts) c =
      let (done, c') = attempt_register delivers signer c in
      elim (Bool-cases done) [
        | inl finished ↦ rw finished (omega (arith, length-attempt c))
        | inr goes_on ↦
            rw goes_on (omega (arith, length-attempt c, register_sends_at_most attempts c'))
      ]
