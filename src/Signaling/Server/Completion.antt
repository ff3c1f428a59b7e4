-- ===== src/Signaling/Server/Completion.antt =====
-- The two REGISTER packets of an honest peer, and the single use of a challenge.
use openmesh_messenger.Base.{
  ℕ, ◌≡◌, refl, ◌∙◌, true, false, none, some, List, [], ◌∷◌, arith, Bytes, is_empty, bytes_eq_refl,
  ◌==◌, length,
}
use openmesh_messenger.Base.Assoc.{find, find-insert, find-erase}
use openmesh_messenger.Base.Int.{ℤ, ltb_ℤ, ◌+ℤ◌}
use openmesh_messenger.Crypto.Sodium.{Sodium, IsSodium}
use openmesh_messenger.Crypto.Sizes.{public_key_bytes, signature_bytes}
use openmesh_messenger.Crypto.Sign.{
  sign_detached, verify_detached, verify-sign_detached, length-sign_detached,
}
use openmesh_messenger.Core.Hex.{to_hex}
use openmesh_messenger.Net.Endpoint.{Endpoint, same_endpoint, to_string}
use openmesh_messenger.Protocol.Packet.{Packet}
use openmesh_messenger.Protocol.PacketType
use openmesh_messenger.Signaling.Registry.{lookup, lookup-upsert}
use openmesh_messenger.Signaling.Server.Invariant.{IsValid}
use openmesh_messenger.Signaling.Server.{
  Server, Pending, Outgoing, make, push, challenge_peer, admit, check_signature, handle_register,
  handle,
}

pub same_endpoint_refl : (e : Endpoint) → same_endpoint e e ≡ true
unfolding same_endpoint
same_endpoint_refl e = ground (arith, bytes_eq_refl e.host)

is_empty-false : (xs : Bytes) (n : ℕ) → length xs ≡ n → (n == 0) ≡ false → is_empty xs ≡ false
unfolding is_empty
is_empty-false [] n e h = ground arith
is_empty-false (x ∷ xs) n e h = refl

-- REGISTER with an empty payload, and with the signature.
abbrev pub hello_server : Bytes → Packet
hello_server pk = make PacketType.register pk [] []

abbrev pub answer : Bytes → Bytes → Packet
answer pk signature = make PacketType.register pk [] signature

module _ (na : Sodium) (s : Server) (c pk : Bytes) (from : Endpoint) (now : ℤ) (out : List Outgoing)
    (sized : length pk ≡ public_key_bytes) where
  -- What the server stores for the peer it has just challenged.
  abbrev pub issued : Pending
  issued = record { challenge = c; endpoint = from; expiry = now +ℤ s.config.challenge_ttl_seconds }

  -- Step 1 stores the challenge under the peer's key and sends it to where the packet came from.
  pub handle-hello_server :
      (find (to_hex pk) (handle na s c (hello_server pk) from now out).0.pending ≡ some issued)
      × ((handle na s c (hello_server pk) from now out).1
          ≡ push out from (make PacketType.hello [] [] c))
  unfolding handle handle_register challenge_peer is_empty make
  handle-hello_server = ground (
    arith,
    sized,
    find-insert (to_hex pk) (to_hex pk) issued s.pending,
    bytes_eq_refl (to_hex pk),
  )

module _ (na : Sodium) (s : Server) (packet : Packet) (from : Endpoint) (now : ℤ) (p : Pending)
    (typed : packet.type ≡ PacketType.register) (sized : length packet.source ≡ public_key_bytes)
    (long : length packet.payload ≡ signature_bytes)
    (issued : find (to_hex packet.source) s.pending ≡ some p) (in_time : ltb_ℤ p.expiry now ≡ false)
    (here : same_endpoint p.endpoint from ≡ true) where
  -- Step 2 in time and from the challenged endpoint comes down to the signature.
  pub handle-answer :
      (c : Bytes) (out : List Outgoing)
      → handle na s c packet from now out
        ≡ check_signature na s (some p) packet (to_hex packet.source) from now out
  unfolding handle handle_register
  handle-answer c out =
      ground (arith, typed, sized, long, issued, is_empty-false packet.payload 64 long refl)

  -- It uses the challenge up, whether the signature verifies or not.
  used_up :
      (c : Bytes) (out : List Outgoing)
      → IsValid s
      → find (to_hex packet.source) (handle na s c packet from now out).0.pending ≡ none
  used_up c out v = rw (handle-answer c out) (
      unfold check_signature admit in
      ground (
        arith,
        in_time,
        here,
        find-erase (to_hex packet.source) (to_hex packet.source) s.pending v.pending,
        bytes_eq_refl (to_hex packet.source),
      ))

-- Without a pending challenge a signed REGISTER does nothing.
ignored :
    (na : Sodium) (s : Server) (c : Bytes) (packet : Packet) (from : Endpoint) (now : ℤ)
    (out : List Outgoing)
    → packet.type ≡ PacketType.register
    → length packet.payload ≡ signature_bytes
    → find (to_hex packet.source) s.pending ≡ none
    → handle na s c packet from now out ≡ (s, out)
unfolding handle handle_register check_signature
ignored na s c packet from now out t l f = ground (arith, is_empty-false packet.payload 64 l refl)

-- A challenge serves once. When, in a server with each key at most once, a signed REGISTER for a
-- key of the right size has come in time from the challenged endpoint, good signature or bad, a
-- second signed REGISTER for the same key, from anywhere and at any time, changes nothing and gets
-- no reply.
pub challenge_serves_once :
    (na : Sodium) (s : Server) (packet again : Packet) (from from' : Endpoint) (now now' : ℤ)
    (p : Pending) (c c' : Bytes) (out out' : List Outgoing)
    → IsValid s
    → packet.type ≡ PacketType.register
    → length packet.source ≡ public_key_bytes
    → length packet.payload ≡ signature_bytes
    → find (to_hex packet.source) s.pending ≡ some p
    → ltb_ℤ p.expiry now ≡ false
    → same_endpoint p.endpoint from ≡ true
    → again.type ≡ PacketType.register
    → again.source ≡ packet.source
    → length again.payload ≡ signature_bytes
    → let t = (handle na s c packet from now out).0 in
      handle na t c' again from' now' out' ≡ (t, out')
challenge_serves_once na s packet again from from' now now' p c c' out out' v ty sz lg is it hr ty'
      so lg' =
    ignored na _ c' again from' now' out' ty' lg'
      (rw so (used_up na s packet from now p ty sz lg is it hr c out v))

check_signature-admits :
    (na : Sodium) (s : Server) (packet : Packet) (from : Endpoint) (now : ℤ) (p : Pending)
    (out : List Outgoing)
    → ltb_ℤ p.expiry now ≡ false
    → same_endpoint p.endpoint from ≡ true
    → verify_detached na packet.payload p.challenge packet.source ≡ true
    → check_signature na s (some p) packet (to_hex packet.source) from now out
      ≡ admit s (to_hex packet.source) from now out
unfolding check_signature
check_signature-admits na s packet from now p out it hr ok = ground (arith, it, hr, ok)

admit-effect :
    (s : Server) (key : Bytes) (from : Endpoint) (now : ℤ) (out : List Outgoing)
    → (lookup key (admit s key from now out).0.registry ≡ some from)
      × ((admit s key from now out).1 ≡ push out from (make PacketType.ack [] [] (to_string from)))
unfolding admit
admit-effect s key from now out =
    (rw (lookup-upsert key key from now s.registry, bytes_eq_refl key) refl, refl)

-- The handshake of a generated identity, with libsodium as its documentation has it: challenged
-- with `c`, it answers with its signature of `c` from the same endpoint before the challenge has
-- expired. It is then registered at that endpoint, and is told the endpoint's text.
pub handshake_registers :
    (na : Sodium) (s : Server) (seed c c' : Bytes) (from : Endpoint) (now now' : ℤ)
    (out out' : List Outgoing)
    → IsSodium na
    → ltb_ℤ (now +ℤ s.config.challenge_ttl_seconds) now' ≡ false
    → let sk = na.keypair seed in
      let pk = na.sk_to_pk sk in
      let t = (handle na s c (hello_server pk) from now out).0 in
      let (u, replies) = handle na t c' (answer pk (sign_detached na c sk)) from now' out' in
      (lookup (to_hex pk) u.registry ≡ some from)
      × (replies ≡ push out' from (make PacketType.ack [] [] (to_string from)))
unfolding make
handshake_registers na s seed c c' from now now' out out' laws in_time =
    let sk = na.keypair seed in
    let pk = na.sk_to_pk sk in
    let sized = laws.length-sk_to_pk seed in
    let (stored, _) = handle-hello_server na s c pk from now out sized in
    let t = (handle na s c (hello_server pk) from now out).0 in
    let signature = sign_detached na c sk in
    let reached =
      handle-answer na t (answer pk signature) from now' (issued na s c pk from now out sized) refl
        sized (length-sign_detached na laws c seed) stored in_time (same_endpoint_refl from) c'
        out' in
    let passed =
      check_signature-admits na t (answer pk signature) from now'
        (issued na s c pk from now out sized) out' in_time (same_endpoint_refl from)
        (verify-sign_detached na laws c seed) in
    rw (reached ∙ passed) (admit-effect t (to_hex pk) from now' out')
