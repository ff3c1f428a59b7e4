-- ===== src/Messaging/Engine/Asked.antt =====
-- Which open requests a packet leaves: never a new one.
use openmesh_messenger.Base.{
  ℕ, ◌≡◌, Bool, true, false, Option, none, some, [], ◌∷◌, arith, Bytes, is_some,
}
use openmesh_messenger.Base.Assoc.{Assoc, find, erase}
use openmesh_messenger.Base.Int.{ℤ}
use openmesh_messenger.Core.Hex.{to_hex}
use openmesh_messenger.Crypto.Sodium.{Sodium}
use openmesh_messenger.Messaging.Engine.{Host, set_endpoint, set_session, change}
use openmesh_messenger.Messaging.Engine.Contacts.{
  session_or_new, ensure_session, set_trust, handle_message, handle_contact_request,
  handle_contact_response, set_nickname,
}
use openmesh_messenger.Messaging.Engine.Paths.{handle_connect}
use openmesh_messenger.Messaging.Engine.Carried.{session-Same, handle_probe-Same, advertised-Same}
use openmesh_messenger.Messaging.Engine.Poll.{
  track, dispatch, decrypted, with_session, handle_packet, poll,
}
use openmesh_messenger.Messaging.Session.{Session, decrypt}
use openmesh_messenger.Net.Datagram.{Delivery, Datagram}
use openmesh_messenger.Net.Endpoint.{Endpoint, parse_endpoint}
use openmesh_messenger.Protocol.Packet.{Packet, blank}
use openmesh_messenger.Protocol.Wire.{deserialize}
use openmesh_messenger.Storage.Disk.{Disk}

-- What is found after an erasure was there before.
found-erase {ℓ} :
    {V : Type ℓ} (k j : Bytes) (m : Assoc V)
    → is_some (find k (erase j m)) ≡ true
    → is_some (find k m) ≡ true
unfolding find erase
found-erase k j [] f = f
found-erase k j ((i, v) ∷ m) f = ground (arith, f, found-erase k j m)

module _ (na : Sodium) (disk : Disk) (random : ℕ → Bytes) (delivers : Delivery) where
  -- No request is open in the second host that is not in the first.
  abbrev pub NoneNew : Bytes → Host disk → Host disk → Type 0
  NoneNew k h h' =
      is_some (find (to_hex k) h'.engine.outgoing_requests) ≡ true
      → is_some (find (to_hex k) h.engine.outgoing_requests) ≡ true

  NoneNew-carried :
      (k : Bytes) (h h' : Host disk)
      → h'.engine.outgoing_requests ≡ h.engine.outgoing_requests
      → NoneNew k h h'
  NoneNew-carried k h h' e f = rw e at f

  request-NoneNew :
      (k peer greeting : Bytes) (now : ℤ) (h : Host disk)
      → NoneNew k h (handle_contact_request na disk random delivers peer greeting now h)
  unfolding handle_contact_request set_trust set_nickname change
  request-NoneNew k peer greeting now h =
      NoneNew-carried k h (handle_contact_request na disk random delivers peer greeting now h)
        (ground arith)

  response-NoneNew :
      (k peer decision : Bytes) (h : Host disk)
      → NoneNew k h (handle_contact_response na disk random delivers peer decision h)
  unfolding handle_contact_response set_trust change
  response-NoneNew k peer decision h =
      ground (arith, found-erase (to_hex k) (to_hex peer) h.engine.outgoing_requests)

  dispatch-NoneNew :
      (k : Bytes) (packet : Packet) (text : Bytes) (now : ℤ) (h : Host disk)
      → NoneNew k h (dispatch na disk random delivers packet text now h).1
  unfolding dispatch handle_message change
  dispatch-NoneNew k packet text now h =
      ground
        (arith, request-NoneNew k packet.source text now h, response-NoneNew k packet.source text h)

  decrypted-NoneNew :
      (k : Bytes) (packet : Packet) (from : Endpoint) (now : ℤ) (h : Host disk)
      (d : Option Bytes × Session)
      → NoneNew k h (decrypted na disk random delivers packet from now h d).1
  unfolding decrypted set_session track set_endpoint
  decrypted-NoneNew k packet from now h (none, s) = λ f. f
  decrypted-NoneNew k packet from now h (some text, s) =
      let h1 = set_session na disk random delivers (to_hex packet.source) s h in
      let h2 = track na disk random delivers packet.source from h1 in
      let same : h2.engine.outgoing_requests ≡ h.engine.outgoing_requests = ground arith in
      λ f. NoneNew-carried k h h2 same (dispatch-NoneNew k packet text now h2 f)

  with_session-NoneNew :
      (k : Bytes) (packet : Packet) (from : Endpoint) (now : ℤ) (r : Option Session × Host disk)
      → NoneNew k r.1 (with_session na disk random delivers packet from now r).1
  unfolding with_session
  with_session-NoneNew k packet from now (none, h) = λ f. f
  with_session-NoneNew k packet from now (some s, h) =
      decrypted-NoneNew k packet from now h (decrypt na s packet)

  packet-NoneNew :
      (k : Bytes) (from : Endpoint) (now clock : ℤ) (h : Host disk) (q : Bool × Packet)
      → NoneNew k h (handle_packet na disk random delivers from now clock h q).1
  unfolding handle_packet handle_connect ensure_session
  packet-NoneNew k from now clock h (false, packet) = λ f. f
  packet-NoneNew k from now clock h (true, packet) =
      let o = find (to_hex packet.source) h.engine.sessions in
      let r = session_or_new na disk random delivers o packet.source h in
      let behind : NoneNew k h (with_session na disk random delivers packet from now r).1 = λ f.
        NoneNew-carried k h r.1 (session-Same na disk random delivers o packet.source h).1
          (with_session-NoneNew k packet from now r f) in
      ground (
        arith,
        handle_probe-Same na disk random delivers packet.source from h,
        advertised-Same na disk random delivers packet.source (parse_endpoint packet.payload) clock
            h,
        behind,
      )

  -- Whatever an engine polls, no contact request is open afterwards that was not open before.
  pub poll-NoneNew :
      (k : Bytes) (dg : Option Datagram) (now clock : ℤ) (h : Host disk)
      → NoneNew k h (poll na disk random delivers dg now clock h).1
  unfolding poll
  poll-NoneNew k none now clock h = λ f. f
  poll-NoneNew k (some dg) now clock h =
      packet-NoneNew k dg.from now clock h (deserialize dg.content blank)
