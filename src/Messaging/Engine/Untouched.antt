-- ===== src/Messaging/Engine/Untouched.antt =====
-- The calls of an `Engine` that leave its probes alone.
use openmesh_messenger.Base.{
  ℕ, suc, ◌≡◌, refl, ◌∙◌, Bool, true, false, Option, none, some, [], ◌∷◌, arith, Bytes,
}
use openmesh_messenger.Base.Assoc.{find}
use openmesh_messenger.Base.Int.{ℤ}
use openmesh_messenger.Core.Hex.{to_hex}
use openmesh_messenger.Crypto.Sodium.{Sodium}
use openmesh_messenger.Messaging.Engine.{
  Host, destination_of, set_endpoint, set_session, change, transmit,
}
use openmesh_messenger.Messaging.Engine.Contacts.{
  session_or_new, handle_message, handle_contact_request, handle_contact_response, set_trust,
  set_nickname,
}
use openmesh_messenger.Messaging.Engine.Paths.{with_fallback}
use openmesh_messenger.Messaging.Engine.Commands.{
  opened_store, added_peer, requested, decided, sent, recorded, encrypt_and_send, send_packet,
  send_to_known,
}
use openmesh_messenger.Messaging.Engine.Poll.{track, dispatch, decrypted, with_session}
use openmesh_messenger.Messaging.Session.{Session, decrypt, encrypt_as}
use openmesh_messenger.Net.Datagram.{Delivery}
use openmesh_messenger.Net.Endpoint.{Endpoint}
use openmesh_messenger.Protocol.Packet.{Packet}
use openmesh_messenger.Protocol.PacketType
use openmesh_messenger.Protocol.PacketType.{PacketType}
use openmesh_messenger.Storage.Disk.{Disk}
use openmesh_messenger.Storage.Records.{TrustStatus}
use openmesh_messenger.Storage.Store.{Store}

module _ (na : Sodium) (disk : Disk) (random : ℕ → Bytes) (delivers : Delivery) where
  pub session-probes :
      (o : Option Session) (peer : Bytes) (h : Host disk)
      → (session_or_new na disk random delivers o peer h).1.engine.probes ≡ h.engine.probes
  unfolding session_or_new set_session
  session-probes (some s) peer h = refl
  session-probes none peer h = ground arith

  request-probes :
      (peer greeting : Bytes) (now : ℤ) (h : Host disk)
      → (handle_contact_request na disk random delivers peer greeting now h).engine.probes
        ≡ h.engine.probes
  unfolding handle_contact_request set_trust set_nickname change
  request-probes peer greeting now h = ground arith

  response-probes :
      (peer decision : Bytes) (h : Host disk)
      → (handle_contact_response na disk random delivers peer decision h).engine.probes
        ≡ h.engine.probes
  unfolding handle_contact_response set_trust change
  response-probes peer decision h = ground arith

  dispatch-probes :
      (packet : Packet) (text : Bytes) (now : ℤ) (h : Host disk)
      → (dispatch na disk random delivers packet text now h).1.engine.probes ≡ h.engine.probes
  unfolding dispatch handle_message change
  dispatch-probes packet text now h =
      ground (arith, request-probes packet.source text now h, response-probes packet.source text h)

  decrypted-probes :
      (packet : Packet) (from : Endpoint) (now : ℤ) (h : Host disk) (d : Option Bytes × Session)
      → (decrypted na disk random delivers packet from now h d).1.engine.probes ≡ h.engine.probes
  unfolding decrypted set_session track set_endpoint
  decrypted-probes packet from now h (none, s) = refl
  decrypted-probes packet from now h (some text, s) =
      let h1 = set_session na disk random delivers (to_hex packet.source) s h in
      let h2 = track na disk random delivers packet.source from h1 in
      let same : h2.engine.probes ≡ h.engine.probes = ground arith in
      dispatch-probes packet text now h2 ∙ same

  pub with_session-probes :
      (packet : Packet) (from : Endpoint) (now : ℤ) (r : Option Session × Host disk)
      → (with_session na disk random delivers packet from now r).1.engine.probes ≡ r.1.engine.probes
  unfolding with_session
  with_session-probes packet from now (none, h) = refl
  with_session-probes packet from now (some s, h) =
      decrypted-probes packet from now h (decrypt na s packet)

  known-probes :
      (to : Option Endpoint) (packet : Packet) (h : Host disk)
      → (send_to_known na disk random delivers to packet h).1.engine.probes ≡ h.engine.probes
  unfolding send_to_known transmit
  known-probes none packet h = refl
  known-probes (some to) packet h = refl

  sent-probes :
      (peer : Bytes) (s : Session) (t : PacketType) (text : Bytes) (h : Host disk)
      → (encrypt_and_send na disk random delivers peer s t text h).1.engine.probes ≡ h.engine.probes
  unfolding encrypt_and_send send_packet set_session
  sent-probes peer s t text h =
      let (packet, s') = encrypt_as na (random h.drawn) s t text in
      known-probes (destination_of (find (to_hex peer) h.engine.endpoints) h.engine.relay) packet
        (set_session na disk random delivers (to_hex peer) s' (record h { drawn = suc h.drawn }))

  pub asked-probes :
      (peer : Bytes) (e : Endpoint) (text : Bytes) (r : Option Session × Host disk)
      → (requested na disk random delivers peer e text r).1.engine.probes ≡ r.1.engine.probes
  unfolding requested set_endpoint set_trust change
  asked-probes peer e text (none, h) = refl
  asked-probes peer e text (some s, h) = sent-probes peer s PacketType.contact_request text _

  pub added-probes :
      (peer : Bytes) (e : Endpoint) (r : Option Session × Host disk)
      → (added_peer na disk random delivers peer e r).1.engine.probes ≡ r.1.engine.probes
  unfolding added_peer set_endpoint set_trust change
  added-probes peer e (none, h) = refl
  added-probes peer e (some s, h) = refl

  pub decided-probes :
      (peer : Bytes) (t : TrustStatus) (d : ℕ) (r : Option Session × Host disk)
      → (decided na disk random delivers peer t d r).1.engine.probes ≡ r.1.engine.probes
  unfolding decided set_trust change
  decided-probes peer t d (none, h) = refl
  decided-probes peer t d (some s, h) = sent-probes peer s PacketType.contact_response (d ∷ []) _

  pub recorded-probes :
      (peer text : Bytes) (now : ℤ) (r : Bool × Host disk)
      → (recorded na disk random delivers peer text now r).1.engine.probes ≡ r.1.engine.probes
  unfolding recorded change
  recorded-probes peer text now (false, h) = refl
  recorded-probes peer text now (true, h) = refl

  pub written-probes :
      (peer text : Bytes) (now : ℤ) (r : Option Session × Host disk)
      → (sent na disk random delivers peer text now r).1.engine.probes ≡ r.1.engine.probes
  unfolding sent
  written-probes peer text now (none, h) = refl
  written-probes peer text now (some s, h) =
      recorded-probes peer text now
        (encrypt_and_send na disk random delivers peer s PacketType.message text h)
      ∙ sent-probes peer s PacketType.message text h

  pub opened-probes :
      (h : Host disk) (r : Bool × Store × disk.State)
      → (opened_store na disk random delivers h r).1.engine.probes ≡ h.engine.probes
  unfolding opened_store
  opened-probes h (false, s, fs) = refl
  opened-probes h (true, s, fs) = refl

  pub fallback-probes :
      (key : Bytes) (e r : Option Endpoint) (h : Host disk)
      → (with_fallback na disk random delivers key e r h).engine.probes ≡ h.engine.probes
  unfolding with_fallback set_endpoint
  fallback-probes key none (some r) h = refl
  fallback-probes key none none h = refl
  fallback-probes key (some e) r h = refl
