-- ===== src/Messaging/Engine/Carried.antt =====
-- Steps of `poll` that leave the contacts, the history and the open requests as they are.
use openmesh_messenger.Base.{ℕ, ◌≡◌, refl, ◌∙◌, Option, none, some, arith, Bytes}
use openmesh_messenger.Base.Assoc.{find}
use openmesh_messenger.Base.Int.{ℤ}
use openmesh_messenger.Core.Hex.{to_hex}
use openmesh_messenger.Crypto.Sodium.{Sodium}
use openmesh_messenger.Messaging.Engine.{Host, set_endpoint, set_session, set_probe, transmit}
use openmesh_messenger.Messaging.Engine.Contacts.{session_or_new}
use openmesh_messenger.Messaging.Engine.Paths.{
  handle_probe, probe_advertised, with_fallback, start_probing, send_probe,
}
use openmesh_messenger.Messaging.Engine.Poll.{track}
use openmesh_messenger.Messaging.Session.{Session}
use openmesh_messenger.Net.Datagram.{Delivery}
use openmesh_messenger.Net.Endpoint.{Endpoint}
use openmesh_messenger.Storage.Disk.{Disk}

module _ (na : Sodium) (disk : Disk) (random : ℕ → Bytes) (delivers : Delivery) where
  -- Two hosts with the same contacts, history and open requests.
  abbrev pub Same : Host disk → Host disk → Type 0
  Same h h' =
      (h'.engine.contacts ≡ h.engine.contacts)
      × (h'.engine.outgoing_requests ≡ h.engine.outgoing_requests)

  pub start_probing-Same :
      (peer : Bytes) (e : Endpoint) (now : ℤ) (h : Host disk)
      → Same h (start_probing na disk random delivers peer e now h)
  unfolding start_probing send_probe set_probe transmit
  start_probing-Same peer e now h = ground arith

  pub handle_probe-Same :
      (peer : Bytes) (from : Endpoint) (h : Host disk)
      → Same h (handle_probe na disk random delivers peer from h)
  unfolding handle_probe send_probe set_probe set_endpoint transmit
  handle_probe-Same peer from h = ground arith

  pub with_fallback-Same :
      (key : Bytes) (e r : Option Endpoint) (h : Host disk)
      → Same h (with_fallback na disk random delivers key e r h)
  unfolding with_fallback set_endpoint
  with_fallback-Same key none (some r) h = (refl, refl)
  with_fallback-Same key none none h = (refl, refl)
  with_fallback-Same key (some e) r h = (refl, refl)

  pub Same-trans : (a b c : Host disk) → Same a b → Same b c → Same a c
  Same-trans a b c p q = (q.0 ∙ p.0, q.1 ∙ p.1)

  pub advertised-Same :
      (peer : Bytes) (e : Option Endpoint) (now : ℤ) (h : Host disk)
      → Same h (probe_advertised na disk random delivers peer e now h)
  unfolding probe_advertised
  advertised-Same peer none now h = (refl, refl)
  advertised-Same peer (some ep) now h =
      let key = to_hex peer in
      let e = find key h.engine.endpoints in
      let h1 = with_fallback na disk random delivers key e h.engine.relay h in
      Same-trans h h1 (start_probing na disk random delivers peer ep now h1)
        (with_fallback-Same key e h.engine.relay h) (start_probing-Same peer ep now h1)

  pub track-Same :
      (peer : Bytes) (from : Endpoint) (h : Host disk)
      → Same h (track na disk random delivers peer from h)
  unfolding track set_endpoint
  track-Same peer from h = ground arith

  pub session-Same :
      (o : Option Session) (peer : Bytes) (h : Host disk)
      → Same h (session_or_new na disk random delivers o peer h).1
  unfolding session_or_new set_session
  session-Same (some s) peer h = (refl, refl)
  session-Same none peer h = ground arith
