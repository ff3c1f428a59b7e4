-- ===== src/Messaging/Engine/History.antt =====
-- The history of an engine's contacts after `send` of libs/messaging/src/engine.cpp.
use openmesh_messenger.Base.{
  ℕ, ◌≡◌, refl, ap, ◌∙◌, Bool, true, false, Option, none, some, List, [], ◌∷◌, ◌++◌, Bytes,
  if◌then◌else◌, inl, inr, Bool-cases,
}
use openmesh_messenger.Base.Assoc.{find}
use openmesh_messenger.Base.Int.{ℤ}
use openmesh_messenger.Core.Hex.{to_hex}
use openmesh_messenger.Crypto.Sodium.{Sodium}
use openmesh_messenger.Messaging.Engine.{Host, is_accepted, change}
use openmesh_messenger.Messaging.Engine.Carried.{session-Same}
use openmesh_messenger.Messaging.Engine.Commands.{encrypt_and_send, recorded, sent, send}
use openmesh_messenger.Messaging.Engine.Contacts.{session_or_new, ensure_session}
use openmesh_messenger.Messaging.Engine.Grows.{sent-Same}
use openmesh_messenger.Messaging.Session.{Session}
use openmesh_messenger.Net.Datagram.{Delivery}
use openmesh_messenger.Protocol.PacketType
use openmesh_messenger.Storage.Disk.{Disk}
use openmesh_messenger.Storage.Records.{Message}
use openmesh_messenger.Storage.Store
use openmesh_messenger.Storage.Store.{Store}
use openmesh_messenger.Storage.Store.Lookup.{append_message-store}

abbrev pub messages_of : {disk : Disk} → Host disk → List Message
messages_of h = h.engine.contacts.messages

-- The history with a sent message behind it, if it was sent.
abbrev pub extended : Bytes → Bytes → ℤ → Bool → List Message → List Message
extended peer text now ok messages =
    if ok
    then messages ++ (record { peer = peer; text = text; outgoing = true; timestamp = now } ∷ [])
    else messages

module _ (na : Sodium) (disk : Disk) (random : ℕ → Bytes) (delivers : Delivery) where
  recorded-messages :
      (peer text : Bytes) (now : ℤ) (r : Bool × Host disk)
      → let r' = recorded na disk random delivers peer text now r in
        messages_of r'.1 ≡ extended peer text now r'.0 (messages_of r.1)
  unfolding recorded change
  recorded-messages peer text now (false, h) = refl
  recorded-messages peer text now (true, h) =
      let m : Message = record { peer = peer; text = text; outgoing = true; timestamp = now } in
      ap (λ (s : Store). s.messages)
        (append_message-store na disk (random h.drawn) h.fs h.engine.contacts m)

  sent-messages :
      (peer text : Bytes) (now : ℤ) (r : Option Session × Host disk)
      → let r' = sent na disk random delivers peer text now r in
        messages_of r'.1 ≡ extended peer text now r'.0 (messages_of r.1)
  unfolding sent
  sent-messages peer text now (none, h) = refl
  sent-messages peer text now (some s, h) =
      let r = encrypt_and_send na disk random delivers peer s PacketType.message text h in
      let same =
        ap (λ (c : Store). c.messages)
          (sent-Same na disk random delivers peer s PacketType.message text h).0 in
      recorded-messages peer text now r
      ∙ ap (extended peer text now (recorded na disk random delivers peer text now r).0) same

  pub send-messages :
      (peer text : Bytes) (now : ℤ) (h : Host disk)
      → let r = send na disk random delivers peer text now h in
        messages_of r.1 ≡ extended peer text now r.0 (messages_of h)
  unfolding send ensure_session
  send-messages peer text now h =
      let o = find (to_hex peer) h.engine.sessions in
      let r = session_or_new na disk random delivers o peer h in
      let same = ap (λ (c : Store). c.messages) (session-Same na disk random delivers o peer h).0 in
      elim (Bool-cases (is_accepted (Store.trust_of peer h.engine.contacts))) [
        | inr stranger ↦ rw stranger refl
        | inl contact ↦ rw contact (
            sent-messages peer text now r
            ∙ ap (extended peer text now (sent na disk random delivers peer text now r).0) same)
      ]
