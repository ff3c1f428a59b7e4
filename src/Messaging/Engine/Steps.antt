-- ===== src/Messaging/Engine/Steps.antt =====
-- Histories of an `Engine`: what its application and the network do to it, one call after another.
use openmesh_messenger.Base.{ℕ, Option, some, List, [], ◌∷◌, Bytes}
use openmesh_messenger.Base.Int.{ℤ}
use openmesh_messenger.Crypto.Sodium.{Sodium}
use openmesh_messenger.Messaging.Engine.{Host}
use openmesh_messenger.Messaging.Engine.Commands.{
  open_store, add_peer, send_contact_request, accept_contact, reject_contact, send,
}
use openmesh_messenger.Messaging.Engine.Contacts.{set_nickname}
use openmesh_messenger.Messaging.Engine.Paths.{connect, tick, announce_to}
use openmesh_messenger.Messaging.Engine.Poll.{poll}
use openmesh_messenger.Net.Datagram.{Delivery, Datagram}
use openmesh_messenger.Net.Endpoint.{Endpoint}
use openmesh_messenger.Storage.Disk.{Disk}

-- The calls of an engine that change its state, with their arguments, the readings of the clocks,
-- and what the socket or the random generator gives.
pub data Call : Type 0 where
  polls : Option Datagram → ℤ → ℤ → Call
  ticks : ℤ → Call
  connects : Bytes → Endpoint → ℤ → Call
  announces : Endpoint → Call
  sets_relay : Endpoint → Call
  opens : Bytes → Bytes → Bytes → Call
  adds : Bytes → Endpoint → Call
  asks : Bytes → Endpoint → Bytes → Call
  accepts : Bytes → Call
  rejects : Bytes → Call
  sends : Bytes → Bytes → ℤ → Call
  names : Bytes → Bytes → Call

module _ (na : Sodium) (disk : Disk) (random : ℕ → Bytes) (delivers : Delivery) where
  unfoldable pub set_relay : Endpoint → Host disk → Host disk
  set_relay e h = record h { engine = record h.engine { relay = some e } }

  unfoldable pub step : Call → Host disk → Host disk
  unfolding set_relay
  step (polls dg now clock) h = (poll na disk random delivers dg now clock h).1
  step (ticks clock) h = tick na disk random delivers clock h
  step (connects peer e clock) h = (connect na disk random delivers peer e clock h).1
  step (announces e) h = (announce_to na disk random delivers e h).1
  step (sets_relay e) h = set_relay e h
  step (opens salt path pass) h = (open_store na disk random delivers salt path pass h).1
  step (adds peer e) h = (add_peer na disk random delivers peer e h).1
  step (asks peer e text) h = (send_contact_request na disk random delivers peer e text h).1
  step (accepts peer) h = (accept_contact na disk random delivers peer h).1
  step (rejects peer) h = (reject_contact na disk random delivers peer h).1
  step (names peer name) h = set_nickname na disk random delivers peer name h
  step (sends peer text now) h = (send na disk random delivers peer text now h).1

  unfoldable pub run : List Call → Host disk → Host disk
  unfolding step
  run [] h = h
  run (c ∷ calls) h = run calls (step c h)
