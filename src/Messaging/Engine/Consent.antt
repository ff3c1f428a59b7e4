-- ===== src/Messaging/Engine/Consent.antt =====
-- Consent: over any history of calls, whose decision makes a peer a contact.
use openmesh_messenger.Base.{
  ℕ, ◌≡◌, refl, Bool, true, false, not, ◌||◌, Option, none, some, List, [], ◌∷◌, arith, Bytes,
  bytes_eq, is_some, if◌then◌else◌,
}
use openmesh_messenger.Base.Assoc.{Assoc, find}
use openmesh_messenger.Base.Int.{ℤ}
use openmesh_messenger.Core.Hex.{to_hex}
use openmesh_messenger.Crypto.Sodium.{Sodium}
use openmesh_messenger.Messaging.Engine.{
  Probe, Host, accept_decision, reject_decision, is_accepted, set_endpoint, transmit,
}
use openmesh_messenger.Messaging.Engine.Contacts.{session_or_new, ensure_session}
use openmesh_messenger.Messaging.Engine.Paths.{
  tick_each, tick, connect, announce_to, send_probe, start_probing,
}
use openmesh_messenger.Messaging.Engine.Commands.{
  add_peer, added_peer, send_contact_request, requested, accept_contact, reject_contact, decided,
  send, sent,
}
use openmesh_messenger.Messaging.Engine.Carried.{Same, session-Same, start_probing-Same}
use openmesh_messenger.Messaging.Engine.Gate.{contact_only_if_asked}
use openmesh_messenger.Messaging.Engine.Poll.{poll}
use openmesh_messenger.Messaging.Engine.Steps.{
  Call, polls, ticks, connects, announces, sets_relay, opens, adds, asks, accepts, rejects, sends,
  names, step, run, set_relay,
}
use openmesh_messenger.Messaging.Session.{Session}
use openmesh_messenger.Net.Datagram.{Delivery}
use openmesh_messenger.Net.Endpoint.{Endpoint}
use openmesh_messenger.Storage.Disk.{Disk}
use openmesh_messenger.Storage.Records.{accepted, rejected}
use openmesh_messenger.Storage.Store
use openmesh_messenger.Storage.Store.{Store}
use openmesh_messenger.Messaging.Engine.Asked.{poll-NoneNew}
use openmesh_messenger.Messaging.Engine.Grows.{
  Grows, is_contact, is_asked, named, Same-Grows, Grows-trans, Grows-weaken, asked-Grows,
  added-Grows, decided-Grows, nicknamed-Grows, written-Grows,
}

-- The calls by which the user makes a peer a contact, asks it to be one, or loads the contacts of a
-- file.
unfoldable pub is_decision : Bytes → Call → Bool
is_decision k (opens salt path pass) = true
is_decision k (adds peer e) = bytes_eq (to_hex peer) (to_hex k)
is_decision k (asks peer e text) = bytes_eq (to_hex peer) (to_hex k)
is_decision k (accepts peer) = bytes_eq (to_hex peer) (to_hex k)
is_decision k (polls dg now clock) = false
is_decision k (ticks clock) = false
is_decision k (connects peer e clock) = false
is_decision k (announces e) = false
is_decision k (sets_relay e) = false
is_decision k (rejects peer) = false
is_decision k (names peer name) = false
is_decision k (sends peer text now) = false

unfoldable pub any_decision : Bytes → List Call → Bool
unfolding is_decision
any_decision k [] = false
any_decision k (c ∷ calls) = is_decision k c || any_decision k calls

module _ (na : Sodium) (disk : Disk) (random : ℕ → Bytes) (delivers : Delivery) where
  tick_each-Same :
      (now : ℤ) (m : Assoc Probe) (h : Host disk)
      → Same na disk random delivers h (tick_each na disk random delivers now m h).1
  unfolding tick_each send_probe transmit
  tick_each-Same now [] h = (refl, refl)
  tick_each-Same now ((key, p) ∷ m) h = ground (
    arith,
    tick_each-Same now m h,
    tick_each-Same now m (send_probe na disk random delivers p.peer p.candidate h),
  )

  -- A command behind a test and `ensure_session`.
  commanded-Grows :
      (k : Bytes) (d t : Bool) (peer : Bytes) (h : Host disk)
      (f : Option Session × Host disk → Bool × Host disk)
      → ((r : Option Session × Host disk) → Grows na disk random delivers k d r.1 (f r).1)
      → Grows na disk random delivers k d h
          (if t then (false, h) else f (ensure_session na disk random delivers peer h)).1
  unfolding ensure_session
  commanded-Grows k d true peer h f g = Same-Grows na disk random delivers k d h h (refl, refl)
  commanded-Grows k d false peer h f g =
      let o = find (to_hex peer) h.engine.sessions in
      let r = session_or_new na disk random delivers o peer h in
      Grows-trans na disk random delivers k d h r.1 (f r).1
        (Same-Grows na disk random delivers k d h r.1
          (session-Same na disk random delivers o peer h))
        (g r)

  step-Grows :
      (k : Bytes) (c : Call) (h : Host disk)
      → Grows na disk random delivers k (is_decision k c) h (step na disk random delivers c h)
  unfolding step is_decision tick connect set_endpoint announce_to transmit set_relay add_peer
      send_contact_request accept_contact reject_contact send poll
  step-Grows k (polls none now clock) h =
      Same-Grows na disk random delivers k false h h (refl, refl)
  step-Grows k (polls (some dg) now clock) h = (
    (λ c. ground (arith, contact_only_if_asked na disk random delivers dg now clock h k c)),
    λ a. ground (arith, poll-NoneNew na disk random delivers k (some dg) now clock h a),
  )
  step-Grows k (ticks clock) h =
      Same-Grows na disk random delivers k false h (tick na disk random delivers clock h)
        (tick_each-Same clock h.engine.probes h)
  step-Grows k (connects peer e clock) h =
      let active : Endpoint = elim h.engine.relay [ none ↦ e | some relay ↦ relay ] in
      let h1 = set_endpoint na disk random delivers (to_hex peer) active h in
      Same-Grows na disk random delivers k false h
        (start_probing na disk random delivers peer e clock h1)
        (start_probing-Same na disk random delivers peer e clock h1)
  step-Grows k (announces e) h =
      Same-Grows na disk random delivers k false h (announce_to na disk random delivers e h).1
        (refl, refl)
  step-Grows k (sets_relay e) h =
      Same-Grows na disk random delivers k false h (set_relay na disk random delivers e h)
        (refl, refl)
  step-Grows k (opens salt path pass) h = ((λ c. ground arith), λ a. ground arith)
  step-Grows k (adds peer e) h =
      let h' = (add_peer na disk random delivers peer e h).1 in
      Grows-weaken na disk random delivers k (named na disk random delivers k peer accepted)
        (bytes_eq (to_hex peer) (to_hex k)) h h' (λ n. ground (arith, n))
        (commanded-Grows k (named na disk random delivers k peer accepted) false peer h
          (added_peer na disk random delivers peer e)
          (added-Grows na disk random delivers k peer e))
  step-Grows k (asks peer e text) h =
      commanded-Grows k (bytes_eq (to_hex peer) (to_hex k))
        (is_accepted (Store.trust_of peer h.engine.contacts)) peer h
        (requested na disk random delivers peer e text)
        (asked-Grows na disk random delivers k peer e text)
  step-Grows k (accepts peer) h =
      let asked = not (is_some (find (to_hex peer) h.engine.incoming_requests)) in
      let h' = (accept_contact na disk random delivers peer h).1 in
      Grows-weaken na disk random delivers k (named na disk random delivers k peer accepted)
        (bytes_eq (to_hex peer) (to_hex k)) h h' (λ n. ground (arith, n))
        (commanded-Grows k (named na disk random delivers k peer accepted) asked peer h
          (decided na disk random delivers peer accepted accept_decision)
          (decided-Grows na disk random delivers k peer accepted accept_decision))
  step-Grows k (rejects peer) h =
      let asked = not (is_some (find (to_hex peer) h.engine.incoming_requests)) in
      let h' = (reject_contact na disk random delivers peer h).1 in
      Grows-weaken na disk random delivers k (named na disk random delivers k peer rejected) false h
        h' (λ n. ground (arith, n))
        (commanded-Grows k (named na disk random delivers k peer rejected) asked peer h
          (decided na disk random delivers peer rejected reject_decision)
          (decided-Grows na disk random delivers k peer rejected reject_decision))
  step-Grows k (names peer name) h = nicknamed-Grows na disk random delivers k peer name h
  step-Grows k (sends peer text now) h =
      commanded-Grows k false (not (is_accepted (Store.trust_of peer h.engine.contacts))) peer h
        (sent na disk random delivers peer text now)
        (written-Grows na disk random delivers k peer text now)

  run-Grows :
      (k : Bytes) (calls : List Call) (h : Host disk)
      → Grows na disk random delivers k
          (any_decision k calls)
          h
          (run na disk random delivers calls h)
  unfolding run any_decision
  run-Grows k [] h = Same-Grows na disk random delivers k false h h (refl, refl)
  run-Grows k (c ∷ calls) h =
      let h1 = step na disk random delivers c h in
      let d = is_decision k c || any_decision k calls in
      Grows-trans na disk random delivers k d h h1 (run na disk random delivers calls h1)
        (Grows-weaken na disk random delivers k (is_decision k c) d h h1 (λ b. ground (arith, b))
          (step-Grows k c h))
        (Grows-weaken na disk random delivers k (any_decision k calls) d h1
          (run na disk random delivers calls h1) (λ b. ground (arith, b)) (run-Grows k calls h1))

  -- A peer is an accepted contact after any calls of an engine only if it was one at the start, or
  -- a contact request to it was open at the start, or one of the calls named it to be a contact
  -- (`add_peer`, `accept_contact`), asked it (`send_contact_request`) or opened a store. A call of
  -- `set_nickname` makes nobody a contact. The calls name a peer by its key in hexadecimal.
  pub contacts_are_by_consent :
      (calls : List Call) (h : Host disk) (k : Bytes)
      → is_contact na disk random delivers k (run na disk random delivers calls h) ≡ true
      → ((is_contact na disk random delivers k h || is_asked na disk random delivers k h)
          || any_decision k calls)
        ≡ true
  contacts_are_by_consent calls h k c = (run-Grows k calls h).0 c
