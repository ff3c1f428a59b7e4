-- ===== src/Messaging/Engine/Probes.antt =====
-- What an `Engine` does to its probes: every call keeps what three changes of them keep.
use openmesh_messenger.Base.{
  ℕ, ◌≡◌, sym, ◌∙◌, subst, inl, inr, Bool, true, false, not, Option, none, some, List, [], ◌∷◌,
  arith, Bytes, is_some, if◌then◌else◌, Bool-cases,
}
use openmesh_messenger.Base.Assoc.{Assoc, find, insert_or_assign}
use openmesh_messenger.Base.Int.{ℤ}
use openmesh_messenger.Core.Hex.{to_hex}
use openmesh_messenger.Crypto.Sodium.{Sodium}
use openmesh_messenger.Messaging.Engine.{
  Probe, Host, accept_decision, reject_decision, is_confirmed, is_accepted, probe_or_blank,
  has_direct_path, set_endpoint, set_probe, transmit, change,
}
use openmesh_messenger.Messaging.Engine.Contacts.{session_or_new, ensure_session, set_nickname}
use openmesh_messenger.Messaging.Engine.Paths.{
  handle_probe, probe_advertised, with_fallback, start_probing, send_probe, tick_each, tick,
  connect, announce_to, handle_connect,
}
use openmesh_messenger.Messaging.Engine.Commands.{
  open_store, add_peer, added_peer, send_contact_request, requested, accept_contact, reject_contact,
  decided, send, sent,
}
use openmesh_messenger.Messaging.Engine.Poll.{handle_packet, poll}
use openmesh_messenger.Messaging.Engine.Steps.{
  Call, polls, ticks, connects, announces, sets_relay, opens, adds, asks, accepts, rejects, sends,
  names, step, run, set_relay,
}
use openmesh_messenger.Messaging.Session.{Session}
use openmesh_messenger.Messaging.Engine.Untouched.{
  added-probes, asked-probes, decided-probes, fallback-probes, opened-probes, session-probes,
  with_session-probes, written-probes,
}
use openmesh_messenger.Net.Datagram.{Delivery}
use openmesh_messenger.Net.Endpoint.{Endpoint, parse_endpoint}
use openmesh_messenger.Protocol.Packet.{Packet, blank}
use openmesh_messenger.Protocol.Wire.{deserialize}
use openmesh_messenger.Storage.Disk.{Disk}
use openmesh_messenger.Storage.Records.{accepted, rejected}
use openmesh_messenger.Storage.Store
use openmesh_messenger.Storage.Store.{Store}

-- The probe that `start_probing` stores, and the one that `handle_probe` does.
abbrev pub first_probe : Bytes → Endpoint → ℤ → Probe
first_probe peer e now = record {
  peer = peer;
  candidate = e;
  confirmed = false;
  attempts = 1;
  last = now;
}

abbrev pub confirmed_probe : Bytes → Option Probe → Probe
confirmed_probe peer o = record (probe_or_blank o) { peer = peer; confirmed = true }

module _ (na : Sodium) (disk : Disk) (random : ℕ → Bytes) (delivers : Delivery) where
  -- What the three changes of the probes keep.
  pub record IsKept (I : Assoc Probe → Type 0) : Type 0 where
    pub started :
        (m : Assoc Probe) (peer : Bytes) (e : Endpoint) (now : ℤ)
        → is_confirmed (find (to_hex peer) m) ≡ false
        → I m
        → I (insert_or_assign (to_hex peer) (first_probe peer e now) m)
    pub heard :
        (m : Assoc Probe) (peer : Bytes)
        → I m
        → I (insert_or_assign (to_hex peer) (confirmed_probe peer (find (to_hex peer) m)) m)
    pub ticked :
        (now : ℤ) (m : Assoc Probe) (h : Host disk)
        → I m
        → I (tick_each na disk random delivers now m h).0

  -- What the calls keep, one after another.
  module _ (I : Assoc Probe → Type 0) (kept : IsKept I) where
    probed :
        (peer : Bytes) (e : Endpoint) (now : ℤ) (h : Host disk)
        → I h.engine.probes
        → I (start_probing na disk random delivers peer e now h).engine.probes
    unfolding start_probing send_probe set_probe transmit has_direct_path
    probed peer e now h i = elim (Bool-cases (is_confirmed (find (to_hex peer) h.engine.probes))) [
      | inl direct ↦ rw direct i
      | inr not_yet ↦ rw not_yet (kept.started h.engine.probes peer e now not_yet i)
    ]

    answered :
        (peer : Bytes) (from : Endpoint) (h : Host disk)
        → I h.engine.probes
        → I (handle_probe na disk random delivers peer from h).engine.probes
    unfolding handle_probe send_probe set_probe set_endpoint transmit
    answered peer from h i =
        elim (Bool-cases (probe_or_blank (find (to_hex peer) h.engine.probes)).confirmed) [
          | inl direct ↦ rw direct (kept.heard h.engine.probes peer i)
          | inr not_yet ↦ rw not_yet (kept.heard h.engine.probes peer i)
        ]

    advertised :
        (peer : Bytes) (o : Option Endpoint) (now : ℤ) (h : Host disk)
        → I h.engine.probes
        → I (probe_advertised na disk random delivers peer o now h).engine.probes
    unfolding probe_advertised with_fallback set_endpoint
    advertised peer none now h i = i
    advertised peer (some e) now h i =
        let path = find (to_hex peer) h.engine.endpoints in
        probed peer e now
          (with_fallback na disk random delivers (to_hex peer) path h.engine.relay h)
          (subst I
            (sym (fallback-probes na disk random delivers (to_hex peer) path h.engine.relay h)) i)

    handled :
        (from : Endpoint) (now clock : ℤ) (h : Host disk) (q : Bool × Packet)
        → I h.engine.probes
        → I (handle_packet na disk random delivers from now clock h q).1.engine.probes
    unfolding handle_packet handle_connect ensure_session
    handled from now clock h (false, packet) i = i
    handled from now clock h (true, packet) i =
        let o = find (to_hex packet.source) h.engine.sessions in
        let same =
          with_session-probes na disk random delivers packet from now
            (session_or_new na disk random delivers o packet.source h)
          ∙ session-probes na disk random delivers o packet.source h in
        ground (
          arith,
          answered packet.source from h i,
          advertised packet.source (parse_endpoint packet.payload) clock h i,
          same,
          i,
        )

    -- A command behind a test and `ensure_session`, which itself leaves the probes alone.
    commanded :
        (b : Bool) (peer : Bytes) (h : Host disk)
        (f : Option Session × Host disk → Bool × Host disk)
        → ((r : Option Session × Host disk) → (f r).1.engine.probes ≡ r.1.engine.probes)
        → I h.engine.probes
        → I
            (if b
              then (false, h)
              else f (ensure_session na disk random delivers peer h)).1.engine.probes
    unfolding ensure_session
    commanded true peer h f same i = i
    commanded false peer h f same i =
        let o = find (to_hex peer) h.engine.sessions in
        subst I
          (sym (
            same (session_or_new na disk random delivers o peer h)
            ∙ session-probes na disk random delivers o peer h))
          i

    -- Every call keeps it.
    pub step-keeps :
        (c : Call) (h : Host disk)
        → I h.engine.probes
        → I (step na disk random delivers c h).engine.probes
    unfolding step poll tick connect set_endpoint announce_to transmit set_relay open_store add_peer
        send_contact_request accept_contact reject_contact send set_nickname change
    step-keeps (polls none now clock) h i = i
    step-keeps (polls (some dg) now clock) h i =
        handled dg.from now clock h (deserialize dg.content blank) i
    step-keeps (ticks clock) h i = kept.ticked clock h.engine.probes h i
    step-keeps (connects peer e clock) h i = probed peer e clock _ i
    step-keeps (announces e) h i = i
    step-keeps (sets_relay e) h i = i
    step-keeps (opens salt path pass) h i =
        subst I (sym (opened-probes na disk random delivers h _)) i
    step-keeps (adds peer e) h i =
        commanded false peer h (added_peer na disk random delivers peer e)
          (added-probes na disk random delivers peer e) i
    step-keeps (asks peer e text) h i =
        commanded (is_accepted (Store.trust_of peer h.engine.contacts)) peer h
          (requested na disk random delivers peer e text)
          (asked-probes na disk random delivers peer e text) i
    step-keeps (accepts peer) h i =
        commanded (not (is_some (find (to_hex peer) h.engine.incoming_requests))) peer h
          (decided na disk random delivers peer accepted accept_decision)
          (decided-probes na disk random delivers peer accepted accept_decision) i
    step-keeps (rejects peer) h i =
        commanded (not (is_some (find (to_hex peer) h.engine.incoming_requests))) peer h
          (decided na disk random delivers peer rejected reject_decision)
          (decided-probes na disk random delivers peer rejected reject_decision) i
    step-keeps (names peer name) h i = i
    step-keeps (sends peer text now) h i =
        commanded (not (is_accepted (Store.trust_of peer h.engine.contacts))) peer h
          (sent na disk random delivers peer text now)
          (written-probes na disk random delivers peer text now) i

    pub run-keeps :
        (calls : List Call) (h : Host disk)
        → I h.engine.probes
        → I (run na disk random delivers calls h).engine.probes
    unfolding run
    run-keeps [] h i = i
    run-keeps (c ∷ calls) h i =
        run-keeps calls (step na disk random delivers c h) (step-keeps c h i)
