-- ===== src/Messaging/Engine/Grows.antt =====
-- What the commands of an `Engine` do to who is a contact and who is asked.
use openmesh_messenger.Base.{
  ℕ, suc, ◌≡◌, refl, inl, inr, Bool, true, false, ◌&&◌, ◌||◌, Option, none, some, [], ◌∷◌, arith,
  Bytes, bytes_eq, bytes_eq_refl, bytes_eq_iff, is_some, Bool-cases,
}
use openmesh_messenger.Base.Assoc.{find, insert_or_assign, erase, find-insert}
use openmesh_messenger.Base.Int.{ℤ}
use openmesh_messenger.Core.Hex.{to_hex}
use openmesh_messenger.Crypto.Sodium.{Sodium}
use openmesh_messenger.Messaging.Engine.{
  Host, is_accepted, destination_of, set_endpoint, set_session, change, transmit,
}
use openmesh_messenger.Messaging.Engine.Contacts.{set_trust, set_nickname}
use openmesh_messenger.Messaging.Engine.Commands.{
  added_peer, requested, decided, sent, recorded, encrypt_and_send, send_packet, send_to_known,
}
use openmesh_messenger.Messaging.Engine.Carried.{Same}
use openmesh_messenger.Messaging.Engine.Effects.{set_trust-effect, set_nickname-effect}
use openmesh_messenger.Messaging.Session.{Session, encrypt_as}
use openmesh_messenger.Net.Datagram.{Delivery}
use openmesh_messenger.Net.Endpoint.{Endpoint}
use openmesh_messenger.Protocol.Packet.{Packet}
use openmesh_messenger.Protocol.PacketType
use openmesh_messenger.Protocol.PacketType.{PacketType}
use openmesh_messenger.Storage.Disk.{Disk}
use openmesh_messenger.Storage.Records.{Message, TrustStatus, accepted, pending}
use openmesh_messenger.Storage.Store
use openmesh_messenger.Storage.Store.{Store}
use openmesh_messenger.Storage.Store.Lookup.{trust_in-find_in, append_message-store, autosave-store}

module _ (na : Sodium) (disk : Disk) (random : ℕ → Bytes) (delivers : Delivery) where
  abbrev pub is_contact : Bytes → Host disk → Bool
  is_contact k h = is_accepted (Store.trust_of k h.engine.contacts)

  abbrev pub is_asked : Bytes → Host disk → Bool
  is_asked k h = is_some (find (to_hex k) h.engine.outgoing_requests)

  -- From one host to a later one: a contact was one before, was asked, or is one by a decision; and
  -- a peer is asked only if it was before, or by a decision.
  abbrev pub Grows : Bytes → Bool → Host disk → Host disk → Type 0
  Grows k b h h' =
      (is_contact k h' ≡ true → ((is_contact k h || is_asked k h) || b) ≡ true)
      × (is_asked k h' ≡ true → (is_asked k h || b) ≡ true)

  pub Same-Grows :
      (k : Bytes) (b : Bool) (h h' : Host disk) → Same na disk random delivers h h' → Grows k b h h'
  Same-Grows k b h h' (c, o) = rw (c, o) (ground arith)

  pub Grows-trans :
      (k : Bytes) (b : Bool) (h h1 h2 : Host disk)
      → Grows k b h h1
      → Grows k b h1 h2
      → Grows k b h h2
  Grows-trans k b h h1 h2 p q = ((λ c. ground (arith, c, p, q)), λ a. ground (arith, a, p, q))

  pub Grows-weaken :
      (k : Bytes) (b d : Bool) (h h' : Host disk)
      → (b ≡ true → d ≡ true)
      → Grows k b h h'
      → Grows k d h h'
  Grows-weaken k b d h h' w p = ((λ c. ground (arith, c, p, w)), λ a. ground (arith, a, p, w))

  known-Same :
      (to : Option Endpoint) (packet : Packet) (h : Host disk)
      → Same na disk random delivers h (send_to_known na disk random delivers to packet h).1
  unfolding send_to_known transmit
  known-Same none packet h = (refl, refl)
  known-Same (some to) packet h = (refl, refl)

  pub sent-Same :
      (peer : Bytes) (s : Session) (t : PacketType) (text : Bytes) (h : Host disk)
      → Same na disk random delivers h (encrypt_and_send na disk random delivers peer s t text h).1
  unfolding encrypt_and_send send_packet set_session
  sent-Same peer s t text h =
      let (packet, s') = encrypt_as na (random h.drawn) s t text in
      known-Same (destination_of (find (to_hex peer) h.engine.endpoints) h.engine.relay) packet
        (set_session na disk random delivers (to_hex peer) s' (record h { drawn = suc h.drawn }))

  -- Only the trust `accepted` makes a contact.
  abbrev pub named : Bytes → Bytes → TrustStatus → Bool
  named k peer t = bytes_eq (to_hex peer) (to_hex k) && is_accepted (some t)

  trusted-Grows :
      (k peer : Bytes) (t : TrustStatus) (h : Host disk)
      → Grows k (named k peer t) h (set_trust na disk random delivers peer t h)
  unfolding set_trust change
  trusted-Grows k peer t h =
      let (t', _) = set_trust-effect na disk random delivers peer k t h in
      elim (Bool-cases (bytes_eq peer k)) [
        | inl same ↦
            let hex : bytes_eq (to_hex peer) (to_hex k) ≡ true =
              rw ((bytes_eq_iff peer k).0 same) (bytes_eq_refl (to_hex k)) in
            ((λ c. ground (arith, c, t', same, hex)), λ a. ground (arith, a))
        | inr other ↦ ((λ c. ground (arith, c, t', other)), λ a. ground (arith, a))
      ]

  -- A new name makes nobody a contact.
  pub nicknamed-Grows :
      (k peer name : Bytes) (h : Host disk)
      → Grows k false h (set_nickname na disk random delivers peer name h)
  unfolding set_nickname change Store.trust_of Store.find
  nicknamed-Grows k peer name h =
      let (t, _) = set_nickname-effect na disk random delivers peer k name h in
      elim (Bool-cases (bytes_eq peer k)) [
        | inr other ↦ ((λ c. ground (arith, c, t, other)), λ a. ground (arith, a))
        | inl same ↦
            let one = (bytes_eq_iff peer k).0 same in
            let there = trust_in-find_in k h.engine.contacts.contacts in
            (
              λ c. let t' = rw (same, one) at t in ground (arith, c, t', there),
              λ a. ground (arith, a),
            )
      ]

  -- A peer that has been noted as asked.
  noted-Grows :
      (k peer : Bytes) (e : Endpoint) (h : Host disk)
      → Grows k (bytes_eq (to_hex peer) (to_hex k)) h (record h {
        engine = record h.engine {
          endpoints = insert_or_assign (to_hex peer) e h.engine.endpoints;
          outgoing_requests = insert_or_assign (to_hex peer) tt h.engine.outgoing_requests;
        };
      })
  noted-Grows k peer e h = (
    (λ c. ground (arith, c)),
    λ a. ground (
      arith,
      a,
      find-insert {V = Unit {0}} (to_hex peer) (to_hex k) tt h.engine.outgoing_requests,
    ),
  )

  pub asked-Grows :
      (k peer : Bytes) (e : Endpoint) (text : Bytes) (r : Option Session × Host disk)
      → Grows k
          (bytes_eq (to_hex peer) (to_hex k))
          r.1
          (requested na disk random delivers peer e text r).1
  unfolding requested set_endpoint
  asked-Grows k peer e text (none, h) = Same-Grows k _ h h (refl, refl)
  asked-Grows k peer e text (some s, h) =
      let b = bytes_eq (to_hex peer) (to_hex k) in
      let h1 : Host disk = record h {
        engine = record h.engine {
          endpoints = insert_or_assign (to_hex peer) e h.engine.endpoints;
          outgoing_requests = insert_or_assign (to_hex peer) tt h.engine.outgoing_requests;
        };
      } in
      let h2 = set_trust na disk random delivers peer pending h1 in
      let h3 =
        (encrypt_and_send na disk random delivers peer s PacketType.contact_request text h2).1 in
      let (c, a) = trusted-Grows k peer pending h1 in
      let second : Grows k b h1 h2 = ((λ x. ground (arith, c x)), λ x. ground (arith, a x)) in
      Grows-trans k b h h1 h3 (noted-Grows k peer e h) (
        Grows-trans k b h1 h2 h3 second
          (Same-Grows k b h2 h3 (sent-Same peer s PacketType.contact_request text h2)))

  pub added-Grows :
      (k peer : Bytes) (e : Endpoint) (r : Option Session × Host disk)
      → Grows k (named k peer accepted) r.1 (added_peer na disk random delivers peer e r).1
  unfolding added_peer set_endpoint
  added-Grows k peer e (none, h) = Same-Grows k _ h h (refl, refl)
  added-Grows k peer e (some s, h) =
      trusted-Grows k peer accepted (set_endpoint na disk random delivers (to_hex peer) e h)

  -- `remove_request` leaves the contacts alone.
  removed-contacts :
      (nonce : Bytes) (fs : disk.State) (peer : Bytes) (s : Store)
      → (Store.remove_request na disk nonce fs peer s).0.contacts ≡ s.contacts
  unfolding Store.remove_request
  removed-contacts nonce fs peer s =
      let s' : Store = record s { requests = Store.without_peer peer s.requests } in
      ground (arith, autosave-store na disk nonce fs s')

  removed-Grows :
      (k : Bytes) (b : Bool) (peer : Bytes) (h : Host disk)
      → let h1 : Host disk = record h {
        engine = record h.engine {
          incoming_requests = erase (to_hex peer) h.engine.incoming_requests;
        };
      } in
        Grows k b h (
          change na disk random delivers
            (λ nonce fs. Store.remove_request na disk nonce fs peer)
            h1)
  unfolding change Store.trust_of
  removed-Grows k b peer h =
      rw (removed-contacts (random h.drawn) h.fs peer h.engine.contacts)
        ((λ c. ground (arith, c)), λ a. ground (arith, a))

  pub decided-Grows :
      (k peer : Bytes) (t : TrustStatus) (d : ℕ) (r : Option Session × Host disk)
      → Grows k (named k peer t) r.1 (decided na disk random delivers peer t d r).1
  unfolding decided
  decided-Grows k peer t d (none, h) = Same-Grows k _ h h (refl, refl)
  decided-Grows k peer t d (some s, h) =
      let h1 : Host disk = record h {
        engine = record h.engine {
          incoming_requests = erase (to_hex peer) h.engine.incoming_requests;
        };
      } in
      let h2 =
        change na disk random delivers (λ nonce fs. Store.remove_request na disk nonce fs peer)
          h1 in
      let h3 = set_trust na disk random delivers peer t h2 in
      let h4 =
        (encrypt_and_send na disk random delivers peer s PacketType.contact_response (d ∷ [])
          h3).1 in
      let b = named k peer t in
      Grows-trans k b h h2 h4 (removed-Grows k b peer h) (
        Grows-trans k b h2 h3 h4 (trusted-Grows k peer t h2)
          (Same-Grows k b h3 h4 (sent-Same peer s PacketType.contact_response (d ∷ []) h3)))

  recorded-Grows :
      (k : Bytes) (peer text : Bytes) (now : ℤ) (r : Bool × Host disk)
      → Grows k false r.1 (recorded na disk random delivers peer text now r).1
  unfolding recorded change Store.trust_of
  recorded-Grows k peer text now (false, h) = Same-Grows k false h h (refl, refl)
  recorded-Grows k peer text now (true, h) =
      let m : Message = record { peer = peer; text = text; outgoing = true; timestamp = now } in
      let e = append_message-store na disk (random h.drawn) h.fs h.engine.contacts m in
      rw e ((λ c. ground (arith, c)), λ a. ground (arith, a))

  pub written-Grows :
      (k peer text : Bytes) (now : ℤ) (r : Option Session × Host disk)
      → Grows k false r.1 (sent na disk random delivers peer text now r).1
  unfolding sent
  written-Grows k peer text now (none, h) = Same-Grows k false h h (refl, refl)
  written-Grows k peer text now (some s, h) =
      let r = encrypt_and_send na disk random delivers peer s PacketType.message text h in
      Grows-trans k false h r.1 (recorded na disk random delivers peer text now r).1
        (Same-Grows k false h r.1 (sent-Same peer s PacketType.message text h))
        (recorded-Grows k peer text now r)
