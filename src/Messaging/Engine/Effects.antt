-- ===== src/Messaging/Engine/Effects.antt =====
-- What each step of `poll` does to the contacts, the history and the open requests.
use openmesh_messenger.Base.{
  ℕ, ◌≡◌, refl, ap, ◌∙◌, ◌⊎◌, inl, inr, true, false, ◌||◌, some, [], ◌∷◌, ◌++◌, arith, Bytes,
  bytes_eq, bytes_eq_refl, bytes_eq_iff, is_empty, is_some, if◌then◌else◌, Bool-cases,
}
use openmesh_messenger.Base.Assoc.{find, insert_or_assign, erase}
use openmesh_messenger.Base.Int.{ℤ}
use openmesh_messenger.Core.Hex.{to_hex}
use openmesh_messenger.Crypto.Sodium.{Sodium}
use openmesh_messenger.Messaging.Engine.{Host, is_accepted, contact_or_blank, change}
use openmesh_messenger.Messaging.Engine.Contacts.{
  handle_message, handle_contact_request, handle_contact_response, set_trust, set_nickname,
  says_yes,
}
use openmesh_messenger.Net.Datagram.{Delivery}
use openmesh_messenger.Storage.Disk.{Disk}
use openmesh_messenger.Storage.Records.{
  Contact, Message, Request, TrustStatus, pending, accepted, rejected,
}
use openmesh_messenger.Storage.Store
use openmesh_messenger.Storage.Store.{Store}
use openmesh_messenger.Storage.Store.Lookup.{
  find-upsert, upsert-messages, add_request-contacts, append_message-store,
}

module _ (na : Sodium) (disk : Disk) (random : ℕ → Bytes) (delivers : Delivery) where
  -- The effect of a change of trust.
  pub set_trust-effect :
      (peer k : Bytes) (t : TrustStatus) (h : Host disk)
      → let h' = set_trust na disk random delivers peer t h in
        (Store.trust_of k h'.engine.contacts
          ≡ (if bytes_eq peer k then some t else Store.trust_of k h.engine.contacts))
        × (h'.engine.contacts.messages ≡ h.engine.contacts.messages)
  unfolding set_trust change
  set_trust-effect peer k t h =
      let s = h.engine.contacts in
      let c : Contact = record (contact_or_blank (Store.find peer s)) {
        public_key = peer;
        trust = t;
      } in
      (
        (find-upsert na disk (random h.drawn) h.fs s c k).1,
        upsert-messages na disk (random h.drawn) h.fs s c,
      )

  pub set_nickname-effect :
      (peer k name : Bytes) (h : Host disk)
      → let h' = set_nickname na disk random delivers peer name h in
        (Store.trust_of k h'.engine.contacts ≡ (
          if bytes_eq peer k
          then some (contact_or_blank (Store.find peer h.engine.contacts)).trust
          else Store.trust_of k h.engine.contacts))
        × (h'.engine.contacts.messages ≡ h.engine.contacts.messages)
  unfolding set_nickname change
  set_nickname-effect peer k name h =
      let s = h.engine.contacts in
      let c : Contact = record (contact_or_blank (Store.find peer s)) {
        public_key = peer;
        nickname = name;
      } in
      (
        (find-upsert na disk (random h.drawn) h.fs s c k).1,
        upsert-messages na disk (random h.drawn) h.fs s c,
      )

  -- The peer is accepted afterwards only if it was before, or if this end had asked it.
  abbrev pub Asked : Bytes → Host disk → Host disk → Type 0
  Asked k h h' =
      is_accepted (Store.trust_of k h'.engine.contacts) ≡ true
      → (is_accepted (Store.trust_of k h.engine.contacts) ≡ true)
        ⊎ (is_some (find (to_hex k) h.engine.outgoing_requests) ≡ true)

  set_trust-found :
      (peer : Bytes) (t : TrustStatus) (h : Host disk)
      → (contact_or_blank
          (Store.find peer (set_trust na disk random delivers peer t h).engine.contacts)).trust
        ≡ t
  unfolding set_trust change
  set_trust-found peer t h =
      let s = h.engine.contacts in
      let c : Contact = record (contact_or_blank (Store.find peer s)) {
        public_key = peer;
        trust = t;
      } in
      ground (arith, (find-upsert na disk (random h.drawn) h.fs s c peer).0, bytes_eq_refl peer)

  -- What a first request leaves behind, before it is listed.
  pub marked-effect :
      (peer k greeting : Bytes) (h : Host disk)
      → let marked = set_trust na disk random delivers peer pending h in
        let named =
          if is_empty greeting
          then marked
          else set_nickname na disk random delivers peer greeting marked in
        (is_accepted (Store.trust_of k named.engine.contacts) ≡ true
          → is_accepted (Store.trust_of k h.engine.contacts) ≡ true)
        × (named.engine.contacts.messages ≡ h.engine.contacts.messages)
  marked-effect peer k greeting h =
      let marked = set_trust na disk random delivers peer pending h in
      let (t, m) = set_trust-effect peer k pending h in
      let (u, n) = set_nickname-effect peer k greeting marked in
      let f = set_trust-found peer pending h in
      elim (Bool-cases (is_empty greeting)) [
        | inl e ↦ rw e ((λ acc. ground (arith, t, acc)), m)
        | inr e ↦ rw e ((λ acc. ground (arith, t, u, f, acc)), n ∙ m)
      ]

  pub listed-effect :
      (k : Bytes) (q : Request) (h : Host disk)
      → let h' =
          change na disk random delivers (λ nonce fs. Store.add_request na disk nonce fs q) h in
        (Store.trust_of k h'.engine.contacts ≡ Store.trust_of k h.engine.contacts)
        × (h'.engine.contacts.messages ≡ h.engine.contacts.messages)
  unfolding change Store.trust_of
  listed-effect k q h =
      let (c, m) = add_request-contacts na disk (random h.drawn) h.fs h.engine.contacts q in
      (rw c refl, m)

  pub request-effect :
      (peer greeting k : Bytes) (now : ℤ) (h : Host disk)
      → let h' = handle_contact_request na disk random delivers peer greeting now h in
        Asked k h h' × (h'.engine.contacts.messages ≡ h.engine.contacts.messages)
  unfolding handle_contact_request
  request-effect peer greeting k now h =
      elim (Bool-cases (
        is_some (Store.trust_of peer h.engine.contacts)
        || is_some (find (to_hex peer) h.engine.incoming_requests))) [
          | inl known ↦ rw known ((λ acc. inl acc), refl)
          | inr new ↦
              let asked : Host disk = record h {
                engine = record h.engine {
                  incoming_requests = insert_or_assign (to_hex peer) tt h.engine.incoming_requests;
                };
              } in
              let marked = set_trust na disk random delivers peer pending asked in
              let named : Host disk =
                if is_empty greeting
                then marked
                else set_nickname na disk random delivers peer greeting marked in
              let q : Request = record { peer = peer; greeting = greeting; timestamp = now } in
              let (t, m) = marked-effect peer k greeting asked in
              let (u, n) = listed-effect k q named in rw new ((λ acc. inl (t (rw u at acc))), n ∙ m)
        ]

  pub response-effect :
      (peer decision k : Bytes) (h : Host disk)
      → let h' = handle_contact_response na disk random delivers peer decision h in
        Asked k h h' × (h'.engine.contacts.messages ≡ h.engine.contacts.messages)
  unfolding handle_contact_response
  response-effect peer decision k h =
      elim (Bool-cases (is_some (find (to_hex peer) h.engine.outgoing_requests))) [
        | inr unsolicited ↦ rw unsolicited ((λ acc. inl acc), refl)
        | inl solicited ↦
            let answered : Host disk = record h {
              engine = record h.engine {
                outgoing_requests = erase (to_hex peer) h.engine.outgoing_requests;
              };
            } in
            let t = if says_yes decision then accepted else rejected in
            let (u, m) = set_trust-effect peer k t answered in
            rw solicited (
              (λ acc. elim (Bool-cases (bytes_eq peer k)) [
                | inl same ↦ inr (rw (← (bytes_eq_iff peer k).0 same) solicited)
                | inr other ↦ inl (ground (arith, u, other, acc))
              ]),
              m,
            )
      ]

  pub message-effect :
      (peer text k : Bytes) (now : ℤ) (h : Host disk)
      → let h' = handle_message na disk random delivers peer text now h in
        let m : Message = record { peer = peer; text = text; outgoing = false; timestamp = now } in
        Asked k h h' × (h'.engine.contacts.messages ≡ h.engine.contacts.messages ++ (m ∷ []))
  unfolding handle_message change
  message-effect peer text k now h =
      let m : Message = record { peer = peer; text = text; outgoing = false; timestamp = now } in
      let e = append_message-store na disk (random h.drawn) h.fs h.engine.contacts m in
      ((λ acc. inl (unfold Store.trust_of in rw e at acc)), ap (λ (s : Store). s.messages) e)
