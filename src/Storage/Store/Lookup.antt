-- ===== src/Storage/Store/Lookup.antt =====
-- What the store's changes do to its lookups.
use openmesh_messenger.Base.{
  ◌≡◌, refl, ap, true, false, Option, none, some, List, [], ◌∷◌, ◌++◌, arith, Bytes, bytes_eq,
  bytes_eq_refl, bytes_eq_iff, if◌then◌else◌, Bool-cases, inl, inr,
}
use openmesh_messenger.Crypto.Sodium.{Sodium}
use openmesh_messenger.Storage.Disk.{Disk}
use openmesh_messenger.Storage.Records.{Contact, Message, Request, TrustStatus}
use openmesh_messenger.Storage.Store.{
  Store, put_contact_in, find_in, find, trust_in, trust_of, with_peer, conversation, is_pending,
  without_peer, autosave, upsert, append_message, add_request, remove_request,
}

find_in-put_contact_in :
    (k : Bytes) (c : Contact) (contacts : List Contact)
    → find_in k (put_contact_in c contacts)
      ≡ (if bytes_eq c.public_key k then some c else find_in k contacts)
unfolding find_in put_contact_in
find_in-put_contact_in k c [] = refl
find_in-put_contact_in k c (d ∷ contacts) = ground (
  arith,
  find_in-put_contact_in k c contacts,
  bytes_eq_iff d.public_key c.public_key,
  bytes_eq_iff c.public_key k,
  bytes_eq_iff d.public_key k,
)

abbrev pub trust_of_found : Option Contact → Option TrustStatus
trust_of_found none = none
trust_of_found (some c) = some c.trust

pub trust_in-find_in :
    (k : Bytes) (contacts : List Contact)
    → trust_in k contacts ≡ trust_of_found (find_in k contacts)
unfolding trust_in find_in
trust_in-find_in k [] = refl
trust_in-find_in k (c ∷ contacts) = ground (arith, trust_in-find_in k contacts)

with_peer-append :
    (peer : Bytes) (messages : List Message) (m : Message)
    → with_peer peer (messages ++ (m ∷ [])) ≡ (
        if bytes_eq m.peer peer
        then with_peer peer messages ++ (m ∷ [])
        else with_peer peer messages)
unfolding with_peer
with_peer-append peer [] m = refl
with_peer-append peer (x ∷ messages) m = ground (arith, with_peer-append peer messages m)

is_pending-append :
    (peer : Bytes) (requests : List Request) (q : Request)
    → is_pending peer (requests ++ (q ∷ []))
      ≡ (if is_pending peer requests then true else bytes_eq q.peer peer)
unfolding is_pending
is_pending-append peer [] q = ground arith
is_pending-append peer (x ∷ requests) q = ground (arith, is_pending-append peer requests q)

is_pending-without_peer :
    (p r : Bytes) (requests : List Request)
    → is_pending p (without_peer r requests)
      ≡ (if bytes_eq r p then false else is_pending p requests)
unfolding is_pending without_peer
is_pending-without_peer p r [] = ground arith
is_pending-without_peer p r (q ∷ requests) = ground (
  arith,
  is_pending-without_peer p r requests,
  bytes_eq_iff q.peer r,
  bytes_eq_iff r p,
  bytes_eq_iff q.peer p,
)

-- No peer has two pending requests.
abbrev pub OnePerPeer : List Request → Type 0
OnePerPeer [] = Unit
OnePerPeer (q ∷ requests) = (is_pending q.peer requests ≡ false) × OnePerPeer requests

append-OnePerPeer :
    (requests : List Request) (q : Request)
    → is_pending q.peer requests ≡ false
    → OnePerPeer requests
    → OnePerPeer (requests ++ (q ∷ []))
unfolding is_pending
append-OnePerPeer [] q new u = (refl, tt)
append-OnePerPeer (x ∷ requests) q new (ux, u) = (
  ground (
    arith,
    is_pending-append x.peer requests q,
    bytes_eq_iff q.peer x.peer,
    bytes_eq_iff x.peer q.peer,
  ),
  append-OnePerPeer requests q (ground arith) u,
)

without_peer-OnePerPeer :
    (r : Bytes) (requests : List Request)
    → OnePerPeer requests
    → OnePerPeer (without_peer r requests)
unfolding without_peer
without_peer-OnePerPeer r [] u = tt
without_peer-OnePerPeer r (q ∷ requests) (uq, u) = elim (Bool-cases (bytes_eq q.peer r)) [
  | inl same ↦ rw same (without_peer-OnePerPeer r requests u)
  | inr other ↦ rw other (
    ground (arith, is_pending-without_peer q.peer r requests),
    without_peer-OnePerPeer r requests u,
  )
]

module _ (na : Sodium) (disk : Disk) (nonce : Bytes) (fs : disk.State) (s : Store) where
  pub autosave-store : (autosave na disk nonce fs s).0 ≡ s
  unfolding autosave
  autosave-store = ground arith

module _ (na : Sodium) (disk : Disk) (nonce : Bytes) (fs : disk.State) (s : Store) where
  -- After `upsert` of a contact, its key finds that contact and its trust, and every other key
  -- finds what it found before.
  pub find-upsert :
      (c : Contact) (k : Bytes)
      → let s' = (upsert na disk nonce fs c s).0 in
        (find k s' ≡ (if bytes_eq c.public_key k then some c else find k s))
        × (trust_of k s' ≡ (if bytes_eq c.public_key k then some c.trust else trust_of k s))
  unfolding upsert find trust_of
  find-upsert c k =
      let s' : Store = record s { contacts = put_contact_in c s.contacts } in
      rw (autosave-store na disk nonce fs s') (
        find_in-put_contact_in k c s.contacts,
        ground (
          arith,
          trust_in-find_in k s'.contacts,
          trust_in-find_in k s.contacts,
          find_in-put_contact_in k c s.contacts,
        ),
      )

  -- `append_message` puts the message at the end of the conversation with its peer, and leaves
  -- every other conversation as it was.
  pub conversation-append_message :
      (m : Message) (peer : Bytes)
      → conversation peer (append_message na disk nonce fs m s).0
        ≡ (if bytes_eq m.peer peer then conversation peer s ++ (m ∷ []) else conversation peer s)
  unfolding append_message conversation
  conversation-append_message m peer =
      let s' : Store = record s { messages = s.messages ++ (m ∷ []) } in
      rw (autosave-store na disk nonce fs s') (with_peer-append peer s.messages m)

  -- In a store where no peer has two pending requests, `add_request` keeps it so, and afterwards
  -- the peer of the request has one.
  add_request-OnePerPeer :
      (q : Request)
      → OnePerPeer s.requests
      → let s' = (add_request na disk nonce fs q s).0 in
        OnePerPeer s'.requests × (is_pending q.peer s'.requests ≡ true)
  unfolding add_request
  add_request-OnePerPeer q u = elim (Bool-cases (is_pending q.peer s.requests)) [
    | inl known ↦ rw known (u, known)
    | inr new ↦
        let s' : Store = record s { requests = s.requests ++ (q ∷ []) } in
        rw (new, autosave-store na disk nonce fs s')
          (
            append-OnePerPeer s.requests q new u,
            ground (arith, is_pending-append q.peer s.requests q, bytes_eq_refl q.peer),
          )
  ]

  remove_request-requests :
      (peer : Bytes)
      → (remove_request na disk nonce fs peer s).0.requests ≡ without_peer peer s.requests
  unfolding remove_request
  remove_request-requests peer =
      let s' : Store = record s { requests = without_peer peer s.requests } in
      ground (arith, autosave-store na disk nonce fs s')

  -- In a store where no peer has two pending requests, `remove_request` keeps it so, and afterwards
  -- the given peer has none and every other peer has one exactly if it had one before.
  remove_request-OnePerPeer :
      (r p : Bytes)
      → OnePerPeer s.requests
      → let s' = (remove_request na disk nonce fs r s).0 in
        OnePerPeer s'.requests
        × (is_pending p s'.requests ≡ (if bytes_eq r p then false else is_pending p s.requests))
  remove_request-OnePerPeer r p u =
      rw (remove_request-requests r)
        (without_peer-OnePerPeer r s.requests u, is_pending-without_peer p r s.requests)

module _ (na : Sodium) (disk : Disk) (nonce : Bytes) (fs : disk.State) (s : Store) where
  pub upsert-messages : (c : Contact) → (upsert na disk nonce fs c s).0.messages ≡ s.messages
  unfolding upsert
  upsert-messages c =
      let s' : Store = record s { contacts = put_contact_in c s.contacts } in
      ap (λ (t : Store). t.messages) (autosave-store na disk nonce fs s')

  pub add_request-contacts :
      (q : Request)
      → let s' = (add_request na disk nonce fs q s).0 in
        (s'.contacts ≡ s.contacts) × (s'.messages ≡ s.messages)
  unfolding add_request
  add_request-contacts q =
      let s' : Store = record s { requests = s.requests ++ (q ∷ []) } in
      ground (arith, autosave-store na disk nonce fs s')

  pub append_message-store :
      (m : Message)
      → (append_message na disk nonce fs m s).0 ≡ record s { messages = s.messages ++ (m ∷ []) }
  unfolding append_message
  append_message-store m =
      autosave-store na disk nonce fs (record s { messages = s.messages ++ (m ∷ []) })
