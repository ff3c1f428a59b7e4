-- ===== src/Storage/Store.antt =====
-- `Store` of libs/storage/src/store.cpp. A method that may save takes the nonce of the save and the
-- file system, and returns the file system; as in the source, the answer of that save is dropped.
pub mod Reopen
pub mod Unflushed
pub mod Lookup
use openmesh_messenger.Base.{
  ℕ, Bool, true, false, not, Option, none, some, List, [], ◌∷◌, ◌++◌, ◌>>=◌, Bytes, bytes_eq,
  is_empty, length, ◌==◌, if◌then◌else◌,
}
use openmesh_messenger.Crypto.Kdf.{derived}
use openmesh_messenger.Crypto.Sodium.{Sodium}
use openmesh_messenger.Storage.Blob.{read_salt, read_blob, write_blob}
use openmesh_messenger.Storage.Disk.{Disk}
use openmesh_messenger.Storage.Records.{
  Contact, Message, Request, TrustStatus, Contents, encode, decode,
}

-- "OMDB".
abbrev pub magic : Bytes
magic = 79 ∷ 77 ∷ 68 ∷ 66 ∷ []

pub record Store : Type 0 where
  pub contacts : List Contact
  pub messages : List Message
  pub requests : List Request
  pub persistent : Bool
  pub path : Bytes
  pub key : Bytes
  pub salt : Bytes

abbrev pub contents_of : Store → Contents
contents_of s = record { contacts = s.contacts; messages = s.messages; requests = s.requests }

-- The loop of `upsert`: the first contact with the key is replaced, else the contact goes to the end.
unfoldable pub put_contact_in : Contact → List Contact → List Contact
put_contact_in c [] = c ∷ []
put_contact_in c (d ∷ contacts) =
    if bytes_eq d.public_key c.public_key then c ∷ contacts else d ∷ put_contact_in c contacts

unfoldable pub find_in : Bytes → List Contact → Option Contact
find_in key [] = none
find_in key (c ∷ contacts) = if bytes_eq c.public_key key then some c else find_in key contacts

unfoldable pub find : Bytes → Store → Option Contact
unfolding find_in
find key s = find_in key s.contacts

unfoldable pub trust_in : Bytes → List Contact → Option TrustStatus
trust_in key [] = none
trust_in key (c ∷ contacts) =
    if bytes_eq c.public_key key then some c.trust else trust_in key contacts

unfoldable pub trust_of : Bytes → Store → Option TrustStatus
unfolding trust_in
trust_of key s = trust_in key s.contacts

unfoldable pub with_peer : Bytes → List Message → List Message
with_peer peer [] = []
with_peer peer (m ∷ messages) =
    let rest = with_peer peer messages in if bytes_eq m.peer peer then m ∷ rest else rest

unfoldable pub conversation : Bytes → Store → List Message
unfolding with_peer
conversation peer s = with_peer peer s.messages

unfoldable pub is_pending : Bytes → List Request → Bool
is_pending peer [] = false
is_pending peer (q ∷ requests) = if bytes_eq q.peer peer then true else is_pending peer requests

-- `std::remove_if` and `erase`.
unfoldable pub without_peer : Bytes → List Request → List Request
without_peer peer [] = []
without_peer peer (q ∷ requests) =
    let rest = without_peer peer requests in if bytes_eq q.peer peer then rest else q ∷ rest

module _ (na : Sodium) (disk : Disk) where
  unfoldable pub save : Bytes → disk.State → Store → Bool × disk.State
  save nonce fs s =
      if not s.persistent
      then (false, fs)
      else write_blob na disk nonce fs s.path magic s.salt s.key (encode (contents_of s))

  -- `if (persistent_) save();`
  unfoldable pub autosave : Bytes → disk.State → Store → Store × disk.State
  unfolding save
  autosave nonce fs s = if s.persistent then (s, (save nonce fs s).1) else (s, fs)

  unfoldable pub add_contact : Bytes → disk.State → Contact → Store → Store × disk.State
  unfolding autosave
  add_contact nonce fs c s = autosave nonce fs (record s { contacts = s.contacts ++ (c ∷ []) })

  unfoldable pub upsert : Bytes → disk.State → Contact → Store → Store × disk.State
  unfolding autosave put_contact_in
  upsert nonce fs c s = autosave nonce fs (record s { contacts = put_contact_in c s.contacts })

  unfoldable pub append_message : Bytes → disk.State → Message → Store → Store × disk.State
  unfolding autosave
  append_message nonce fs m s = autosave nonce fs (record s { messages = s.messages ++ (m ∷ []) })

  unfoldable pub add_request : Bytes → disk.State → Request → Store → Store × disk.State
  unfolding autosave is_pending
  add_request nonce fs q s =
      if is_pending q.peer s.requests
      then (s, fs)
      else autosave nonce fs (record s { requests = s.requests ++ (q ∷ []) })

  unfoldable pub remove_request : Bytes → disk.State → Bytes → Store → Store × disk.State
  unfolding autosave without_peer
  remove_request nonce fs peer s =
      let s' = record s { requests = without_peer peer s.requests } in
      if length s'.requests == length s.requests then (s', fs) else autosave nonce fs s'

  -- The store with what the file at the path holds.
  unfoldable pub load : disk.State → Bytes → Bytes → Store → Option Store
  unfolding derived
  load fs path passphrase s = do
    salt ← read_salt disk fs path magic
    key ← derived na passphrase salt
    plaintext ← read_blob na disk fs path magic key
    c ← decode plaintext
    some (record {
      contacts = c.contacts;
      messages = c.messages;
      requests = c.requests;
      persistent = true;
      path = path;
      key = key;
      salt = salt;
    })

  unfoldable pub loaded : disk.State → Store → Option Store → Bool × Store × disk.State
  loaded fs s none = (false, s, fs)
  loaded fs s (some s') = (true, s', fs)

  -- A new file, under the random salt.
  unfoldable pub create :
      Bytes → disk.State → Bytes → Bytes → Store → Option Bytes → Bool × Store × disk.State
  unfolding save
  create nonce fs path salt s none = (false, s, fs)
  create nonce fs path salt s (some key) =
      let s' = record s { salt = salt; key = key; path = path; persistent = true } in
      let (ok, fs') = save nonce fs s' in (ok, s', fs')

  -- `open`, with the salt that `generate_salt` draws and the nonce of the first save: the answer, the
  -- store and the file system.
  unfoldable pub open_store :
      Bytes → Bytes → disk.State → Bytes → Bytes → Store → Bool × Store × disk.State
  unfolding load loaded create derived
  open_store salt nonce fs path passphrase s =
      if disk.exists fs path
      then loaded fs s (load fs path passphrase s)
      else create nonce fs path salt s (derived na passphrase salt)
