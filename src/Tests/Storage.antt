-- ===== src/Tests/Storage.antt =====
-- A store with a contact, a message and a request, on the file system of Disk.
use openmesh_messenger.Base.{
  ◌≡◌, refl, true, false, bytes_eq, if◌then◌else◌, none, some, [], ◌∷◌, arith, Bytes, is_empty,
  length,
}
use openmesh_messenger.Base.Int.{pos, negsuc}
use openmesh_messenger.Crypto.Kdf.{derive_key}
use openmesh_messenger.Crypto.Aead.{seal}
use openmesh_messenger.Storage.Blob.{tmp_of, replace, commit, write_blob}
use openmesh_messenger.Storage.Records.{
  Contact, Message, Request, encode_contacts, decode, accepted,
}
use openmesh_messenger.Storage.Records.RoundTrip.{IsContents, decode-encode_contacts}
use openmesh_messenger.Storage.Store.{Store, contents_of, save, open_store}
use openmesh_messenger.Storage.Store.Reopen.{failed_save_keeps_file, open_store-save}
use openmesh_messenger.Storage.Store.Unflushed.{unflushed_save_loses_store}
use openmesh_messenger.Tests.Disk.{
  Files, toy_disk, toy_disk-IsDisk, jammed_disk, jammed_disk-IsDisk, full_disk, full_disk-IsDisk,
  left_empty,
}
use openmesh_messenger.Tests.Toy.{toy, toy-IsSodium, block, toy_pwhash}

abbrev bob : Contact
bob = record { public_key = 2 ∷ []; nickname = 66 ∷ []; trust = accepted; last_seen = pos 7 }

abbrev greeting : Message
greeting = record { peer = 2 ∷ []; text = 104 ∷ 105 ∷ []; outgoing = true; timestamp = negsuc 3 }

abbrev request : Request
request = record { peer = 3 ∷ []; greeting = []; timestamp = pos 9 }

abbrev passphrase : Bytes
passphrase = 112 ∷ 119 ∷ []

abbrev salt : Bytes
salt = block 16 (1 ∷ [])

abbrev file : Bytes
file = 100 ∷ 98 ∷ []

abbrev store : Store
store = record {
  contacts = bob ∷ [];
  messages = greeting ∷ [];
  requests = request ∷ [];
  persistent = true;
  path = file;
  key = derive_key toy passphrase salt;
  salt = salt;
}

abbrev empty_disk : Files
empty_disk path = none

abbrev nonce : Bytes
nonce = block 24 (5 ∷ [])

nonce-length : length nonce ≡ 24
unfolding block
nonce-length = refl

store-IsContents : IsContents (contents_of store)
store-IsContents = record {
  contacts_fit = omega arith;
  contacts = ((omega arith, omega arith, omega arith, omega arith), tt);
  messages_fit = omega arith;
  messages = ((omega arith, omega arith, omega arith), tt);
  requests_fit = omega arith;
  requests = ((omega arith, omega arith, omega arith), tt);
}

decode-encode_contacts_example :
    decode (encode_contacts (bob ∷ []))
    ≡ some (record { contacts = bob ∷ []; messages = []; requests = [] })
decode-encode_contacts_example =
    decode-encode_contacts (bob ∷ []) (omega arith)
      ((omega arith, omega arith, omega arith, omega arith), tt)

saved : (save toy toy_disk nonce empty_disk store).0 ≡ true
unfolding save write_blob replace commit seal derive_key block is_empty toy_pwhash
saved = refl

open_store-save_example :
    let fs = (save toy toy_disk nonce empty_disk store).1 in
    open_store toy toy_disk [] [] fs file passphrase (record store { contacts = []; key = [] })
    ≡ (true, store, fs)
open_store-save_example =
    open_store-save toy toy_disk toy_disk-IsDisk empty_disk nonce store
      (record store { contacts = []; key = [] }) [] [] passphrase toy-IsSodium store-IsContents
      nonce-length refl refl (λ content. refl) saved

-- A file that a save cannot replace, since the rename fails.
abbrev old_files : Files
old_files = λ path. if bytes_eq path file then some (1 ∷ 2 ∷ []) else none

not_saved : (save toy jammed_disk nonce old_files store).0 ≡ false
unfolding save write_blob replace commit seal derive_key block is_empty toy_pwhash
not_saved = refl

failed_save_keeps_file_example :
    jammed_disk.read_file (save toy jammed_disk nonce old_files store).1 file ≡ some (1 ∷ 2 ∷ [])
unfolding bytes_eq
failed_save_keeps_file_example =
    failed_save_keeps_file toy jammed_disk jammed_disk-IsDisk old_files nonce store not_saved

saved_in_vain : (save toy full_disk nonce old_files store).0 ≡ true
unfolding save write_blob replace commit seal derive_key block is_empty toy_pwhash
saved_in_vain = refl

unflushed_save_loses_store_example :
    let fs' = (save toy full_disk nonce old_files store).1 in
    (full_disk.read_file fs' file ≡ some [])
    × (open_store toy full_disk [] [] fs' file passphrase store ≡ (false, store, fs'))
unflushed_save_loses_store_example =
    unflushed_save_loses_store toy full_disk full_disk-IsDisk old_files nonce store store [] []
      passphrase [] refl (omega arith) (left_empty old_files (tmp_of file)) saved_in_vain
