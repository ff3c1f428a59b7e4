-- ===== src/Storage/Store/Unflushed.antt =====
-- libs/storage/src/blob.cpp and store.cpp: a save whose temporary file is cut short when it is closed.
use openmesh_messenger.Base.{◌≡◌, refl, ◌<◌, true, false, some, none, arith, Bytes, length}
use openmesh_messenger.Crypto.Sodium.{Sodium}
use openmesh_messenger.Storage.Blob.{tmp_of, header_size, valid_header, read_salt, salt_in}
use openmesh_messenger.Storage.Blob.File.{written-takes}
use openmesh_messenger.Storage.Disk.{Disk, IsDisk}
use openmesh_messenger.Storage.Records.{encode}
use openmesh_messenger.Storage.Store.{magic, Store, contents_of, save, load, loaded, open_store}
use openmesh_messenger.Storage.Store.Reopen.{saves}

-- A file shorter than the header has no salt.
salt_in-short : (magic file : Bytes) → length file < header_size → salt_in magic file ≡ none
unfolding salt_in valid_header
salt_in-short magic file short = ground (arith, short)

module _ (na : Sodium) (disk : Disk) (laws : IsDisk disk) (fs : disk.State) (nonce : Bytes)
    (s : Store) where
  -- Where closing the temporary file leaves less than a header in it, although the stream took the
  -- bytes, a save of a persistent store that answers that it succeeded has replaced the store's
  -- file by what was left, and `open` on it fails and changes neither the store nor a file. The
  -- file system is as its documentation has it.
  pub unflushed_save_loses_store :
      (t : Store) (salt' nonce' passphrase left : Bytes)
      → s.persistent ≡ true
      → length left < header_size
      → ((content : Bytes)
          → disk.read_file (disk.write_file fs (tmp_of s.path) content).1 (tmp_of s.path)
            ≡ some left)
      → (save na disk nonce fs s).0 ≡ true
      → let fs' = (save na disk nonce fs s).1 in
        (disk.read_file fs' s.path ≡ some left)
        × (open_store na disk salt' nonce' fs' s.path passphrase t ≡ (false, t, fs'))
  unfolding open_store load loaded read_salt
  unflushed_save_loses_store t salt' nonce' passphrase left p short closed ok =
      let fs' = (save na disk nonce fs s).1 in
      let there : disk.read_file fs' s.path ≡ some left = rw (saves na disk laws fs nonce s p) (
        written-takes na disk laws fs nonce s.path magic s.salt s.key (encode (contents_of s)) left
          closed (rw (saves na disk laws fs nonce s p) at ok)) in
      let exists = laws.exists-read fs' s.path left there in
      (there, rw (exists, there, salt_in-short magic left short) refl)
