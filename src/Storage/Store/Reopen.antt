-- ===== src/Storage/Store/Reopen.antt =====
-- From one run of the program to the next, through the file.
use openmesh_messenger.Base.{
  ◌≡◌, ◌≢◌, Bool-cases, inl, inr, refl, true, false, arith, Bytes, is_empty, length,
}
use openmesh_messenger.Crypto.Kdf.{derive_key, derived}
use openmesh_messenger.Crypto.Sizes.{aead_nonce_bytes, session_key_bytes}
use openmesh_messenger.Crypto.Sodium.{Sodium, IsSodium}
use openmesh_messenger.Storage.Blob.{write_blob, tmp_of}
use openmesh_messenger.Storage.Blob.File.{
  failed_write_keeps, written-other, written-sizes, written-exists, read_salt-written,
  read_blob-written,
}
use openmesh_messenger.Storage.Disk.{Disk, IsDisk}
use openmesh_messenger.Storage.Records.{encode}
use openmesh_messenger.Storage.Records.RoundTrip.{IsContents, decode-encode}
use openmesh_messenger.Storage.Store.{magic, Store, contents_of, save, load, loaded, open_store}

module _ (na : Sodium) (disk : Disk) (laws : IsDisk disk) (fs : disk.State) (nonce : Bytes)
    (s : Store) where
  pub saves :
      s.persistent ≡ true
      → save na disk nonce fs s
        ≡ write_blob na disk nonce fs s.path magic s.salt s.key (encode (contents_of s))
  unfolding save
  saves p = rw p refl

  -- With the file system as its documentation has it: a save that answers that it failed leaves at
  -- the store's path what was there. A flush that fails when the temporary file is closed is no
  -- such answer.
  pub failed_save_keeps_file :
      (save na disk nonce fs s).0 ≡ false
      → disk.read_file (save na disk nonce fs s).1 s.path ≡ disk.read_file fs s.path
  unfolding save
  failed_save_keeps_file h = ground (
    arith,
    failed_write_keeps na disk laws fs nonce s.path magic s.salt s.key (encode (contents_of s)),
  )

  -- A save touches no file but the store's and its temporary one.
  pub save-other :
      (other : Bytes)
      → s.path ≢ other
      → tmp_of s.path ≢ other
      → disk.read_file (save na disk nonce fs s).1 other ≡ disk.read_file fs other
  unfolding save
  save-other other p t =
      let there =
        written-other na disk laws fs nonce s.path magic s.salt s.key (encode (contents_of s)) other
          p t in
      elim (Bool-cases s.persistent) [ inl kept ↦ rw kept there | inr memory ↦ rw memory refl ]

  not_empty : length s.key ≡ session_key_bytes → is_empty s.key ≡ false
  unfolding is_empty
  not_empty h = ground (arith, h)

  -- With libsodium and the file system as their documentation has them: after a save of a
  -- persistent store that answers that it succeeded, and whose temporary file was flushed when it
  -- was closed, `open` with the passphrase of its key gives back the whole store, into whatever
  -- store it is called on, and changes no file. The contents are such that the file format can
  -- carry them, and the nonce of the save has its size.
  pub open_store-save :
      (t : Store) (salt' nonce' passphrase : Bytes)
      → IsSodium na
      → IsContents (contents_of s)
      → length nonce ≡ aead_nonce_bytes
      → s.persistent ≡ true
      → derive_key na passphrase s.salt ≡ s.key
      → ((content : Bytes) → disk.flushes fs (tmp_of s.path) content ≡ true)
      → (save na disk nonce fs s).0 ≡ true
      → let fs' = (save na disk nonce fs s).1 in
        open_store na disk salt' nonce' fs' s.path passphrase t ≡ (true, s, fs')
  unfolding open_store load loaded derived
  open_store-save t salt' nonce' passphrase sl c n p k flushed ok =
      let text = encode (contents_of s) in
      let done : (write_blob na disk nonce fs s.path magic s.salt s.key text).0 ≡ true =
        rw (saves p) at ok in
      let there =
        written-exists na disk laws fs nonce s.path magic s.salt s.key text flushed done in
      let salted =
        read_salt-written na disk laws fs nonce s.path magic s.salt s.key text flushed refl done in
      let sized = written-sizes na disk laws fs nonce s.path magic s.salt s.key text done in
      let opened =
        read_blob-written na disk laws fs nonce s.path magic s.salt s.key text flushed sl refl n
          done in
      rw (saves p, there, salted, k, not_empty sized.1, opened, decode-encode (contents_of s) c, p)
        refl
