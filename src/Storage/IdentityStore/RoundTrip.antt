-- ===== src/Storage/IdentityStore/RoundTrip.antt =====
-- An identity from one run of the program to the next.
use openmesh_messenger.Base.{
  ◌≡◌, refl, sym, ap, ◌∙◌, Bool, true, some, [], append-nil, arith, Bytes, length, Option-cases,
  inl, inr,
}
use openmesh_messenger.Crypto.Identity.{Identity, valid}
use openmesh_messenger.Crypto.Kdf.{derived}
use openmesh_messenger.Crypto.Sizes.{aead_nonce_bytes}
use openmesh_messenger.Crypto.Sodium.{Sodium, IsSodium}
use openmesh_messenger.Storage.Blob.{tmp_of, write_blob}
use openmesh_messenger.Storage.Blob.File.{read_salt-written, read_blob-written, written-exists}
use openmesh_messenger.Storage.Disk.{Disk, IsDisk}
use openmesh_messenger.Storage.IdentityStore.{
  magic, put_identity, read_identity, checked, write_identity, save_identity, load_identity,
}
use openmesh_messenger.Storage.Reader.{bytes, done, put_bytes}
use openmesh_messenger.Storage.Reader.RoundTrip.{Decodes, Decodes-bind, Decodes-map, bytes-Decodes}

identity-Decodes : (id : Identity) → valid id ≡ true → Decodes read_identity id (put_identity id)
unfolding read_identity put_identity valid
identity-Decodes id v =
    Decodes-bind bytes _ id.public_key id (put_bytes id.public_key) (put_bytes id.secret_key)
      (bytes-Decodes id.public_key (ground arith))
      (Decodes-map bytes (λ sk. record id { secret_key = sk }) id.secret_key
        (put_bytes id.secret_key) (bytes-Decodes id.secret_key (ground arith)))

checked-put_identity :
    (id : Identity)
    → valid id ≡ true
    → checked (put_identity id) (read_identity (put_identity id) 0) ≡ some id
unfolding checked done
checked-put_identity id v =
    let text = put_identity id in
    let got : read_identity text 0 ≡ some (id, length text) =
      identity-Decodes id v text 0 [] (omega arith) (sym (append-nil text))
      ∙ ap (λ k. some (id, k)) (omega arith) in
    rw got (ground (arith, v))

module _ (na : Sodium) (disk : Disk) (laws : IsDisk disk) (fs : disk.State)
    (path salt nonce passphrase : Bytes) (id : Identity) where
  abbrev saved : Bool × disk.State
  saved = save_identity na disk salt nonce fs path id passphrase

  -- With libsodium and the file system as their documentation has them, a nonce of its size, and
  -- a flush of the file that succeeds: after a `save_identity` that succeeds, `load_identity` with the same passphrase gives the
  -- identity back.
  pub load_identity-save_identity :
      IsSodium na
      → length nonce ≡ aead_nonce_bytes
      → ((content : Bytes) → disk.flushes fs (tmp_of path) content ≡ true)
      → saved.0 ≡ true
      → load_identity na disk saved.1 path passphrase ≡ some id
  unfolding load_identity save_identity write_identity
  load_identity-save_identity sl n flushed ok = elim (Option-cases (derived na passphrase salt)) [
    | inl gone ↦ absurd (ground (arith, gone))
    | inr (key, e) ↦
        let v : valid id ≡ true = ground (arith, e) in
        let text = put_identity id in
        let ok' : (write_blob na disk nonce fs path magic salt key text).0 ≡ true =
          rw (v, e) at ok in
        rw
          (
            v,
            e,
            read_salt-written na disk laws fs nonce path magic salt key text flushed refl ok',
            e,
            read_blob-written na disk laws fs nonce path magic salt key text flushed sl refl n ok',
          )
          (checked-put_identity id v)
  ]

  -- The file of a saved identity exists.
  pub saved-exists :
      ((content : Bytes) → disk.flushes fs (tmp_of path) content ≡ true)
      → saved.0 ≡ true
      → disk.exists saved.1 path ≡ true
  unfolding save_identity write_identity
  saved-exists flushed ok = elim (Option-cases (derived na passphrase salt)) [
    | inl gone ↦ absurd (ground (arith, gone))
    | inr (key, e) ↦
        let v : valid id ≡ true = ground (arith, e) in
        let text = put_identity id in
        let ok' : (write_blob na disk nonce fs path magic salt key text).0 ≡ true =
          rw (v, e) at ok in
        rw (v, e) (written-exists na disk laws fs nonce path magic salt key text flushed ok')
  ]
