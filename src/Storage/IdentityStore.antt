-- ===== src/Storage/IdentityStore.antt =====
-- libs/storage/src/identity_store.cpp: the identity in a file of its own. The random salt and nonce
-- are arguments.
pub mod RoundTrip
use openmesh_messenger.Base.{
  ℕ, ◌≡◌, refl, sym, ap, ◌∙◌, ◌^◌, ◌<◌, Bool, true, false, not, Option, none, some, List, [], ◌∷◌,
  ◌++◌, ◌>>=◌, append-nil, arith, Bytes, is_empty, length, if◌then◌else◌,
}
use openmesh_messenger.Crypto.Identity.{Identity, valid}
use openmesh_messenger.Crypto.Kdf.{derived}
use openmesh_messenger.Crypto.Sizes.{aead_nonce_bytes}
use openmesh_messenger.Crypto.Sodium.{Sodium, IsSodium}
use openmesh_messenger.Storage.Blob.{read_salt, read_blob, write_blob}
use openmesh_messenger.Storage.Blob.File.{read_salt-written, read_blob-written}
use openmesh_messenger.Storage.Disk.{Disk, IsDisk}
use openmesh_messenger.Storage.Reader
use openmesh_messenger.Storage.Reader.{Read, ret, bytes, done, put_bytes}
use openmesh_messenger.Storage.Reader.RoundTrip.{Decodes, Decodes-bind, Decodes-map, bytes-Decodes}

-- "OMID".
abbrev pub magic : Bytes
magic = 79 ∷ 77 ∷ 73 ∷ 68 ∷ []

unfoldable pub put_identity : Identity → Bytes
unfolding put_bytes
put_identity id = put_bytes id.public_key ++ put_bytes id.secret_key

unfoldable pub read_identity : Read Identity
unfolding bytes
read_identity =
    Reader.◌>>=◌ bytes
      (λ pk. Reader.◌>>=◌ bytes (λ sk. ret (record { public_key = pk; secret_key = sk })))

-- `!r.done() || !id.valid()`.
unfoldable pub checked : Bytes → Option (Identity × ℕ) → Option Identity
unfolding done
checked text none = none
checked text (some (id, off)) =
    if not (done text off) then none else if not (valid id) then none else some id

module _ (na : Sodium) (disk : Disk) where
  -- Under the derived key.
  unfoldable pub write_identity :
      Bytes → Bytes → disk.State → Bytes → Identity → Option Bytes → Bool × disk.State
  unfolding put_identity
  write_identity salt nonce fs path id none = (false, fs)
  write_identity salt nonce fs path id (some key) =
      write_blob na disk nonce fs path magic salt key (put_identity id)

  unfoldable pub save_identity :
      Bytes → Bytes → disk.State → Bytes → Identity → Bytes → Bool × disk.State
  unfolding write_identity derived
  save_identity salt nonce fs path id passphrase =
      if not (valid id)
      then (false, fs)
      else write_identity salt nonce fs path id (derived na passphrase salt)

  unfoldable pub load_identity : disk.State → Bytes → Bytes → Option Identity
  unfolding derived checked read_identity
  load_identity fs path passphrase = do
    salt ← read_salt disk fs path magic
    key ← derived na passphrase salt
    text ← read_blob na disk fs path magic key
    checked text (read_identity text 0)
