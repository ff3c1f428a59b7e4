-- ===== src/Storage/Blob/File.antt =====
-- An encrypted file from one write to the next.
use openmesh_messenger.Base.{
  ◌+◌, ◌≡◌, ◌≢◌, refl, ap, ◌∙◌, Bool, true, false, Option, some, [], ◌∷◌, ◌++◌, append_assoc, arith,
  Bytes, bytes_eq_refl, length, take, drop, get_or, get_or-drop, drop-add, length-append,
  take-append, drop-append,
}
use openmesh_messenger.Crypto.Aead.{seal, open_sealed, open-seal}
use openmesh_messenger.Crypto.Sizes.{session_key_bytes, aead_nonce_bytes}
use openmesh_messenger.Crypto.Sodium.{Sodium, IsSodium}
use openmesh_messenger.Storage.Disk.{Disk, IsDisk}
use openmesh_messenger.Storage.Blob.{
  file_version, salt_bytes, header_size, valid_header, tmp_of, salt_in, read_salt, commit, replace,
  write_blob, open_file, read_blob,
}

tmp_of_other : (path : Bytes) → tmp_of path ≢ path
unfolding tmp_of
tmp_of_other path e = omega (arith, ap length e, length-append path (46 ∷ 116 ∷ 109 ∷ 112 ∷ []))

-- The header in front of a sealed payload.
module _ (magic salt sealed : Bytes) (m : length magic ≡ 4) (s : length salt ≡ salt_bytes) where
  abbrev whole : Bytes
  whole = (magic ++ (file_version ∷ salt)) ++ sealed

  header-length : length (magic ++ (file_version ∷ salt)) ≡ header_size
  header-length = omega (arith, length-append magic (file_version ∷ salt), m, s)

  header-taken : take header_size whole ≡ magic ++ (file_version ∷ salt)
  header-taken = rw (← header-length) (take-append (magic ++ (file_version ∷ salt)) sealed)

  payload-left : drop header_size whole ≡ sealed
  payload-left = rw (← header-length) (drop-append (magic ++ (file_version ∷ salt)) sealed)

  nested : whole ≡ magic ++ (file_version ∷ (salt ++ sealed))
  nested = append_assoc magic (file_version ∷ salt) sealed

  magic-taken : take 4 whole ≡ magic
  magic-taken = rw nested (rw (← m) (take-append magic _))

  magic-dropped : drop 4 whole ≡ file_version ∷ (salt ++ sealed)
  magic-dropped = rw nested (rw (← m) (drop-append magic _))

  version-read : get_or whole 4 0 ≡ file_version
  version-read = get_or-drop 4 0 whole 0 ∙ ap (λ (ys : Bytes). get_or ys 0 0) magic-dropped

  whole-valid : valid_header whole magic ≡ true
  unfolding valid_header
  whole-valid =
      let long : length whole ≡ header_size + length sealed =
        omega (arith, length-append (magic ++ (file_version ∷ salt)) sealed, header-length) in
      rw magic-taken (ground (arith, long, version-read, bytes_eq_refl magic))

  salt-read : salt_in magic whole ≡ some salt
  unfolding salt_in
  salt-read =
      let behind : drop 5 whole ≡ salt ++ sealed = drop-add 4 1 whole ∙ ap (drop 1) magic-dropped in
      let taken : take salt_bytes (drop 5 whole) ≡ salt =
        rw (behind, ← s) (take-append salt sealed) in
      rw (whole-valid, taken) refl

  module _ (na : Sodium) (key plaintext : Bytes) where
    opened-again :
        open_sealed na key sealed (magic ++ (file_version ∷ salt)) ≡ some plaintext
        → open_file na magic key whole ≡ some plaintext
    unfolding open_file
    opened-again h = rw (whole-valid, header-taken, payload-left) h

module _ (disk : Disk) (laws : IsDisk disk) (path : Bytes) where
  abbrev tmp : Bytes
  tmp = tmp_of path

  commit-read :
      (content : Option Bytes) (r : Bool × disk.State)
      → (r.0 ≡ true → disk.read_file r.1 path ≡ content)
      → (commit disk tmp path r).0 ≡ true
      → disk.read_file (commit disk tmp path r).1 path ≡ content
  unfolding commit
  commit-read content (false, fs) h ok = absurd (cc ok)
  commit-read content (true, fs) h ok = h refl

  commit-keeps :
      (old : Option Bytes) (r : Bool × disk.State)
      → (r.0 ≡ false → disk.read_file r.1 path ≡ old)
      → (commit disk tmp path r).0 ≡ false
      → disk.read_file (commit disk tmp path r).1 path ≡ old
  unfolding commit
  commit-keeps old (false, fs) h failed = laws.read-remove fs tmp path (tmp_of_other path) ∙ h refl
  commit-keeps old (true, fs) h failed = absurd (cc failed)

  -- A replacement that succeeds puts the written bytes at the path.
  replace-read :
      (content : Bytes) (w : Bool × disk.State)
      → (w.0 ≡ true → disk.read_file w.1 tmp ≡ some content)
      → (replace disk tmp path w).0 ≡ true
      → disk.read_file (replace disk tmp path w).1 path ≡ some content
  unfolding replace
  replace-read content (false, fs) h ok = absurd (cc ok)
  replace-read content (true, fs) h ok =
      commit-read (some content) (disk.rename fs tmp path)
        (λ moved. laws.read-rename fs tmp path moved ∙ h refl) ok

  -- One that fails leaves what was there.
  replace-keeps :
      (old : Option Bytes) (w : Bool × disk.State)
      → disk.read_file w.1 path ≡ old
      → (replace disk tmp path w).0 ≡ false
      → disk.read_file (replace disk tmp path w).1 path ≡ old
  unfolding replace
  replace-keeps old (false, fs) h failed = h
  replace-keeps old (true, fs) h failed =
      commit-keeps old (disk.rename fs tmp path)
        (λ stuck. laws.read-rename_failed fs tmp path stuck ∙ h) failed

  -- It touches no other path.
  module _ (other : Bytes) (p : path ≢ other) (t : tmp ≢ other) where
    commit-other :
        (r : Bool × disk.State)
        → disk.read_file (commit disk tmp path r).1 other ≡ disk.read_file r.1 other
    unfolding commit
    commit-other (false, fs) = laws.read-remove fs tmp other t
    commit-other (true, fs) = refl

    replace-other :
        (w : Bool × disk.State)
        → disk.read_file (replace disk tmp path w).1 other ≡ disk.read_file w.1 other
    unfolding replace
    replace-other (false, fs) = refl
    replace-other (true, fs) =
        commit-other (disk.rename fs tmp path) ∙ laws.read-rename_other fs tmp path other t p

module _ (na : Sodium) (disk : Disk) (laws : IsDisk disk) (fs : disk.State)
    (nonce path magic salt key plaintext : Bytes) where
  abbrev header : Bytes
  header = magic ++ (file_version ∷ salt)

  abbrev sealed : Bytes
  sealed = seal na nonce key plaintext header

  -- The file afterwards.
  abbrev pub written : Bool × disk.State
  written = write_blob na disk nonce fs path magic salt key plaintext

  -- `write_blob` is atomic for readers of the path.
  pub failed_write_keeps :
      written.0 ≡ false → disk.read_file written.1 path ≡ disk.read_file fs path
  unfolding write_blob
  failed_write_keeps h =
      let content = header ++ sealed in
      let kept =
        replace-keeps disk laws path (disk.read_file fs path)
          (disk.write_file fs (tmp_of path) content)
          (laws.read-write_other fs (tmp_of path) content path (tmp_of_other path)) in
      ground (arith, kept)

  pub written-sizes :
      written.0 ≡ true → (length salt ≡ salt_bytes) × (length key ≡ session_key_bytes)
  unfolding write_blob
  written-sizes h = ground arith

  -- A write to one path leaves every other one, but its temporary file, as it was.
  pub written-other :
      (other : Bytes)
      → path ≢ other
      → tmp_of path ≢ other
      → disk.read_file written.1 other ≡ disk.read_file fs other
  unfolding write_blob
  written-other other p t =
      let content = header ++ sealed in
      let there =
        replace-other disk laws path other p t (disk.write_file fs (tmp_of path) content)
        ∙ laws.read-write_other fs (tmp_of path) content other t in
      ground (arith, there)

  -- A write that answers that it succeeded puts at the path what closing the temporary file left.
  pub written-takes :
      (left : Bytes)
      → ((content : Bytes)
          → disk.read_file (disk.write_file fs (tmp_of path) content).1 (tmp_of path) ≡ some left)
      → written.0 ≡ true
      → disk.read_file written.1 path ≡ some left
  unfolding write_blob
  written-takes left closed h =
      let content = header ++ sealed in
      let there =
        replace-read disk laws path left (disk.write_file fs (tmp_of path) content)
          (λ took. closed content) in
      ground (arith, there)

  -- Where the temporary file is flushed when it is closed.
  module _ (flushed : (content : Bytes) → disk.flushes fs (tmp_of path) content ≡ true) where
    written-read : written.0 ≡ true → disk.read_file written.1 path ≡ some (header ++ sealed)
    unfolding write_blob
    written-read h =
        let content = header ++ sealed in
        let there =
          replace-read disk laws path content (disk.write_file fs (tmp_of path) content)
            (λ took. laws.read-write fs (tmp_of path) content took (flushed content)) in
        ground (arith, there)

    pub written-exists : written.0 ≡ true → disk.exists written.1 path ≡ true
    written-exists h = laws.exists-read written.1 path (header ++ sealed) (written-read h)

    pub read_salt-written :
        length magic ≡ 4 → written.0 ≡ true → read_salt disk written.1 path magic ≡ some salt
    unfolding read_salt
    read_salt-written m h = rw (written-read h) (salt-read magic salt sealed m (written-sizes h).0)

    pub read_blob-written :
        IsSodium na
        → length magic ≡ 4
        → length nonce ≡ aead_nonce_bytes
        → written.0 ≡ true
        → read_blob na disk written.1 path magic key ≡ some plaintext
    unfolding read_blob
    read_blob-written sl m n h =
        let (s, k) = written-sizes h in
        rw (written-read h) (
          opened-again magic salt sealed m s na key plaintext
            (open-seal na sl nonce key plaintext header n k))
