-- ===== src/Cli/Main/Loading.antt =====
-- What `main` of cli/src/main.cpp loads as its identity when it is started again.
use openmesh_messenger.Base.{
  ℕ, ◌≡◌, ◌≢◌, refl, sym, ap, subst, ◌∙◌, true, false, Option, none, some, Option-cases, Bytes,
  is_empty, length, if◌then◌else◌, inl, inr, Bool-cases,
}
use openmesh_messenger.Cli.Main.{Options, Outcome, exits, goes_on, loaded, load_or_create}
use openmesh_messenger.Crypto.Identity.{Identity, generate_identity}
use openmesh_messenger.Crypto.Sizes.{aead_nonce_bytes}
use openmesh_messenger.Crypto.Sodium.{Sodium, IsSodium}
use openmesh_messenger.Storage.Disk.{Disk, IsDisk}
use openmesh_messenger.Storage.IdentityStore.{load_identity, save_identity}
use openmesh_messenger.Storage.IdentityStore.RoundTrip.{load_identity-save_identity}
use openmesh_messenger.Storage.Blob.{tmp_of, read_salt, read_blob}

abbrev or_identity : Identity → Outcome Identity → Identity
or_identity id (exits code) = id
or_identity id (goes_on other) = other

module _ (na : Sodium) (disk : Disk) (sodium_laws : IsSodium na) (laws : IsDisk disk) where
  there-loads :
      (seed salt nonce : Bytes) (fs : disk.State) (o : Options)
      → is_empty o.identity_file ≡ false
      → is_empty o.passphrase ≡ false
      → disk.exists fs o.identity_file ≡ true
      → load_or_create na disk seed salt nonce fs o
        ≡ (loaded na disk (load_identity na disk fs o.identity_file o.passphrase), fs)
  unfolding load_or_create
  there-loads seed salt nonce fs o file pass there = rw (file, pass, there) refl

  fresh-creates :
      (seed salt nonce : Bytes) (fs : disk.State) (o : Options)
      → is_empty o.identity_file ≡ false
      → is_empty o.passphrase ≡ false
      → disk.exists fs o.identity_file ≡ false
      → let id = generate_identity na seed in
        let s = save_identity na disk salt nonce fs o.identity_file id o.passphrase in
        load_or_create na disk seed salt nonce fs o ≡ (if s.0 then goes_on id else exits 1, s.1)
  unfolding load_or_create
  fresh-creates seed salt nonce fs o file pass fresh = rw (file, pass, fresh) refl

  bare-exits :
      (seed salt nonce : Bytes) (fs : disk.State) (o : Options)
      → is_empty o.identity_file ≡ false
      → is_empty o.passphrase ≡ true
      → load_or_create na disk seed salt nonce fs o ≡ (exits 1, fs)
  unfolding load_or_create
  bare-exits seed salt nonce fs o file bare = rw (file, bare) refl

  pub exits_not_on :
      {A : Type 0} (code : ℕ) (a : A) (fs fs' : disk.State)
      → ◌≢◌ {A = Outcome A × disk.State} (exits code, fs) (goes_on a, fs')
  exits_not_on {A} code a fs fs' p =
      let q : ◌≡◌ {A = Outcome A} (exits code) (goes_on a) =
        ap (λ (r : Outcome A × disk.State). r.0) p in
      cc

  -- What is loaded from a state is loaded from any other in which the file reads the same.
  load_identity-same :
      (fs fs2 : disk.State) (file passphrase : Bytes)
      → disk.read_file fs2 file ≡ disk.read_file fs file
      → load_identity na disk fs2 file passphrase ≡ load_identity na disk fs file passphrase
  unfolding load_identity read_salt read_blob
  load_identity-same fs fs2 file passphrase same = rw same refl

  -- A file of which something is loaded exists.
  loaded-exists :
      (fs : disk.State) (file passphrase : Bytes) (id : Identity)
      → load_identity na disk fs file passphrase ≡ some id
      → disk.exists fs file ≡ true
  unfolding load_identity read_salt
  loaded-exists fs file passphrase id e = elim (Option-cases (disk.read_file fs file)) [
    | inl gone ↦ absurd (cc (rw gone at e))
    | inr (content, there) ↦ laws.exists-read fs file content there
  ]

  moved :
      (fs fs' : disk.State) (file passphrase : Bytes) (i id : Identity)
      → load_identity na disk fs file passphrase ≡ some i
      → ◌≡◌ {A = Outcome Identity × disk.State} (goes_on i, fs) (goes_on id, fs')
      → load_identity na disk fs' file passphrase ≡ some id
  moved fs fs' file passphrase i id e p =
      subst (λ t. load_identity na disk t file passphrase ≡ some id)
        (ap (λ (q : Outcome Identity × disk.State). q.1) p)
        (e ∙ ap (λ (q : Outcome Identity × disk.State). some (or_identity i q.0)) p)

  there-moved :
      (fs fs' : disk.State) (file passphrase : Bytes) (id : Identity) (o : Option Identity)
      → load_identity na disk fs file passphrase ≡ o
      → ◌≡◌ {A = Outcome Identity × disk.State} (loaded na disk o, fs) (goes_on id, fs')
      → load_identity na disk fs' file passphrase ≡ some id
  unfolding loaded
  there-moved fs fs' file passphrase id none e p = absurd (exits_not_on 1 id fs fs' p)
  there-moved fs fs' file passphrase id (some i) e p = moved fs fs' file passphrase i id e p

  -- A start that has an identity leaves it in the file.
  load_or_create-leaves :
      (seed salt nonce : Bytes) (fs fs' : disk.State) (o : Options) (id : Identity)
      → length nonce ≡ aead_nonce_bytes
      → ((path content : Bytes) → disk.flushes fs path content ≡ true)
      → is_empty o.identity_file ≡ false
      → is_empty o.passphrase ≡ false
      → load_or_create na disk seed salt nonce fs o ≡ (goes_on id, fs')
      → load_identity na disk fs' o.identity_file o.passphrase ≡ some id
  load_or_create-leaves seed salt nonce fs fs' o id n flushed file pass e =
      let new = generate_identity na seed in
      let s = save_identity na disk salt nonce fs o.identity_file new o.passphrase in
      elim (Bool-cases (disk.exists fs o.identity_file)) [
        | inl there ↦
            there-moved fs fs' o.identity_file o.passphrase id
              (load_identity na disk fs o.identity_file o.passphrase) refl
              (sym (there-loads seed salt nonce fs o file pass there) ∙ e)
        | inr fresh ↦
            let made = sym (fresh-creates seed salt nonce fs o file pass fresh) ∙ e in
            elim (Bool-cases s.0) [
              | inl ok ↦
                  moved s.1 fs' o.identity_file o.passphrase new id
                    (load_identity-save_identity na disk laws fs o.identity_file salt nonce
                      o.passphrase new sodium_laws n (flushed (tmp_of o.identity_file)) ok)
                    (rw ok at made)
              | inr failed ↦ absurd (exits_not_on 1 id s.1 fs' (rw failed at made))
            ]
      ]

  pub load_or_create-again :
      (seed seed' salt salt' nonce nonce' : Bytes) (fs fs' fs2 : disk.State) (o : Options)
      (id : Identity)
      → length nonce ≡ aead_nonce_bytes
      → ((path content : Bytes) → disk.flushes fs path content ≡ true)
      → is_empty o.identity_file ≡ false
      → disk.read_file fs2 o.identity_file ≡ disk.read_file fs' o.identity_file
      → load_or_create na disk seed salt nonce fs o ≡ (goes_on id, fs')
      → load_or_create na disk seed' salt' nonce' fs2 o ≡ (goes_on id, fs2)
  unfolding loaded
  load_or_create-again seed seed' salt salt' nonce nonce' fs fs' fs2 o id n flushed file same e =
      elim (Bool-cases (is_empty o.passphrase)) [
        | inl bare ↦
            absurd (exits_not_on 1 id fs fs' (sym (bare-exits seed salt nonce fs o file bare) ∙ e))
        | inr pass ↦
            let left =
              load_identity-same fs' fs2 o.identity_file o.passphrase same
              ∙ load_or_create-leaves seed salt nonce fs fs' o id n flushed file pass e in
            let there = loaded-exists fs2 o.identity_file o.passphrase id left in
            there-loads seed' salt' nonce' fs2 o file pass there
            ∙ ap (λ (i : Option Identity). (loaded na disk i, fs2)) left
      ]
