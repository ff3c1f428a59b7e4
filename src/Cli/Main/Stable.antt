-- ===== src/Cli/Main/Stable.antt =====
-- The identity of a client that is started again.
use openmesh_messenger.Base.{
  ◌≡◌, ◌≢◌, refl, sym, ap, ◌∙◌, true, false, not, ◌&&◌, Option, List, [], ◌∷◌, arith, All, codes,
  length-append, Bytes, is_empty, is_some, length, inl, inr, Bool-cases,
}
use openmesh_messenger.Cli.Main.{
  Options, Outcome, exits, goes_on, Start, no_options, parse_arguments, with_environment,
  load_or_create, with_identity, with_options, main, store_path,
}
use openmesh_messenger.Crypto.Identity.{Identity}
use openmesh_messenger.Crypto.Sizes.{aead_nonce_bytes}
use openmesh_messenger.Crypto.Sodium.{Sodium, IsSodium}
use openmesh_messenger.Net.Endpoint.{parse_endpoint}
use openmesh_messenger.Storage.Disk.{Disk, IsDisk}
use openmesh_messenger.Storage.Blob.{tmp_of}
use openmesh_messenger.Storage.Store.{Store, save}
use openmesh_messenger.Storage.Store.Reopen.{save-other}
use openmesh_messenger.Cli.Main.Loading.{exits_not_on, load_or_create-again}

abbrev or_start : Start → Outcome Start → Start
or_start start (exits code) = start
or_start start (goes_on other) = other

module _ (na : Sodium) (disk : Disk) (sodium_laws : IsSodium na) (laws : IsDisk disk) where
  with_identity-again :
      (o : Options) (fs' : disk.State) (start : Start) (r : Outcome Identity × disk.State)
      → with_identity na disk o r ≡ (goes_on start, fs')
      → (store_path o.identity_file ≡ start.store_path) × (r ≡ (goes_on start.id, fs'))
  unfolding with_identity
  with_identity-again o fs' start (exits code, t) e =
      absurd (exits_not_on na disk sodium_laws laws code start t fs' e)
  with_identity-again o fs' start (goes_on id, t) e =
      let one : (Outcome Start × disk.State) → Start = λ r. or_start start r.0 in
      let state = ap (λ (r : Outcome Start × disk.State). r.1) e in
      (
        ap (λ r. (one r).store_path) e,
        ap (λ s. (goes_on id, s)) state ∙ ap (λ i. (goes_on i, fs')) (ap (λ r. (one r).id) e),
      )

  has_file :
      (file path : Bytes) → store_path file ≡ path → is_empty path ≡ false → is_empty file ≡ false
  unfolding store_path is_empty
  has_file [] path e kept = absurd (ground (arith, ap is_empty e ∙ kept))
  has_file (c ∷ file) path e kept = refl

  -- The store's file and its temporary file are not the identity's.
  apart :
      (file path : Bytes)
      → store_path file ≡ path
      → is_empty file ≡ false
      → (path ≢ file) × (tmp_of path ≢ file)
  unfolding store_path is_empty tmp_of
  apart [] path e full = absurd (cc full)
  apart (c ∷ file) path e full =
      let long = ap length e in
      (
        λ p. omega (arith, long, ap length p, length-append (c ∷ file) (codes ".store")),
        λ p. omega (
          arith,
          long,
          ap length p,
          length-append (c ∷ file) (codes ".store"),
          length-append path (codes ".tmp"),
        ),
      )

  -- What the client does to the disk while it runs: it saves stores.
  unfoldable pub saved_all : List (Bytes × Store) → disk.State → disk.State
  saved_all [] fs = fs
  saved_all ((nonce, s) ∷ saves) fs = saved_all saves (save na disk nonce fs s).1

  saved_all-file :
      (file path : Bytes) (saves : List (Bytes × Store)) (fs : disk.State)
      → path ≢ file
      → tmp_of path ≢ file
      → All (λ (x : Bytes × Store). x.1.path ≡ path) saves
      → disk.read_file (saved_all saves fs) file ≡ disk.read_file fs file
  unfolding saved_all
  saved_all-file file path [] fs p t h = refl
  saved_all-file file path ((nonce, s) ∷ saves) fs p t h =
      saved_all-file file path saves (save na disk nonce fs s).1 p t h.1
      ∙ save-other na disk laws fs nonce s file (rw h.0 p) (rw h.0 t)

  with_options-again :
      (env : Option Bytes) (seed seed' salt salt' nonce nonce' : Bytes) (fs fs' : disk.State)
      (given : Outcome Options) (start : Start) (saves : List (Bytes × Store))
      → length nonce ≡ aead_nonce_bytes
      → ((path content : Bytes) → disk.flushes fs path content ≡ true)
      → is_empty start.store_path ≡ false
      → All (λ (x : Bytes × Store). x.1.path ≡ start.store_path) saves
      → with_options na disk env seed salt nonce fs given ≡ (goes_on start, fs')
      → let fs2 = saved_all saves fs' in
        with_options na disk env seed' salt' nonce' fs2 given ≡ (goes_on start, fs2)
  unfolding with_options with_identity
  with_options-again env seed seed' salt salt' nonce nonce' fs fs' (exits code) start saves n
        flushed kept own e =
      absurd (exits_not_on na disk sodium_laws laws code start fs fs' e)
  with_options-again env seed seed' salt salt' nonce nonce' fs fs' (goes_on given) start saves n
        flushed kept own e =
      let o = with_environment env given in
      let fs2 = saved_all saves fs' in
      let nowhere =
        not (is_some (parse_endpoint o.server)) && not (is_some (parse_endpoint o.relay)) in
      elim (Bool-cases nowhere) [
        | inl lost ↦ absurd (exits_not_on na disk sodium_laws laws 1 start fs fs' (rw lost at e))
        | inr somewhere ↦
            let e' : with_identity na disk o (load_or_create na disk seed salt nonce fs o)
                ≡ (goes_on start, fs') =
              rw somewhere at e in
            let (path, r) =
              with_identity-again o fs' start (load_or_create na disk seed salt nonce fs o) e' in
            let file = has_file o.identity_file start.store_path path kept in
            let (p, t) = apart o.identity_file start.store_path path file in
            let same = saved_all-file o.identity_file start.store_path saves fs' p t own in
            let r' =
              load_or_create-again na disk sodium_laws laws seed seed' salt salt' nonce nonce' fs
                fs' fs2 o start.id n flushed file same r in
            let here = sym (ap (with_identity na disk o) r) ∙ e' in
            rw somewhere (
              ap (with_identity na disk o) r'
              ∙ ap (λ (q : Outcome Start × disk.State). (q.0, fs2)) here)
      ]

  -- Once the client has started with an identity file, it starts again with the same identity: with
  -- libsodium and the file system as their documentation has them, a nonce of its size, and flushes
  -- that succeed in the first start, a start that reaches the client and has a path for its store
  -- is repeated, after any number of saves of stores at that path, by the next one with the same
  -- arguments and environment, whatever is drawn at random then. The next start changes no file.
  pub identity_is_stable :
      (env : Option Bytes) (seed seed' salt salt' nonce nonce' : Bytes) (fs fs' : disk.State)
      (arguments : List Bytes) (start : Start) (saves : List (Bytes × Store))
      → length nonce ≡ aead_nonce_bytes
      → ((path content : Bytes) → disk.flushes fs path content ≡ true)
      → is_empty start.store_path ≡ false
      → All (λ (x : Bytes × Store). x.1.path ≡ start.store_path) saves
      → main na disk env seed salt nonce fs arguments ≡ (goes_on start, fs')
      → let fs2 = saved_all saves fs' in
        main na disk env seed' salt' nonce' fs2 arguments ≡ (goes_on start, fs2)
  unfolding main
  identity_is_stable env seed seed' salt salt' nonce nonce' fs fs' arguments start saves n flushed
        kept own e =
      with_options-again env seed seed' salt salt' nonce nonce' fs fs'
        (parse_arguments arguments no_options) start saves n flushed kept own e
