-- ===== src/Tests/Restart.antt =====
-- A client that is started, saves its store, and is started again.
use openmesh_messenger.Base.{◌≡◌, refl, bytes_eq, true, none, List, [], ◌∷◌, Bytes, codes, is_empty}
use openmesh_messenger.Cli.Main.{Start, Outcome, exits, goes_on, main, parse_arguments}
use openmesh_messenger.Cli.Main.Stable.{identity_is_stable, saved_all}
use openmesh_messenger.Crypto.Aead.{seal}
use openmesh_messenger.Crypto.Identity.{valid, generate_identity}
use openmesh_messenger.Crypto.Kdf.{derived, derive_key}
use openmesh_messenger.Net.Endpoint.{parse_endpoint}
use openmesh_messenger.Storage.Blob.{write_blob, replace, commit}
use openmesh_messenger.Storage.IdentityStore.{save_identity, write_identity}
use openmesh_messenger.Net.Endpoint.Decimal.{strtoul}
use openmesh_messenger.Storage.Store.{Store}
use openmesh_messenger.Tests.Disk.{Files, toy_disk, toy_disk-IsDisk}
use openmesh_messenger.Tests.Toy.{
  toy, toy-IsSodium, block, public_part, toy_keypair, toy_pwhash, total,
}

abbrev arguments : List Bytes
arguments =
    codes "--server"
    ∷ codes "h:1"
    ∷ codes "--identity"
    ∷ codes "f"
    ∷ codes "--pass"
    ∷ codes "p"
    ∷ []

abbrev first_run : Outcome Start × Files
first_run = main toy toy_disk none (1 ∷ []) (block 16 []) (block 24 []) (λ path. none) arguments

abbrev started : Outcome Start → Start
started (goes_on start) = start
started (exits status) = record {
  id = record { public_key = []; secret_key = [] };
  server = none;
  relay = none;
  display_name = [];
  store_path = [];
  passphrase = [];
}

starts : first_run ≡ (goes_on (started first_run.0), first_run.1)
unfolding main parse_arguments bytes_eq is_empty parse_endpoint strtoul save_identity write_identity
    write_blob replace commit seal derived derive_key valid block toy_pwhash generate_identity
    toy_keypair public_part total
starts = refl

-- A store beside the identity, and two saves of it.
abbrev kept_store : Store
kept_store = record {
  contacts = [];
  messages = [];
  requests = [];
  persistent = true;
  path = codes "f.store";
  key = block 32 [];
  salt = block 16 [];
}

abbrev saves : List (Bytes × Store)
saves = (block 24 [], kept_store) ∷ (block 24 (1 ∷ []), kept_store) ∷ []

identity_is_stable_example :
    let fs2 = saved_all toy toy_disk toy-IsSodium toy_disk-IsDisk saves first_run.1 in
    main toy toy_disk none (9 ∷ []) (block 16 (7 ∷ [])) (block 24 (8 ∷ [])) fs2 arguments
    ≡ (goes_on (started first_run.0), fs2)
unfolding main parse_arguments bytes_eq is_empty parse_endpoint strtoul save_identity write_identity
    write_blob replace commit seal derived derive_key valid block toy_pwhash generate_identity
    toy_keypair public_part total
identity_is_stable_example =
    identity_is_stable toy toy_disk toy-IsSodium toy_disk-IsDisk none (1 ∷ []) (9 ∷ [])
      (block 16 []) (block 16 (7 ∷ [])) (block 24 []) (block 24 (8 ∷ [])) (λ path. none) first_run.1
      arguments (started first_run.0) saves refl (λ path content. refl) refl (refl, (refl, tt))
      starts
