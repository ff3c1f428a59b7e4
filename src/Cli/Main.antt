-- ===== src/Cli/Main.antt =====
-- `main` of cli/src/main.cpp, up to where the client starts: the arguments, the identity and the path
-- of the store.
pub mod Loading
pub mod Stable
use openmesh_messenger.Base.{
  ℕ, Bool, true, false, not, ◌&&◌, ◌||◌, Option, none, some, List, [], ◌∷◌, ◌++◌, Bytes, codes,
  is_empty, is_some, bytes_eq, if◌then◌else◌,
}
use openmesh_messenger.Crypto.Identity.{Identity, generate_identity}
use openmesh_messenger.Crypto.Sodium.{Sodium}
use openmesh_messenger.Net.Endpoint.{Endpoint, parse_endpoint}
use openmesh_messenger.Storage.Disk.{Disk}
use openmesh_messenger.Storage.IdentityStore.{load_identity, save_identity}

pub record Options : Type 0 where
  pub server : Bytes
  pub relay : Bytes
  pub identity_file : Bytes
  pub passphrase : Bytes
  pub display_name : Bytes

abbrev pub no_options : Options
no_options = record {
  server = [];
  relay = [];
  identity_file = [];
  passphrase = [];
  display_name = [];
}

-- The branches that take a value; the others end the program.
unfoldable pub takes_value : Bytes → Bool
takes_value a =
    bytes_eq a (codes "--server")
    || bytes_eq a (codes "--relay")
    || bytes_eq a (codes "--identity")
    || bytes_eq a (codes "--pass")
    || bytes_eq a (codes "--name")

unfoldable pub set_option : Bytes → Bytes → Options → Options
set_option a value o =
    if bytes_eq a (codes "--server")
    then record o { server = value }
    else if bytes_eq a (codes "--relay")
    then record o { relay = value }
    else if bytes_eq a (codes "--identity")
    then record o { identity_file = value }
    else if bytes_eq a (codes "--pass")
    then record o { passphrase = value }
    else record o { display_name = value }

-- The program ends with an exit code, or goes on.
pub data Outcome {ℓ} (A : Type ℓ) : Type ℓ where
  exits : ℕ → Outcome A
  goes_on : A → Outcome A

unfoldable pub stop : Bytes → Outcome Options
stop a = if bytes_eq a (codes "-h") || bytes_eq a (codes "--help") then exits 0 else exits 1

-- The loop over the arguments. An option at the end takes the empty string.
unfoldable pub parse_arguments : List Bytes → Options → Outcome Options
unfolding takes_value set_option stop
parse_arguments [] o = goes_on o
parse_arguments (a ∷ []) o = if takes_value a then goes_on (set_option a [] o) else stop a
parse_arguments (a ∷ value ∷ rest) o =
    let later = parse_arguments rest (set_option a value o) in
    if takes_value a then later else stop a

-- `std::getenv("OM_PASS")` stands in for a passphrase that is not given.
unfoldable pub with_environment : Option Bytes → Options → Options
with_environment none o = o
with_environment (some pass) o = if is_empty o.passphrase then record o { passphrase = pass } else o

-- What the client is started with.
pub record Start : Type 0 where
  pub id : Identity
  pub server : Option Endpoint
  pub relay : Option Endpoint
  pub display_name : Bytes
  pub store_path : Bytes
  pub passphrase : Bytes

unfoldable pub store_path : Bytes → Bytes
store_path identity_file = if is_empty identity_file then [] else identity_file ++ codes ".store"

module _ (na : Sodium) (disk : Disk) where
  unfoldable pub loaded : Option Identity → Outcome Identity
  loaded none = exits 1
  loaded (some id) = goes_on id

  -- `seed`, `salt` and `nonce` are the random bytes of a new identity and its file.
  unfoldable pub load_or_create :
      Bytes → Bytes → Bytes → disk.State → Options → Outcome Identity × disk.State
  unfolding loaded
  load_or_create seed salt nonce fs o =
      let id = generate_identity na seed in
      let (saved, fs') = save_identity na disk salt nonce fs o.identity_file id o.passphrase in
      if is_empty o.identity_file
      then (goes_on id, fs)
      else if is_empty o.passphrase
      then (exits 1, fs)
      else if disk.exists fs o.identity_file
      then (loaded (load_identity na disk fs o.identity_file o.passphrase), fs)
      else (if saved then goes_on id else exits 1, fs')

  unfoldable pub with_identity :
      Options → Outcome Identity × disk.State → Outcome Start × disk.State
  unfolding store_path
  with_identity o (exits code, fs) = (exits code, fs)
  with_identity o (goes_on id, fs) = (
    goes_on (record {
      id = id;
      server = parse_endpoint o.server;
      relay = parse_endpoint o.relay;
      display_name = o.display_name;
      store_path = store_path o.identity_file;
      passphrase = o.passphrase;
    }),
    fs,
  )

  -- Behind the loop over the arguments.
  unfoldable pub with_options :
      Option Bytes
      → Bytes
      → Bytes
      → Bytes
      → disk.State
      → Outcome Options
      → Outcome Start × disk.State
  unfolding with_environment load_or_create with_identity
  with_options env seed salt nonce fs (exits code) = (exits code, fs)
  with_options env seed salt nonce fs (goes_on given) =
      let o = with_environment env given in
      if not (is_some (parse_endpoint o.server)) && not (is_some (parse_endpoint o.relay))
      then (exits 1, fs)
      else with_identity o (load_or_create seed salt nonce fs o)

  unfoldable pub main :
      Option Bytes → Bytes → Bytes → Bytes → disk.State → List Bytes → Outcome Start × disk.State
  unfolding with_options
  main env seed salt nonce fs arguments =
      with_options env seed salt nonce fs (parse_arguments arguments no_options)
