-- ===== src/Cli/ChatApp.antt =====
-- The line-based client of cli/src/main.cpp: the state of the class `ChatApp`, and its names for
-- peers. What it prints is a string of the state.
pub mod Commands
pub mod Handle
pub mod Run
pub mod Reports
pub mod Names
use openmesh_messenger.Base.{
  ℕ, Bool, Option, none, some, List, [], ◌∷◌, ◌++◌, Bytes, codes, length, take, ◌==◌, if◌then◌else◌,
}
use openmesh_messenger.Base.Assoc.{Assoc, find, insert_or_assign}
use openmesh_messenger.Core.Hex.{to_hex, from_hex}
use openmesh_messenger.Crypto.Identity.{Identity}
use openmesh_messenger.Messaging.Engine.{Host}
use openmesh_messenger.Net.Datagram.{Datagram}
use openmesh_messenger.Net.Endpoint.{Endpoint}
use openmesh_messenger.Net.SignalingClient.{Client}
use openmesh_messenger.Storage.Disk.{Disk}

pub record ChatApp (disk : Disk) : Type 0 where
  pub self : Identity
  pub display_name : Bytes
  pub host : Host disk
  pub sig : Option Client
  pub relay : Option Endpoint
  pub socket : List (Option Datagram)
  pub running : Bool
  pub name_to_pk : Assoc Bytes
  pub pk_to_name : Assoc Bytes
  -- the source's unordered_set of keys
  pub direct_announced : Assoc (Unit {0})
  pub current : Bytes
  pub printed : Bytes

unfoldable pub name_or_prefix : Option Bytes → Bytes → Bytes
name_or_prefix none key = take 8 key
name_or_prefix (some name) key = name

unfoldable pub key_or_none : Option Bytes → Option Bytes
key_or_none none = none
key_or_none (some key) = if length key == 32 then some key else none

unfoldable pub resolve_in : Option Bytes → Bytes → Option Bytes
unfolding key_or_none
resolve_in (some key) token = some key
resolve_in none token = key_or_none (from_hex token)

module _ (disk : Disk) where
  abbrev pub prints : Bytes → ChatApp disk → ChatApp disk
  prints text a = record a { printed = a.printed ++ text }

  -- With a line feed.
  abbrev pub prints_line : Bytes → ChatApp disk → ChatApp disk
  prints_line text a = prints (text ++ (10 ∷ [])) a

  unfoldable pub name_of : Bytes → ChatApp disk → Bytes
  unfolding name_or_prefix
  name_of peer a = name_or_prefix (find (to_hex peer) a.pk_to_name) (to_hex peer)

  unfoldable pub alias_or_new : Option Bytes → Bytes → ChatApp disk → Bytes × ChatApp disk
  alias_or_new (some name) peer a = (name, a)
  alias_or_new none peer a =
      let key = to_hex peer in
      let name = take 8 key in
      (
        name,
        record a {
          name_to_pk = insert_or_assign name peer a.name_to_pk;
          pk_to_name = insert_or_assign key name a.pk_to_name;
        },
      )

  unfoldable pub auto_alias : Bytes → ChatApp disk → Bytes × ChatApp disk
  unfolding alias_or_new
  auto_alias peer a = alias_or_new (find (to_hex peer) a.pk_to_name) peer a

  unfoldable pub resolve : Bytes → ChatApp disk → Option Bytes
  unfolding resolve_in
  resolve token a = resolve_in (find token a.name_to_pk) token
