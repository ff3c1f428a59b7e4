-- ===== src/Cli/Tui.antt =====
-- The state of the class `Tui` of cli/src/tui.cpp. Its engine and its signaling client share one
-- socket, whose incoming datagrams are a script. `int` fields are numbers without bound.
pub mod Backend
pub mod Snapshot
pub mod Keys
pub mod Layout
pub mod Wrapping
pub mod Written
pub mod Delivery
pub mod Selection
use openmesh_messenger.Base.{ℕ, Bool, Option, none, some, List, Bytes, ◌∷◌, []}
use openmesh_messenger.Base.Int.{ℤ}
use openmesh_messenger.Crypto.Identity.{Identity}
use openmesh_messenger.Messaging.Engine.{Host}
use openmesh_messenger.Net.Datagram.{Datagram}
use openmesh_messenger.Net.Endpoint.{Endpoint}
use openmesh_messenger.Net.SignalingClient.{Client}
use openmesh_messenger.Storage.Disk.{Disk}

-- One line of the sidebar, and one of the conversation.
pub record Item : Type 0 where
  pub is_request : Bool
  pub pk : Bytes
  pub name : Bytes
  pub subtitle : Bytes
  pub sort_key : ℤ

pub record Line : Type 0 where
  pub time : Bytes
  pub who : Bytes
  pub text : Bytes
  pub outgoing : Bool

pub record Tui (disk : Disk) : Type 0 where
  pub self : Identity
  pub relay : Option Endpoint
  pub name : Bytes
  pub host : Host disk
  pub sig : Option Client
  pub socket : List (Option Datagram)
  pub queue : List Bytes
  pub running : Bool
  pub items : List Item
  pub n_chats : ℕ
  pub selected : ℕ
  pub scroll : ℕ
  pub input : Bytes
  pub conv : List Line
  pub status : Bytes
  pub flash : Bytes
  pub flash_view : Bytes

-- The characters outside ASCII that the texts use, in UTF-8.
abbrev pub em_dash : Bytes
em_dash = 0xe2 ∷ 0x80 ∷ 0x94 ∷ []

abbrev pub ellipsis : Bytes
ellipsis = 0xe2 ∷ 0x80 ∷ 0xa6 ∷ []

abbrev pub filled_circle : Bytes
filled_circle = 0xe2 ∷ 0x97 ∷ 0x8f ∷ []

abbrev pub open_circle : Bytes
open_circle = 0xe2 ∷ 0x97 ∷ 0x8b ∷ []

-- `sig_->f(...)`: the client reads and writes the engine's socket.
module _ (disk : Disk) where
  abbrev pub lend : Client → Tui disk → Client
  lend c t = record c { incoming = t.socket; out = t.host.out }

  abbrev pub give_back : Client → Tui disk → Tui disk
  give_back c t = record t {
    sig = some c;
    socket = c.incoming;
    host = record t.host { out = c.out };
  }

  abbrev pub with_host : Host disk → Tui disk → Tui disk
  with_host h t = record t { host = h }

  abbrev pub flashes : Bytes → Tui disk → Tui disk
  flashes text t = record t { flash = text }
