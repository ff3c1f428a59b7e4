-- ===== src/Cli/ChatApp/Commands.antt =====
-- The commands of cli/src/main.cpp.
use openmesh_messenger.Base.{
  ℕ, Bool, not, ◌||◌, Option, none, some, [], ◌∷◌, ◌++◌, Bytes, codes, length, take, is_empty,
  is_some, ◌==◌, if◌then◌else◌,
}
use openmesh_messenger.Base.Assoc.{Assoc, insert_or_assign}
use openmesh_messenger.Base.Int.{ℤ}
use openmesh_messenger.Cli.ChatApp.{ChatApp, prints_line, name_of, resolve}
use openmesh_messenger.Cli.Streams.{read_word, get_line, without_space}
use openmesh_messenger.Cli.Tui.{em_dash, ellipsis}
use openmesh_messenger.Cli.Tui.Backend.{default_attempts}
use openmesh_messenger.Core.Hex.{to_hex, from_hex}
use openmesh_messenger.Crypto.Identity.{fingerprint}
use openmesh_messenger.Crypto.Sign.{sign_detached}
use openmesh_messenger.Crypto.Sodium.{Sodium}
use openmesh_messenger.Messaging.Engine.{Host}
use openmesh_messenger.Messaging.Engine.Commands.{
  accept_contact, reject_contact, send_contact_request, send,
}
use openmesh_messenger.Messaging.Engine.Paths.{connect}
use openmesh_messenger.Net.Datagram.{Delivery}
use openmesh_messenger.Net.Endpoint.{Endpoint, to_string}
use openmesh_messenger.Net.SignalingClient.{Client, discover, register_self, send_connect}
use openmesh_messenger.Storage.Disk.{Disk}
use openmesh_messenger.Storage.Records.{TrustStatus, pending, accepted, rejected}
use openmesh_messenger.Storage.Store

unfoldable pub status_name : Option TrustStatus → Bytes
status_name none = codes "unknown"
status_name (some trust) =
    if trust == accepted
    then codes "accepted"
    else if trust == pending
    then codes "pending"
    else if trust == rejected
    then codes "rejected"
    else codes "unknown"

module _ (na : Sodium) (disk : Disk) (random : ℕ → Bytes) (delivers : Delivery) where
  -- The client reads and writes the engine's socket.
  abbrev pub lend : Client → ChatApp disk → Client
  lend c a = record c { incoming = a.socket; out = a.host.out }

  abbrev pub give_back : Client → ChatApp disk → ChatApp disk
  give_back c a = record a {
    sig = some c;
    socket = c.incoming;
    host = record a.host { out = c.out };
  }

  abbrev pub with_host : Host disk → ChatApp disk → ChatApp disk
  with_host h a = record a { host = h }

  -- `signer_for`.
  unfoldable pub signer_for : Bytes → Bytes → Bytes
  signer_for secret_key challenge = sign_detached na challenge secret_key

  abbrev pub signer : ChatApp disk → Bytes → Bytes
  signer a = signer_for a.self.secret_key

  unfoldable pub deliver : Bytes → Bytes → ℤ → ChatApp disk → ChatApp disk
  deliver peer text now a =
      let (ok, h) = send na disk random delivers peer text now a.host in
      let a' = with_host h a in
      if ok
      then a'
      else prints_line disk
          (codes "not delivered "
            ++ em_dash
            ++ codes " "
            ++ name_of disk peer a'
            ++ codes " is not an accepted contact (or unreachable)")
          a'

  unfoldable pub send_current : Bytes → ℤ → ChatApp disk → ChatApp disk
  unfolding deliver
  send_current text now a =
      if is_empty a.current
      then prints_line disk
          (codes "no current peer " ++ em_dash ++ codes " use /msg <name> <text> first") a
      else deliver a.current text now a

  -- Behind `resolve`.
  unfoldable pub message_to : Option Bytes → Bytes → Bytes → ℤ → ChatApp disk → ChatApp disk
  unfolding deliver
  message_to none name text now a = prints_line disk (codes "unknown peer: " ++ name) a
  message_to (some peer) name text now a = deliver peer text now (record a { current = peer })

  unfoldable pub cmd_msg : Bytes → ℤ → ChatApp disk → ChatApp disk
  unfolding message_to
  cmd_msg stream now a =
      let (name, rest) = read_word stream in
      message_to (resolve disk name a) name (without_space (get_line rest)) now a

  unfoldable pub decide_on : Option Bytes → Bytes → Bool → ChatApp disk → ChatApp disk
  decide_on none name accept a = prints_line disk (codes "unknown peer: " ++ name) a
  decide_on (some peer) name accept a =
      let (ok, h) =
        if accept
        then accept_contact na disk random delivers peer a.host
        else reject_contact na disk random delivers peer a.host in
      let a' = with_host h a in
      if ok
      then prints_line disk
          ((if accept then codes "Accepted " else codes "Rejected ") ++ name ++ codes ".")
          (record a' { current = peer })
      else prints_line disk (codes "No pending request from " ++ name ++ codes ".") a'

  unfoldable pub cmd_decide : Bytes → Bool → ChatApp disk → ChatApp disk
  unfolding decide_on
  cmd_decide stream accept a =
      let name = (read_word stream).0 in decide_on (resolve disk name a) name accept a

  -- `engine_.send_contact_request`, with what is printed on success.
  unfoldable pub request : Bytes → Endpoint → Bytes → ChatApp disk → ChatApp disk
  request peer to good a =
      let (ok, h) = send_contact_request na disk random delivers peer to a.display_name a.host in
      prints_line disk (if ok then good else codes "Could not send the request.") (with_host h a)

  unfoldable pub probe_back : Bytes → Client → Option Endpoint → ChatApp disk → ChatApp disk
  probe_back peer c none a = a
  probe_back peer c (some mine) a =
      give_back (send_connect delivers (signer a) peer (to_string mine) (lend c a)).1 a

  unfoldable pub found :
      Bytes → Bytes → Option Endpoint → Bool → Client → ℤ → ChatApp disk → ChatApp disk
  unfolding request probe_back
  found name peer none responded c clock a =
      prints_line disk
        (if responded
          then codes "Peer is offline (not registered)."
          else codes "No response from the signaling server.")
        a
  found name peer (some e) responded c clock a =
      let a1 = prints_line disk (codes "Found at " ++ to_string e ++ codes ".") a in
      let (active, h) = connect na disk random delivers peer e clock a1.host in
      let via = if is_some a.relay then codes " (via relay; trying direct)" else [] in
      request peer active
        (codes "Request sent" ++ via ++ codes ". Waiting for " ++ name ++ codes " to accept.")
        (probe_back peer c c.public_endpoint (with_host h a1))

  unfoldable pub reach :
      Bytes → Bytes → Option Client → Option Endpoint → ℤ → ChatApp disk → ChatApp disk
  unfolding found request
  reach name peer (some c) relay clock a =
      let a1 = prints_line disk (codes "Looking up " ++ name ++ codes "...") a in
      let (result, c') = discover delivers (signer a1) peer default_attempts (lend c a1) in
      found name peer result.endpoint result.responded c' clock (give_back c' a1)
  reach name peer none (some relay) clock a =
      request peer relay
        (codes "Request sent via relay. Waiting for " ++ name ++ codes " to accept.") a
  reach name peer none none clock a = a

  unfoldable pub add_key : Bytes → Option Bytes → ℤ → ChatApp disk → ChatApp disk
  unfolding reach
  add_key name none clock a =
      prints_line disk (codes "usage: /add <name> <64-hex-char public key>") a
  add_key name (some peer) clock a =
      if is_empty name || not (length peer == 32)
      then prints_line disk (codes "usage: /add <name> <64-hex-char public key>") a
      else reach name peer a.sig a.relay clock (record a {
        name_to_pk = insert_or_assign name peer a.name_to_pk;
        pk_to_name = insert_or_assign (to_hex peer) name a.pk_to_name;
        current = peer;
      })

  unfoldable pub cmd_add : Bytes → ℤ → ChatApp disk → ChatApp disk
  unfolding add_key
  cmd_add stream clock a =
      let (name, rest) = read_word stream in add_key name (from_hex (read_word rest).0) clock a

  -- The loop of `cmd_peers`, in the order of the map.
  unfoldable pub print_peers : Assoc Bytes → ChatApp disk → ChatApp disk
  unfolding status_name
  print_peers [] a = a
  print_peers ((name, peer) ∷ peers) a = print_peers peers (
      prints_line disk
        (codes "  "
          ++ name
          ++ codes "  "
          ++ status_name (Store.trust_of peer a.host.engine.contacts)
          ++ codes "  "
          ++ take 16 (to_hex peer)
          ++ ellipsis)
        a)

  unfoldable pub cmd_peers : ChatApp disk → ChatApp disk
  unfolding print_peers
  cmd_peers a = elim a.name_to_pk [
    | [] ↦ prints_line disk (codes "no known peers yet") a
    | ◌∷◌ e peers ↦ print_peers (e ∷ peers) a
  ]

  unfoldable pub cmd_register : Option Client → ChatApp disk → ChatApp disk
  cmd_register none a = prints_line disk (codes "no signaling server configured (relay mode)") a
  cmd_register (some c) a =
      let (ok, c') = register_self delivers (signer a) default_attempts (lend c a) in
      prints_line disk (if ok then codes "Registered." else codes "Registration failed.")
        (give_back c' a)

  -- The two lines of `/id`.
  unfoldable pub cmd_id : ChatApp disk → ChatApp disk
  cmd_id a =
      prints_line disk (codes "fingerprint: " ++ fingerprint na a.self)
        (prints_line disk (codes "public key: " ++ to_hex a.self.public_key) a)
