-- ===== src/Cli/ChatApp/Run.antt =====
-- `ChatApp::run` of cli/src/main.cpp: the handlers that it gives the engine, its start and one turn
-- of its loop. The lines that the other thread has submitted are an argument of a turn.
use openmesh_messenger.Base.{
  ℕ, Bool, true, false, not, ◌&&◌, Option, none, some, List, [], ◌∷◌, ◌++◌, Bytes, codes, is_empty,
  is_some, if◌then◌else◌,
}
use openmesh_messenger.Base.Assoc.{Assoc, find, insert_or_assign}
use openmesh_messenger.Base.Int.{ℤ, pos, ltb_ℤ, ◌-ℤ◌}
use openmesh_messenger.Cli.ChatApp.{ChatApp, prints, prints_line, name_of, auto_alias}
use openmesh_messenger.Cli.ChatApp.Commands.{lend, give_back, with_host, signer}
use openmesh_messenger.Cli.ChatApp.Handle.{handle, print_help}
use openmesh_messenger.Cli.Tui.{em_dash}
use openmesh_messenger.Cli.Tui.Backend.{default_attempts}
use openmesh_messenger.Core.Hex.{to_hex}
use openmesh_messenger.Crypto.Sodium.{Sodium}
use openmesh_messenger.Messaging.Engine.{
  Notice, message_came, request_came, response_came, has_direct_path,
}
use openmesh_messenger.Messaging.Engine.Paths.{tick, announce_to}
use openmesh_messenger.Messaging.Engine.Poll.{poll}
use openmesh_messenger.Messaging.Engine.Steps.{set_relay}
use openmesh_messenger.Net.Datagram.{Delivery, Datagram}
use openmesh_messenger.Net.Endpoint.{Endpoint, to_string}
use openmesh_messenger.Net.SignalingClient.{Client, register_self, heartbeat}
use openmesh_messenger.Storage.Disk.{Disk}

module _ (na : Sodium) (disk : Disk) (random : ℕ → Bytes) (delivers : Delivery) where
  unfoldable pub notified : Notice → ChatApp disk → ChatApp disk
  notified (message_came peer text) a =
      prints disk
        ((10 ∷ [])
          ++ codes "["
          ++ name_of disk peer a
          ++ codes "] "
          ++ text
          ++ (10 ∷ [])
          ++ codes "> ")
        a
  notified (request_came peer greeting) a =
      let (name, a') = auto_alias disk peer a in
      let quoted = if is_empty greeting then [] else codes " (\"" ++ greeting ++ codes "\")" in
      prints disk
        ((10 ∷ [])
          ++ codes "* contact request from "
          ++ name
          ++ quoted
          ++ codes " "
          ++ em_dash
          ++ codes " /accept "
          ++ name
          ++ codes " or /reject "
          ++ name
          ++ (10 ∷ [])
          ++ codes "> ")
        a'
  notified (response_came peer accepts) a =
      prints disk
        ((10 ∷ [])
          ++ codes "* "
          ++ name_of disk peer a
          ++ (if accepts then codes " accepted" else codes " declined")
          ++ codes " your request"
          ++ (10 ∷ [])
          ++ codes "> ")
        a

  unfoldable pub notified_all : List Notice → ChatApp disk → ChatApp disk
  unfolding notified
  notified_all [] a = a
  notified_all (n ∷ notices) a = notified_all notices (notified n a)

  -- What comes of one datagram, if any, and the calls of the handlers in it.
  unfoldable pub taken : Option Datagram → ℤ → ℤ → ChatApp disk → ChatApp disk
  unfolding notified_all
  taken dg now clock a =
      let h = (poll na disk random delivers dg now clock (record a.host { notices = [] })).1 in
      notified_all h.notices (with_host na disk random delivers h a)

  unfoldable pub polled : ℤ → ℤ → ChatApp disk → ChatApp disk
  unfolding taken
  polled now clock a = elim a.socket [
    | [] ↦ taken none now clock a
    | ◌∷◌ dg rest ↦ taken dg now clock (record a { socket = rest })
  ]

  unfoldable pub handle_all : List Bytes → ℤ → ℤ → ChatApp disk → ChatApp disk
  handle_all [] now clock a = a
  handle_all (line ∷ lines) now clock a =
      handle_all lines now clock (handle na disk random delivers line now clock a)

  -- A peer whose path is direct is announced unless its key has been.
  unfoldable pub report : Bytes → Bytes → ChatApp disk → ChatApp disk
  report name peer a =
      let key = to_hex peer in
      if has_direct_path a.host.engine peer && not (is_some (find key a.direct_announced))
      then prints disk
          ((10 ∷ [])
            ++ codes "* direct connection to "
            ++ name
            ++ codes " established (no relay)"
            ++ (10 ∷ [])
            ++ codes "> ")
          (record a { direct_announced = insert_or_assign key tt a.direct_announced })
      else a

  unfoldable pub report_each : Assoc Bytes → ChatApp disk → ChatApp disk
  unfolding report
  report_each [] a = a
  report_each ((name, peer) ∷ peers) a = report_each peers (report name peer a)

  unfoldable pub report_direct_paths : ChatApp disk → ChatApp disk
  unfolding report_each
  report_direct_paths a = report_each a.name_to_pk a

  unfoldable pub beat : Option Client → ChatApp disk → ChatApp disk
  beat none a = a
  beat (some c) a =
      give_back na disk random delivers
        (heartbeat delivers (signer na disk random delivers a) (lend na disk random delivers c a)).1
        a

  unfoldable pub announce : Option Endpoint → ChatApp disk → ChatApp disk
  announce none a = a
  announce (some relay) a =
      with_host na disk random delivers (announce_to na disk random delivers relay a.host).1 a

  -- One turn of the loop, with the times of the last heartbeat and the last announcement.
  unfoldable pub turn : List Bytes → ℤ → ℤ → ℤ → ℤ → ChatApp disk → ChatApp disk × ℤ × ℤ
  unfolding handle_all polled report_direct_paths beat announce
  turn lines now clock last_heartbeat last_announce a =
      let a1 = handle_all lines now clock a in
      let a2 = polled now clock a1 in
      let a3 = with_host na disk random delivers (tick na disk random delivers clock a2.host) a2 in
      let a4 = report_direct_paths a3 in
      let beats = is_some a4.sig && ltb_ℤ (pos 30000) (clock -ℤ last_heartbeat) in
      let a5 = if beats then beat a4.sig a4 else a4 in
      let announces = is_some a5.relay && ltb_ℤ (pos 20000) (clock -ℤ last_announce) in
      if not a1.running then (a1, last_heartbeat, last_announce) else (
        if announces then announce a5.relay a5 else a5,
        if beats then clock else last_heartbeat,
        if announces then clock else last_announce,
      )

  -- The start of `run`, behind `bind`.
  unfoldable pub with_server : Option Client → ChatApp disk → ChatApp disk
  with_server none a = a
  with_server (some c) a =
      let said = prints_line disk (codes "Registering with the signaling server...") a in
      let (ok, c') =
        register_self delivers (signer na disk random delivers a) default_attempts
          (lend na disk random delivers c a) in
      prints_line disk
        (if ok
          then codes "Registered."
          else codes "Registration failed (server reachable?). Retry with /register.")
        (give_back na disk random delivers c' said)

  unfoldable pub with_relay : Option Endpoint → ChatApp disk → ChatApp disk
  with_relay none a = a
  with_relay (some relay) a =
      let h = set_relay na disk random delivers relay a.host in
      prints_line disk
        (codes "Using relay "
          ++ to_string relay
          ++ (if is_some a.sig then codes " (fallback; direct preferred)" else [])
          ++ codes ".")
        (with_host na disk random delivers (announce_to na disk random delivers relay h).1 a)

  unfoldable pub start : Bool → ChatApp disk → ChatApp disk
  unfolding with_server with_relay
  start false a = record (prints_line disk (codes "error: could not bind a local socket") a) {
    running = false;
  }
  start true a =
      let a1 = with_server a.sig a in
      let a2 = with_relay a1.relay a1 in
      prints disk (codes "> ")
        (print_help na disk random delivers (prints_line disk (codes "You are online.") a2))
