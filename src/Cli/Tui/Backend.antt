-- ===== src/Cli/Tui/Backend.antt =====
-- The network thread of cli/src/tui.cpp: the commands, and the turns of `net_loop`.
use openmesh_messenger.Base.{
  ℕ, Bool, false, not, ◌&&◌, ◌||◌, Option, none, some, List, [], ◌∷◌, ◌++◌, Bytes, codes, length,
  is_empty, is_some, bytes_eq, ◌==◌, if◌then◌else◌,
}
use openmesh_messenger.Base.Int.{ℤ, pos, ◌-ℤ◌, ltb_ℤ}
use openmesh_messenger.Cli.Streams.{read_word, get_line, without_space}
use openmesh_messenger.Cli.Tui.{Tui, em_dash, lend, give_back, with_host, flashes}
use openmesh_messenger.Core.Hex.{to_hex, from_hex}
use openmesh_messenger.Crypto.Sign.{sign_detached}
use openmesh_messenger.Crypto.Sodium.{Sodium}
use openmesh_messenger.Messaging.Engine.{Host}
use openmesh_messenger.Messaging.Engine.Commands.{
  open_store, accept_contact, reject_contact, send_contact_request, send,
}
use openmesh_messenger.Messaging.Engine.Contacts.{set_nickname}
use openmesh_messenger.Messaging.Engine.Paths.{connect, tick, announce_to}
use openmesh_messenger.Messaging.Engine.Poll.{poll}
use openmesh_messenger.Messaging.Engine.Steps.{set_relay}
use openmesh_messenger.Net.Datagram.{Delivery, Datagram}
use openmesh_messenger.Net.Endpoint.{Endpoint, to_string}
use openmesh_messenger.Net.SignalingClient.{
  Client, discover, heartbeat, register_self, send_connect,
}
use openmesh_messenger.Storage.Disk.{Disk}

-- The defaults of `register_self` and `discover`.
abbrev pub default_attempts : ℕ
default_attempts = 3

module _ (na : Sodium) (disk : Disk) (random : ℕ → Bytes) (delivers : Delivery) where
  unfoldable pub submit : Bytes → Tui disk → Tui disk
  submit cmd t = record t { queue = t.queue ++ (cmd ∷ []) }

  -- The signer that the constructor gives to the client.
  abbrev signer : Tui disk → Bytes → Bytes
  signer t challenge = sign_detached na challenge t.self.secret_key

  -- The end of `do_add`: the request goes out, and is reported.
  unfoldable pub request_sent : Bytes → Endpoint → Bytes → Tui disk → Tui disk
  request_sent peer to good t =
      let (ok, h) = send_contact_request na disk random delivers peer to t.name t.host in
      flashes disk (if ok then good else codes "could not send request") (with_host disk h t)

  -- `if (auto mine = sig_->public_endpoint()) sig_->send_connect(...)`.
  unfoldable pub probe_back : Bytes → Client → Option Endpoint → Tui disk → Tui disk
  probe_back peer c none t = t
  probe_back peer c (some mine) t =
      let (ok, c') = send_connect delivers (signer t) peer (to_string mine) (lend disk c t) in
      give_back disk c' t

  -- Behind `discover`.
  unfoldable pub found : Bytes → Bytes → Option Endpoint → Bool → Client → ℤ → Tui disk → Tui disk
  unfolding request_sent probe_back
  found nm peer none responded c clock t =
      flashes disk (if responded then nm ++ codes " is offline" else codes "no signaling response")
        t
  found nm peer (some e) responded c clock t =
      let (active, h) = connect na disk random delivers peer e clock t.host in
      request_sent peer active (codes "request sent to " ++ nm)
        (probe_back peer c c.public_endpoint (with_host disk h t))

  -- The part of `do_add` behind `set_nickname`.
  unfoldable pub reach : Bytes → Bytes → Option Client → Option Endpoint → ℤ → Tui disk → Tui disk
  unfolding found request_sent
  reach nm peer (some c) relay clock t =
      let (result, c') = discover delivers (signer t) peer default_attempts (lend disk c t) in
      found nm peer result.endpoint result.responded c' clock (give_back disk c' t)
  reach nm peer none (some relay) clock t =
      request_sent peer relay (codes "request sent to " ++ nm ++ codes " via relay") t
  reach nm peer none none clock t = t

  unfoldable pub add_key : Bytes → Option Bytes → ℤ → Tui disk → Tui disk
  unfolding reach
  add_key nm none clock t = flashes disk (codes "usage: /add <name> <64-hex pubkey>") t
  add_key nm (some peer) clock t =
      if is_empty nm || not (length peer == 32)
      then flashes disk (codes "usage: /add <name> <64-hex pubkey>") t
      else reach nm peer t.sig t.relay clock
          (with_host disk (set_nickname na disk random delivers peer nm t.host) t)

  unfoldable pub do_add : Bytes → Bytes → ℤ → Tui disk → Tui disk
  unfolding add_key
  do_add nm pkhex clock t = add_key nm (from_hex pkhex) clock t

  unfoldable pub do_decide : Bytes → Bool → Tui disk → Tui disk
  do_decide peer accept t =
      let (ok, h) =
        if accept
        then accept_contact na disk random delivers peer t.host
        else reject_contact na disk random delivers peer t.host in
      flashes disk
        (if ok
          then if accept then codes "accepted" else codes "rejected"
          else codes "no pending request")
        (with_host disk h t)

  unfoldable pub decide_key : Option Bytes → Bool → Tui disk → Tui disk
  unfolding do_decide
  decide_key none accept t = t
  decide_key (some peer) accept t = do_decide peer accept t

  unfoldable pub send_key : Option Bytes → Bytes → ℤ → Tui disk → Tui disk
  send_key none text now t = t
  send_key (some peer) text now t =
      let (ok, h) = send na disk random delivers peer text now t.host in
      let t' = with_host disk h t in
      if ok then t' else flashes disk (codes "not delivered (offline?)") t'

  -- Behind the first word. `now` is the engine's clock in seconds, `clock` the steady one.
  unfoldable pub exec_command : Bytes → Bytes → ℤ → ℤ → Tui disk → Tui disk
  unfolding do_add decide_key send_key
  exec_command cmd rest now clock t =
      let (first, rest') = read_word rest in
      let second = (read_word rest').0 in
      if bytes_eq cmd (codes "/quit")
      then record t { running = false }
      else if bytes_eq cmd (codes "/id")
      then flashes disk (codes "your key: " ++ to_hex t.self.public_key) t
      else if bytes_eq cmd (codes "/add")
      then do_add first second clock t
      else if bytes_eq cmd (codes "/accept") || bytes_eq cmd (codes "/reject")
      then decide_key (from_hex first) (bytes_eq cmd (codes "/accept")) t
      else if bytes_eq cmd (codes "/send")
      then send_key (from_hex first) (without_space (get_line rest')) now t
      else t

  unfoldable pub exec : Bytes → ℤ → ℤ → Tui disk → Tui disk
  unfolding exec_command
  exec line now clock t = let (cmd, rest) = read_word line in exec_command cmd rest now clock t

  unfoldable pub exec_all : List Bytes → ℤ → ℤ → Tui disk → Tui disk
  unfolding exec
  exec_all [] now clock t = t
  exec_all (line ∷ lines) now clock t = exec_all lines now clock (exec line now clock t)

  -- `while (engine_.poll(0)) {}`: up to the first poll that processes nothing.
  unfoldable pub poll_all :
      List (Option Datagram) → ℤ → ℤ → Host disk → List (Option Datagram) × Host disk
  poll_all [] now clock h = ([], h)
  poll_all (dg ∷ rest) now clock h =
      let (processed, h') = poll na disk random delivers dg now clock h in
      let later = poll_all rest now clock h' in if processed then later else (rest, h')

  unfoldable pub polled : ℤ → ℤ → Tui disk → Tui disk
  unfolding poll_all
  polled now clock t =
      let (socket, h) = poll_all t.socket now clock t.host in record t { socket = socket; host = h }

  -- `now - last > period`, in milliseconds.
  abbrev elapsed : ℤ → ℤ → ℤ → Bool
  elapsed clock last period = ltb_ℤ period (clock -ℤ last)

  unfoldable pub beat : Option Client → Tui disk → Tui disk
  beat none t = t
  beat (some c) t = give_back disk (heartbeat delivers (signer t) (lend disk c t)).1 t

  unfoldable pub announce : Option Endpoint → Tui disk → Tui disk
  announce none t = t
  announce (some relay) t = with_host disk (announce_to na disk random delivers relay t.host).1 t

  -- One turn of `net_loop`, with the times of the last heartbeat and the last announcement.
  unfoldable pub net_turn : ℤ → ℤ → ℤ → ℤ → Tui disk → Tui disk × ℤ × ℤ
  unfolding exec_all polled beat announce
  net_turn now clock last_hb last_ann t =
      let t1 = polled now clock (exec_all t.queue now clock (record t { queue = [] })) in
      let t2 = with_host disk (tick na disk random delivers clock t1.host) t1 in
      let beats = is_some t2.sig && elapsed clock last_hb (pos 30000) in
      let t3 = if beats then beat t2.sig t2 else t2 in
      let announces = is_some t3.relay && elapsed clock last_ann (pos 20000) in
      (
        if announces then announce t3.relay t3 else t3,
        if beats then clock else last_hb,
        if announces then clock else last_ann,
      )

  -- The bring-up at the start of `run`, behind `bind`.
  unfoldable pub with_saved : Bytes → Bytes → Bytes → Tui disk → Tui disk
  with_saved salt path pass t =
      if is_empty path || is_empty pass
      then t
      else let (ok, h) = open_store na disk random delivers salt path pass t.host in
        let t' = with_host disk h t in
        if ok then flashes disk (codes "loaded saved chats") t' else t'

  unfoldable pub with_server : Option Client → Tui disk → Tui disk
  with_server none t = t
  with_server (some c) t =
      let (ok, c') = register_self delivers (signer t) default_attempts (lend disk c t) in
      flashes disk
        (if ok
          then codes "registered " ++ em_dash ++ codes " online"
          else codes "registration failed")
        (give_back disk c' t)

  unfoldable pub with_relay : Option Endpoint → Tui disk → Tui disk
  with_relay none t = t
  with_relay (some relay) t =
      let h = set_relay na disk random delivers relay t.host in
      with_host disk (announce_to na disk random delivers relay h).1 t

  unfoldable pub bring_up : Bytes → Bytes → Bytes → Tui disk → Tui disk
  unfolding with_saved with_server with_relay
  bring_up salt path pass t =
      let t1 = with_saved salt path pass t in
      let t2 = with_server t1.sig t1 in with_relay t2.relay t2
