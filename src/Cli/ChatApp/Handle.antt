-- ===== src/Cli/ChatApp/Handle.antt =====
-- `ChatApp::handle` of cli/src/main.cpp: the dispatch of a line.
use openmesh_messenger.Base.{
  ℕ, false, not, ◌||◌, List, [], ◌∷◌, ◌++◌, Bytes, codes, bytes_eq, ◌==◌, if◌then◌else◌,
}
use openmesh_messenger.Base.Int.{ℤ}
use openmesh_messenger.Cli.ChatApp.{ChatApp, prints, prints_line}
use openmesh_messenger.Cli.ChatApp.Commands.{
  send_current, cmd_msg, cmd_decide, cmd_add, cmd_peers, cmd_register, cmd_id,
}
use openmesh_messenger.Cli.Streams.{read_word}
use openmesh_messenger.Crypto.Sodium.{Sodium}
use openmesh_messenger.Net.Datagram.{Delivery}
use openmesh_messenger.Storage.Disk.{Disk}

abbrev help_lines : List Bytes
help_lines =
    codes "Commands:"
    ∷ codes "  /id                       show your public key (share it) and fingerprint"
    ∷ codes "  /add <name> <pubkeyhex>   discover a peer and send a contact request"
    ∷ codes "  /accept <name>            accept an incoming contact request"
    ∷ codes "  /reject <name>            reject an incoming contact request"
    ∷ codes "  /msg <name> <text>        send a message to an accepted contact"
    ∷ codes "  <text>                    send to the current peer (last one you used)"
    ∷ codes "  /peers                    list known peers and trust status"
    ∷ codes "  /register                 (re)register with the signaling server"
    ∷ codes "  /help                     show this help"
    ∷ codes "  /quit                     exit"
    ∷ []

module _ (na : Sodium) (disk : Disk) (random : ℕ → Bytes) (delivers : Delivery) where
  unfoldable pub print_lines : List Bytes → ChatApp disk → ChatApp disk
  print_lines [] a = a
  print_lines (text ∷ lines) a = print_lines lines (prints_line disk text a)

  unfoldable pub print_help : ChatApp disk → ChatApp disk
  unfolding print_lines
  print_help a = print_lines help_lines a

  -- Behind the first word.
  unfoldable pub handle_command : Bytes → Bytes → ℤ → ℤ → ChatApp disk → ChatApp disk
  unfolding print_help
  handle_command cmd rest now clock a =
      if bytes_eq cmd (codes "/quit")
      then record a { running = false }
      else if bytes_eq cmd (codes "/help")
      then print_help a
      else if bytes_eq cmd (codes "/id")
      then cmd_id na disk random delivers a
      else if bytes_eq cmd (codes "/register")
      then cmd_register na disk random delivers a.sig a
      else if bytes_eq cmd (codes "/add")
      then cmd_add na disk random delivers rest clock a
      else if bytes_eq cmd (codes "/accept") || bytes_eq cmd (codes "/reject")
      then cmd_decide na disk random delivers rest (bytes_eq cmd (codes "/accept")) a
      else if bytes_eq cmd (codes "/msg")
      then cmd_msg na disk random delivers rest now a
      else if bytes_eq cmd (codes "/peers")
      then cmd_peers na disk random delivers a
      else prints_line disk (codes "unknown command: " ++ cmd ++ codes " (try /help)") a

  unfoldable pub handle : Bytes → ℤ → ℤ → ChatApp disk → ChatApp disk
  unfolding handle_command
  handle [] now clock a = a
  handle (c ∷ line) now clock a =
      if not (c == b'/')
      then send_current na disk random delivers (c ∷ line) now a
      else let (cmd, rest) = read_word (c ∷ line) in
        prints disk (codes "> ") (handle_command cmd rest now clock a)
