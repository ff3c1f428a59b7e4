-- ===== src/Cli/Tui/Keys.antt =====
-- The keyboard of cli/src/tui.cpp: `on_key` and `handle_enter`. The key codes above the characters
-- are those of ncurses; a key of the model is one of its names or a code.
use openmesh_messenger.Base.{
  ℕ, ◌+◌, ◌-◌, not, ◌&&◌, ◌||◌, Option, none, some, [], ◌∷◌, ◌++◌, Bytes, codes, length, take,
  is_empty, bytes_eq, ◌==◌, ltb, leb, if◌then◌else◌,
}
use openmesh_messenger.Cli.Streams.{read_word}
use openmesh_messenger.Cli.Tui.{Item, Tui, flashes}
use openmesh_messenger.Cli.Tui.Snapshot.{item_at}
use openmesh_messenger.Core.Hex.{to_hex}
use openmesh_messenger.Storage.Disk.{Disk}

pub data Key : Type 0 where
  key_up : Key
  key_down : Key
  key_ppage : Key
  key_npage : Key
  key_resize : Key
  key_backspace : Key
  key_enter : Key
  code : ℕ → Key

module _ (disk : Disk) where
  abbrev queued : Bytes → Tui disk → Tui disk
  queued cmd t = record t { queue = t.queue ++ (cmd ∷ []) }

  unfoldable pub selected_item : Tui disk → Option Item
  selected_item t = item_at t.items t.selected

  -- A line that is not a command goes to the selected chat.
  unfoldable pub written : Option Item → Bytes → Tui disk → Tui disk
  written none line t = flashes disk (codes "select a chat to message") t
  written (some it) line t =
      if it.is_request
      then flashes disk (codes "select a chat to message") t
      else queued (codes "/send " ++ to_hex it.pk ++ codes " " ++ line) t

  unfoldable pub decision : Option Item → Bytes → Tui disk → Tui disk
  decision none cmd t = flashes disk (codes "select a request first") t
  decision (some it) cmd t =
      if it.is_request
      then queued (cmd ++ codes " " ++ to_hex it.pk) t
      else flashes disk (codes "select a request first") t

  unfoldable pub command : Bytes → Tui disk → Tui disk
  unfolding decision selected_item
  command line t =
      let cmd = (read_word line).0 in
      if bytes_eq cmd (codes "/accept") || bytes_eq cmd (codes "/reject")
      then decision (selected_item t) cmd t
      else queued line t

  unfoldable pub entered : Bytes → Tui disk → Tui disk
  unfolding written command
  entered [] t = t
  entered (c ∷ line) t =
      if not (c == b'/') then written (selected_item t) (c ∷ line) t else command (c ∷ line) t

  unfoldable pub handle_enter : Tui disk → Tui disk
  unfolding entered
  handle_enter t = entered t.input (record t { input = [] })

  unfoldable pub typed : ℕ → Tui disk → Tui disk
  typed ch t = if leb 32 ch && ltb ch 256 then record t { input = t.input ++ (ch ∷ []) } else t

  -- `a` and `r` decide on a selected request.
  unfoldable pub quick : Option Item → ℕ → Tui disk → Tui disk
  unfolding typed
  quick none ch t = typed ch t
  quick (some it) ch t =
      if it.is_request
      then queued ((if ch == b'a' then codes "/accept " else codes "/reject ") ++ to_hex it.pk) t
      else typed ch t

  abbrev pub erased : Tui disk → Tui disk
  erased t = record t { input = take (length t.input - 1) t.input }

  unfoldable pub pressed : ℕ → Tui disk → Tui disk
  unfolding handle_enter quick selected_item
  pressed ch t =
      if ch == 127 || ch == 8
      then erased t
      else if ch == 10
      then handle_enter t
      else if is_empty t.input && (ch == b'a' || ch == b'r')
      then quick (selected_item t) ch t
      else typed ch t

  unfoldable pub on_key : Key → Tui disk → Tui disk
  unfolding pressed
  on_key key_up t = record t { selected = t.selected - 1; scroll = 0 }
  on_key key_down t = record t { selected = t.selected + 1; scroll = 0 }
  on_key key_ppage t = record t { scroll = t.scroll + 3 }
  on_key key_npage t = record t { scroll = t.scroll - 3 }
  on_key key_resize t = t
  on_key key_backspace t = erased t
  on_key key_enter t = handle_enter t
  on_key (code ch) t = pressed ch t
