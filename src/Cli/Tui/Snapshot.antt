-- ===== src/Cli/Tui/Snapshot.antt =====
-- The UI thread's copy of the model: `build_snapshot` of cli/src/tui.cpp. The broken-down time and
-- its formatting are libc's, and a parameter.
use openmesh_messenger.Base.{
  ℕ, ◌-◌, Bool, true, false, not, ◌&&◌, Option, none, some, List, [], ◌∷◌, ◌++◌, map, Bytes, codes,
  length, take, is_empty, is_some, bytes_eq, ◌==◌, leb, if◌then◌else◌,
}
use openmesh_messenger.Base.Int.{ℤ, pos, negsuc, ltb_ℤ}
use openmesh_messenger.Cli.Tui.{Item, Line, Tui, filled_circle, open_circle}
use openmesh_messenger.Core.Hex.{to_hex}
use openmesh_messenger.Messaging.Engine.{Engine, has_direct_path}
use openmesh_messenger.Storage.Disk.{Disk}
use openmesh_messenger.Storage.Records.{Contact, Message, Request, accepted}
use openmesh_messenger.Storage.Store
use openmesh_messenger.Storage.Store.{Store}

-- localtime_r, the fields the code reads, and strftime.
pub record Libc : Type 1 where
  pub Tm : Type 0
  pub local_time : ℤ → Tm
  pub yday : Tm → ℕ
  pub year : Tm → ℕ
  pub strftime : Bytes → Tm → Bytes

abbrev is_zero : ℤ → Bool
is_zero (pos n) = n == 0
is_zero (negsuc n) = false

unfoldable pub fmt_time : Libc → ℤ → ℤ → Bytes
fmt_time libc now ts =
    let tm = libc.local_time ts in
    let nowtm = libc.local_time now in
    if is_zero ts
    then []
    else if libc.yday tm == libc.yday nowtm && libc.year tm == libc.year nowtm
    then libc.strftime (codes "%H:%M") tm
    else libc.strftime (codes "%b %d") tm

-- The first eight digits of the key.
abbrev pub short_key : Bytes → Bytes
short_key key = take 8 (to_hex key)

unfoldable pub name_of : Contact → Bytes
name_of c = if not (is_empty c.nickname) then c.nickname else short_key c.public_key

-- `conv.back()`, if any.
unfoldable pub back : List Message → Option Message
back [] = none
back (m ∷ conv) = elim (back conv) [ none ↦ some m | some l ↦ some l ]

unfoldable pub latest : Option Message → ℤ
latest none = pos 0
latest (some m) = m.timestamp

unfoldable pub preview : Option Message → Bytes
preview none = []
preview (some m) = if m.outgoing then codes "you: " ++ m.text else m.text

unfoldable pub chat_item : Contact → Store → Item
unfolding latest preview
chat_item c s =
    let last = back (Store.conversation c.public_key s) in
    record {
      is_request = false;
      pk = c.public_key;
      name = name_of c;
      subtitle = preview last;
      sort_key = latest last;
    }

unfoldable pub chats : List Contact → Store → List Item
unfolding chat_item
chats [] s = []
chats (c ∷ contacts) s =
    let rest = chats contacts s in if c.trust == accepted then chat_item c s ∷ rest else rest

-- `std::sort` by falling key. Which of two equal keys comes first is not specified; here it is the
-- earlier one.
unfoldable pub insert_item : Item → List Item → List Item
insert_item a [] = a ∷ []
insert_item a (b ∷ items) =
    let rest = insert_item a items in
    if ltb_ℤ a.sort_key b.sort_key then b ∷ rest else a ∷ b ∷ items

unfoldable pub sort_items : List Item → List Item
unfolding insert_item
sort_items [] = []
sort_items (a ∷ items) = insert_item a (sort_items items)

-- The last contact of the key that has a nickname gives the name.
unfoldable pub request_name : Bytes → Bytes → List Contact → Bytes
request_name key name [] = name
request_name key name (c ∷ contacts) =
    request_name key
      (if bytes_eq c.public_key key && not (is_empty c.nickname) then c.nickname else name) contacts

unfoldable pub request_item : List Contact → Request → Item
unfolding request_name
request_item contacts q = record {
  is_request = true;
  pk = q.peer;
  name = request_name q.peer (short_key q.peer) contacts;
  subtitle = q.greeting;
  sort_key = pos 0;
}

unfoldable pub item_at : List Item → ℕ → Option Item
item_at [] i = none
item_at (a ∷ items) i = if i == 0 then some a else item_at items (i - 1)

-- The two tests on `selected_`.
unfoldable pub clamp : ℕ → ℕ → ℕ
clamp size selected = if leb size selected then size - 1 else selected

unfoldable pub request_lines : Item → List Line
request_lines sel =
    record {
      time = [];
      who = sel.name;
      text = if is_empty sel.subtitle then codes "(no greeting)" else sel.subtitle;
      outgoing = false;
    }
    ∷ record { time = []; who = []; text = []; outgoing = false }
    ∷ record {
      time = [];
      who = [];
      text = codes "Type /accept or /reject (or press a / r).";
      outgoing = false;
    }
    ∷ []

unfoldable pub message_line : Libc → ℤ → Item → Message → Line
unfolding fmt_time
message_line libc now sel m = record {
  time = fmt_time libc now m.timestamp;
  who = if m.outgoing then codes "you" else sel.name;
  text = m.text;
  outgoing = m.outgoing;
}

unfoldable pub path_mark : Bool → Bool → Bytes
path_mark direct relayed =
    if direct
    then codes "  " ++ filled_circle ++ codes " direct"
    else if relayed
    then codes "  " ++ open_circle ++ codes " via relay"
    else []

-- `conv_` and `status_` for the selected item.
unfoldable pub shown : Libc → ℤ → Engine → Bool → Option Item → List Line × Bytes
unfolding request_lines message_line path_mark
shown libc now e relayed none = ([], [])
shown libc now e relayed (some sel) =
    if sel.is_request then (request_lines sel, codes "request from " ++ sel.name) else (
      map (message_line libc now sel) (Store.conversation sel.pk e.contacts),
      sel.name ++ path_mark (has_direct_path e sel.pk) relayed,
    )

module _ (disk : Disk) where
  unfoldable pub build_snapshot : Libc → ℤ → Tui disk → Tui disk
  unfolding shown
  build_snapshot libc now t =
      let e = t.host.engine in
      let sorted = sort_items (chats e.contacts.contacts e.contacts) in
      let items = sorted ++ map (request_item e.contacts.contacts) e.contacts.requests in
      let selected = clamp (length items) t.selected in
      let (conv, status) = shown libc now e (is_some t.relay) (item_at items selected) in
      record t {
        items = items;
        n_chats = length sorted;
        selected = selected;
        flash_view = t.flash;
        conv = conv;
        status = status;
      }
