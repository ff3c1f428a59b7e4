-- ===== src/Tests/Cli.antt =====
-- The terminal client on concrete input.
use openmesh_messenger.Base.{
  ◌≡◌, refl, ap, bytes_eq, get_or, true, false, ltb, leb, none, some, [], ◌∷◌, ◌++◌, arith, Bytes,
  codes, length, is_empty, is_some, suc, ℕ,
}
use openmesh_messenger.Base.Assoc.{find}
use openmesh_messenger.Base.Int.{ℤ, pos}
use openmesh_messenger.Cli.ChatApp.{ChatApp, name_of, resolve}
use openmesh_messenger.Cli.ChatApp.Commands.{add_key}
use openmesh_messenger.Cli.ChatApp.Handle.{handle}
use openmesh_messenger.Cli.ChatApp.Names.{msg_delivers_to_name, reused_name_misdirects}
use openmesh_messenger.Cli.Tui.{Item, Tui}
use openmesh_messenger.Cli.Tui.Backend.{exec}
use openmesh_messenger.Cli.Tui.Delivery.{enter_sends_the_line, quick_key_decides}
use openmesh_messenger.Cli.Tui.Keys.{code, handle_enter, on_key, selected_item}
use openmesh_messenger.Cli.Tui.Layout.{chunks_within}
use openmesh_messenger.Cli.Tui.Selection.{snapshot_selects}
use openmesh_messenger.Cli.Tui.Snapshot.{Libc, build_snapshot, item_at}
use openmesh_messenger.Cli.Tui.Wrapping.{Wraps, chunks_wrap}
use openmesh_messenger.Net.Endpoint.Decimal.{is_space}
use openmesh_messenger.Messaging.Engine.Commands.{send, accept_contact}
use openmesh_messenger.Messaging.Engine.History.{messages_of, extended}
use openmesh_messenger.Storage.Records.{accepted}
use openmesh_messenger.Storage.Store
use openmesh_messenger.Tests.Disk.{toy_disk}
use openmesh_messenger.Tests.Engine.{host, random, delivers}
use openmesh_messenger.Tests.Toy.{toy, block, block-IsBytes}

chunks_wrap_example :
    Wraps 3
      (codes "hello world")
      (chunks_within (suc (length (codes "hello world"))) 3 (codes "hello world") 0)
chunks_wrap_example = chunks_wrap 3 (codes "hello world") (omega arith)

abbrev chat : Item
chat = record {
  is_request = false;
  pk = 2 ∷ [];
  name = codes "bob";
  subtitle = [];
  sort_key = pos 0;
}

abbrev asking : Item
asking = record chat { is_request = true }

abbrev screen : Item → Bytes → Tui toy_disk
screen it input = record {
  self = record { public_key = 1 ∷ []; secret_key = [] };
  relay = none;
  name = codes "alice";
  host = host;
  sig = none;
  socket = [];
  queue = [];
  running = true;
  items = it ∷ [];
  n_chats = 1;
  selected = 0;
  scroll = 0;
  input = input;
  conv = [];
  status = [];
  flash = [];
  flash_view = [];
}

enter_sends_the_line_example :
    (cmd : Bytes) × ((handle_enter toy_disk (screen chat (codes "hi  bob"))).queue
      ≡ [] ++ (cmd ∷ []))
    × ((handle_enter toy_disk (screen chat (codes "hi  bob"))).input ≡ [])
    × ((s : Tui toy_disk) (now clock : ℤ)
        → let h = (exec toy toy_disk random delivers cmd now clock s).host in
          let r = send toy toy_disk random delivers (2 ∷ []) (codes "hi  bob") now s.host in
          (h ≡ r.1)
          × (messages_of h ≡ extended (2 ∷ []) (codes "hi  bob") now r.0 (messages_of s.host)))
enter_sends_the_line_example =
    enter_sends_the_line toy toy_disk random delivers (screen chat (codes "hi  bob")) chat b'h'
      (codes "i  bob") (unfold selected_item item_at in refl) refl (omega arith)
      (unfold is_empty in refl) refl refl (refl, (refl, (refl, (refl, (refl, (refl, (refl, tt)))))))

quick_key_decides_example :
    let t' = on_key toy_disk (code b'a') (screen asking []) in
    (cmd : Bytes) × (t'.queue ≡ [] ++ (cmd ∷ []))
    × (t'.input ≡ [])
    × ((s : Tui toy_disk) (now clock : ℤ)
        → let h = (exec toy toy_disk random delivers cmd now clock s).host in
          let r = accept_contact toy toy_disk random delivers (2 ∷ []) s.host in
          (h ≡ r.1) × (r.0 ≡ true → Store.trust_of (2 ∷ []) h.engine.contacts ≡ some accepted))
quick_key_decides_example =
    quick_key_decides toy toy_disk random delivers true (screen asking []) asking
      (unfold selected_item item_at in refl) refl (omega arith) (unfold is_empty in refl) refl

abbrev libc : Libc
libc = record {
  Tm = ℤ;
  local_time = λ t. t;
  yday = λ t. 0;
  year = λ t. 0;
  strftime = λ format t. format;
}

snapshot_selects_example :
    let t' = build_snapshot toy_disk libc (pos 5) (screen chat []) in
    (is_some (item_at t'.items t'.selected) ≡ ltb 0 (length t'.items))
    × ((i : ℕ) (it : Item) → item_at t'.items i ≡ some it → it.is_request ≡ leb t'.n_chats i)
snapshot_selects_example = snapshot_selects toy_disk libc (pos 5) (screen chat [])

abbrev pub app : ChatApp toy_disk
app = record {
  self = record { public_key = 1 ∷ []; secret_key = [] };
  display_name = codes "alice";
  host = host;
  sig = none;
  relay = some (record { host = codes "r"; port = 4434 });
  socket = [];
  running = true;
  name_to_pk = (codes "bob", 2 ∷ []) ∷ [];
  pk_to_name = (codes "02", codes "bob") ∷ [];
  direct_announced = [];
  current = [];
  printed = [];
}

msg_delivers_to_name_example :
    let a' = handle toy toy_disk random delivers (codes "/msg bob hi you") (pos 5) (pos 6) app in
    let r = send toy toy_disk random delivers (2 ∷ []) (codes "hi you") (pos 5) app.host in
    (a'.current ≡ 2 ∷ [])
    × (a'.host ≡ r.1)
    × (messages_of a'.host ≡ extended (2 ∷ []) (codes "hi you") (pos 5) r.0 (messages_of app.host))
    × (r.0 ≡ true → a'.printed ≡ [] ++ codes "> ")
unfolding is_space resolve find bytes_eq
msg_delivers_to_name_example =
    msg_delivers_to_name toy toy_disk random delivers app b'b' (codes "ob") (codes "hi you")
      (2 ∷ []) (pos 5) (pos 6) (refl, (refl, (refl, tt)))
      (refl, (refl, (refl, (refl, (refl, (refl, tt)))))) refl

reused_name_misdirects_example :
    let a' =
      add_key toy toy_disk random delivers (codes "bob") (some (block 32 (4 ∷ []))) (pos 6) (
        add_key toy toy_disk random delivers
          (codes "bob")
          (some (block 32 (3 ∷ [])))
          (pos 6)
          app) in
    (name_of toy_disk (block 32 (3 ∷ [])) a' ≡ codes "bob")
    × (resolve toy_disk (codes "bob") a' ≡ some (block 32 (4 ∷ [])))
unfolding block
reused_name_misdirects_example =
    reused_name_misdirects toy toy_disk random delivers app (codes "bob") (block 32 (3 ∷ []))
      (block 32 (4 ∷ [])) (pos 6) (pos 6) (unfold is_empty in refl) refl refl
      (block-IsBytes 32 (3 ∷ [])) (block-IsBytes 32 (4 ∷ []))
      (λ e. let h : ◌≡◌ {A = ℕ} 3 4 = ap (λ xs. get_or xs 0 0) e in absurd (omega (arith, h)))
