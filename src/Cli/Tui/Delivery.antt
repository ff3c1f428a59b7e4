-- ===== src/Cli/Tui/Delivery.antt =====
-- From the keyboard to the engine: what the UI thread queues, the network thread reads back.
use openmesh_messenger.Base.{
  ℕ, ◌≡◌, refl, ap, ◌∙◌, Bool, true, false, some, [], ◌∷◌, ◌++◌, Bytes, IsBytes, codes, is_empty,
  bytes_eq, ◌==◌, if◌then◌else◌, Bool-cases, inl, inr,
}
use openmesh_messenger.Base.Int.{ℤ}
use openmesh_messenger.Cli.Streams.{IsLine, get_line, without_space, get_line-all}
use openmesh_messenger.Cli.Tui.{Item, Tui}
use openmesh_messenger.Cli.Tui.Backend.{exec, exec_command, send_key, decide_key, do_decide}
use openmesh_messenger.Cli.Tui.Keys.{
  code, on_key, pressed, quick, selected_item, handle_enter, entered, written,
}
use openmesh_messenger.Core.Hex.{to_hex, from_hex-to_hex}
use openmesh_messenger.Crypto.Sodium.{Sodium}
use openmesh_messenger.Messaging.Engine.{Host}
use openmesh_messenger.Messaging.Engine.Commands.{send, accept_contact, reject_contact}
use openmesh_messenger.Messaging.Engine.Decisions.{accept-trust, reject-trust}
use openmesh_messenger.Storage.Records.{accepted, rejected}
use openmesh_messenger.Storage.Store
use openmesh_messenger.Messaging.Engine.History.{messages_of, extended, send-messages}
use openmesh_messenger.Net.Datagram.{Delivery}
use openmesh_messenger.Storage.Disk.{Disk}
use openmesh_messenger.Cli.Tui.Written.{
  verb, read_key, read_last_key, read_send, send_text, read_verb,
}

module _ (na : Sodium) (disk : Disk) (random : ℕ → Bytes) (delivers : Delivery) where
  send-command :
      (k line : Bytes) (now clock : ℤ) (t : Tui disk)
      → IsBytes k
      → is_empty k ≡ false
      → IsLine line
      → exec_command na disk random delivers
          (codes "/send")
          (b' ' ∷ to_hex k ++ (b' ' ∷ line))
          now
          clock
          t
        ≡ send_key na disk random delivers (some k) line now t
  unfolding exec_command bytes_eq get_line without_space
  send-command k line now clock t h full one_line =
      rw (read_key k line h full, from_hex-to_hex k h, get_line-all line one_line) refl

  exec-send :
      (k line : Bytes) (now clock : ℤ) (t : Tui disk)
      → IsBytes k
      → is_empty k ≡ false
      → IsLine line
      → exec na disk random delivers (codes "/send " ++ to_hex k ++ codes " " ++ line) now clock t
        ≡ send_key na disk random delivers (some k) line now t
  unfolding exec
  exec-send k line now clock t h full one_line =
      ap (λ text. exec na disk random delivers text now clock t) (send_text (to_hex k) line)
      ∙ ap (λ (r : Bytes × Bytes). exec_command na disk random delivers r.0 r.1 now clock t)
          (read_send (to_hex k ++ (b' ' ∷ line)))
      ∙ send-command k line now clock t h full one_line

  send_key-host :
      (k line : Bytes) (now : ℤ) (t : Tui disk)
      → (send_key na disk random delivers (some k) line now t).host
        ≡ (send na disk random delivers k line now t.host).1
  unfolding send_key
  send_key-host k line now t =
      elim (Bool-cases (send na disk random delivers k line now t.host).0) [
        | inl delivered ↦ rw delivered refl
        | inr lost ↦ rw lost refl
      ]

  -- A line that is typed while a chat is selected and is no command reaches the engine whole: the
  -- command that Enter queues, when the network thread executes it in whatever state, leaves the
  -- engine as its `send` of exactly that line to exactly that chat's key does, and the line joins
  -- the history, as sent to that key, if `send` succeeds. If it fails, the history stays. The key
  -- is a byte string that is not empty, and the line has no line feed in it.
  pub enter_sends_the_line :
      (t : Tui disk) (it : Item) (c : ℕ) (line : Bytes)
      → selected_item disk t ≡ some it
      → it.is_request ≡ false
      → IsBytes it.pk
      → is_empty it.pk ≡ false
      → t.input ≡ c ∷ line
      → (c == b'/') ≡ false
      → IsLine (c ∷ line)
      → (cmd : Bytes) × ((handle_enter disk t).queue ≡ t.queue ++ (cmd ∷ []))
        × ((handle_enter disk t).input ≡ [])
        × ((s : Tui disk) (now clock : ℤ)
            → let h = (exec na disk random delivers cmd now clock s).host in
              let r = send na disk random delivers it.pk (c ∷ line) now s.host in
              (h ≡ r.1) × (messages_of h ≡ extended it.pk (c ∷ line) now r.0 (messages_of s.host)))
  unfolding handle_enter entered written selected_item
  enter_sends_the_line t it c line chat is_chat h full typed plain one_line = (
    codes "/send " ++ to_hex it.pk ++ codes " " ++ (c ∷ line),
    rw (typed, plain, chat, is_chat) refl,
    rw (typed, plain, chat, is_chat) refl,
    λ s now clock.
        let e =
          ap (λ (u : Tui disk). u.host) (exec-send it.pk (c ∷ line) now clock s h full one_line)
          ∙ send_key-host it.pk (c ∷ line) now s in
        (e, ap messages_of e ∙ send-messages na disk random delivers it.pk (c ∷ line) now s.host),
  )

  decide-command :
      (b : Bool) (k : Bytes) (now clock : ℤ) (t : Tui disk)
      → IsBytes k
      → is_empty k ≡ false
      → exec_command na disk random delivers (verb b) (b' ' ∷ to_hex k) now clock t
        ≡ do_decide na disk random delivers k b t
  unfolding exec_command bytes_eq decide_key
  decide-command true k now clock t h full = rw (read_last_key k h full, from_hex-to_hex k h) refl
  decide-command false k now clock t h full = rw (read_last_key k h full, from_hex-to_hex k h) refl

  -- The engine's call for each of the two keys.
  abbrev pub decision : Bool → Bytes → Host disk → Bool × Host disk
  decision true peer h = accept_contact na disk random delivers peer h
  decision false peer h = reject_contact na disk random delivers peer h

  do_decide-host :
      (b : Bool) (k : Bytes) (t : Tui disk)
      → (do_decide na disk random delivers k b t).host ≡ (decision b k t.host).1
  unfolding do_decide
  do_decide-host true k t = refl
  do_decide-host false k t = refl

  -- The keys `a` and `r`, pressed on an empty input line while a request is selected, reach the
  -- engine as a decision on that request: the command that they queue, when the network thread
  -- executes it in whatever state, leaves the engine as `accept_contact` does for `a` and as
  -- `reject_contact` does for `r`, on exactly that peer, and if that call succeeds the peer is an
  -- accepted contact or a rejected one. The peer's key is a byte string that is not empty.
  pub quick_key_decides :
      (b : Bool) (t : Tui disk) (it : Item)
      → selected_item disk t ≡ some it
      → it.is_request ≡ true
      → IsBytes it.pk
      → is_empty it.pk ≡ false
      → t.input ≡ []
      → let t' = on_key disk (code (if b then b'a' else b'r')) t in
        (cmd : Bytes) × (t'.queue ≡ t.queue ++ (cmd ∷ []))
        × (t'.input ≡ [])
        × ((s : Tui disk) (now clock : ℤ)
            → let h = (exec na disk random delivers cmd now clock s).host in
              let r = decision b it.pk s.host in
              (h ≡ r.1)
              × (r.0 ≡ true
                  → Store.trust_of it.pk h.engine.contacts
                    ≡ some (if b then accepted else rejected)))
  unfolding on_key pressed quick exec selected_item is_empty
  quick_key_decides true t it chosen asks h full blank = (
    verb true ++ (b' ' ∷ to_hex it.pk),
    rw (blank, chosen, asks) refl,
    rw (blank, chosen, asks) refl,
    λ s now clock.
        let e =
          ap (λ (u : Tui disk). u.host)
            (ap (λ (r : Bytes × Bytes). exec_command na disk random delivers r.0 r.1 now clock s)
                (read_verb true (to_hex it.pk))
              ∙ decide-command true it.pk now clock s h full)
          ∙ do_decide-host true it.pk s in
        (
          e,
          λ ok.
              ap (λ (g : Host disk). Store.trust_of it.pk g.engine.contacts) e
              ∙ accept-trust na disk random delivers it.pk s.host ok,
        ),
  )
  quick_key_decides false t it chosen asks h full blank = (
    verb false ++ (b' ' ∷ to_hex it.pk),
    rw (blank, chosen, asks) refl,
    rw (blank, chosen, asks) refl,
    λ s now clock.
        let e =
          ap (λ (u : Tui disk). u.host)
            (ap (λ (r : Bytes × Bytes). exec_command na disk random delivers r.0 r.1 now clock s)
                (read_verb false (to_hex it.pk))
              ∙ decide-command false it.pk now clock s h full)
          ∙ do_decide-host false it.pk s in
        (
          e,
          λ ok.
              ap (λ (g : Host disk). Store.trust_of it.pk g.engine.contacts) e
              ∙ reject-trust na disk random delivers it.pk s.host ok,
        ),
  )
