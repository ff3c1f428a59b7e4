-- ===== src/Cli/ChatApp/Names.antt =====
-- Who a name of the command line stands for.
use openmesh_messenger.Base.{
  ℕ, ◌≡◌, ◌≢◌, refl, sym, ap, ◌∙◌, Bool, false, Option, none, some, ◌∷◌, ◌++◌, arith, Bytes,
  IsBytes, codes, length, take, is_empty, bytes_eq, bytes_eq_refl, bytes_eq_iff, Bool-cases, inl,
  inr, true,
}
use openmesh_messenger.Base.Assoc.{Assoc, find, insert_or_assign, find-insert}
use openmesh_messenger.Base.Int.{ℤ}
use openmesh_messenger.Cli.ChatApp.{
  ChatApp, prints, prints_line, name_of, name_or_prefix, resolve, resolve_in, auto_alias,
  alias_or_new,
}
use openmesh_messenger.Cli.ChatApp.Commands.{
  cmd_msg, message_to, deliver, add_key, reach, found, request, probe_back, signer, lend, give_back,
}
use openmesh_messenger.Cli.ChatApp.Handle.{handle, handle_command}
use openmesh_messenger.Cli.Streams.{
  IsWord, IsLine, read_word, get_line, without_space, read_word-append, read_word-space,
  get_line-all,
}
use openmesh_messenger.Core.Hex.{to_hex, to_hex_injective}
use openmesh_messenger.Crypto.Sodium.{Sodium}
use openmesh_messenger.Messaging.Engine.Commands.{send}
use openmesh_messenger.Messaging.Engine.History.{messages_of, extended, send-messages}
use openmesh_messenger.Messaging.Engine.Paths.{connect}
use openmesh_messenger.Net.Endpoint.{Endpoint, to_string}
use openmesh_messenger.Net.SignalingClient.{Client, discover}
use openmesh_messenger.Cli.Tui.Backend.{default_attempts}
use openmesh_messenger.Net.Datagram.{Delivery}
use openmesh_messenger.Net.Endpoint.Decimal.{is_space}
use openmesh_messenger.Storage.Disk.{Disk}

resolve-known :
    (disk : Disk) (a : ChatApp disk) (name key : Bytes)
    → find name a.name_to_pk ≡ some key
    → resolve disk name a ≡ some key
unfolding resolve resolve_in
resolve-known disk a name key known = rw known refl

name_of-known :
    (disk : Disk) (a : ChatApp disk) (peer name : Bytes)
    → find (to_hex peer) a.pk_to_name ≡ some name
    → name_of disk peer a ≡ name
unfolding name_of name_or_prefix
name_of-known disk a peer name known = rw known refl

find-inserted {ℓ} :
    {V : Type ℓ} (k : Bytes) (v : V) (m : Assoc V) → find k (insert_or_assign k v m) ≡ some v
find-inserted k v m = find-insert k k v m ∙ rw (bytes_eq_refl k) refl

-- A peer that has no name yet gets one of its own, by which it is found and shown.
pub alias_resolves :
    (disk : Disk) (a : ChatApp disk) (peer : Bytes)
    → find (to_hex peer) a.pk_to_name ≡ none
    → let (name, a') = auto_alias disk peer a in
      (resolve disk name a' ≡ some peer) × (name_of disk peer a' ≡ name)
unfolding auto_alias alias_or_new
alias_resolves disk a peer new =
    let key = to_hex peer in
    let name = take 8 key in
    let a' : ChatApp disk = record a {
      name_to_pk = insert_or_assign name peer a.name_to_pk;
      pk_to_name = insert_or_assign key name a.pk_to_name;
    } in
    rw new (
      resolve-known disk a' name peer (find-inserted name peer a.name_to_pk),
      name_of-known disk a' peer name (find-inserted key name a.pk_to_name),
    )

read_msg : (s : Bytes) → read_word (codes "/msg" ++ (b' ' ∷ s)) ≡ (codes "/msg", b' ' ∷ s)
unfolding is_space
read_msg s = read_word-append b'/' (codes "msg") s (refl, (refl, (refl, (refl, tt))))

module _ (na : Sodium) (disk : Disk) (random : ℕ → Bytes) (delivers : Delivery) where
  msg-command :
      (a : ChatApp disk) (c : ℕ) (name text peer : Bytes) (now clock : ℤ)
      → IsWord (c ∷ name)
      → IsLine text
      → resolve disk (c ∷ name) a ≡ some peer
      → handle_command na disk random delivers
          (codes "/msg")
          (b' ' ∷ (c ∷ name ++ (b' ' ∷ text)))
          now
          clock
          a
        ≡ deliver na disk random delivers peer text now (record a { current = peer })
  unfolding handle_command bytes_eq cmd_msg message_to get_line without_space
  msg-command a c name text peer now clock w l known =
      let word = read_word-space (c ∷ name ++ (b' ' ∷ text)) ∙ read_word-append c name text w in
      rw (word, known, get_line-all text l) refl

  deliver-host :
      (a : ChatApp disk) (peer text : Bytes) (now : ℤ)
      → let a' = deliver na disk random delivers peer text now a in
        let r = send na disk random delivers peer text now a.host in
        (a'.current ≡ a.current) × (a'.host ≡ r.1) × (r.0 ≡ true → a'.printed ≡ a.printed)
  unfolding deliver
  deliver-host a peer text now =
      elim (Bool-cases (send na disk random delivers peer text now a.host).0) [
        | inl delivered ↦ rw delivered (refl, refl, λ h. refl)
        | inr lost ↦ rw lost (refl, refl, λ h. absurd (cc h))
      ]

  -- The line `/msg <name> <text>`, where the name is a word that stands for a peer and the text has
  -- no line feed: the peer becomes the current one, and the engine is left as its `send` of the
  -- whole text to that peer does. The text joins the history, as sent to the peer, if `send`
  -- succeeds, and then nothing but the prompt is printed. If it fails, the history stays.
  pub msg_delivers_to_name :
      (a : ChatApp disk) (c : ℕ) (name text peer : Bytes) (now clock : ℤ)
      → IsWord (c ∷ name)
      → IsLine text
      → resolve disk (c ∷ name) a ≡ some peer
      → let a' =
          handle na disk random delivers
            (codes "/msg" ++ (b' ' ∷ (c ∷ name ++ (b' ' ∷ text))))
            now
            clock
            a in
        let r = send na disk random delivers peer text now a.host in
        (a'.current ≡ peer)
        × (a'.host ≡ r.1)
        × (messages_of a'.host ≡ extended peer text now r.0 (messages_of a.host))
        × (r.0 ≡ true → a'.printed ≡ a.printed ++ codes "> ")
  unfolding handle
  msg_delivers_to_name a c name text peer now clock w l known =
      let a1 : ChatApp disk = record a { current = peer } in
      let (d, h, quiet) = deliver-host a1 peer text now in
      let e =
        ap
          (λ (r : Bytes × Bytes).
            prints disk (codes "> ") (handle_command na disk random delivers r.0 r.1 now clock a))
          (read_msg (c ∷ name ++ (b' ' ∷ text)))
        ∙ ap (prints disk (codes "> ")) (msg-command a c name text peer now clock w l known) in
      let host = ap (λ (u : ChatApp disk). u.host) e ∙ h in
      (
        ap (λ (u : ChatApp disk). u.current) e ∙ d,
        host,
        ap messages_of host ∙ send-messages na disk random delivers peer text now a.host,
        λ ok.
            ap (λ (u : ChatApp disk). u.printed) e ∙ ap (λ (p : Bytes). p ++ codes "> ") (quiet ok),
      )

  -- The names after a step are those of before.
  abbrev KeepsNames : ChatApp disk → ChatApp disk → Type 0
  KeepsNames a a' = (a'.name_to_pk ≡ a.name_to_pk) × (a'.pk_to_name ≡ a.pk_to_name)

  probe_back-KeepsNames :
      (peer : Bytes) (c : Client) (o : Option Endpoint) (a : ChatApp disk)
      → KeepsNames a (probe_back na disk random delivers peer c o a)
  unfolding probe_back
  probe_back-KeepsNames peer c none a = (refl, refl)
  probe_back-KeepsNames peer c (some mine) a = (refl, refl)

  found-KeepsNames :
      (name peer : Bytes) (o : Option Endpoint) (responded : Bool) (c : Client) (clock : ℤ)
      (a : ChatApp disk)
      → KeepsNames a (found na disk random delivers name peer o responded c clock a)
  unfolding found request
  found-KeepsNames name peer none responded c clock a = (refl, refl)
  found-KeepsNames name peer (some e) responded c clock a =
      probe_back-KeepsNames peer c c.public_endpoint
        (record (prints_line disk (codes "Found at " ++ to_string e ++ codes ".") a) {
          host = (connect na disk random delivers peer e clock a.host).1;
        })

  reach-KeepsNames :
      (name peer : Bytes) (o : Option Client) (relay : Option Endpoint) (clock : ℤ)
      (a : ChatApp disk)
      → KeepsNames a (reach na disk random delivers name peer o relay clock a)
  unfolding reach request
  reach-KeepsNames name peer (some c) relay clock a =
      let a1 = prints_line disk (codes "Looking up " ++ name ++ codes "...") a in
      let r =
        discover delivers (signer na disk random delivers a1) peer default_attempts
          (lend na disk random delivers c a1) in
      found-KeepsNames name peer r.0.endpoint r.0.responded r.1 clock
        (give_back na disk random delivers r.1 a1)
  reach-KeepsNames name peer none (some relay) clock a = (refl, refl)
  reach-KeepsNames name peer none none clock a = (refl, refl)

  add-names :
      (a : ChatApp disk) (name peer : Bytes) (clock : ℤ)
      → is_empty name ≡ false
      → length peer ≡ 32
      → let a' = add_key na disk random delivers name (some peer) clock a in
        (a'.name_to_pk ≡ insert_or_assign name peer a.name_to_pk)
        × (a'.pk_to_name ≡ insert_or_assign (to_hex peer) name a.pk_to_name)
  unfolding add_key
  add-names a name peer clock full size =
      rw (full, size)
        (reach-KeepsNames name peer a.sig a.relay clock (record a {
          name_to_pk = insert_or_assign name peer a.name_to_pk;
          pk_to_name = insert_or_assign (to_hex peer) name a.pk_to_name;
          current = peer;
        }))

  -- After `/add` of a peer under a name and then of another one under the same, whatever the
  -- servers and the network do, the first is still shown under the name, but the name stands for
  -- the second. The name is not empty, and the two keys are different byte strings of 32 bytes.
  pub reused_name_misdirects :
      (a : ChatApp disk) (name p q : Bytes) (clock clock' : ℤ)
      → is_empty name ≡ false
      → length p ≡ 32
      → length q ≡ 32
      → IsBytes p
      → IsBytes q
      → p ≢ q
      → let a' =
          add_key na disk random delivers name
            (some q)
            clock'
            (add_key na disk random delivers name (some p) clock a) in
        (name_of disk p a' ≡ name) × (resolve disk name a' ≡ some q)
  reused_name_misdirects a name p q clock clock' full size_p size_q hp hq differ =
      let a1 = add_key na disk random delivers name (some p) clock a in
      let a2 = add_key na disk random delivers name (some q) clock' a1 in
      let (n1, s1) = add-names a name p clock full size_p in
      let (n2, s2) = add-names a1 name q clock' full size_q in
      let apart : bytes_eq (to_hex q) (to_hex p) ≡ false = ground (
        arith,
        bytes_eq_iff (to_hex q) (to_hex p),
        to_hex_injective q p hq hp,
        λ (e : q ≡ p). differ (sym e),
      ) in
      (
        name_of-known disk a2 p name (
            ap (find (to_hex p)) s2
            ∙ find-insert (to_hex q) (to_hex p) name a1.pk_to_name
            ∙ rw apart (ap (find (to_hex p)) s1 ∙ find-inserted (to_hex p) name a.pk_to_name)),
        resolve-known disk a2 name q (ap (find name) n2 ∙ find-inserted name q a1.name_to_pk),
      )
