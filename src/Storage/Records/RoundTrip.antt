-- ===== src/Storage/Records/RoundTrip.antt =====
-- What the store encodes it decodes.
use openmesh_messenger.Base.{
  ℕ, ◌+◌, ◌%◌, ◌^◌, ◌<◌, ◌≡◌, refl, sym, ap, ◌∙◌, Bool, true, false, not, some, List, [],
  append-nil, arith, Bytes, All, length, ◌==◌, if◌then◌else◌,
}
use openmesh_messenger.Base.Int.{ℤ, IsInt64, to_u64, of_u64, of_u64-to_u64, to_u64-lt}
use openmesh_messenger.Endian.{put_u32, put_u64}
use openmesh_messenger.Storage.Reader.{
  Read, ret, ◌>>=◌, u8, u32, u64, bytes, done, put_u8, put_bytes, put_all,
}
use openmesh_messenger.Storage.Reader.RoundTrip.{
  Decodes, Decodes-bind, Decodes-map, u8-Decodes, u32-Decodes, u64-Decodes, bytes-Decodes,
  repeat-Decodes,
}
use openmesh_messenger.Storage.Records.{
  Contact, Message, Request, Contents, payload_version, put_contact, read_contact, put_counted,
  read_counted, encode_contacts, decode_contacts, put_message, read_message, put_request,
  read_request, encode, read_contents, read_legacy, is_v2, at_end, decode,
}

-- What the encoding can carry: each byte string fits its 16-bit prefix, each time is an
-- `std::int64_t`.
abbrev pub IsContact : Contact → Type 0
IsContact c =
    (length c.public_key < 2 ^ 16)
    × (length c.nickname < 2 ^ 16)
    × (c.trust < 256)
    × IsInt64 c.last_seen

abbrev pub IsMessage : Message → Type 0
IsMessage m = (length m.peer < 2 ^ 16) × (length m.text < 2 ^ 16) × IsInt64 m.timestamp

abbrev pub IsRequest : Request → Type 0
IsRequest q = (length q.peer < 2 ^ 16) × (length q.greeting < 2 ^ 16) × IsInt64 q.timestamp

-- An `std::int64_t` through a 64-bit word.
time-Decodes :
    {A : Type 0} (f : ℤ → A) (z : ℤ)
    → IsInt64 z
    → Decodes (u64 >>= (λ t. ret (f (of_u64 t)))) (f z) (put_u64 (to_u64 z))
time-Decodes f z h xs off rest in_buffer at =
    Decodes-map u64 (λ t. f (of_u64 t)) (to_u64 z) (put_u64 (to_u64 z))
      (u64-Decodes (to_u64 z) (to_u64-lt z)) xs off rest in_buffer at
    ∙ ap (λ y. some (f y, off + length (put_u64 (to_u64 z)))) (of_u64-to_u64 z h)

byte-Decodes : (v : ℕ) → v < 256 → Decodes u8 v (put_u8 (v % 256))
unfolding u8
byte-Decodes v h = let same : v % 256 ≡ v = omega arith in rw same (u8-Decodes v)

contact-Decodes : (c : Contact) → IsContact c → Decodes read_contact c (put_contact c)
unfolding read_contact put_contact
contact-Decodes c (k, n, t, z) =
    let time = put_u64 (to_u64 c.last_seen) in
    Decodes-bind bytes _ c.public_key c (put_bytes c.public_key) _ (bytes-Decodes c.public_key k) (
      Decodes-bind bytes _ c.nickname c (put_bytes c.nickname) _ (bytes-Decodes c.nickname n) (
        Decodes-bind u8 _ c.trust c (put_u8 (c.trust % 256)) time (byte-Decodes c.trust t)
          (time-Decodes (λ y. record c { last_seen = y }) c.last_seen z)))

flag-Decodes : (b : Bool) → not ((if b then 1 else 0) == 0) ≡ b
flag-Decodes true = refl
flag-Decodes false = refl

message-Decodes : (m : Message) → IsMessage m → Decodes read_message m (put_message m)
unfolding read_message put_message
message-Decodes m (k, n, z) =
    let time = put_u64 (to_u64 m.timestamp) in
    let flag = if m.outgoing then 1 else 0 in
    let last : Decodes
        (u64 >>= (λ t. ret (record m { outgoing = not (flag == 0); timestamp = of_u64 t }))) m
        time =
      rw (flag-Decodes m.outgoing) (time-Decodes (λ y. record m { timestamp = y }) m.timestamp z) in
    Decodes-bind bytes _ m.peer m (put_bytes m.peer) _ (bytes-Decodes m.peer k) (
      Decodes-bind bytes _ m.text m (put_bytes m.text) _ (bytes-Decodes m.text n)
        (Decodes-bind u8 _ flag m (put_u8 flag) time (u8-Decodes flag) last))

request-Decodes : (q : Request) → IsRequest q → Decodes read_request q (put_request q)
unfolding read_request put_request
request-Decodes q (k, n, z) =
    let time = put_u64 (to_u64 q.timestamp) in
    Decodes-bind bytes _ q.peer q (put_bytes q.peer) _ (bytes-Decodes q.peer k) (
      Decodes-bind bytes _ q.greeting q (put_bytes q.greeting) time (bytes-Decodes q.greeting n)
        (time-Decodes (λ y. record q { timestamp = y }) q.timestamp z))

counted-Decodes {κ} :
    {A : Type 0} (P : A → Type κ) (read : Read A) (put : A → Bytes)
    → ((a : A) → P a → Decodes read a (put a))
    → (items : List A) → length items < 2 ^ 32
    → All P items
    → Decodes (read_counted read) items (put_counted put items)
unfolding read_counted put_counted
counted-Decodes P read put each items n h =
    let size : length items % 2 ^ 32 ≡ length items = omega arith in
    rw size (
      Decodes-bind u32 _ (length items) items (put_u32 (length items)) (put_all put items)
        (u32-Decodes (length items) n) (repeat-Decodes P read put each items h))

-- What the file can carry: also, each vector has a 32-bit count.
pub record IsContents (c : Contents) : Type 0 where
  pub contacts_fit : length c.contacts < 2 ^ 32
  pub contacts : All IsContact c.contacts
  pub messages_fit : length c.messages < 2 ^ 32
  pub messages : All IsMessage c.messages
  pub requests_fit : length c.requests < 2 ^ 32
  pub requests : All IsRequest c.requests

contents-Decodes : (c : Contents) → IsContents c → Decodes read_contents c (encode c)
unfolding read_contents encode decode_contacts encode_contacts
contents-Decodes c h =
    let cs = put_counted put_contact c.contacts in
    let ms = put_counted put_message c.messages in
    let qs = put_counted put_request c.requests in
    Decodes-bind u8 _ payload_version c (put_u8 payload_version) _ (u8-Decodes payload_version) (
      Decodes-bind (read_counted read_contact) _ c.contacts c cs _
        (counted-Decodes IsContact read_contact put_contact contact-Decodes c.contacts
          h.contacts_fit h.contacts)
        (Decodes-bind (read_counted read_message) _ c.messages c ms qs
          (counted-Decodes IsMessage read_message put_message message-Decodes c.messages
            h.messages_fit h.messages)
          (Decodes-map (read_counted read_request) (λ z. record c { requests = z }) c.requests qs
            (counted-Decodes IsRequest read_request put_request request-Decodes c.requests
              h.requests_fit h.requests))))

at_end-whole :
    (read : Read Contents) (c : Contents) (enc : Bytes)
    → Decodes read c enc
    → at_end enc (read enc 0) ≡ some c
unfolding at_end done
at_end-whole read c enc d =
    let got : read enc 0 ≡ some (c, length enc) =
      d enc 0 [] (omega arith) (sym (append-nil enc)) ∙ ap (λ k. some (c, k)) (omega arith) in
    rw got (ground arith)

-- What `encode` makes of contacts, messages and requests that the format can carry, each byte
-- string within its 16-bit prefix and each vector within its 32-bit count, `decode` reads back.
pub decode-encode : (c : Contents) → IsContents c → decode (encode c) ≡ some c
unfolding decode
decode-encode c h =
    let v2 : is_v2 (encode c) ≡ true = unfold is_v2 encode put_u8 in refl in
    rw v2 (at_end-whole read_contents c (encode c) (contents-Decodes c h))

legacy_tag : (cs : List Contact) → length cs < 2 ^ 25 → is_v2 (encode_contacts cs) ≡ false
unfolding is_v2 encode_contacts put_counted put_u32
legacy_tag cs h = ground (arith, h)

-- A legacy blob, the bare encoding of fewer than 2 ^ 25 contacts that the format can carry, still
-- decodes: to the contacts, with no messages and no requests.
pub decode-encode_contacts :
    (cs : List Contact)
    → length cs < 2 ^ 25
    → All IsContact cs
    → decode (encode_contacts cs) ≡ some (record { contacts = cs; messages = []; requests = [] })
unfolding decode
decode-encode_contacts cs n h =
    let contents : List Contact → Contents =
      λ z. record { contacts = z; messages = []; requests = [] } in
    rw (legacy_tag cs n) (
      at_end-whole read_legacy (contents cs) (encode_contacts cs) (
        unfold read_legacy decode_contacts encode_contacts in
        Decodes-map (read_counted read_contact) contents cs (put_counted put_contact cs)
          (counted-Decodes IsContact read_contact put_contact contact-Decodes cs (omega arith) h)))
