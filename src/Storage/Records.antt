-- ===== src/Storage/Records.antt =====
-- The records of libs/storage/include/openmesh/storage/contact.hpp and store.hpp, and their encoding
-- in libs/storage/src/store.cpp.
pub mod RoundTrip
use openmesh_messenger.Base.{
  ℕ, ◌%◌, ◌^◌, Bool, true, false, not, Option, none, some, List, [], ◌∷◌, ◌++◌, Bytes, length, ◌==◌,
  if◌then◌else◌,
}
use openmesh_messenger.Base.Int.{ℤ, to_u64, of_u64}
use openmesh_messenger.Endian.{put_u32, put_u64}
use openmesh_messenger.Storage.Reader.{
  Read, ret, ◌>>=◌, u8, u32, u64, bytes, repeat, done, put_u8, put_bytes, put_all,
}

-- The enumerators count from zero; `decode` casts any byte to the type.
abbrev pub TrustStatus : Type 0
TrustStatus = ℕ

abbrev pub pending : TrustStatus
pending = 0

abbrev pub accepted : TrustStatus
accepted = 1

abbrev pub rejected : TrustStatus
rejected = 2

abbrev pub blocked : TrustStatus
blocked = 3

pub record Contact : Type 0 where
  pub public_key : Bytes
  pub nickname : Bytes
  pub trust : TrustStatus
  pub last_seen : ℤ

pub record Message : Type 0 where
  pub peer : Bytes
  pub text : Bytes
  pub outgoing : Bool
  pub timestamp : ℤ

pub record Request : Type 0 where
  pub peer : Bytes
  pub greeting : Bytes
  pub timestamp : ℤ

-- The three vectors that `encode` writes and `decode` fills.
pub record Contents : Type 0 where
  pub contacts : List Contact
  pub messages : List Message
  pub requests : List Request

abbrev pub payload_version : ℕ
payload_version = 2

unfoldable pub put_contact : Contact → Bytes
unfolding put_bytes put_u8 put_u64 to_u64
put_contact c =
    put_bytes c.public_key
    ++ (put_bytes c.nickname ++ (put_u8 (c.trust % 256) ++ put_u64 (to_u64 c.last_seen)))

unfoldable pub read_contact : Read Contact
unfolding bytes u8 u64
read_contact = do
  public_key ← bytes
  nickname ← bytes
  trust ← u8
  last_seen ← u64
  ret (record {
    public_key = public_key;
    nickname = nickname;
    trust = trust;
    last_seen = of_u64 last_seen;
  })

-- A 32-bit count, and the elements.
unfoldable pub put_counted {ℓ} : {A : Type ℓ} → (A → Bytes) → List A → Bytes
unfolding put_all put_u32
put_counted put items = put_u32 (length items % 2 ^ 32) ++ put_all put items

unfoldable pub read_counted {ℓ} : {A : Type ℓ} → Read A → Read (List A)
unfolding u32 repeat
read_counted read = do count ← u32; repeat count read

unfoldable pub encode_contacts : List Contact → Bytes
encode_contacts contacts = put_counted put_contact contacts

unfoldable pub decode_contacts : Read (List Contact)
decode_contacts = read_counted read_contact

unfoldable pub put_message : Message → Bytes
unfolding put_bytes put_u8 put_u64 to_u64
put_message m =
    put_bytes m.peer
    ++ (put_bytes m.text ++ (put_u8 (if m.outgoing then 1 else 0) ++ put_u64 (to_u64 m.timestamp)))

unfoldable pub read_message : Read Message
unfolding bytes u8 u64
read_message = do
  peer ← bytes
  text ← bytes
  outgoing ← u8
  timestamp ← u64
  ret (record {
    peer = peer;
    text = text;
    outgoing = not (outgoing == 0);
    timestamp = of_u64 timestamp;
  })

unfoldable pub put_request : Request → Bytes
unfolding put_bytes put_u64 to_u64
put_request q = put_bytes q.peer ++ (put_bytes q.greeting ++ put_u64 (to_u64 q.timestamp))

unfoldable pub read_request : Read Request
unfolding bytes u64
read_request = do
  peer ← bytes
  greeting ← bytes
  timestamp ← u64
  ret (record { peer = peer; greeting = greeting; timestamp = of_u64 timestamp })

unfoldable pub encode : Contents → Bytes
unfolding put_u8
encode c =
    put_u8 payload_version
    ++ (encode_contacts c.contacts
        ++ (put_counted put_message c.messages ++ put_counted put_request c.requests))

-- The body of `decode` for version 2.
unfoldable pub read_contents : Read Contents
unfolding u8
read_contents = do
  version ← u8
  contacts ← decode_contacts
  messages ← read_counted read_message
  requests ← read_counted read_request
  ret (record { contacts = contacts; messages = messages; requests = requests })

-- Its body for a legacy blob, which holds contacts only.
unfoldable pub read_legacy : Read Contents
read_legacy = do
  contacts ← decode_contacts
  ret (record { contacts = contacts; messages = []; requests = [] })

-- `!blob.empty() && blob[0] == kPayloadVersion`.
unfoldable pub is_v2 : Bytes → Bool
is_v2 [] = false
is_v2 (b ∷ blob) = b == payload_version

-- `... && r.done()`.
unfoldable pub at_end : Bytes → Option (Contents × ℕ) → Option Contents
at_end blob none = none
at_end blob (some (c, off)) = if done blob off then some c else none

unfoldable pub decode : Bytes → Option Contents
unfolding is_v2 at_end
decode blob =
    if is_v2 blob then at_end blob (read_contents blob 0) else at_end blob (read_legacy blob 0)
