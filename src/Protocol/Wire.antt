-- ===== src/Protocol/Wire.antt =====
-- libs/protocol/src/packet.cpp: `serialize`, `associated_data` and `parse`.
pub mod Fields
pub mod RoundTrip
pub mod Canonical
pub mod Refusals
use openmesh_messenger.Base.{
  ◌>>=◌, ℕ, ◌+◌, ◌%◌, ◌^◌, Bool, true, false, not, Option, none, some, ◌∷◌, ◌++◌, Bytes, length,
  take, drop, get_or, ltb, ◌==◌, if◌then◌else◌,
}
use openmesh_messenger.Endian.{put_u16, put_u64, get_u16, get_u64}
use openmesh_messenger.Protocol.Packet.{Packet, magic, protocol_version, header_size}

-- `ok` is the C++ enumerator `Ok`.
pub data ParseError : Type 0 where
  ok too_short bad_magic unsupported_version truncated_field trailing_bytes : ParseError

-- A u16 length prefix and the bytes; the cast keeps the low sixteen bits of the size.
unfoldable pub put_field : Bytes → Bytes
unfolding put_u16
put_field field = put_u16 (length field % 2 ^ 16) ++ field

-- The field at the offset, and the offset behind it; `none` is the C++ `false`.
unfoldable pub read_field : Bytes → ℕ → Option (Bytes × ℕ)
read_field xs offset =
    if ltb (length xs) (offset + 2)
    then none
    else (let len = get_u16 xs offset in
        if ltb (length xs) (offset + 2 + len)
        then none
        else some (take len (drop (offset + 2) xs), offset + 2 + len))

unfoldable pub header_and_routing : Packet → Bytes
unfolding put_u16 put_u64
header_and_routing p =
    put_u16 magic
    ++ (p.version
        ∷ p.type
        ∷ p.flags
        ∷ (put_u64 p.counter ++ (put_field p.source ++ put_field p.destination)))

unfoldable pub serialize : Packet → Bytes
serialize p = header_and_routing p ++ put_field p.payload

unfoldable pub associated_data : Packet → Bytes
associated_data p = header_and_routing p

-- The three fields, and the offset behind them.
pub record Routed : Type 0 where
  pub source : Bytes
  pub destination : Bytes
  pub payload : Bytes
  pub offset : ℕ

read_fields : Bytes → ℕ → Option Routed
read_fields xs offset = do
  (source, o1) ← read_field xs offset
  (destination, o2) ← read_field xs o1
  (payload, o3) ← read_field xs o2
  some (record { source = source; destination = destination; payload = payload; offset = o3 })

-- The end of `parse`: the fields are there, and nothing may follow them.
accept : Bytes → Packet → Packet → Option Routed → ParseError × Packet
accept xs header out none = (truncated_field, out)
accept xs header out (some r) =
    if not (r.offset == length xs)
    then (trailing_bytes, out)
    else (ok, record header { source = r.source; destination = r.destination; payload = r.payload })

-- The version, type, flags and counter of the fixed header, with the other fields of `out`.
read_header : Bytes → Packet → Packet
read_header xs out = record out {
  version = get_or xs 2 0;
  type = get_or xs 3 0;
  flags = get_or xs 4 0;
  counter = get_u64 xs 5;
}

-- The result and the packet that the caller's `out` holds afterwards.
unfoldable pub parse : Bytes → Packet → ParseError × Packet
unfolding read_header read_fields accept read_field
parse xs out =
    if ltb (length xs) header_size
    then (too_short, out)
    else if not (get_u16 xs 0 == magic)
    then (bad_magic, out)
    else if not ((read_header xs out).version == protocol_version)
    then (unsupported_version, out)
    else accept xs (read_header xs out) out (read_fields xs header_size)

abbrev pub succeeded : ParseError → Bool
succeeded ok = true
succeeded _ = false

unfoldable pub deserialize : Bytes → Packet → Bool × Packet
unfolding parse
deserialize xs out = let (e, p) = parse xs out in (succeeded e, p)
