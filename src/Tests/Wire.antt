-- ===== src/Tests/Wire.antt =====
-- The wire format on concrete packets and datagrams.
use openmesh_messenger.Base.{
  ◌≡◌, ◌≢◌, refl, sym, ap, ◌∙◌, [], ◌∷◌, ◌++◌, arith, Bytes, ◌↔◌, if◌then◌else◌, is_empty, take,
}
use openmesh_messenger.Endian.{get_u16, get_u64}
use openmesh_messenger.Protocol.Packet.{Packet, IsWire, blank}
use openmesh_messenger.Protocol.PacketType
use openmesh_messenger.Protocol.Wire.{
  ParseError, put_field, ok, too_short, truncated_field, trailing_bytes, bad_magic, parse,
  serialize, associated_data, header_and_routing,
}
use openmesh_messenger.Protocol.Wire.RoundTrip.{parse-serialize-append, associated_data_injective}
use openmesh_messenger.Protocol.Wire.Canonical.{parse-ok_iff}

abbrev beat : Packet
beat = record blank { type = PacketType.heartbeat; counter = 1 }

abbrev note : Packet
note = record blank {
  type = PacketType.message;
  flags = 1;
  counter = 258;
  source = 1 ∷ 2 ∷ [];
  destination = 3 ∷ [];
  payload = 9 ∷ 8 ∷ 7 ∷ [];
}

beat-IsWire : IsWire beat
beat-IsWire = omega arith

note-IsWire : IsWire note
note-IsWire = omega arith

-- The worked example of docs/protocol/wire-format.md, section 10.
abbrev beat_bytes : Bytes
beat_bytes = 0x4f ∷ 0x4d ∷ 1 ∷ 9 ∷ 0 ∷ 0 ∷ 0 ∷ 0 ∷ 0 ∷ 0 ∷ 0 ∷ 0 ∷ 1 ∷ 0 ∷ 0 ∷ 0 ∷ 0 ∷ 0 ∷ 0 ∷ []

serialize-beat : serialize beat ≡ beat_bytes
unfolding serialize header_and_routing put_field
serialize-beat = refl

parse-beat : parse beat_bytes blank ≡ (ok, beat)
unfolding parse get_u16 get_u64
parse-beat = refl

parse_errors :
    (parse (0x4f ∷ []) blank ≡ (too_short, blank))
    × (parse (0 ∷ beat_bytes) blank ≡ (bad_magic, blank))
    × (parse (beat_bytes ++ 0 ∷ []) blank ≡ (trailing_bytes, blank))
    × (parse (take 18 beat_bytes) blank ≡ (truncated_field, blank))
unfolding parse get_u16
parse_errors = (refl, refl, refl, refl)

parse-serialize-append_example :
    parse (serialize note ++ 5 ∷ []) blank
    ≡ (if is_empty (5 ∷ []) then (ok, note) else (trailing_bytes, blank))
parse-serialize-append_example = parse-serialize-append note (5 ∷ []) blank note-IsWire

parse-ok_iff_example :
    ((p : Packet) × (parse beat_bytes blank ≡ (ok, p)))
    ↔ ((p : Packet) × IsWire p × (serialize p ≡ beat_bytes))
parse-ok_iff_example = parse-ok_iff beat_bytes blank (omega arith)

cut_note : parse (take 18 beat_bytes) note ≡ (truncated_field, note)
unfolding parse get_u16
cut_note = refl

refused : (parse (take 18 beat_bytes) note).0 ≢ ok
refused e = cc (sym e ∙ ap (λ (r : ParseError × Packet). r.0) cut_note)

abbrev other_note : Packet
other_note = record note { payload = 4 ∷ [] }

same_data : associated_data note ≡ associated_data other_note
unfolding associated_data header_and_routing
same_data = refl

associated_data_injective_example :
    record note { payload = [] } ≡ record other_note { payload = [] }
associated_data_injective_example =
    associated_data_injective note other_note note-IsWire (omega arith) same_data
