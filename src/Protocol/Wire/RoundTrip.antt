-- ===== src/Protocol/Wire/RoundTrip.antt =====
-- What `parse` makes of a serialized packet, with or without bytes behind it.
use openmesh_messenger.Base.{
  ℕ, ◌+◌, ◌≡◌, refl, sym, ap, ◌∙◌, some, [], ◌∷◌, ◌++◌, append_assoc, append-nil, arith, Bytes,
  length, drop, length-append, is_empty, ◌==◌, if◌then◌else◌,
}
use openmesh_messenger.Endian.{put_u16, put_u64, get_u16, get_u64, get_u64-put_u64, get_u64-drop}
use openmesh_messenger.Protocol.Packet.{Packet, IsWire, magic, header_size}
use openmesh_messenger.Protocol.Wire.Fields.{read_field-put_field, drop-put_field, length-put_field}
use openmesh_messenger.Protocol.Wire.{
  ParseError, ok, trailing_bytes, Routed, put_field, read_fields, accept, read_header,
  header_and_routing, serialize, associated_data, parse,
}

-- The three fields in order, as `header_and_routing` and `serialize` append them.
abbrev fields : Packet → Bytes
fields p = put_field p.source ++ (put_field p.destination ++ put_field p.payload)

length-fields :
    (p : Packet) → length (fields p) ≡ 6 + length p.source + length p.destination + length p.payload
length-fields p = omega (
  arith,
  length-append (put_field p.source) (put_field p.destination ++ put_field p.payload),
  length-append (put_field p.destination) (put_field p.payload),
  length-put_field p.source,
  length-put_field p.destination,
  length-put_field p.payload,
)

abbrev routed : Packet → ℕ → Routed
routed p o = record {
  source = p.source;
  destination = p.destination;
  payload = p.payload;
  offset = o + 2 + length p.source + 2 + length p.destination + 2 + length p.payload;
}

module _ (xs rest : Bytes) (p : Packet) (w : IsWire p) (o : ℕ)
    (at : drop o xs ≡ fields p ++ rest) where
  read_fields-fields : read_fields xs o ≡ some (routed p o)
  unfolding read_fields
  read_fields-fields =
      let o1 = o + 2 + length p.source in
      let o2 = o1 + 2 + length p.destination in
      let at0 : drop o xs
          ≡ put_field p.source ++ (put_field p.destination ++ (put_field p.payload ++ rest)) =
        at ∙ simp append_assoc in
      let at1 = drop-put_field xs p.source _ o w.source_fits at0 in
      let at2 = drop-put_field xs p.destination _ o1 w.destination_fits at1 in
      rw (
        read_field-put_field xs p.source _ o w.source_fits at0,
        read_field-put_field xs p.destination _ o1 w.destination_fits at1,
        read_field-put_field xs p.payload rest o2 w.payload_fits at2,
      )

-- The whole datagram, its appends nested to the right.
wire : Packet → Bytes → Bytes
wire p rest =
    put_u16 magic ++ (p.version ∷ p.type ∷ p.flags ∷ (put_u64 p.counter ++ (fields p ++ rest)))

serialize-eq-wire : (p : Packet) (rest : Bytes) → serialize p ++ rest ≡ wire p rest
unfolding serialize header_and_routing wire
serialize-eq-wire p rest = simp append_assoc

is_empty-length : (xs : Bytes) → is_empty xs ≡ (length xs == 0)
unfolding is_empty
is_empty-length [] = refl
is_empty-length (x ∷ xs) = ground arith

length-wire :
    (p : Packet) (rest : Bytes)
    → length (wire p rest)
      ≡ 19 + length p.source + length p.destination + length p.payload + length rest
unfolding wire put_u16 put_u64
length-wire p rest = omega (arith, length-append (fields p) rest, length-fields p)

module _ (p : Packet) (rest : Bytes) (out : Packet) (w : IsWire p) where
  wire-counter : get_u64 (wire p rest) 5 ≡ p.counter
  unfolding wire put_u16
  wire-counter =
      get_u64-drop (wire p rest) 5 ∙ get_u64-put_u64 p.counter (fields p ++ rest) w.counter_u64

  wire-magic : get_u16 (wire p rest) 0 ≡ magic
  unfolding wire put_u16 get_u16
  wire-magic = refl

  wire-fields : drop header_size (wire p rest) ≡ fields p ++ rest
  unfolding wire put_u16 put_u64
  wire-fields = refl

  wire-header :
      read_header (wire p rest) out
      ≡ record p { source = out.source; destination = out.destination; payload = out.payload }
  unfolding wire put_u16 read_header
  wire-header =
      ap
        (λ c. record p {
          counter = c;
          source = out.source;
          destination = out.destination;
          payload = out.payload;
        })
        wire-counter

  accept-wire :
      accept (wire p rest) (read_header (wire p rest) out) out (some (routed p header_size))
      ≡ (if is_empty rest then (ok, p) else (trailing_bytes, out))
  unfolding accept
  accept-wire = rw wire-header (ground (arith, length-wire p rest, is_empty-length rest))

  parse-wire : parse (wire p rest) out ≡ (if is_empty rest then (ok, p) else (trailing_bytes, out))
  unfolding parse
  parse-wire = ground (
    arith,
    length-wire p rest,
    wire-magic,
    ap (λ (h : Packet). h.version) wire-header,
    w.version_ok,
    read_fields-fields (wire p rest) rest p w header_size wire-fields,
    accept-wire,
  )

-- The serialization of a packet that the wire format can carry, with the bytes `rest` behind it,
-- parses to the packet when `rest` is empty, and otherwise is refused for its trailing bytes with
-- the caller's packet left as it was.
pub parse-serialize-append :
    (p : Packet) (rest : Bytes) (out : Packet)
    → IsWire p
    → parse (serialize p ++ rest) out ≡ (if is_empty rest then (ok, p) else (trailing_bytes, out))
parse-serialize-append p rest out w = rw (serialize-eq-wire p rest) (parse-wire p rest out w)

-- Parsing what was serialized gives the packet back.
pub parse-serialize : (p out : Packet) → IsWire p → parse (serialize p) out ≡ (ok, p)
unfolding is_empty
parse-serialize p out w =
    ap (λ (xs : Bytes). parse xs out) (sym (append-nil (serialize p)))
    ∙ parse-serialize-append p [] out w

pub length-serialize :
    (p : Packet)
    → length (serialize p) ≡ 19 + length p.source + length p.destination + length p.payload
length-serialize p =
    omega
      (arith, ap length (sym (append-nil (serialize p)) ∙ serialize-eq-wire p []), length-wire p [])

-- Two packets that the wire format can carry and that serialize alike are equal.
pub serialize_injective : (p q : Packet) → IsWire p → IsWire q → serialize p ≡ serialize q → p ≡ q
serialize_injective p q v w e =
    ap (λ (r : ParseError × Packet). r.1)
      (sym (parse-serialize p p v) ∙ ap (λ (xs : Bytes). parse xs p) e ∙ parse-serialize q p w)

with_payload : Packet → Bytes → Packet
with_payload p b = record p { payload = b }

with_payload-IsWire : (p : Packet) → IsWire p → IsWire (with_payload p [])
unfolding with_payload
with_payload-IsWire p w = ground arith

-- Two packets that the wire format can carry and that have the same associated data agree in every
-- field but the payload.
pub associated_data_injective :
    (p q : Packet)
    → IsWire p
    → IsWire q
    → associated_data p ≡ associated_data q
    → record p { payload = [] } ≡ record q { payload = [] }
unfolding with_payload
associated_data_injective p q v w e =
    serialize_injective (with_payload p []) (with_payload q []) (with_payload-IsWire p v)
      (with_payload-IsWire q w)
      (unfold serialize associated_data header_and_routing in
        ap (λ (a : Bytes). a ++ put_field []) e)

-- The associated data of a packet does not depend on its payload, and is the serialized packet
-- without its last field.
pub serialize-associated_data :
    (p : Packet) (b : Bytes)
    → serialize (record p { payload = b }) ≡ associated_data p ++ put_field b
unfolding serialize associated_data header_and_routing
serialize-associated_data p b = refl
