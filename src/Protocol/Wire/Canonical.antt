-- ===== src/Protocol/Wire/Canonical.antt =====
-- The converse of the round trip: `parse` accepts exactly the serialized packets.
use openmesh_messenger.Base.{
  ℕ, ◌≤◌, ◌≡◌, refl, sym, ap, subst, ◌∙◌, some, inl, inr, [], ◌∷◌, ◌++◌, ◌↔◌, append_assoc,
  append-nil, arith, Bytes, IsBytes, length, drop, get_or, Option-cases,
}
use openmesh_messenger.Endian.{
  put_u16, put_u64, get_u16, get_u64, get_u64-drop, put_u16-get_u16, put_u64-get_u64, get_u64-lt,
  get_or-lt,
}
use openmesh_messenger.Protocol.Packet.{Packet, IsWire, magic, protocol_version, header_size}
use openmesh_messenger.Protocol.Wire.Fields.{Reads, read_field-Reads}
use openmesh_messenger.Protocol.Wire.RoundTrip.{parse-serialize}
use openmesh_messenger.Protocol.Wire.{
  ok, Routed, put_field, read_field, read_fields, accept, read_header, header_and_routing,
  serialize, parse,
}

-- What the three reads leave behind.
record ReadsAll (xs : Bytes) (o : ℕ) (r : Routed) : Type 0 where
  o1 : ℕ
  o2 : ℕ
  first : Reads xs o r.source o1
  second : Reads xs o1 r.destination o2
  third : Reads xs o2 r.payload r.offset

read_fields-ReadsAll :
    (xs : Bytes) (o : ℕ) (r : Routed) → IsBytes xs → read_fields xs o ≡ some r → ReadsAll xs o r
unfolding read_fields
read_fields-ReadsAll xs o r h e = elim (Option-cases (read_field xs o)) [
  | inl gone ↦ absurd (ground (arith, gone))
  | inr ((f, o1), e1) ↦ elim (Option-cases (read_field xs o1)) [
    | inl gone ↦ absurd (ground (arith, gone))
    | inr ((g, o2), e2) ↦ elim (Option-cases (read_field xs o2)) [
      | inl gone ↦ absurd (ground (arith, gone))
      | inr ((k, o3), e3) ↦
          let same : record { source = f; destination = g; payload = k; offset = o3 } ≡ r =
            ground arith in
          subst (ReadsAll xs o) same (record {
            o1 = o1;
            o2 = o2;
            first = read_field-Reads xs o f o1 h e1;
            second = read_field-Reads xs o1 g o2 h e2;
            third = read_field-Reads xs o2 k o3 h e3;
          })
    ]
  ]
]

drop-length : (xs : Bytes) → drop (length xs) xs ≡ []
drop-length [] = refl
drop-length (x ∷ xs) = drop-length xs

-- The thirteen bytes of the header, written again from what was read of them.
header_again :
    (xs : Bytes)
    → IsBytes xs
    → header_size ≤ length xs
    → get_u16 xs 0 ≡ magic
    → xs
      ≡ put_u16 magic
        ++ (get_or xs 2 0
            ∷ get_or xs 3 0
            ∷ get_or xs 4 0
            ∷ (put_u64 (get_u64 xs 5) ++ drop header_size xs))
header_again (a ∷ b ∷ v ∷ t ∷ f ∷ c0 ∷ c1 ∷ c2 ∷ c3 ∷ c4 ∷ c5 ∷ c6 ∷ c7 ∷ ys) h le m =
    let xs = a ∷ b ∷ v ∷ t ∷ f ∷ c0 ∷ c1 ∷ c2 ∷ c3 ∷ c4 ∷ c5 ∷ c6 ∷ c7 ∷ ys in
    let two : put_u16 magic ≡ a ∷ b ∷ [] = ap put_u16 (sym m) ∙ put_u16-get_u16 a b _ h.0 h.1.0 in
    let eight : put_u64 (get_u64 xs 5) ≡ c0 ∷ c1 ∷ c2 ∷ c3 ∷ c4 ∷ c5 ∷ c6 ∷ c7 ∷ [] =
      ap put_u64 (get_u64-drop xs 5) ∙ put_u64-get_u64 c0 c1 c2 c3 c4 c5 c6 c7 ys (omega arith) in
    rw (two, eight) refl
header_again xs h le m = absurd (omega arith)

-- The successful branch of `parse`.
record Parsed (xs : Bytes) (out p : Packet) : Type 0 where
  long : header_size ≤ length xs
  marked : get_u16 xs 0 ≡ magic
  versioned : get_or xs 2 0 ≡ protocol_version
  fields : Routed
  read : read_fields xs header_size ≡ some fields
  whole : fields.offset ≡ length xs
  result :
      record {
        version = get_or xs 2 0;
        type = get_or xs 3 0;
        flags = get_or xs 4 0;
        counter = get_u64 xs 5;
        source = fields.source;
        destination = fields.destination;
        payload = fields.payload;
      }
      ≡ p

parse-Parsed : (xs : Bytes) (out p : Packet) → parse xs out ≡ (ok, p) → Parsed xs out p
unfolding parse accept read_header
parse-Parsed xs out p e = elim (Option-cases (read_fields xs header_size)) [
  | inl gone ↦ absurd (ground (arith, gone))
  | inr (r, read) ↦
      let long : header_size ≤ length xs = ground arith in
      let marked : get_u16 xs 0 ≡ magic = ground arith in
      let versioned : get_or xs 2 0 ≡ protocol_version = ground arith in
      let whole : r.offset ≡ length xs = ground arith in
      record {
        long = long;
        marked = marked;
        versioned = versioned;
        fields = r;
        read = read;
        whole = whole;
        result = ground arith;
      }
]

fields_again :
    (xs : Bytes) (o : ℕ) (r : Routed)
    → ReadsAll xs o r
    → r.offset ≡ length xs
    → drop o xs ≡ put_field r.source ++ (put_field r.destination ++ put_field r.payload)
fields_again xs o r a whole =
    let last : drop r.offset xs ≡ [] = ap (λ k. drop k xs) whole ∙ drop-length xs in
    rw (a.first.at, a.second.at, a.third.at, last, append-nil (put_field r.payload)) refl

nested :
    (p : Packet)
    → serialize p
      ≡ put_u16 magic
        ++ (p.version
            ∷ p.type
            ∷ p.flags
            ∷ (put_u64 p.counter
                ++ (put_field p.source ++ (put_field p.destination ++ put_field p.payload))))
unfolding serialize header_and_routing
nested p = simp append_assoc

-- Whatever bytes `parse` accepts are the serialization of the packet that it returns.
pub serialize-parse :
    (xs : Bytes) (out p : Packet) → IsBytes xs → parse xs out ≡ (ok, p) → serialize p ≡ xs
serialize-parse xs out p h e =
    let s = parse-Parsed xs out p e in
    let tail =
      fields_again xs header_size s.fields (read_fields-ReadsAll xs _ s.fields h s.read) s.whole in
    let front = header_again xs h s.long s.marked in
    ap serialize (sym s.result)
    ∙ nested _
    ∙ ap
        (λ (ys : Bytes).
          put_u16 magic
          ++ (get_or xs 2 0 ∷ get_or xs 3 0 ∷ get_or xs 4 0 ∷ (put_u64 (get_u64 xs 5) ++ ys)))
        (sym tail)
    ∙ sym front

-- A packet that `parse` returns can be carried by the wire format again.
pub parse-IsWire : (xs : Bytes) (out p : Packet) → IsBytes xs → parse xs out ≡ (ok, p) → IsWire p
parse-IsWire xs out p h e =
    let s = parse-Parsed xs out p e in
    let a = read_fields-ReadsAll xs header_size s.fields h s.read in
    subst IsWire s.result (record {
      version_ok = s.versioned;
      type_byte = get_or-lt xs 3 h;
      flags_byte = get_or-lt xs 4 h;
      counter_u64 = get_u64-lt xs 5 h;
      source_fits = a.first.fits;
      destination_fits = a.second.fits;
      payload_fits = a.third.fits;
      source_bytes = a.first.bytes;
      destination_bytes = a.second.bytes;
      payload_bytes = a.third.bytes;
    })

-- `parse` succeeds on exactly the byte strings that `serialize` makes of the packets that the wire
-- format can carry.
pub parse-ok_iff :
    (xs : Bytes) (out : Packet)
    → IsBytes xs
    → ((p : Packet) × (parse xs out ≡ (ok, p))) ↔ ((p : Packet) × IsWire p × (serialize p ≡ xs))
parse-ok_iff xs out h = (
  λ t. (t.0, parse-IsWire xs out t.0 h t.1, serialize-parse xs out t.0 h t.1),
  λ t. (t.0, ap (λ (ys : Bytes). parse ys out) (sym t.2) ∙ parse-serialize t.0 out t.1),
)
