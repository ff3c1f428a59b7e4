-- ===== src/Protocol/Wire/Refusals.antt =====
-- What `parse` does with what it refuses.
use openmesh_messenger.Base.{ℕ, ◌≡◌, ◌≢◌, sym, ap, ◌∙◌, ◌∷◌, ◌++◌, arith, Bytes, IsBytes, is_empty}
use openmesh_messenger.Protocol.Packet.{Packet, IsWire}
use openmesh_messenger.Protocol.Wire.RoundTrip.{parse-serialize, parse-serialize-append}
use openmesh_messenger.Protocol.Wire.Canonical.{serialize-parse, parse-IsWire}
use openmesh_messenger.Protocol.Wire.{ParseError, ok, trailing_bytes, serialize, parse, accept}

-- Whenever the result of `parse` is not `ok`, the caller's packet is left as it was.
pub parse_keeps_out : (xs : Bytes) (out : Packet) → (parse xs out).0 ≢ ok → (parse xs out).1 ≡ out
unfolding parse accept
parse_keeps_out xs out h = ground (arith)

-- No strict prefix of a serialized packet parses: cut the serialization of a packet `p` that the
-- wire format can carry anywhere before its end, and the first part `xs` is refused.
pub parse_strict_prefix :
    (p out : Packet) (xs : Bytes) (b : ℕ) (rest : Bytes)
    → IsWire p
    → IsBytes xs
    → serialize p ≡ xs ++ b ∷ rest
    → (parse xs out).0 ≢ ok
unfolding is_empty
parse_strict_prefix p out xs b rest w h e succ =
    let q = (parse xs out).1 in
    let got : parse xs out ≡ (ok, q) = ground arith in
    let whole : parse (xs ++ b ∷ rest) out ≡ (ok, p) =
      ap (λ (ys : Bytes). parse ys out) (sym e) ∙ parse-serialize p out w in
    let cut : parse (xs ++ b ∷ rest) out ≡ (trailing_bytes, out) =
      ap (λ (ys : Bytes). parse (ys ++ b ∷ rest) out) (sym (serialize-parse xs out q h got))
      ∙ parse-serialize-append q (b ∷ rest) out (parse-IsWire xs out q h got) in
    cc (ap (λ (r : ParseError × Packet). r.0) (sym whole ∙ cut))
