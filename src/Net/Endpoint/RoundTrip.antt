-- ===== src/Net/Endpoint/RoundTrip.antt =====
-- An endpoint that is sent as text is read back.
use openmesh_messenger.Base.{
  ℕ, ◌+◌, ◌%◌, ◌^◌, ◌<◌, ◌≡◌, refl, ap, ◌∙◌, false, none, some, [], ◌∷◌, ◌++◌, arith, Bytes, length,
  drop, take-append, drop-append, drop-add, length-append, is_empty, leb,
}
use openmesh_messenger.Net.Endpoint.Decimal.{
  decimal, strtoul, IsDigits, decimal-IsDigits, length-decimal_pos, strtoul-decimal,
}
use openmesh_messenger.Net.Endpoint.{Endpoint, to_string, rfind, endpoint_at, parse_endpoint}

rfind-digits : (s : Bytes) → IsDigits s → rfind b':' s ≡ none
unfolding rfind
rfind-digits [] h = refl
rfind-digits (c ∷ s) h = rw (rfind-digits s h.1) (ground (arith, h.0))

rfind-colon : (host s : Bytes) → IsDigits s → rfind b':' (host ++ b':' ∷ s) ≡ some (length host)
unfolding rfind
rfind-colon [] s h = rw (rfind-digits s h) refl
rfind-colon (c ∷ host) s h = rw (rfind-colon host s h) refl

behind_colon : (host s : Bytes) → drop (length host + 1) (host ++ b':' ∷ s) ≡ s
behind_colon host s =
    drop-add (length host) 1 (host ++ b':' ∷ s) ∙ ap (drop 1) (drop-append host (b':' ∷ s))

is_empty-append : (host s : Bytes) (c : ℕ) → is_empty (host ++ c ∷ s) ≡ false
unfolding is_empty
is_empty-append [] s c = refl
is_empty-append (x ∷ host) s c = refl

-- For every host, one with colons too, and every 16-bit port, the text of an endpoint parses to the
-- endpoint.
pub parse_endpoint-to_string :
    (e : Endpoint) → e.port < 2 ^ 16 → parse_endpoint (to_string e) ≡ some e
unfolding parse_endpoint to_string endpoint_at
parse_endpoint-to_string e h =
    let s = decimal e.port in
    let text = e.host ++ b':' ∷ s in
    let room : leb (length text) (length e.host + 1) ≡ false =
      ground (arith, length-append e.host (b':' ∷ s), length-decimal_pos e.port) in
    let port : strtoul (drop (length e.host + 1) text) % 2 ^ 16 ≡ e.port =
      omega (arith, ap strtoul (behind_colon e.host s), strtoul-decimal e.port (omega arith)) in
    rw (
      is_empty-append e.host s b':',
      rfind-colon e.host s (decimal-IsDigits e.port),
      room,
      take-append e.host (b':' ∷ s),
      port,
    )
