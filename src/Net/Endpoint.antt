-- ===== src/Net/Endpoint.antt =====
-- libs/net/include/openmesh/net/endpoint.hpp and the `parse_endpoint` of
-- libs/net/src/signaling_client.cpp, which libs/messaging/src/engine.cpp and cli/src/main.cpp repeat.
pub mod Decimal
pub mod RoundTrip
use openmesh_messenger.Base.{
  ℕ, suc, ◌+◌, ◌%◌, ◌^◌, Bool, Option, none, some, [], ◌∷◌, ◌++◌, ◌&&◌, Bytes, length, take, drop,
  is_empty, bytes_eq, leb, ◌==◌, if◌then◌else◌,
}
use Decimal.{decimal, strtoul}

pub record Endpoint : Type 0 where
  pub host : Bytes
  pub port : ℕ

-- Equality of host and port, as the code writes it out.
unfoldable pub same_endpoint : Endpoint → Endpoint → Bool
same_endpoint a b = bytes_eq a.host b.host && a.port == b.port

-- `host + ':' + std::to_string(port)`.
unfoldable pub to_string : Endpoint → Bytes
to_string e = e.host ++ (b':' ∷ decimal e.port)

-- `std::string::rfind` of one character: the last position.
unfoldable pub rfind : ℕ → Bytes → Option ℕ
rfind c [] = none
rfind c (x ∷ xs) = elim (rfind c xs) [
  | some i ↦ some (suc i)
  | none ↦ if x == c then some 0 else none
]

-- The two parts round the last colon. The port is cast to sixteen bits.
endpoint_at : Bytes → Option ℕ → Option Endpoint
endpoint_at s none = none
endpoint_at s (some pos) =
    if leb (length s) (pos + 1)
    then none
    else some (record { host = take pos s; port = strtoul (drop (pos + 1) s) % 2 ^ 16 })

unfoldable pub parse_endpoint : Bytes → Option Endpoint
unfolding endpoint_at rfind
parse_endpoint payload = if is_empty payload then none else endpoint_at payload (rfind b':' payload)
