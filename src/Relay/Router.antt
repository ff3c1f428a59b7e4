-- ===== src/Relay/Router.antt =====
-- servers/relay/src/router.hpp and router.cpp: the routing table by hexadecimal keys, and what its
-- operations do to a lookup.
use openmesh_messenger.Base.{◌≡◌, Bool, none, some, Option, arith, Bytes, bytes_eq, if◌then◌else◌}
use openmesh_messenger.Base.Assoc.{
  Assoc, find, insert_or_assign, erase_if, IsUnique, unless, find-insert, find-erase_if,
  insert-IsUnique, erase_if-IsUnique,
}
use openmesh_messenger.Base.Int.{ℤ, ltb_ℤ}
use openmesh_messenger.Net.Endpoint.{Endpoint}

pub record Route : Type 0 where
  pub endpoint : Endpoint
  pub last_seen : ℤ

abbrev pub RouteTable : Type 0
RouteTable = Assoc Route

abbrev pub endpoint_of : Option Route → Option Endpoint
endpoint_of none = none
endpoint_of (some r) = some r.endpoint

unfoldable pub upsert : Bytes → Endpoint → ℤ → RouteTable → RouteTable
upsert key endpoint now routes =
    insert_or_assign key (record { endpoint = endpoint; last_seen = now }) routes

unfoldable pub lookup : Bytes → RouteTable → Option Endpoint
lookup key routes = endpoint_of (find key routes)

abbrev pub is_stale : ℤ → Route → Bool
is_stale cutoff r = ltb_ℤ r.last_seen cutoff

unfoldable pub expire : ℤ → RouteTable → RouteTable
expire cutoff routes = erase_if (is_stale cutoff) routes

pub lookup-upsert :
    (k j : Bytes) (e : Endpoint) (now : ℤ) (m : RouteTable)
    → lookup j (upsert k e now m) ≡ (if bytes_eq k j then some e else lookup j m)
unfolding lookup upsert
lookup-upsert k j e now m =
    ground (arith, find-insert k j (record { endpoint = e; last_seen = now }) m)

pub find-upsert :
    (k j : Bytes) (e : Endpoint) (now : ℤ) (m : RouteTable)
    → find j (upsert k e now m)
      ≡ (if bytes_eq k j then some (record { endpoint = e; last_seen = now }) else find j m)
unfolding upsert
find-upsert k j e now m = find-insert k j _ m

pub find-expire :
    (cutoff : ℤ) (k : Bytes) (m : RouteTable)
    → IsUnique m
    → find k (expire cutoff m) ≡ unless (is_stale cutoff) (find k m)
unfolding expire
find-expire cutoff k m u = find-erase_if (is_stale cutoff) k m u

pub upsert-IsUnique :
    (k : Bytes) (e : Endpoint) (now : ℤ) (m : RouteTable) → IsUnique m → IsUnique (upsert k e now m)
unfolding upsert
upsert-IsUnique k e now m u = insert-IsUnique k _ m u

pub expire-IsUnique : (cutoff : ℤ) (m : RouteTable) → IsUnique m → IsUnique (expire cutoff m)
unfolding expire
expire-IsUnique cutoff m u = erase_if-IsUnique (is_stale cutoff) m u
