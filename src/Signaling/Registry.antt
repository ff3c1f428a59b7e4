-- ===== src/Signaling/Registry.antt =====
-- servers/signaling/src/registry.hpp and registry.cpp: the peers by their hexadecimal keys. What the
-- operations do to a lookup follows them.
use openmesh_messenger.Base.{
  ◌≡◌, Bool, Option, none, some, arith, Bytes, bytes_eq, if◌then◌else◌, is_some,
}
use openmesh_messenger.Base.Assoc.{
  Assoc, find, insert_or_assign, erase, erase_if, IsUnique, unless, find-insert, find-erase,
  find-erase_if, insert-IsUnique, erase-IsUnique, erase_if-IsUnique,
}
use openmesh_messenger.Base.Int.{ℤ, ltb_ℤ}
use openmesh_messenger.Net.Endpoint.{Endpoint}

pub record Entry : Type 0 where
  pub endpoint : Endpoint
  pub last_seen : ℤ

abbrev pub PeerRegistry : Type 0
PeerRegistry = Assoc Entry

abbrev pub endpoint_of : Option Entry → Option Endpoint
endpoint_of none = none
endpoint_of (some e) = some e.endpoint

unfoldable pub upsert : Bytes → Endpoint → ℤ → PeerRegistry → PeerRegistry
upsert fingerprint endpoint now peers =
    insert_or_assign fingerprint (record { endpoint = endpoint; last_seen = now }) peers

unfoldable pub lookup : Bytes → PeerRegistry → Option Endpoint
lookup fingerprint peers = endpoint_of (find fingerprint peers)

-- The result tells whether an entry went.
unfoldable pub remove : Bytes → PeerRegistry → Bool × PeerRegistry
remove fingerprint peers = (is_some (find fingerprint peers), erase fingerprint peers)

abbrev pub is_stale : ℤ → Entry → Bool
is_stale cutoff e = ltb_ℤ e.last_seen cutoff

unfoldable pub expire : ℤ → PeerRegistry → PeerRegistry
expire cutoff peers = erase_if (is_stale cutoff) peers

pub lookup-upsert :
    (k j : Bytes) (e : Endpoint) (now : ℤ) (m : PeerRegistry)
    → lookup j (upsert k e now m) ≡ (if bytes_eq k j then some e else lookup j m)
unfolding lookup upsert
lookup-upsert k j e now m =
    ground (arith, find-insert k j (record { endpoint = e; last_seen = now }) m)

pub lookup-remove :
    (k j : Bytes) (m : PeerRegistry)
    → IsUnique m
    → lookup j (remove k m).1 ≡ (if bytes_eq k j then none else lookup j m)
unfolding lookup remove
lookup-remove k j m u = ground (arith, find-erase k j m u)

-- An entry stays through `expire` with its endpoint and its time exactly if it was seen at the cutoff
-- or later.
pub find-expire :
    (cutoff : ℤ) (k : Bytes) (m : PeerRegistry)
    → IsUnique m
    → find k (expire cutoff m) ≡ unless (is_stale cutoff) (find k m)
unfolding expire
find-expire cutoff k m u = find-erase_if (is_stale cutoff) k m u

pub upsert-IsUnique :
    (k : Bytes) (e : Endpoint) (now : ℤ) (m : PeerRegistry)
    → IsUnique m
    → IsUnique (upsert k e now m)
unfolding upsert
upsert-IsUnique k e now m u = insert-IsUnique k _ m u

pub remove-IsUnique : (k : Bytes) (m : PeerRegistry) → IsUnique m → IsUnique (remove k m).1
unfolding remove
remove-IsUnique k m u = erase-IsUnique k m u

pub expire-IsUnique : (cutoff : ℤ) (m : PeerRegistry) → IsUnique m → IsUnique (expire cutoff m)
unfolding expire
expire-IsUnique cutoff m u = erase_if-IsUnique (is_stale cutoff) m u
