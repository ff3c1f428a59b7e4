-- ===== src/Relay/Server/Ideal.antt =====
-- The relay against its contract: a router that knows, for each key, where it last heard it.
use openmesh_messenger.Base.{
  ◌≡◌, refl, sym, ap, ap₂, ◌∙◌, Bool, true, false, Option, none, some, List, [], ◌∷◌, arith, Bytes,
  IsBytes, All, is_empty, bytes_eq, bytes_eq_refl, bytes_eq_iff, if◌then◌else◌, inl, inr,
  Bool-cases,
}
use openmesh_messenger.Base.Assoc.{find, IsUnique, unless}
use openmesh_messenger.Base.Int.{ℤ, ◌-ℤ◌}
use openmesh_messenger.Core.Hex.{to_hex, to_hex_injective}
use openmesh_messenger.Net.Datagram.{Datagram, Transmission}
use openmesh_messenger.Net.Endpoint.{Endpoint}
use openmesh_messenger.Protocol.Packet.{Packet, IsWire, blank}
use openmesh_messenger.Protocol.Wire.{ParseError, succeeded, deserialize, parse}
use openmesh_messenger.Protocol.Wire.Canonical.{parse-IsWire}
use openmesh_messenger.Relay.Router.{Route, RouteTable, is_stale, lookup, find-upsert, find-expire}
use openmesh_messenger.Relay.Server.{
  Relay, Config, init, learn, forward, forward_to, handle, handle_parsed, expire, run_once,
}
use openmesh_messenger.Relay.Server.Routes.{learn-IsUnique, expired-IsUnique}

-- The router of the contract, on the keys themselves: where and when each was last heard.
abbrev pub Ideal : Type 0
Ideal = Bytes → Option Route

abbrev pub ideal_heard : Ideal → Bytes → Endpoint → ℤ → Ideal
ideal_heard known source from now = λ k.
    if is_empty source
    then known k
    else if bytes_eq source k
    then some (record { endpoint = from; last_seen = now })
    else known k

abbrev pub ideal_swept : Ideal → ℤ → Ideal
ideal_swept known cutoff = λ k. unless (is_stale cutoff) (known k)

abbrev pub to_known : Option Route → Bytes → List Transmission
to_known none datagram = []
to_known (some r) datagram = record { to = r.endpoint; content = datagram } ∷ []

abbrev pub ideal_sends : Ideal → Packet → Bytes → List Transmission
ideal_sends known packet datagram =
    if is_empty packet.destination then [] else to_known (known packet.destination) datagram

-- A datagram that is no packet is ignored; every turn ends with a sweep.
abbrev pub ideal_turn :
    ℤ → Ideal → Option (Datagram × Bool × Packet) → ℤ → Ideal × List Transmission
ideal_turn ttl known none now = (ideal_swept known (now -ℤ ttl), [])
ideal_turn ttl known (some (dg, false, packet)) now = (ideal_swept known (now -ℤ ttl), [])
ideal_turn ttl known (some (dg, true, packet)) now =
    let heard = ideal_heard known packet.source dg.from now in
    (ideal_swept heard (now -ℤ ttl), ideal_sends heard packet dg.content)

unfoldable pub as_packet : Option Datagram → Option (Datagram × Bool × Packet)
as_packet none = none
as_packet (some dg) = let (ok, packet) = deserialize dg.content blank in some (dg, ok, packet)

-- What each turn sends, of the router and of the relay.
unfoldable pub ideal_outputs : ℤ → Ideal → List (Option Datagram × ℤ) → List (List Transmission)
unfolding as_packet
ideal_outputs ttl known [] = []
ideal_outputs ttl known ((dg, now) ∷ turns) =
    let (known', out) = ideal_turn ttl known (as_packet dg) now in
    out ∷ ideal_outputs ttl known' turns

unfoldable pub outputs : Relay → List (Option Datagram × ℤ) → List (List Transmission)
outputs r [] = []
outputs r ((dg, now) ∷ turns) =
    let (r', out, received) = run_once r dg now in out ∷ outputs r' turns

-- The relay's table stands for the router's knowledge.
abbrev Stands : RouteTable → Ideal → Type 0
Stands m known = IsUnique m × ((k : Bytes) → IsBytes k → find (to_hex k) m ≡ known k)

hex_eq : (j k : Bytes) → IsBytes j → IsBytes k → bytes_eq (to_hex j) (to_hex k) ≡ bytes_eq j k
hex_eq j k hj hk = elim (Bool-cases (bytes_eq j k)) [
  | inl same ↦ rw ((bytes_eq_iff j k).0 same) (bytes_eq_refl (to_hex k) ∙ sym (bytes_eq_refl k))
  | inr other ↦ ground (
    arith,
    other,
    bytes_eq_iff j k,
    bytes_eq_iff (to_hex j) (to_hex k),
    to_hex_injective j k hj hk,
  )
]

learn-Stands :
    (m : RouteTable) (known : Ideal) (p : Packet) (from : Endpoint) (now : ℤ)
    → IsBytes p.source
    → Stands m known
    → Stands (learn m p from now) (ideal_heard known p.source from now)
unfolding learn
learn-Stands m known p from now h (u, f) = (
  learn-IsUnique m p from now u,
  λ k hk.
      ground (
        arith,
        f k hk,
        find-upsert (to_hex p.source) (to_hex k) from now m,
        hex_eq p.source k h hk,
      ),
)

expire-Stands :
    (r : Relay) (known : Ideal) (now : ℤ)
    → Stands r.routes known
    → Stands (expire r now).routes (ideal_swept known (now -ℤ r.config.route_ttl_seconds))
unfolding expire
expire-Stands r known now (u, f) = (
  expired-IsUnique r now u,
  λ k hk.
      find-expire (now -ℤ r.config.route_ttl_seconds) (to_hex k) r.routes u
      ∙ ap (unless (is_stale (now -ℤ r.config.route_ttl_seconds))) (f k hk),
)

forward-Stands :
    (m : RouteTable) (known : Ideal) (p : Packet) (d : Bytes)
    → IsBytes p.destination
    → Stands m known
    → forward m p d [] ≡ ideal_sends known p d
unfolding forward forward_to lookup
forward-Stands m known p d h (u, f) =
    rw (f p.destination h)
      (elim (known p.destination) [ none ↦ ground arith | some r ↦ ground arith ])

deserialize-IsWire :
    (xs : Bytes) → IsBytes xs → (deserialize xs blank).0 ≡ true → IsWire (deserialize xs blank).1
unfolding deserialize
deserialize-IsWire xs h good =
    let r = parse xs blank in
    let fine : r.0 ≡ ParseError.ok = only_ok r.0 good in
    parse-IsWire xs blank r.1 h (ap (λ (e : ParseError). (e, r.1)) fine)
  where
    only_ok : (e : ParseError) → succeeded e ≡ true → e ≡ ParseError.ok
    only_ok ParseError.ok g = refl
    only_ok ParseError.too_short g = cc
    only_ok ParseError.bad_magic g = cc
    only_ok ParseError.unsupported_version g = cc
    only_ok ParseError.truncated_field g = cc
    only_ok ParseError.trailing_bytes g = cc

-- One turn of both.
abbrev Agrees : Relay → Ideal → Relay × List Transmission → Ideal × List Transmission → Type 0
Agrees r known (r', out) (known', sent) =
    (out ≡ sent) × (r'.config ≡ r.config) × Stands r'.routes known'

packet-Agrees :
    (r : Relay) (known : Ideal) (dg : Datagram) (now : ℤ) (q : Bool × Packet)
    → (q.0 ≡ true → IsWire q.1)
    → Stands r.routes known
    → let (r', out) = handle_parsed r dg.content dg.from now [] q in
      Agrees r known
        (expire r' now, out)
        (ideal_turn r.config.route_ttl_seconds known (some (dg, q.0, q.1)) now)
unfolding handle_parsed expire
packet-Agrees r known dg now (false, p) w f = (refl, refl, expire-Stands r known now f)
packet-Agrees r known dg now (true, p) w f =
    let learned = learn r.routes p dg.from now in
    let heard = ideal_heard known p.source dg.from now in
    let g = learn-Stands r.routes known p dg.from now (w refl).source_bytes f in
    (
      forward-Stands learned heard p dg.content (w refl).destination_bytes g,
      refl,
      expire-Stands (record r { routes = learned }) heard now g,
    )

abbrev pub IsByteTurn : Option Datagram × ℤ → Type 0
IsByteTurn (none, now) = Unit
IsByteTurn (some dg, now) = IsBytes dg.content

turn-Agrees :
    (r : Relay) (known : Ideal) (dg : Option Datagram) (now : ℤ)
    → IsByteTurn (dg, now)
    → Stands r.routes known
    → let (r', out, received) = run_once r dg now in
      Agrees r known (r', out) (ideal_turn r.config.route_ttl_seconds known (as_packet dg) now)
unfolding run_once handle as_packet expire
turn-Agrees r known none now b f = (refl, refl, expire-Stands r known now f)
turn-Agrees r known (some dg) now b f =
    packet-Agrees r known dg now (deserialize dg.content blank) (deserialize-IsWire dg.content b) f

run-Agrees :
    (r : Relay) (known : Ideal) (turns : List (Option Datagram × ℤ))
    → All IsByteTurn turns
    → Stands r.routes known
    → outputs r turns ≡ ideal_outputs r.config.route_ttl_seconds known turns
unfolding outputs ideal_outputs
run-Agrees r known [] b f = refl
run-Agrees r known ((dg, now) ∷ turns) b f =
    let (r', out, received) = run_once r dg now in
    let t = ideal_turn r.config.route_ttl_seconds known (as_packet dg) now in
    let (same, config, g) = turn-Agrees r known dg now b.0 f in
    ap₂ ◌∷◌ same (
      run-Agrees r' t.0 turns b.1 g
      ∙ ap (λ (c : Config). ideal_outputs c.route_ttl_seconds t.0 turns) config)

-- A started relay sends, in every turn of any history of datagrams made of bytes, exactly what the
-- contract's router sends, which knows for each key the endpoint it last heard a packet of that
-- source from, and forgets it when a sweep finds it older than the route ttl.
pub relay_is_ideal :
    (config : Config) (turns : List (Option Datagram × ℤ))
    → All IsByteTurn turns
    → outputs (init config) turns ≡ ideal_outputs config.route_ttl_seconds (λ k. none) turns
relay_is_ideal config turns b =
    run-Agrees (init config) (λ k. none) turns b (tt, λ k hk. unfold find in refl)
