-- ===== src/Net/Datagram.antt =====
-- libs/net/include/openmesh/net/udp_socket.hpp: what `receive` returns and what `send_to` is given.
use openmesh_messenger.Base.{Bool, List, Bytes}
use openmesh_messenger.Net.Endpoint.{Endpoint}

-- The field that the source calls `data`.
pub record Datagram : Type 0 where
  pub from : Endpoint
  pub content : Bytes

-- The two arguments of one `send_to`.
pub record Transmission : Type 0 where
  pub to : Endpoint
  pub content : Bytes

-- The answer of each `send_to` of a socket, from what it was given before and what it is given now:
-- the same datagram may fail and then succeed.
abbrev pub Delivery : Type 0
Delivery = List Transmission → Transmission → Bool
