-- ===== src/Net/UdpSocket.antt =====
-- libs/net/src/udp_socket.cpp and its header: the class UdpSocket, over POSIX. A method takes the
-- socket with the kernel's state and returns both. A descriptor of -1 is `none`.
pub mod Histories
mod Descriptors
pub mod Ownership
use openmesh_messenger.Base.{
  ℕ, ◌%◌, ◌^◌, Bool, true, false, ◌==◌, if◌then◌else◌, is_some, Option, none, some, [], Bytes,
  length, is_empty,
}
use openmesh_messenger.Base.Int.{ℤ, pos, negsuc}
use openmesh_messenger.Net.Datagram.{Datagram}
use openmesh_messenger.Net.Endpoint.{Endpoint}
use openmesh_messenger.Net.Endpoint.Decimal.{decimal, strtoul}
use openmesh_messenger.Net.Posix.{Posix}

pub record UdpSocket : Type 0 where
  pub fd : Option ℕ
  pub family : ℕ

-- A socket with the kernel under it.
pub record Process (posix : Posix) : Type 0 where
  pub socket : UdpSocket
  pub kernel : posix.State

abbrev pub unopened : UdpSocket
unopened = record { fd = none; family = 0 }

abbrev pub receive_buffer_size : ℕ
receive_buffer_size = 2048

abbrev pub is_open : UdpSocket → Bool
is_open s = is_some s.fd

-- The move constructor: the new socket, and the other as it is left.
abbrev pub move_construct : UdpSocket → UdpSocket × UdpSocket
move_construct other = (other, unopened)

module _ (posix : Posix) where
  unfoldable pub resolve : Endpoint → ℕ → Bool → posix.State → Option posix.Address × posix.State
  resolve e family passive k =
      posix.getaddrinfo (if is_empty e.host then none else some e.host) (decimal e.port) family
        passive k

  named : Option (Bytes × Bytes) → Endpoint
  named none = record { host = []; port = 0 }
  named (some (host, service)) = record { host = host; port = strtoul service % 2 ^ 16 }

  unfoldable pub endpoint_from_sockaddr : posix.Address → Endpoint
  unfolding named
  endpoint_from_sockaddr a = named (posix.getnameinfo a)

  close_at : Option ℕ → Process posix → Process posix
  close_at none p = p
  close_at (some fd) p = record { socket = unopened; kernel = posix.close fd p.kernel }

  -- The destructor does the same.
  unfoldable pub close : Process posix → Process posix
  unfolding close_at
  close p = close_at p.socket.fd p

  -- The rest of `bind`, from its answer, and from that of ::socket.
  settle : Bool → Process posix → Bool × Process posix
  unfolding close
  settle true p = (true, p)
  settle false p = (false, close p)

  bound : posix.Address → UdpSocket → Option ℕ × posix.State → Bool × Process posix
  unfolding settle
  bound a s (none, k) = (false, record { socket = record s { fd = none }; kernel = k })
  bound a s (some fd, k) =
      let r = posix.bind fd a (posix.reuse_address fd k) in
      settle r.0
        (record { socket = record { fd = some fd; family = posix.family_of a }; kernel = r.1 })

  bind_at : UdpSocket → Option posix.Address × posix.State → Bool × Process posix
  unfolding bound
  bind_at s (none, k) = (false, record { socket = s; kernel = k })
  bind_at s (some a, k) = bound a s (posix.socket (posix.family_of a) k)

  unfoldable pub bind : Endpoint → Process posix → Bool × Process posix
  unfolding close resolve bind_at
  bind e p =
      let closed = close p in bind_at closed.socket (resolve e posix.unspecified true closed.kernel)

  -- A socket that is not open yet gets a descriptor of the destination's family.
  opened : posix.Address → UdpSocket → Option ℕ × posix.State → Process posix
  opened a s (none, k) = record { socket = record s { fd = none }; kernel = k }
  opened a s (some fd, k) = record {
    socket = record { fd = some fd; family = posix.family_of a };
    kernel = k;
  }

  open_for : posix.Address → UdpSocket → posix.State → Process posix
  unfolding opened
  open_for a s k =
      if is_open s
      then record { socket = s; kernel = k }
      else opened a s (posix.socket (posix.family_of a) k)

  is_whole : Bytes → Option ℕ → Bool
  is_whole content none = false
  is_whole content (some sent) = sent == length content

  transmit : Bytes → posix.Address → Option ℕ → Process posix → Bool × Process posix
  unfolding is_whole
  transmit content a none p = (false, p)
  transmit content a (some fd) p =
      let r = posix.sendto fd content a p.kernel in
      (is_whole content r.0, record p { kernel = r.1 })

  send_at : Bytes → UdpSocket → Option posix.Address × posix.State → Bool × Process posix
  unfolding open_for transmit
  send_at content s (none, k) = (false, record { socket = s; kernel = k })
  send_at content s (some a, k) = let p = open_for a s k in transmit content a p.socket.fd p

  unfoldable pub send_to : Endpoint → Bytes → Process posix → Bool × Process posix
  unfolding resolve send_at
  send_to e content p =
      let family = if is_open p.socket then p.socket.family else posix.unspecified in
      send_at content p.socket (resolve e family false p.kernel)

  datagram : Option (Bytes × posix.Address) → Option Datagram
  unfolding endpoint_from_sockaddr
  datagram none = none
  datagram (some (content, a)) =
      some (record { from = endpoint_from_sockaddr a; content = content })

  read : ℕ → ℕ → Process posix → Option Datagram × Process posix
  unfolding datagram
  read fd max_size p =
      let r = posix.recvfrom fd max_size p.kernel in (datagram r.0, record p { kernel = r.1 })

  -- With a timeout that is negative it blocks.
  receive_at : Option ℕ → ℤ → ℕ → Process posix → Option Datagram × Process posix
  unfolding read
  receive_at none timeout max_size p = (none, p)
  receive_at (some fd) (negsuc n) max_size p = read fd max_size p
  receive_at (some fd) (pos ms) max_size p =
      let ready = posix.poll fd ms p.kernel in
      let p' = record p { kernel = ready.1 } in if ready.0 then read fd max_size p' else (none, p')

  unfoldable pub receive : ℤ → ℕ → Process posix → Option Datagram × Process posix
  unfolding receive_at
  receive timeout max_size p = receive_at p.socket.fd timeout max_size p

  switch : Bool → ℕ → Option ℕ → Process posix → Bool × Process posix
  switch on fd none p = (false, p)
  switch on fd (some flags) p =
      let flags' =
        if on
        then posix.set_flag flags posix.nonblocking
        else posix.clear_flag flags posix.nonblocking in
      let r = posix.set_flags fd flags' p.kernel in (r.0, record p { kernel = r.1 })

  unfoldable pub set_nonblocking : Bool → Process posix → Bool × Process posix
  unfolding switch
  set_nonblocking on p = elim p.socket.fd [
    | none ↦ (false, p)
    | some fd ↦ switch on fd (posix.get_flags fd p.kernel) p
  ]

  unfoldable pub local_endpoint : Process posix → Option Endpoint
  unfolding endpoint_from_sockaddr
  local_endpoint p = elim p.socket.fd [
    | none ↦ none
    | some fd ↦ elim (posix.getsockname fd p.kernel) [
      | none ↦ none
      | some a ↦ some (endpoint_from_sockaddr a)
    ]
  ]

  -- The move assignment, of another socket than the one assigned to: the process with the socket
  -- assigned to, and the other socket as it is left.
  unfoldable pub move_assign : UdpSocket → Process posix → Process posix × UdpSocket
  unfolding close
  move_assign other p = (record (close p) { socket = other }, unopened)
