-- ===== src/Tests/Socket.antt =====
-- A stand-in for the kernel, and the sockets of libs/net/src/udp_socket.cpp over it.
use openmesh_messenger.Base.{
  ℕ, suc, ◌≡◌, refl, Bool, true, false, not, ◌&&◌, ◌||◌, ◌==◌, Option, none, some, List, [], ◌∷◌,
  Bytes, length, arith,
}
use openmesh_messenger.Base.Int.{pos}
use openmesh_messenger.Net.Endpoint.{Endpoint}
use openmesh_messenger.Net.Posix.{Posix, IsPosix, IsSameTable}
use openmesh_messenger.Net.UdpSocket.{receive_buffer_size}
use openmesh_messenger.Net.UdpSocket.Histories.{
  Event, first, second, first_takes, second_takes, binds, sends, receives, switches, run, destroy,
  fresh,
}
use openmesh_messenger.Net.UdpSocket.Ownership.{IsShared, descriptors_are_returned}

-- The next descriptor that is given out, unless it is open, and the table.
abbrev Table : Type 0
Table = ℕ × (ℕ → Bool)

opened : ℕ → (ℕ → Bool) → Bool → Option ℕ × Table
opened next t true = (none, (next, t))
opened next t false = (some next, (suc next, λ d. d == next || t d))

abbrev toy_socket : ℕ → Table → Option ℕ × Table
toy_socket family k = opened k.0 k.1 (k.1 k.0)

-- An address is an endpoint's two texts; what is sent is received.
abbrev toy_posix : Posix
toy_posix = record {
  State = Table;
  is_open = λ k d. k.1 d;
  Address = Bytes × Bytes;
  family_of = λ a. 2;
  unspecified = 0;
  nonblocking = 2048;
  set_flag = λ flags flag. flag;
  clear_flag = λ flags flag. 0;
  getaddrinfo = λ node service family passive k. (some (b'*' ∷ [], service), k);
  getnameinfo = λ a. some a;
  socket = toy_socket;
  reuse_address = λ fd k. k;
  bind = λ fd a k. (not (length a.1 == 1), k);
  close = λ fd k. (k.0, λ d. not (d == fd) && k.1 d);
  sendto = λ fd content a k. (some (length content), k);
  poll = λ fd ms k. (true, k);
  recvfrom = λ fd size k. (some (7 ∷ [], (b'*' ∷ [], b'9' ∷ [])), k);
  get_flags = λ fd k. some 0;
  set_flags = λ fd flags k. (true, k);
  getsockname = λ fd k. none;
}

opened-is_new :
    (next : ℕ) (t : ℕ → Bool) (b : Bool) (fd : ℕ)
    → t next ≡ b
    → (opened next t b).0 ≡ some fd
    → t fd ≡ false
unfolding opened
opened-is_new next t true fd e h = absurd (cc h)
opened-is_new next t false fd e h = cc (e, h)

opened-opens :
    (next : ℕ) (t : ℕ → Bool) (b : Bool) (fd : ℕ)
    → (opened next t b).0 ≡ some fd
    → (d : ℕ) → (opened next t b).1.1 d ≡ (d == fd || t d)
unfolding opened
opened-opens next t true fd h d = absurd (cc h)
opened-opens next t false fd h d = ground (arith, h)

opened-fails :
    (next : ℕ) (t : ℕ → Bool) (b : Bool)
    → (opened next t b).0 ≡ none
    → (d : ℕ) → (opened next t b).1.1 d ≡ t d
unfolding opened
opened-fails next t true h d = refl
opened-fails next t false h d = absurd (cc h)

toy_posix-IsPosix : IsPosix toy_posix
unfolding opened
toy_posix-IsPosix = record {
  socket-is_new = λ family k fd h. opened-is_new k.0 k.1 (k.1 k.0) fd refl h;
  socket-opens = λ family k fd h d. opened-opens k.0 k.1 (k.1 k.0) fd h d;
  socket-fails = λ family k h d. opened-fails k.0 k.1 (k.1 k.0) h d;
  close-closes = λ fd k d. refl;
  getaddrinfo-keeps = λ node service family passive k d. refl;
  reuse_address-keeps = λ fd k d. refl;
  bind-keeps = λ fd a k d. refl;
  sendto-keeps = λ fd content a k d. refl;
  poll-keeps = λ fd ms k d. refl;
  recvfrom-keeps = λ fd size k d. refl;
  set_flags-keeps = λ fd flags k d. refl;
}

abbrev standard : Table
standard = (3, λ d. d == 0 || (d == 1 || d == 2))

abbrev at_port : ℕ → Endpoint
at_port port = record { host = []; port = port }

abbrev events : List Event
events =
    first (binds (at_port 9))
    ∷ first (binds (at_port 4000))
    ∷ second (sends (at_port 9) (7 ∷ []))
    ∷ second (switches true)
    ∷ first_takes
    ∷ first (receives (pos 10) receive_buffer_size)
    ∷ second_takes
    ∷ []

descriptors_are_returned_example :
    let s = run toy_posix events (fresh toy_posix standard) in
    IsShared toy_posix toy_posix-IsPosix (λ d. d == 0 || (d == 1 || d == 2)) s
    × IsSameTable toy_posix standard (destroy toy_posix s)
descriptors_are_returned_example =
    descriptors_are_returned toy_posix toy_posix-IsPosix events standard
