-- ===== src/Net/UdpSocket/Descriptors.antt =====
-- libs/net/src/udp_socket.cpp: which descriptors of the process a socket has open.
use openmesh_messenger.Base.{
  ℕ, ◌≡◌, refl, ◌∙◌, Bool, false, ◌&&◌, ◌||◌, ◌==◌, Option, none, some, Option-cases, Bool-cases,
  Bytes, arith, inl, inr,
}
use openmesh_messenger.Base.Int.{ℤ, pos, negsuc}
use openmesh_messenger.Net.Endpoint.{Endpoint}
use openmesh_messenger.Net.Posix.{Posix, IsPosix, IsSameTable}
use openmesh_messenger.Net.UdpSocket.{
  UdpSocket, Process, resolve, close, bind, bind_at, bound, settle, opened, open_for, transmit,
  send_at, send_to, read, receive, receive_at, switch, set_nonblocking, close_at,
}

abbrev pub owns : Option ℕ → ℕ → Bool
owns none d = false
owns (some fd) d = d == fd

module _ (posix : Posix) (law : IsPosix posix) where
  -- The descriptors that are open are the socket's, if it has one, and those of `base`.
  abbrev pub IsHeld : (ℕ → Bool) → Option ℕ → posix.State → Type 0
  IsHeld base o k =
      (d : ℕ) → (posix.is_open k d ≡ (owns o d || base d)) × ((owns o d && base d) ≡ false)

  pub same-IsHeld :
      (base : ℕ → Bool) (o : Option ℕ) (k k' : posix.State)
      → IsSameTable posix k k'
      → IsHeld base o k
      → IsHeld base o k'
  same-IsHeld base o k k' same h d = (same d ∙ (h d).0, (h d).1)

  -- What a socket holds after a call.
  abbrev pub IsHeldBy : (ℕ → Bool) → Process posix → Type 0
  IsHeldBy base p = IsHeld base p.socket.fd p.kernel

  abbrev pub process : Option ℕ → ℕ → posix.State → Process posix
  process o family k = record { socket = record { fd = o; family = family }; kernel = k }

  pub closed-fd :
      (o : Option ℕ) (family : ℕ) (k : posix.State)
      → (close posix (process o family k)).socket.fd ≡ none
  unfolding close close_at
  closed-fd none family k = refl
  closed-fd (some fd) family k = refl

  pub closed-IsHeld :
      (base : ℕ → Bool) (o : Option ℕ) (family : ℕ) (k : posix.State)
      → IsHeld base o k
      → IsHeld base none (close posix (process o family k)).kernel
  unfolding close close_at
  closed-IsHeld base none family k h = h
  closed-IsHeld base (some fd) family k h =
      λ d. (rw (law.close-closes fd k d) (ground (arith, (h d).0, (h d).1)), refl)

  socket-IsHeld :
      (base : ℕ → Bool) (family : ℕ) (k : posix.State)
      → IsHeld base none k
      → IsHeld base (posix.socket family k).0 (posix.socket family k).1
  socket-IsHeld base family k h d = elim (Option-cases (posix.socket family k).0) [
    | inl e ↦ rw e (law.socket-fails family k e d ∙ (h d).0, refl)
    | inr (fd, e) ↦
        let new = law.socket-is_new family k fd e in
        rw e (
          law.socket-opens family k fd e d ∙ ground (arith, (h d).0),
          ground (arith, (h d).0, (h fd).0, new),
        )
  ]

  bound-IsHeldBy :
      (base : ℕ → Bool) (a : posix.Address) (s : UdpSocket) (r : Option ℕ × posix.State)
      → IsHeld base r.0 r.1
      → IsHeldBy base (bound posix a s r).1
  unfolding bound settle
  bound-IsHeldBy base a s (none, k) h = h
  bound-IsHeldBy base a s (some fd, k) h =
      let k1 = posix.reuse_address fd k in
      let k2 = (posix.bind fd a k1).1 in
      let held =
        same-IsHeld base (some fd) k1 k2 (law.bind-keeps fd a k1)
          (same-IsHeld base (some fd) k k1 (law.reuse_address-keeps fd k) h) in
      elim (Bool-cases (posix.bind fd a k1).0) [
        | inl holds ↦ rw holds held
        | inr fails ↦ rw fails (closed-IsHeld base (some fd) (posix.family_of a) k2 held)
      ]

  bind_at-IsHeldBy :
      (base : ℕ → Bool) (s : UdpSocket) (r : Option posix.Address × posix.State)
      → s.fd ≡ none
      → IsHeld base none r.1
      → IsHeldBy base (bind_at posix s r).1
  unfolding bind_at
  bind_at-IsHeldBy base s (none, k) e h = rw e h
  bind_at-IsHeldBy base s (some a, k) e h =
      bound-IsHeldBy base a s (posix.socket (posix.family_of a) k)
        (socket-IsHeld base (posix.family_of a) k h)

  pub bind-IsHeldBy :
      (base : ℕ → Bool) (e : Endpoint) (s : UdpSocket) (k : posix.State)
      → IsHeld base s.fd k
      → IsHeldBy base (bind posix e (record { socket = s; kernel = k })).1
  unfolding bind resolve
  bind-IsHeldBy base e s k h =
      let closed = close posix (record { socket = s; kernel = k }) in
      bind_at-IsHeldBy base closed.socket _ (closed-fd s.fd s.family k) (
        same-IsHeld base none closed.kernel _ (law.getaddrinfo-keeps _ _ _ _ closed.kernel)
          (closed-IsHeld base s.fd s.family k h))

  opened-IsHeldBy :
      (base : ℕ → Bool) (a : posix.Address) (s : UdpSocket) (r : Option ℕ × posix.State)
      → IsHeld base r.0 r.1
      → IsHeldBy base (opened posix a s r)
  unfolding opened
  opened-IsHeldBy base a s (none, k) h = h
  opened-IsHeldBy base a s (some fd, k) h = h

  open_for-IsHeldBy :
      (base : ℕ → Bool) (a : posix.Address) (o : Option ℕ) (family : ℕ) (k : posix.State)
      → IsHeld base o k
      → IsHeldBy base (open_for posix a (record { fd = o; family = family }) k)
  unfolding open_for
  open_for-IsHeldBy base a none family k h =
      opened-IsHeldBy base a (record { fd = none; family = family })
        (posix.socket (posix.family_of a) k) (socket-IsHeld base (posix.family_of a) k h)
  open_for-IsHeldBy base a (some fd) family k h = h

  transmit-IsHeldBy :
      (base : ℕ → Bool) (content : Bytes) (a : posix.Address) (o : Option ℕ) (p : Process posix)
      → IsHeldBy base p
      → IsHeldBy base (transmit posix content a o p).1
  unfolding transmit
  transmit-IsHeldBy base content a none p h = h
  transmit-IsHeldBy base content a (some fd) p h =
      same-IsHeld base p.socket.fd p.kernel _ (law.sendto-keeps fd content a p.kernel) h

  send_at-IsHeldBy :
      (base : ℕ → Bool) (content : Bytes) (s : UdpSocket) (r : Option posix.Address × posix.State)
      → IsHeld base s.fd r.1
      → IsHeldBy base (send_at posix content s r).1
  unfolding send_at
  send_at-IsHeldBy base content s (none, k) h = h
  send_at-IsHeldBy base content s (some a, k) h =
      transmit-IsHeldBy base content a _ (open_for posix a s k)
        (open_for-IsHeldBy base a s.fd s.family k h)

  pub send_to-IsHeldBy :
      (base : ℕ → Bool) (e : Endpoint) (content : Bytes) (s : UdpSocket) (k : posix.State)
      → IsHeld base s.fd k
      → IsHeldBy base (send_to posix e content (record { socket = s; kernel = k })).1
  unfolding send_to resolve
  send_to-IsHeldBy base e content s k h =
      send_at-IsHeldBy base content s _
        (same-IsHeld base s.fd k _ (law.getaddrinfo-keeps _ _ _ _ k) h)

  receive_at-IsHeldBy :
      (base : ℕ → Bool) (o : Option ℕ) (timeout : ℤ) (size : ℕ) (p : Process posix)
      → IsHeldBy base p
      → IsHeldBy base (receive_at posix o timeout size p).1
  unfolding receive_at read
  receive_at-IsHeldBy base none timeout size p h = h
  receive_at-IsHeldBy base (some fd) (negsuc n) size p h =
      same-IsHeld base p.socket.fd p.kernel _ (law.recvfrom-keeps fd size p.kernel) h
  receive_at-IsHeldBy base (some fd) (pos ms) size p h =
      let k = (posix.poll fd ms p.kernel).1 in
      let held = same-IsHeld base p.socket.fd p.kernel k (law.poll-keeps fd ms p.kernel) h in
      elim (Bool-cases (posix.poll fd ms p.kernel).0) [
        | inl holds ↦
            rw holds (same-IsHeld base p.socket.fd k _ (law.recvfrom-keeps fd size k) held)
        | inr fails ↦ rw fails held
      ]

  pub receive-IsHeldBy :
      (base : ℕ → Bool) (timeout : ℤ) (size : ℕ) (s : UdpSocket) (k : posix.State)
      → IsHeld base s.fd k
      → IsHeldBy base (receive posix timeout size (record { socket = s; kernel = k })).1
  unfolding receive
  receive-IsHeldBy base timeout size s k h =
      receive_at-IsHeldBy base s.fd timeout size (record { socket = s; kernel = k }) h

  switch-IsHeldBy :
      (base : ℕ → Bool) (on : Bool) (fd : ℕ) (flags : Option ℕ) (p : Process posix)
      → IsHeldBy base p
      → IsHeldBy base (switch posix on fd flags p).1
  unfolding switch
  switch-IsHeldBy base on fd none p h = h
  switch-IsHeldBy base on fd (some flags) p h =
      same-IsHeld base p.socket.fd p.kernel _ (law.set_flags-keeps fd _ p.kernel) h

  pub set_nonblocking-IsHeldBy :
      (base : ℕ → Bool) (on : Bool) (o : Option ℕ) (family : ℕ) (k : posix.State)
      → IsHeld base o k
      → IsHeldBy base (set_nonblocking posix on (process o family k)).1
  unfolding set_nonblocking
  set_nonblocking-IsHeldBy base on none family k h = h
  set_nonblocking-IsHeldBy base on (some fd) family k h =
      switch-IsHeldBy base on fd (posix.get_flags fd k) (process (some fd) family k) h
