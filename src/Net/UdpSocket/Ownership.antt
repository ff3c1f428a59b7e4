-- ===== src/Net/UdpSocket/Ownership.antt =====
-- libs/net/src/udp_socket.cpp: the descriptors of the process over the life of two sockets.
use openmesh_messenger.Net.UdpSocket.Descriptors.{
  owns, IsHeld, closed-fd, closed-IsHeld, bind-IsHeldBy, send_to-IsHeldBy, receive-IsHeldBy,
  set_nonblocking-IsHeldBy,
}
use openmesh_messenger.Base.{ℕ, ◌≡◌, refl, Bool, false, ◌&&◌, ◌||◌, List, [], ◌∷◌, arith}
use openmesh_messenger.Net.Posix.{Posix, IsPosix, IsSameTable}
use openmesh_messenger.Net.UdpSocket.{UdpSocket, move_assign}
use openmesh_messenger.Net.UdpSocket.Histories.{
  Call, binds, sends, receives, switches, closes, Event, first, second, first_takes, second_takes,
  Sockets, call, on_one, take, step, run, destroy, flip, fresh,
}

module _ (posix : Posix) (law : IsPosix posix) where
  call-IsHeld :
      (base : ℕ → Bool) (c : Call) (s : UdpSocket) (k : posix.State)
      → IsHeld posix law base s.fd k
      → let p = call posix c (record { socket = s; kernel = k }) in
        IsHeld posix law base p.socket.fd p.kernel
  unfolding call
  call-IsHeld base (binds e) s k h = bind-IsHeldBy posix law base e s k h
  call-IsHeld base (sends e content) s k h = send_to-IsHeldBy posix law base e content s k h
  call-IsHeld base (receives timeout size) s k h =
      receive-IsHeldBy posix law base timeout size s k h
  call-IsHeld base (switches on) s k h =
      set_nonblocking-IsHeldBy posix law base on s.fd s.family k h
  call-IsHeld base closes s k h =
      rw (closed-fd posix law s.fd s.family k) (closed-IsHeld posix law base s.fd s.family k h)

  -- Two sockets hold what is open besides `base`, and no descriptor is held twice.
  abbrev pub IsShared : (ℕ → Bool) → Sockets posix → Type 0
  IsShared base s =
      IsHeld posix law (λ d. owns s.other.fd d || base d) s.one.fd s.kernel
      × ((d : ℕ) → (owns s.other.fd d && base d) ≡ false)

  flip-IsShared :
      (base : ℕ → Bool) (s : Sockets posix) → IsShared base s → IsShared base (flip posix s)
  flip-IsShared base s h = (
    λ d. (ground (arith, (h.0 d).0), ground (arith, (h.0 d).1, h.1 d)),
    λ d. ground (arith, (h.0 d).1),
  )

  on_one-IsShared :
      (base : ℕ → Bool) (c : Call) (s : Sockets posix)
      → IsShared base s
      → IsShared base (on_one posix c s)
  unfolding on_one
  on_one-IsShared base c s h = (call-IsHeld _ c s.one s.kernel h.0, h.1)

  take-IsShared :
      (base : ℕ → Bool) (s : Sockets posix) → IsShared base s → IsShared base (take posix s)
  unfolding take move_assign
  take-IsShared base s h =
      let held =
        closed-IsHeld posix law (λ d. owns s.other.fd d || base d) s.one.fd s.one.family s.kernel
          h.0 in
      (λ d. ((held d).0, h.1 d), λ d. refl)

  step-IsShared :
      (base : ℕ → Bool) (e : Event) (s : Sockets posix)
      → IsShared base s
      → IsShared base (step posix e s)
  unfolding step
  step-IsShared base (first c) s h = on_one-IsShared base c s h
  step-IsShared base (second c) s h =
      flip-IsShared base (on_one posix c (flip posix s))
        (on_one-IsShared base c (flip posix s) (flip-IsShared base s h))
  step-IsShared base first_takes s h = take-IsShared base s h
  step-IsShared base second_takes s h =
      flip-IsShared base (take posix (flip posix s))
        (take-IsShared base (flip posix s) (flip-IsShared base s h))

  run-IsShared :
      (base : ℕ → Bool) (events : List Event) (s : Sockets posix)
      → IsShared base s
      → IsShared base (run posix events s)
  unfolding run
  run-IsShared base [] s h = h
  run-IsShared base (e ∷ events) s h = run-IsShared base events _ (step-IsShared base e s h)

  destroyed :
      (base : ℕ → Bool) (s : Sockets posix)
      → IsShared base s
      → (d : ℕ) → posix.is_open (destroy posix s) d ≡ base d
  unfolding destroy on_one call
  destroyed base s h d =
      let first_closed =
        closed-IsHeld posix law (λ x. owns s.other.fd x || base x) s.one.fd s.one.family s.kernel
          h.0 in
      (closed-IsHeld posix law base s.other.fd s.other.family _ (λ x. ((first_closed x).0, h.1 x))
        d).0

  -- No descriptor leaks, none has two owners, and none is closed that is not the socket's own:
  -- after any history of two new sockets, of `bind`, `send_to`, `receive`, `set_nonblocking`,
  -- `close` and the move assignment of either to the other, with whatever the system calls answer,
  -- the process has open exactly the descriptors that it had before and those of the two sockets,
  -- which are different from each other and from the ones before. Once both are destroyed it has
  -- exactly those that it had before. POSIX is as its documentation has it.
  pub descriptors_are_returned :
      (events : List Event) (k : posix.State)
      → let s = run posix events (fresh posix k) in
        IsShared (posix.is_open k) s × IsSameTable posix k (destroy posix s)
  descriptors_are_returned events k =
      let shared =
        run-IsShared (posix.is_open k) events (fresh posix k) (λ d. (refl, refl), λ d. refl) in
      (shared, destroyed (posix.is_open k) (run posix events (fresh posix k)) shared)
