-- ===== src/Net/UdpSocket/Histories.antt =====
-- Histories of two sockets of one process, of which either may be moved to the other.
use openmesh_messenger.Base.{ℕ, Bool, List, [], ◌∷◌, Bytes}
use openmesh_messenger.Base.Int.{ℤ}
use openmesh_messenger.Net.Endpoint.{Endpoint}
use openmesh_messenger.Net.Posix.{Posix}
use openmesh_messenger.Net.UdpSocket.{
  UdpSocket, Process, unopened, close, bind, send_to, receive, set_nonblocking, move_assign,
}

-- The methods of a socket that change anything, with their arguments.
pub data Call : Type 0 where
  binds : Endpoint → Call
  sends : Endpoint → Bytes → Call
  receives : ℤ → ℕ → Call
  switches : Bool → Call
  closes : Call

pub data Event : Type 0 where
  first : Call → Event
  second : Call → Event
  first_takes : Event
  second_takes : Event

pub record Sockets (posix : Posix) : Type 0 where
  pub one : UdpSocket
  pub other : UdpSocket
  pub kernel : posix.State

module _ (posix : Posix) where
  unfoldable pub call : Call → Process posix → Process posix
  call (binds e) p = (bind posix e p).1
  call (sends e content) p = (send_to posix e content p).1
  call (receives timeout max_size) p = (receive posix timeout max_size p).1
  call (switches on) p = (set_nonblocking posix on p).1
  call closes p = close posix p

  abbrev pub beside : UdpSocket → Process posix → Sockets posix
  beside b p = record { one = p.socket; other = b; kernel = p.kernel }

  abbrev pub flip : Sockets posix → Sockets posix
  flip s = record { one = s.other; other = s.one; kernel = s.kernel }

  unfoldable pub on_one : Call → Sockets posix → Sockets posix
  unfolding call
  on_one c s = beside s.other (call c (record { socket = s.one; kernel = s.kernel }))

  unfoldable pub take : Sockets posix → Sockets posix
  take s =
      let r = move_assign posix s.other (record { socket = s.one; kernel = s.kernel }) in
      beside r.1 r.0

  unfoldable pub step : Event → Sockets posix → Sockets posix
  unfolding on_one take
  step (first c) s = on_one c s
  step (second c) s = flip (on_one c (flip s))
  step first_takes s = take s
  step second_takes s = flip (take (flip s))

  unfoldable pub run : List Event → Sockets posix → Sockets posix
  unfolding step
  run [] s = s
  run (e ∷ events) s = run events (step e s)

  -- Both destructors.
  unfoldable pub destroy : Sockets posix → posix.State
  unfolding on_one
  destroy s = (on_one closes (flip (on_one closes s))).kernel

  abbrev pub fresh : posix.State → Sockets posix
  fresh k = record { one = unopened; other = unopened; kernel = k }
