-- ===== src/Net/Posix.antt =====
-- POSIX sockets, as far as libs/net/src/udp_socket.cpp calls them. They are a parameter, and what
-- the code relies on is a record of hypotheses.
use openmesh_messenger.Base.{ℕ, ◌≡◌, Bool, false, not, ◌&&◌, ◌||◌, ◌==◌, Option, none, some, Bytes}

pub record Posix : Type 1 where
  -- what the process has of the kernel, with its table of descriptors
  pub State : Type 0
  pub is_open : State → ℕ → Bool
  -- a sockaddr_storage with its length, and its ss_family
  pub Address : Type 0
  pub family_of : Address → ℕ
  -- the constants AF_UNSPEC and O_NONBLOCK; `set_flag` is `flags | flag`, and `clear_flag` is
  -- `flags & ~flag`
  pub unspecified : ℕ
  pub nonblocking : ℕ
  pub set_flag : ℕ → ℕ → ℕ
  pub clear_flag : ℕ → ℕ → ℕ
  -- the first answer for a node, a service, a family and whether AI_PASSIVE is set
  pub getaddrinfo : Option Bytes → Bytes → ℕ → Bool → State → Option Address × State
  -- the numeric host and service
  pub getnameinfo : Address → Option (Bytes × Bytes)
  -- a new datagram socket of a family
  pub socket : ℕ → State → Option ℕ × State
  -- setsockopt with SO_REUSEADDR
  pub reuse_address : ℕ → State → State
  pub bind : ℕ → Address → State → Bool × State
  pub close : ℕ → State → State
  -- how many bytes were sent
  pub sendto : ℕ → Bytes → Address → State → Option ℕ × State
  -- whether a datagram arrives within a time in milliseconds
  pub poll : ℕ → ℕ → State → Bool × State
  -- into a buffer of some size
  pub recvfrom : ℕ → ℕ → State → Option (Bytes × Address) × State
  -- fcntl with F_GETFL and F_SETFL
  pub get_flags : ℕ → State → Option ℕ
  pub set_flags : ℕ → ℕ → State → Bool × State
  pub getsockname : ℕ → State → Option Address

-- Both states have the same descriptors open.
abbrev pub IsSameTable : (posix : Posix) → posix.State → posix.State → Type 0
IsSameTable posix k k' = (fd : ℕ) → posix.is_open k' fd ≡ posix.is_open k fd

pub record IsPosix (posix : Posix) : Type 0 where
  -- A descriptor that is given out was not open, and it is the only one that opens.
  pub socket-is_new :
      (family : ℕ) (k : posix.State) (fd : ℕ)
      → (posix.socket family k).0 ≡ some fd
      → posix.is_open k fd ≡ false
  pub socket-opens :
      (family : ℕ) (k : posix.State) (fd : ℕ)
      → (posix.socket family k).0 ≡ some fd
      → (d : ℕ) → posix.is_open (posix.socket family k).1 d ≡ (d == fd || posix.is_open k d)
  pub socket-fails :
      (family : ℕ) (k : posix.State)
      → (posix.socket family k).0 ≡ none
      → IsSameTable posix k (posix.socket family k).1
  pub close-closes :
      (fd : ℕ) (k : posix.State) (d : ℕ)
      → posix.is_open (posix.close fd k) d ≡ (not (d == fd) && posix.is_open k d)
  -- Nothing else opens or closes a descriptor for good.
  pub getaddrinfo-keeps :
      (node : Option Bytes) (service : Bytes) (family : ℕ) (passive : Bool) (k : posix.State)
      → IsSameTable posix k (posix.getaddrinfo node service family passive k).1
  pub reuse_address-keeps :
      (fd : ℕ) (k : posix.State) → IsSameTable posix k (posix.reuse_address fd k)
  pub bind-keeps :
      (fd : ℕ) (a : posix.Address) (k : posix.State) → IsSameTable posix k (posix.bind fd a k).1
  pub sendto-keeps :
      (fd : ℕ) (content : Bytes) (a : posix.Address) (k : posix.State)
      → IsSameTable posix k (posix.sendto fd content a k).1
  pub poll-keeps : (fd ms : ℕ) (k : posix.State) → IsSameTable posix k (posix.poll fd ms k).1
  pub recvfrom-keeps :
      (fd size : ℕ) (k : posix.State) → IsSameTable posix k (posix.recvfrom fd size k).1
  pub set_flags-keeps :
      (fd flags : ℕ) (k : posix.State) → IsSameTable posix k (posix.set_flags fd flags k).1
