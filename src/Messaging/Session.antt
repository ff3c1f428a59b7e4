-- ===== src/Messaging/Session.antt =====
-- libs/messaging/include/openmesh/messaging/session.hpp and libs/messaging/src/session.cpp. The nonce
-- of `crypto::seal` is an argument.
pub mod Transfer
pub mod Replay
pub mod Stream
use openmesh_messenger.Base.{
  ℕ, ◌+◌, ◌%◌, ◌^◌, Bool, true, false, not, ◌&&◌, ◌||◌, Option, none, some, [], Bytes, bytes_eq,
  leb, if◌then◌else◌,
}
use openmesh_messenger.Crypto.Sodium.{Sodium}
use openmesh_messenger.Crypto.Aead.{seal, open_sealed}
use openmesh_messenger.Crypto.KeyAgreement.{agree_shared_key}
use openmesh_messenger.Protocol.Packet.{Packet, blank, flag_encrypted, encrypted}
use openmesh_messenger.Protocol.PacketType.{PacketType}
use openmesh_messenger.Protocol.PacketType
use openmesh_messenger.Protocol.Wire.{associated_data}

pub record Session : Type 0 where
  pub local_public : Bytes
  pub remote_public : Bytes
  pub shared_key : Bytes
  pub valid : Bool
  pub send_counter : ℕ
  pub have_received : Bool
  pub last_received : ℕ

-- The constructor's last step, on the answer of the key agreement.
unfoldable pub with_key : Bytes → Bytes → Option Bytes → Session
with_key local_public remote_public none = record {
  local_public = local_public;
  remote_public = remote_public;
  shared_key = [];
  valid = false;
  send_counter = 0;
  have_received = false;
  last_received = 0;
}
with_key local_public remote_public (some key) = record {
  local_public = local_public;
  remote_public = remote_public;
  shared_key = key;
  valid = true;
  send_counter = 0;
  have_received = false;
  last_received = 0;
}

-- The envelope of the next packet, before it has a payload.
unfoldable pub envelope : Session → PacketType → Packet
envelope s type = record blank {
  type = type;
  flags = flag_encrypted;
  counter = s.send_counter;
  source = s.local_public;
  destination = s.remote_public;
}

-- `send_counter_++`, in sixty-four bits.
unfoldable pub advance : Session → Session
advance s = record s { send_counter = (s.send_counter + 1) % 2 ^ 64 }

-- `!have_received_ || packet.counter > last_received_`, as the code negates it.
unfoldable pub is_fresh : Session → ℕ → Bool
is_fresh s counter = not (s.have_received && leb counter s.last_received)

unfoldable pub is_for_us : Session → Packet → Bool
is_for_us s p = bytes_eq p.source s.remote_public && bytes_eq p.destination s.local_public

module _ (na : Sodium) where
  unfoldable pub session : Bytes → Bytes → Bytes → Session
  unfolding with_key
  session local_public local_secret remote_public =
      with_key local_public remote_public (agree_shared_key na local_secret remote_public)

  unfoldable pub encrypt_as : Bytes → Session → PacketType → Bytes → Packet × Session
  unfolding envelope advance
  encrypt_as nonce s type plaintext =
      let packet = envelope s type in
      if not s.valid then (packet, advance s) else (
        record packet { payload = seal na nonce s.shared_key plaintext (associated_data packet) },
        advance s,
      )

  unfoldable pub encrypt : Bytes → Session → Bytes → Packet × Session
  encrypt nonce s plaintext = encrypt_as nonce s PacketType.message plaintext

  -- The session afterwards: only an authentic packet moves the replay window.
  unfoldable pub opened : Session → ℕ → Option Bytes → Option Bytes × Session
  opened s counter none = (none, s)
  opened s counter (some plaintext) =
      (some plaintext, record s { have_received = true; last_received = counter })

  unfoldable pub decrypt : Session → Packet → Option Bytes × Session
  unfolding is_fresh is_for_us opened
  decrypt s p =
      if not s.valid
      then (none, s)
      else if not (encrypted p)
      then (none, s)
      else if not (is_for_us s p)
      then (none, s)
      else if not (is_fresh s p.counter)
      then (none, s)
      else opened s p.counter (open_sealed na s.shared_key p.payload (associated_data p))
