-- ===== src/Messaging/Session/Replay.antt =====
-- What a session accepts: only packets of its peer, each counter at most once, in rising order.
use openmesh_messenger.Base.{
  ℕ, ◌≤◌, ◌<◌, ◌≡◌, true, Option, none, some, List, [], ◌∷◌, arith, Bytes, bytes_eq_iff,
  Option-cases, inl, inr,
}
use openmesh_messenger.Crypto.Sodium.{Sodium}
use openmesh_messenger.Crypto.Aead.{open_sealed}
use openmesh_messenger.Protocol.Packet.{Packet, encrypted}
use openmesh_messenger.Protocol.Wire.{associated_data}
use openmesh_messenger.Messaging.Session.{Session, is_fresh, is_for_us, opened, decrypt}

-- The counter lies above all that the session has accepted.
abbrev pub Above : Session → ℕ → Type 0
Above s counter = s.have_received ≡ true → s.last_received < counter

abbrev pub received_at : Session → ℕ → Session
received_at s counter = record s { have_received = true; last_received = counter }

module _ (na : Sodium) where
  -- What holds of a packet that a session decrypts to `m`.
  pub record Accepts (s : Session) (p : Packet) (m : Bytes) : Type 0 where
    pub valid : s.valid ≡ true
    pub marked : encrypted p ≡ true
    pub from_peer : p.source ≡ s.remote_public
    pub to_us : p.destination ≡ s.local_public
    pub above : Above s p.counter
    pub authentic : open_sealed na s.shared_key p.payload (associated_data p) ≡ some m

  decrypt-tests :
      (s : Session) (p : Packet) (m : Bytes)
      → (decrypt na s p).0 ≡ some m
      → (s.valid ≡ true)
        × (encrypted p ≡ true)
        × (is_for_us s p ≡ true)
        × (is_fresh s p.counter ≡ true)
        × (open_sealed na s.shared_key p.payload (associated_data p) ≡ some m)
        × ((decrypt na s p).1 ≡ received_at s p.counter)
  unfolding decrypt opened
  decrypt-tests s p m h = ground arith

  -- A packet that decrypts belongs to a valid session, is marked as encrypted, comes from the peer
  -- and is addressed to this end, has a counter above all that were accepted, and is authentic
  -- under the shared key; it moves the replay window to its counter, and nothing else in the
  -- session changes.
  pub decrypt-Accepts :
      (s : Session) (p : Packet) (m : Bytes)
      → (decrypt na s p).0 ≡ some m
      → Accepts s p m × ((decrypt na s p).1 ≡ received_at s p.counter)
  unfolding is_for_us is_fresh
  decrypt-Accepts s p m h =
      let (v, e, u, f, o, after) = decrypt-tests s p m h in
      (
        record {
          valid = v;
          marked = e;
          from_peer = ground (arith, bytes_eq_iff p.source s.remote_public);
          to_us = ground (arith, bytes_eq_iff p.destination s.local_public);
          above = λ r. ground arith;
          authentic = o;
        },
        after,
      )

  -- The tests are all there is: a packet that passes them decrypts.
  pub decrypt-passes :
      (s : Session) (p : Packet) (m : Bytes)
      → s.valid ≡ true
      → encrypted p ≡ true
      → is_for_us s p ≡ true
      → is_fresh s p.counter ≡ true
      → open_sealed na s.shared_key p.payload (associated_data p) ≡ some m
      → decrypt na s p ≡ (some m, received_at s p.counter)
  unfolding decrypt opened
  decrypt-passes s p m v e u f o = ground (arith, v, e, u, f, o)

  -- A packet that does not decrypt changes nothing in the session.
  pub decrypt-none : (s : Session) (p : Packet) → (decrypt na s p).0 ≡ none → (decrypt na s p).1 ≡ s
  unfolding decrypt opened
  decrypt-none s p h = ground arith

  -- Once a packet has been accepted, every packet whose counter is not greater is refused, the
  -- packet itself included, and leaves the session as it was.
  pub replay_refused :
      (s : Session) (p q : Packet) (m : Bytes)
      → (decrypt na s p).0 ≡ some m
      → q.counter ≤ p.counter
      → decrypt na (decrypt na s p).1 q ≡ (none, (decrypt na s p).1)
  replay_refused s p q m h le =
      rw (decrypt-Accepts s p m h).1 (unfold decrypt is_fresh in ground arith)

-- The counters of the list rise strictly, from above what the session has accepted.
abbrev pub Rising : Session → List (ℕ × Bytes) → Type 0
Rising s [] = Unit
Rising s ((n, m) ∷ rest) = Above s n × Rising (received_at s n) rest

pub noted : Option Bytes → ℕ → List (ℕ × Bytes) → List (ℕ × Bytes)
noted none counter rest = rest
noted (some m) counter rest = (counter, m) ∷ rest

module _ (na : Sodium) where
  -- The packets of a list in turn: the counter and the plaintext of each that is accepted.
  unfoldable pub receive_all : Session → List Packet → List (ℕ × Bytes)
  unfolding noted
  receive_all s [] = []
  receive_all s (p ∷ ps) = noted (decrypt na s p).0 p.counter (receive_all (decrypt na s p).1 ps)

  -- Whatever packets arrive, in whatever order and however often, those that a session accepts have
  -- strictly rising counters, the first above all that it had accepted before.
  pub receive_all-Rising : (s : Session) (ps : List Packet) → Rising s (receive_all s ps)
  unfolding receive_all
  receive_all-Rising s [] = tt
  receive_all-Rising s (p ∷ ps) = elim (Option-cases (decrypt na s p).0) [
    | inl e ↦ rw (e, decrypt-none na s p e) (receive_all-Rising s ps)
    | inr (m, e) ↦
        let (ok, after) = decrypt-Accepts na s p m e in
        rw (e, after) (ok.above, receive_all-Rising (received_at s p.counter) ps)
  ]
