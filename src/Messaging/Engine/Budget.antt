-- ===== src/Messaging/Engine/Budget.antt =====
-- Hole punching ends: how many probes an `Engine` sends, and what a confirmed path is worth.
use openmesh_messenger.Base.{
  ℕ, ◌+◌, ◌-◌, ◌≤◌, ◌≡◌, refl, ◌∙◌, inl, inr, true, false, List, [], ◌∷◌, ◌++◌, map, arith, Bytes,
  length, length-append, All, bytes_eq_iff, if◌then◌else◌, Bool-cases,
}
use openmesh_messenger.Base.Assoc.{Assoc, find, insert_or_assign, find-insert}
use openmesh_messenger.Base.Int.{ℤ}
use openmesh_messenger.Core.Hex.{to_hex}
use openmesh_messenger.Crypto.Sodium.{Sodium}
use openmesh_messenger.Messaging.Engine.{
  Probe, Host, is_confirmed, probe_or_blank, has_direct_path, transmit,
}
use openmesh_messenger.Messaging.Engine.Paths.{
  max_probes, is_due, probe_packet, send_probe, tick_each, tick,
}
use openmesh_messenger.Messaging.Engine.Steps.{Call, step, run, ticks}
use openmesh_messenger.Messaging.Engine.Probes.{IsKept, first_probe, confirmed_probe, run-keeps}
use openmesh_messenger.Net.Datagram.{Delivery, Transmission}
use openmesh_messenger.Protocol.Wire.{serialize}
use openmesh_messenger.Storage.Disk.{Disk}

-- The probes that `tick` may still send.
abbrev pub remaining : Probe → ℕ
remaining p = if p.confirmed then 0 else max_probes - p.attempts

abbrev pub budget : Assoc Probe → ℕ
budget [] = 0
budget ((key, p) ∷ m) = remaining p + budget m

abbrev pub IsBounded : Assoc Probe → Type 0
IsBounded = All (λ (e : Bytes × Probe). e.1.attempts ≤ max_probes)

insert-IsBounded :
    (key : Bytes) (p : Probe) (m : Assoc Probe)
    → p.attempts ≤ max_probes
    → IsBounded m
    → IsBounded (insert_or_assign key p m)
unfolding insert_or_assign
insert-IsBounded key p [] h b = (h, tt)
insert-IsBounded key p ((j, q) ∷ m) h b = ground (arith, h, b, insert-IsBounded key p m h b.1)

find-IsBounded :
    (key : Bytes) (m : Assoc Probe)
    → IsBounded m
    → (probe_or_blank (find key m)).attempts ≤ max_probes
unfolding find
find-IsBounded key [] b = omega arith
find-IsBounded key ((j, q) ∷ m) b = ground (arith, b, find-IsBounded key m b.1)

due-open :
    (now : ℤ) (p : Probe)
    → is_due now p ≡ true
    → (p.confirmed ≡ false) × (p.attempts + 1 ≤ max_probes)
unfolding is_due
due-open now p due = ground (arith, due)

module _ (na : Sodium) (disk : Disk) (random : ℕ → Bytes) (delivers : Delivery) where
  tick-IsBounded :
      (now : ℤ) (m : Assoc Probe) (h : Host disk)
      → IsBounded m
      → IsBounded (tick_each na disk random delivers now m h).0
  unfolding tick_each
  tick-IsBounded now [] h b = tt
  tick-IsBounded now ((key, p) ∷ m) h b =
      let h' =
        if is_due now p then send_probe na disk random delivers p.peer p.candidate h else h in
      elim (Bool-cases (is_due now p)) [
        | inl due ↦ (rw due (omega (arith, due-open now p due)), tick-IsBounded now m h' b.1)
        | inr rests ↦ (rw rests b.0, tick-IsBounded now m h' b.1)
      ]

  confirmed-tick :
      (k : Bytes) (now : ℤ) (m : Assoc Probe) (h : Host disk)
      → is_confirmed (find k m) ≡ true
      → is_confirmed (find k (tick_each na disk random delivers now m h).0) ≡ true
  unfolding tick_each find
  confirmed-tick k now [] h c = c
  confirmed-tick k now ((key, p) ∷ m) h c =
      let h' =
        if is_due now p then send_probe na disk random delivers p.peer p.candidate h else h in
      ground (arith, c, due-open now p, confirmed-tick k now m h')

  tick_each-budget :
      (now : ℤ) (m : Assoc Probe) (h : Host disk)
      → let (m', h') = tick_each na disk random delivers now m h in
        length h'.out + budget m' ≡ length h.out + budget m
  unfolding tick_each send_probe transmit
  tick_each-budget now [] h = refl
  tick_each-budget now ((key, p) ∷ m) h =
      let t : Transmission = record {
        to = p.candidate;
        content = serialize (probe_packet h.engine p.peer);
      } in
      elim (Bool-cases (is_due now p)) [
        | inl due ↦
            let (unconfirmed, few) = due-open now p due in
            rw (due, unconfirmed)
              (omega (
                arith,
                tick_each-budget now m (record h { out = h.out ++ (t ∷ []) }),
                length-append h.out (t ∷ []),
                few,
              ))
        | inr rests ↦ rw rests (omega (arith, tick_each-budget now m h))
      ]

  -- A direct path to a peer, once confirmed, is confirmed after any further calls.
  pub direct_path_is_kept :
      (calls : List Call) (h : Host disk) (k : Bytes)
      → has_direct_path h.engine k ≡ true
      → has_direct_path (run na disk random delivers calls h).engine k ≡ true
  unfolding has_direct_path
  direct_path_is_kept calls h k direct =
      let I : Assoc Probe → Type 0 = λ m. is_confirmed (find (to_hex k) m) ≡ true in
      let kept : IsKept na disk random delivers I = record {
        started = λ m peer e now fresh i. ground (
          arith,
          find-insert (to_hex peer) (to_hex k) (first_probe peer e now) m,
          bytes_eq_iff (to_hex peer) (to_hex k),
          fresh,
          i,
        );
        heard = λ m peer i. ground (
          arith,
          find-insert (to_hex peer) (to_hex k) (confirmed_probe peer (find (to_hex peer) m)) m,
          i,
        );
        ticked = λ now m h i. confirmed-tick (to_hex k) now m h i;
      } in
      run-keeps na disk random delivers I kept calls h direct

  -- No probe is ever counted beyond the limit of 12 attempts: if none is at the start, none is
  -- after any calls.
  pub attempts_within_limit :
      (calls : List Call) (h : Host disk)
      → IsBounded h.engine.probes
      → IsBounded (run na disk random delivers calls h).engine.probes
  attempts_within_limit calls h b =
      let kept : IsKept na disk random delivers IsBounded = record {
        started = λ m peer e now fresh i.
            insert-IsBounded (to_hex peer) (first_probe peer e now) m (omega arith) i;
        heard = λ m peer i.
            insert-IsBounded (to_hex peer) (confirmed_probe peer (find (to_hex peer) m)) m
              (find-IsBounded (to_hex peer) m i) i;
        ticked = tick-IsBounded;
      } in
      run-keeps na disk random delivers IsBounded kept calls h b

  tick-budget :
      (now : ℤ) (h : Host disk)
      → let h' = tick na disk random delivers now h in
        length h'.out + budget h'.engine.probes ≡ length h.out + budget h.engine.probes
  unfolding tick
  tick-budget now h = tick_each-budget now h.engine.probes h

  -- However often an engine ticks, the datagrams it sends and the probes it has left add up to what
  -- was left at the start, which is none for a confirmed path and otherwise 12 less the attempts
  -- made, so that it sends no more than that.
  pub ticks_spend_the_budget :
      (clocks : List ℤ) (h : Host disk)
      → let h' = run na disk random delivers (map ticks clocks) h in
        length h'.out + budget h'.engine.probes ≡ length h.out + budget h.engine.probes
  unfolding run step
  ticks_spend_the_budget [] h = refl
  ticks_spend_the_budget (now ∷ clocks) h =
      ticks_spend_the_budget clocks (tick na disk random delivers now h) ∙ tick-budget now h
