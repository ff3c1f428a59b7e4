-- ===== src/Tests/Paths.antt =====
-- Histories of an engine: a contact that was asked, and a peer that is probed.
use openmesh_messenger.Base.{
  ◌+◌, ◌≡◌, refl, arith, true, false, ◌||◌, some, [], ◌∷◌, map, length, bytes_eq,
}
use openmesh_messenger.Base.Assoc.{find}
use openmesh_messenger.Base.Int.{pos}
use openmesh_messenger.Core.Hex.{to_hex}
use openmesh_messenger.Messaging.Engine.{Host, Probe, has_direct_path}
use openmesh_messenger.Messaging.Engine.Budget.{
  IsBounded, budget, direct_path_is_kept, attempts_within_limit, ticks_spend_the_budget,
}
use openmesh_messenger.Messaging.Engine.Consent.{any_decision, contacts_are_by_consent}
use openmesh_messenger.Messaging.Engine.Grows.{is_contact, is_asked}
use openmesh_messenger.Messaging.Engine.Steps.{polls, ticks, connects, run, step}
use openmesh_messenger.Net.Endpoint.{Endpoint}
use openmesh_messenger.Tests.Disk.{toy_disk}
use openmesh_messenger.Tests.Engine.{host, random, delivers, answer, now_accepted}
use openmesh_messenger.Tests.Toy.{toy}

abbrev bob_at : Endpoint
bob_at = record { host = b'b' ∷ []; port = 4000 }

-- A probe under way, and one that was answered.
abbrev probing : Probe
probing = record {
  peer = 2 ∷ [];
  candidate = bob_at;
  confirmed = false;
  attempts = 3;
  last = pos 0;
}

abbrev probing_host : Host toy_disk
probing_host = record host {
  engine = record host.engine { probes = (to_hex (2 ∷ []), probing) ∷ [] };
}

abbrev pub direct_host : Host toy_disk
direct_host = record host {
  engine = record host.engine {
    probes = (to_hex (2 ∷ []), record probing { confirmed = true }) ∷ [];
  };
}

contacts_are_by_consent_example :
    ((is_contact toy toy_disk random delivers (2 ∷ []) host
        || is_asked toy toy_disk random delivers (2 ∷ []) host)
      || any_decision (2 ∷ []) (polls (some answer) (pos 5) (pos 6) ∷ []))
    ≡ true
unfolding run step
contacts_are_by_consent_example =
    contacts_are_by_consent toy toy_disk random delivers (polls (some answer) (pos 5) (pos 6) ∷ [])
      host (2 ∷ []) now_accepted

direct_path_is_kept_example :
    has_direct_path
      (run toy toy_disk random delivers
        (connects (2 ∷ []) bob_at (pos 9) ∷ ticks (pos 900) ∷ [])
        direct_host).engine
      (2 ∷ [])
    ≡ true
direct_path_is_kept_example =
    direct_path_is_kept toy toy_disk random delivers
      (connects (2 ∷ []) bob_at (pos 9) ∷ ticks (pos 900) ∷ []) direct_host (2 ∷ [])
      (unfold has_direct_path find to_hex bytes_eq in refl)

attempts_within_limit_example :
    IsBounded (run toy toy_disk random delivers (ticks (pos 900) ∷ []) probing_host).engine.probes
attempts_within_limit_example =
    attempts_within_limit toy toy_disk random delivers (ticks (pos 900) ∷ []) probing_host
      (omega arith, tt)

ticks_spend_the_budget_example :
    let h' = run toy toy_disk random delivers (map ticks (pos 900 ∷ pos 1900 ∷ [])) probing_host in
    length h'.out + budget h'.engine.probes
    ≡ length probing_host.out + budget probing_host.engine.probes
ticks_spend_the_budget_example =
    ticks_spend_the_budget toy toy_disk random delivers (pos 900 ∷ pos 1900 ∷ []) probing_host
