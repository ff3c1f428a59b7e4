-- ===== src/Cli/ChatApp/Reports.antt =====
-- `ChatApp::report_direct_paths` of cli/src/main.cpp over several calls.
use openmesh_messenger.Base.{
  ℕ, ◌≡◌, refl, ◌∙◌, Bool, true, not, ◌&&◌, ◌||◌, [], ◌∷◌, Bytes, arith, is_some, Bool-cases, inl,
  inr, bytes_eq, bytes_eq_refl, All, subst, sym,
}
use openmesh_messenger.Base.Assoc.{Assoc, find, insert_or_assign, find-insert}
use openmesh_messenger.Cli.ChatApp.{ChatApp}
use openmesh_messenger.Cli.ChatApp.Run.{report, report_each, report_direct_paths}
use openmesh_messenger.Core.Hex.{to_hex}
use openmesh_messenger.Crypto.Sodium.{Sodium}
use openmesh_messenger.Messaging.Engine.{has_direct_path}
use openmesh_messenger.Net.Datagram.{Delivery}
use openmesh_messenger.Storage.Disk.{Disk}

inserted :
    (k j : Bytes) (m : Assoc (Unit {0}))
    → is_some (find j (insert_or_assign k tt m)) ≡ (bytes_eq k j || is_some (find j m))
inserted k j m = ground (arith, find-insert k j tt m)

module _ (na : Sodium) (disk : Disk) (random : ℕ → Bytes) (delivers : Delivery) where
  abbrev is_announced : ChatApp disk → Bytes → Bool
  is_announced a peer = is_some (find (to_hex peer) a.direct_announced)

  -- A report changes neither the engine nor the names, and takes no announcement back.
  IsLater : ChatApp disk → ChatApp disk → Type 0
  IsLater a a' =
      (a'.host ≡ a.host)
      × (a'.name_to_pk ≡ a.name_to_pk)
      × ((q : Bytes) → is_announced a q ≡ true → is_announced a' q ≡ true)

  report-IsLater :
      (name peer : Bytes) (a : ChatApp disk)
      → IsLater a (report na disk random delivers name peer a)
  unfolding IsLater report
  report-IsLater name peer a =
      elim (Bool-cases (has_direct_path a.host.engine peer && not (is_announced a peer))) [
        | inl told ↦ rw told (
          refl,
          refl,
          λ q h. rw (inserted (to_hex peer) (to_hex q) a.direct_announced) (ground (arith, h)),
        )
        | inr quiet ↦ rw quiet (refl, refl, λ q h. h)
      ]

  report-announces :
      (name peer : Bytes) (a : ChatApp disk)
      → has_direct_path a.host.engine peer ≡ true
      → is_announced (report na disk random delivers name peer a) peer ≡ true
  unfolding report
  report-announces name peer a direct = elim (Bool-cases (is_announced a peer)) [
    | inl before ↦ rw (direct, before) before
    | inr new ↦
        rw (direct, new)
          (rw (inserted (to_hex peer) (to_hex peer) a.direct_announced)
            (rw (bytes_eq_refl (to_hex peer)) refl))
  ]

  -- Every listed peer with a direct path has been announced.
  IsReported : Assoc Bytes → ChatApp disk → Type 0
  IsReported peers a =
      All
        (λ (e : Bytes × Bytes).
          has_direct_path a.host.engine e.1 ≡ true → is_announced a e.1 ≡ true)
        peers

  report_each-IsLater :
      (peers : Assoc Bytes) (a : ChatApp disk)
      → IsLater a (report_each na disk random delivers peers a)
  unfolding IsLater report_each
  report_each-IsLater [] a = (refl, refl, λ q h. h)
  report_each-IsLater ((name, peer) ∷ peers) a =
      let a1 = report na disk random delivers name peer a in
      let (h1, n1, t1) = report-IsLater name peer a in
      let (h2, n2, t2) = report_each-IsLater peers a1 in (h2 ∙ h1, n2 ∙ n1, λ q h. t2 q (t1 q h))

  report_each-IsReported :
      (peers : Assoc Bytes) (a : ChatApp disk)
      → IsReported peers (report_each na disk random delivers peers a)
  unfolding IsReported report_each IsLater
  report_each-IsReported [] a = tt
  report_each-IsReported ((name, peer) ∷ peers) a =
      let a1 = report na disk random delivers name peer a in
      let (h1, n1, t1) = report-IsLater name peer a in
      let (h2, n2, t2) = report_each-IsLater peers a1 in
      (
        (λ direct. t2 peer (report-announces name peer a (rw (h2 ∙ h1) at direct))),
        report_each-IsReported peers a1,
      )

  report_each-quiet :
      (peers : Assoc Bytes) (a : ChatApp disk)
      → IsReported peers a
      → report_each na disk random delivers peers a ≡ a
  unfolding IsReported report_each report
  report_each-quiet [] a h = refl
  report_each-quiet ((name, peer) ∷ peers) a h =
      elim (Bool-cases (has_direct_path a.host.engine peer)) [
        | inl direct ↦ rw (direct, h.0 direct) (report_each-quiet peers a h.1)
        | inr relayed ↦ rw relayed (report_each-quiet peers a h.1)
      ]

  -- The line client announces a direct connection once: right after `report_direct_paths`, in any
  -- state, another call prints nothing and changes nothing.
  pub report_direct_paths_idempotent :
      (a : ChatApp disk)
      → let a' = report_direct_paths na disk random delivers a in
        report_direct_paths na disk random delivers a' ≡ a'
  unfolding report_direct_paths IsLater
  report_direct_paths_idempotent a =
      let a' = report_each na disk random delivers a.name_to_pk a in
      let (h, n, t) = report_each-IsLater a.name_to_pk a in
      report_each-quiet a'.name_to_pk a'
        (subst (λ peers. IsReported peers a') (sym n) (report_each-IsReported a.name_to_pk a))
