-- ===== src/Comms/Coordinator/Signs.antt =====
-- The signature shares that the coordinator has collected when it aggregates them.
use mathlib.Core.List.{Mem}
use frost_tools.Prelude.{
  ℕ, ◌≡◌, refl, ap, sym, ◌∙◌, true, Option, some, List, [], ◌∷◌, ◌++◌, Map, keys, ok, ◌>>=◌, ◌>>◌,
  lift, gets, ok_or, or_default,
}
use frost_tools.Prelude.Contracts.{
  Ensures, ensures_then, ensures_pure, ensures_lift, ensures_gets, lift_keep,
}
use frost_tools.Api.{Uuid, Bytes, PublicKey, Msg}
use frost_tools.Client.Transport.{Transport}
use frost_tools.Client.Calls.{send, close_session, logout}
use frost_tools.Cipher.Snow.{Snow}
use frost_tools.Session.Suite.{Suite}
use frost_tools.Session.Columns.{AreColumns, columns_all}
use frost_tools.Session.Coordinator
use frost_tools.Session.Coordinator.{
  SessionArgs, State, identifier_eq, waiting_for_commitments, waiting_for_signature_shares,
  signature_shares_ready, recv, recv_all, signature_shares, has_signature_shares,
}
use frost_tools.Session.Coordinator.Invariant.{IsValid, run-IsValid}
use frost_tools.Session.Coordinator.Provenance.{Rows, IsFrom, new-IsFrom}
use frost_tools.Comms.Core.{json_error, from_session, calling}
use frost_tools.Comms.Arrivals.{Arrived}
use frost_tools.Comms.Polling.{from_session-ok, Accepts, Accepts-append}
use frost_tools.Comms.Frames.{
  calling-InState, expect_session_id-InState, expect_cipher-InState, encrypting-InState, Collected,
  polling-Collected,
}
use frost_tools.Comms.Payloads.{Payloads, SendSigningPackageArgs}
use frost_tools.Comms.Coordinator.{
  HttpComms, send_signing_packages, send_signing_package_and_get_signature_shares,
}
use frost_tools.Comms.Coordinator.Collects.{started, Accepts-recv_all, Accepts-IsFrom}

module _ (C : Suite) (n k : ℕ) (known : Map PublicKey C.Identifier) where
  open C use {Identifier, SignatureShare}

  -- The shares of the session's end, each of which one of the messages `ms` said, and `tables` has
  -- one map for each of the `n` messages to sign.
  pub record Completes (ms : List Msg) (s : State C) (tables : List (Map Identifier SignatureShare))
      : Type 0 where
    pub sent : Map Identifier (List SignatureShare)
    pub over : s ≡ signature_shares_ready (started C n k known) sent
    pub said : Rows ⦃e = identifier_eq C⦄ (λ m. Mem m ms) known C.read_signature_shares sent
    pub in_columns : AreColumns ⦃e = identifier_eq C⦄ n sent tables

  completes :
      (ms : List Msg) (s : State C) (tables : List (Map Identifier SignatureShare))
      → IsValid C s
      → IsFrom C (λ m. Mem m ms) (started C n k known) known s
      → has_signature_shares C s ≡ true
      → signature_shares C s ≡ ok tables
      → Completes ms s tables
  unfolding has_signature_shares signature_shares IsFrom
  completes ms (waiting_for_commitments args m p) tables v f all e = cc
  completes ms (waiting_for_signature_shares args m p shares) tables v f all e = cc
  completes ms (signature_shares_ready args m) tables v f all e =
      let (cs, is, at) = columns_all ⦃e = identifier_eq C⦄ args.num_messages m v in
      let out = rw (is, signature_shares) at e in
      let same : tables ≡ cs = cc in
      let count : args.num_messages ≡ n = ap SessionArgs.num_messages f.0 in
      record { sent = m; over = rw f.0 refl; said = f.1; in_columns = rw (same, sym count) at }

module _ (T : Transport) (S : Snow) (C : Suite) (P : Payloads C)
    (known : Map PublicKey C.Identifier) (n k rounds : ℕ) where
  open C use {Identifier, SignatureShare}
  open P use {SigningPackage, Randomizer}

  abbrev pub Ran : List Msg → State C → Type 0
  Ran ms s = Accepts (Arrived T S true) (recv C) ms (Coordinator.new C n k known) s

  -- The messages that the coordinator has decrypted and taken, and the shares in them.
  unfoldable pub Finishes : List (Map Identifier SignatureShare) → HttpComms T S C P → Type 0
  Finishes tables c = (ms : List Msg) × Ran ms c.state × Completes C n k known ms c.state tables

  module _ (s : State C) where
    abbrev At : State C → Option Identifier → Type 0
    At t i = t ≡ s

    sending :
        (outgoing : SendSigningPackageArgs SigningPackage Randomizer) (recipients : List PublicKey)
        → Ensures
            (λ c. At c.state c.identifier)
            (send_signing_packages T S C P outgoing recipients)
            (λ u c. At c.state c.identifier)
    unfolding send_signing_packages
    sending outgoing [] = ensures_pure tt (λ c h. h)
    sending outgoing (p ∷ ps) =
        ensures_then (lift_keep (ok_or (P.write_signing_package outgoing) json_error)) (λ payload.
          ensures_then (encrypting-InState T S At (some p) payload) (λ msg.
            ensures_then (expect_session_id-InState T S At) (λ id.
              ensures_then
                (calling-InState T S At
                  (send T (record { session_id = id; recipients = p ∷ []; msg = msg })))
                (λ u. sending outgoing ps))))

    abbrev Full : State C → Option Identifier → Type 0
    Full t i =
        ((ds : List Msg) × Accepts (Arrived T S true) (recv C) ds s t)
        × (has_signature_shares C t ≡ true)

    Full-Completes :
        (ms : List Msg) (c : HttpComms T S C P)
        → Ran ms s
        → Full c.state c.identifier
        → (tables : List (Map Identifier SignatureShare))
        → from_session T S (signature_shares C c.state) ≡ ok tables
        → Finishes tables c
    unfolding Finishes
    Full-Completes ms c before ((ds, taken), full) tables e =
        let ran = Accepts-append before taken in
        let v = rw (Accepts-recv_all C ran) at (run-IsValid C n k known (ms ++ ds)) in
        let from =
          Accepts-IsFrom C (λ m. Mem m (ms ++ ds)) (started C n k known) known (λ m i. i) ran
            (new-IsFrom C (λ m. Mem m (ms ++ ds)) (started C n k known) known) in
        (
          ms ++ ds,
          ran,
          completes C n k known (ms ++ ds) c.state tables v from full
              (from_session-ok T S (signature_shares C c.state) e),
        )

    ending :
        (ms : List Msg) (id : Uuid)
        → Ran ms s
        → Ensures
            (λ c. Full c.state c.identifier)
            (calling T S (close_session T id)
              >> (calling T S (logout T)
                  >> (gets (λ c. signature_shares C c.state) >>= λ result.
                      lift (from_session T S result))))
            Finishes
    ending ms id before = ensures_then (calling-InState T S Full (close_session T id)) (λ u.
        ensures_then (calling-InState T S Full (logout T)) (λ v.
          ensures_then
            (ensures_gets {Q = λ r c. Full c.state c.identifier × (signature_shares C c.state ≡ r)}
              (λ c. signature_shares C c.state) (λ c h. (h, refl)))
            (λ result. ensures_lift (from_session T S result) (λ c h tables e.
              Full-Completes ms c before h.0 tables (ap (from_session T S) h.1 ∙ e)))))

    signs :
        (ms : List Msg) (packages : List SigningPackage) (randomizers : Option (List Randomizer))
        (aux_msg : Option Bytes)
        → Ran ms s
        → Ensures
            (λ c. At c.state c.identifier)
            (send_signing_package_and_get_signature_shares T S C P rounds packages randomizers
              aux_msg)
            Finishes
    unfolding send_signing_package_and_get_signature_shares Collected
    signs ms packages randomizers aux_msg before = ensures_then (expect_cipher-InState T S At) (λ u.
        ensures_then
          (ensures_gets {Q = λ ps c. At c.state c.identifier} (λ c. keys c.pubkeys) (λ c h. h))
          (λ recipients.
            ensures_then
              (sending
                (record {
                  signing_package = packages;
                  aux_msg = or_default aux_msg;
                  randomizer = or_default randomizers;
                })
                recipients)
              (λ v. ensures_then (expect_session_id-InState T S At) (λ id.
                ensures_then
                  (polling-Collected T S (recv C) (has_signature_shares C)
                    (record { session_id = id; as_coordinator = true }) rounds s)
                  (λ w. ending ms id before)))))

  -- When the coordinator returns the signature shares, having taken the messages `ms` before, the
  -- session is over: its state is what `ms`, and messages after them that the server returned to
  -- `receive` and that snow opened, have made of a new one. Each row of shares is what a message
  -- of that signer says, and there is one map for each message to sign.
  pub send_signing_package_and_get_signature_shares_lem :
      (ms : List Msg) (packages : List SigningPackage) (randomizers : Option (List Randomizer))
      (aux_msg : Option Bytes) (c d : HttpComms T S C P)
      (tables : List (Map Identifier SignatureShare))
      → Ran ms c.state
      → send_signing_package_and_get_signature_shares T S C P rounds packages randomizers aux_msg c
        ≡ (ok tables, d)
      → Finishes tables d
  send_signing_package_and_get_signature_shares_lem ms packages randomizers aux_msg c d tables
        before e =
      (signs c.state ms packages randomizers aux_msg before).ensured c refl tables d e
