-- ===== src/Comms/Dkg/Running.antt =====
-- What the steps of the DKG over HTTP leave alone, and what waiting adds to a run.
use mathlib.Core.Path.{subst}
use frost_tools.Prelude.{
  bind, ℕ, ◌≡◌, refl, ap, sym, ◌∙◌, Bool, true, false, Option, some, List, [], ◌∷◌, Map, get,
  Outcome, ok_or, ◌==◌,
}
use frost_tools.Prelude.Contracts.{
  Ensures, ensures_then, ensures_pure, ensures_gets, lift_keep, ensures_unless,
}
use frost_tools.Api.{Bytes, PublicKey, public_key_eq, Msg}
use frost_tools.Client.Transport.{Transport}
use frost_tools.Client.Calls.{send}
use frost_tools.Cipher.Snow.{Snow}
use frost_tools.Session.Suite.{Suite}
use frost_tools.Session.Dkg.{State, Pubkeys, recv, round1_packages}
use frost_tools.Session.Dkg.Agreement.{Run, next}
use frost_tools.Comms.Core.{CommsError, message, json_error, from_session}
use frost_tools.Comms.Arrivals.{Arrived}
use frost_tools.Comms.Polling.{Accepts, none_left, accept}
use frost_tools.Comms.Frames.{
  InState, calling-InState, expect_session_id-InState, encrypting-InState, Collected,
  polling-Collected, polling-identifier,
}
use frost_tools.Comms.Payloads.{Payloads}
use frost_tools.Comms.Dkg.{
  identifier_eq, Args, HttpComms, is_own, recv_as, send_to, send_round1, send_round2, echo_to,
  echo_all, wait_until,
}

module _ (T : Transport) (S : Snow) (C : Suite) (P : Payloads C) where
  open C use {Identifier, Round1Package, Round2Package}

  -- Sending changes neither the session state nor the identifier.
  module _ (I : State C → Option Identifier → Type 0) where
    abbrev pub Kept : HttpComms T S C P → Type 0
    Kept = InState T S I

    pub send_to-Kept :
        (p : PublicKey) (payload : Outcome (CommsError T S) Bytes)
        → Ensures Kept (send_to T S C P p payload) (λ u. Kept)
    unfolding send_to
    send_to-Kept p payload = ensures_then (lift_keep payload) (λ clear.
        ensures_then (encrypting-InState T S I (some p) clear) (λ msg.
          ensures_then (expect_session_id-InState T S I) (λ id.
            calling-InState T S I
              (send T (record { session_id = id; recipients = p ∷ []; msg = msg })))))

    pub send_round1-Kept :
        (args : Args T S C P) (pkg : Round1Package) (ps : List PublicKey)
        → Ensures Kept (send_round1 T S C P args pkg ps) (λ u. Kept)
    unfolding send_round1
    send_round1-Kept args pkg [] = ensures_pure tt (λ c h. h)
    send_round1-Kept args pkg (p ∷ ps) =
        ensures_then
          (ensures_unless {Q = λ u. Kept} (is_own args.comm_pubkey p) (λ c h e. h)
            (λ e. send_to-Kept p (ok_or (P.write_round1_package pkg) json_error)))
          (λ u. send_round1-Kept args pkg ps)

    pub echo_to-Kept :
        (p : PublicKey) (recipient : Identifier) (packages : Map Identifier Round1Package)
        → Ensures Kept (echo_to T S C P p recipient packages) (λ u. Kept)
    unfolding echo_to
    echo_to-Kept p recipient [] = ensures_pure tt (λ c h. h)
    echo_to-Kept p recipient ((sender, pkg) ∷ rest) =
        ensures_then
          (ensures_unless {Q = λ u. Kept} (◌==◌ ⦃e = identifier_eq T S C P⦄ sender recipient)
            (λ c h e. h) (λ e. send_to-Kept p (ok_or (P.write_broadcast (sender, pkg)) json_error)))
          (λ u. echo_to-Kept p recipient rest)

    pub echo_all-Kept :
        (args : Args T S C P) (m : Map PublicKey Identifier)
        → Ensures Kept (echo_all T S C P args m) (λ u. Kept)
    unfolding echo_all
    echo_all-Kept args [] = ensures_pure tt (λ c h. h)
    echo_all-Kept args ((p, recipient) ∷ rest) =
        ensures_then
          (ensures_unless {Q = λ u. Kept} (is_own args.comm_pubkey p) (λ c h e. h)
            (λ e.
              ensures_then
                (ensures_gets {Q = λ r. Kept} (λ c. round1_packages C c.state) (λ c h. h))
                (λ r.
                  ensures_then (lift_keep (from_session T S r))
                    (λ packages. echo_to-Kept p recipient packages))))
          (λ u. echo_all-Kept args rest)

    pub send_round2-Kept :
        (args : Args T S C P) (packages : Map Identifier Round2Package)
        (m : Map PublicKey Identifier)
        → Ensures Kept (send_round2 T S C P args packages m) (λ u. Kept)
    unfolding send_round2
    send_round2-Kept args packages [] = ensures_pure tt (λ c h. h)
    send_round2-Kept args packages ((p, id) ∷ rest) =
        ensures_then
          (ensures_unless {Q = λ u. Kept} (is_own args.comm_pubkey p) (λ c h e. h)
            (λ e. send_to-Kept p (
              bind
                (ok_or (get ⦃e = identifier_eq T S C P⦄ packages id)
                  (message "must have Round 2 Package for the given identifier"))
                (λ pkg. ok_or (P.write_round2_package pkg) json_error))))
          (λ u. send_round2-Kept args packages rest)

  module _ (me : Identifier) (pubkeys : Pubkeys C) where
    -- Each of the messages was received from the server and decrypted.
    abbrev pub AllArrived : List Msg → Type 0
    AllArrived [] = Unit
    AllArrived (m ∷ ms) = Arrived T S false m × AllArrived ms

    -- The session state comes from received messages alone.
    abbrev pub Ran : State C → Option Identifier → Type 0
    Ran s i = ((ms : List Msg) × Run C me pubkeys ms s × AllArrived ms) × (i ≡ some me)

    abbrev pub InRun : HttpComms T S C P → Type 0
    InRun c = Ran c.state c.identifier

    Accepts-Run :
        {ds ms : List Msg} {s t : State C}
        → Accepts (Arrived T S false) (recv_as T S C P (some me)) ds s t
        → Run C me pubkeys ms s
        → AllArrived ms
        → (ns : List Msg) × Run C me pubkeys ns t × AllArrived ns
    Accepts-Run {ms} none_left r h = (ms, r, h)
    Accepts-Run {ms} (accept {m} {s} {t} d e a) r h =
        let same : (recv C me m s).1 ≡ t = ap (λ x. x.1) e in
        Accepts-Run a (subst (λ u. Run C me pubkeys (m ∷ ms) u) same (next r m)) (d, h)

    pub wait_until-Ran :
        (rounds : ℕ) (done : State C → Bool)
        → Ensures InRun (wait_until T S C P rounds done) (λ u c. InRun c × (done c.state ≡ true))
    unfolding wait_until Collected
    wait_until-Ran rounds done = ensures_then (expect_session_id-InState T S Ran) (λ id.
        ensures_then
          (ensures_gets {Q = λ i c. InRun c × (c.identifier ≡ i)} (λ c. c.identifier)
            (λ c h. (h, refl)))
          (λ i. record {
            ensured = λ c h a t e.
                let ((run, mine), is) = h in
                let ((ds, taken), all) =
                  (polling-Collected T S (recv_as T S C P i) done
                      (record { session_id = id; as_coordinator = false }) rounds c.state).ensured
                    c refl a t e in
                let kept =
                  (polling-identifier T S (recv_as T S C P i) done
                      (record { session_id = id; as_coordinator = false }) rounds
                      c.identifier).ensured
                    c refl a t e in
                let i_is : i ≡ some me = sym is ∙ mine in
                (
                  (
                    Accepts-Run
                        (subst
                          (λ j. Accepts (Arrived T S false) (recv_as T S C P j) ds c.state t.state)
                          i_is taken)
                        run.1 run.2,
                    kept ∙ mine,
                  ),
                  all,
                );
          }))
