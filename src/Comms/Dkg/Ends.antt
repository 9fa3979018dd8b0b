-- ===== src/Comms/Dkg/Ends.antt =====
-- The end of the DKG over HTTP: the second round, and the participants' keys.
use mathlib.Core.Path.{subst}
use frost_tools.Prelude.{ℕ, ◌≡◌, refl, ◌∙◌, true, Option, some, List, Map, is_empty, ok}
use frost_tools.Prelude.Contracts.{
  Ensures, ensures_then, ensures_lift, ensures_gets, ensures_unless,
}
use frost_tools.Api.{Msg}
use frost_tools.Client.Transport.{Transport}
use frost_tools.Client.Calls.{close_session, logout}
use frost_tools.Cipher.Snow.{Snow}
use frost_tools.Session.Suite.{Suite}
use frost_tools.Session.Dkg.{
  State, Pubkeys, waiting_for_round1_packages, waiting_for_round2_packages,
  waiting_for_round1_packages_broadcast, round2_packages_ready, round2_packages,
  has_round2_packages,
}
use frost_tools.Session.Dkg.Agreement.{Run}
use frost_tools.Session.Dkg.Agreement.Rounds.{ready-pubkeys}
use frost_tools.Comms.Core.{from_session}
use frost_tools.Comms.Polling.{from_session-ok}
use frost_tools.Comms.Frames.{
  InState, calling-InState, expect_session_id-InState, expect_cipher-InState,
}
use frost_tools.Comms.Payloads.{Payloads}
use frost_tools.Comms.Dkg.{Args, HttpComms, get_round2_packages, get_pubkey_identifier_map}
use frost_tools.Comms.Dkg.Running.{send_round2-Kept, AllArrived, Ran, InRun, wait_until-Ran}

module _ (T : Transport) (S : Snow) (C : Suite) (P : Payloads C) (me : C.Identifier)
    (pubkeys : Pubkeys C) where
  open C use {Identifier, Round2Package}

  -- All second-round packages are there.
  abbrev Full : State C → Option Identifier → Type 0
  Full s i = Ran T S C P me pubkeys s i × (has_round2_packages C s ≡ true)

  ended :
      (ms : List Msg) (s : State C) (r2 : Map Identifier Round2Package)
      → Run C me pubkeys ms s
      → has_round2_packages C s ≡ true
      → round2_packages C s ≡ ok r2
      → s ≡ round2_packages_ready pubkeys r2
  unfolding has_round2_packages round2_packages
  ended ms (waiting_for_round1_packages ps r1) r2 r all e = cc
  ended ms (waiting_for_round1_packages_broadcast ps r1 bs) r2 r all e = cc
  ended ms (waiting_for_round2_packages ps r1 q2) r2 r all e = cc
  ended ms (round2_packages_ready ps q2) r2 r all e =
      let known : ps ≡ pubkeys = ready-pubkeys C me pubkeys ps q2 r in
      let same : q2 ≡ r2 = cc in rw (known, same) refl

  ends :
      (rounds : ℕ) (args : Args T S C P) (packages : Map Identifier Round2Package)
      → Ensures
          (InRun T S C P me pubkeys)
          (get_round2_packages T S C P rounds args packages)
          (λ r2 c. InRun T S C P me pubkeys c × (c.state ≡ round2_packages_ready pubkeys r2))
  unfolding get_round2_packages
  ends rounds args packages =
      ensures_then (expect_cipher-InState T S (Ran T S C P me pubkeys)) (λ u.
        ensures_then (ensures_gets {Q = λ ps. InRun T S C P me pubkeys} (λ c. c.pubkeys) (λ c h. h))
          (λ ps.
            ensures_then (send_round2-Kept T S C P (Ran T S C P me pubkeys) args packages ps) (λ v.
              ensures_then (wait_until-Ran T S C P me pubkeys rounds (has_round2_packages C)) (λ w.
                ensures_then (expect_session_id-InState T S Full) (λ id.
                  ensures_then
                    (ensures_unless {Q = λ x. InState T S Full} (is_empty args.participants)
                      (λ c h e. h) (λ e. calling-InState T S Full (close_session T id)))
                    (λ x. ensures_then (calling-InState T S Full (logout T)) (λ y.
                      ensures_then
                        (ensures_gets
                          {Q = λ r c. Full c.state c.identifier × (round2_packages C c.state ≡ r)}
                          (λ c. round2_packages C c.state) (λ c h. (h, refl)))
                        (λ result. ensures_lift (from_session T S result) (λ c h r2 e.
                          let ((ran, all), is) = h in
                          (
                            ran,
                            ended ran.0.0 c.state r2 ran.0.1 all
                                (is ∙ from_session-ok T S result e),
                          ))))))))))

  -- The second-round packages are what the session has made of messages that were received.
  abbrev pub Finished : Map Identifier Round2Package → Type 0
  Finished r2 =
      (ms : List Msg) × Run C me pubkeys ms (round2_packages_ready pubkeys r2)
      × AllArrived T S C P me pubkeys ms

  -- The second round returns the packages of its last state, and the keys of the participants are
  -- then those that the session began with.
  pub get_round2_packages_lem :
      (ms : List Msg) (rounds : ℕ) (args : Args T S C P)
      (packages r2 : Map Identifier Round2Package) (c d : HttpComms T S C P)
      → Run C me pubkeys ms c.state
      → AllArrived T S C P me pubkeys ms
      → c.identifier ≡ some me
      → get_round2_packages T S C P rounds args packages c ≡ (ok r2, d)
      → (d.state ≡ round2_packages_ready pubkeys r2)
        × Finished r2
        × (get_pubkey_identifier_map T S C P d ≡ ok pubkeys)
  unfolding get_pubkey_identifier_map
  get_round2_packages_lem ms rounds args packages r2 c d run arrived mine e =
      let (ran, is) = (ends rounds args packages).ensured c ((ms, run, arrived), mine) r2 d e in
      let (ns, went, all) = ran.0 in
      (
        is,
        (ns, subst (λ s. Run C me pubkeys ns s) is went, all),
        rw (is, get_pubkey_identifier_map) refl,
      )
