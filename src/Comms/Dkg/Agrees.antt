-- ===== src/Comms/Dkg/Agrees.antt =====
-- What a participant knows when the first round over HTTP is over.
use mathlib.Core.Path.{subst, subst⁻¹}
use frost_tools.Prelude.{
  ℕ, ◌-◌, ◌<◌, ◌≡◌, ◌≢◌, refl, ap, sym, ◌∙◌, true, some, List, [], Map, keys, get, is_some, length,
  ok, ◌>>=◌, ◌>>◌, lift, gets, unless, ok_or,
}
use frost_tools.Prelude.Contracts.{
  Ensures, ensures_then, ensures_lift, ensures_gets, ensures_modify, lift_keep, ensures_unless,
  ensures_weaker,
}
use frost_tools.Api.{public_key_eq, Msg}
use frost_tools.Client.Transport.{Transport}
use frost_tools.Cipher.Snow.{Snow}
use frost_tools.Cipher.Peers
use frost_tools.Session.Suite.{Suite}
use frost_tools.Session.Dkg.{
  State, Pubkeys, Packages, waiting_for_round1_packages, waiting_for_round2_packages,
  waiting_for_round1_packages_broadcast, round2_packages_ready, round1_packages,
  has_round1_packages, has_round1_broadcast_packages,
}
use frost_tools.Session.Dkg.Agreement.{Run, start, Sent, Echoed}
use frost_tools.Session.Dkg.Agreement.Rounds.{agreement, Run-pubkeys, Run-count}
use frost_tools.Comms.Core.{message, from_session, from_cipher}
use frost_tools.Comms.Payloads.{Payloads}
use frost_tools.Comms.Dkg.{
  identifier_eq, Args, HttpComms, echo_broadcast, known_keys, get_round1_packages,
}
use frost_tools.Comms.Dkg.Running.{
  send_round1-Kept, echo_all-Kept, AllArrived, Ran, InRun, wait_until-Ran,
}

module _ (T : Transport) (S : Snow) (C : Suite) (P : Payloads C) where
  open C use {Identifier, Round1Package, Round2Package}

  module _ (me : Identifier) (pubkeys : Pubkeys C) where
    abbrev In : HttpComms T S C P → Type 0
    In = InRun T S C P me pubkeys

    -- What the returned packages are.
    unfoldable pub Agreed : Packages C → HttpComms T S C P → Type 0
    Agreed r1 c =
        (ms : List Msg) × (r2 : Map Identifier Round2Package) × Run C me pubkeys ms c.state
        × AllArrived T S C P me pubkeys ms
        × (length r1 ≡ length pubkeys - 1)
        × (c.state ≡ waiting_for_round2_packages pubkeys r1 r2)
        × (c.identifier ≡ some me)
        × ((o j : Identifier) (pkg : Round1Package)
            → 2 < length pubkeys
            → get ⦃e = identifier_eq T S C P⦄ r1 o ≡ some pkg
            → is_some (get ⦃e = identifier_eq T S C P⦄ r1 j) ≡ true
            → o ≢ j
            → Sent C me pubkeys ms o pkg × Echoed C me pubkeys ms o j pkg)

    finish :
        (ms : List Msg) (s : State C) (r1 : Packages C) (c : HttpComms T S C P)
        → c.identifier ≡ some me
        → c.state ≡ s
        → Run C me pubkeys ms s
        → AllArrived T S C P me pubkeys ms
        → has_round1_broadcast_packages C s ≡ true
        → from_session T S (round1_packages C s) ≡ ok r1
        → Agreed r1 c
    unfolding Agreed has_round1_broadcast_packages round1_packages
    finish ms (waiting_for_round1_packages ps q1) r1 c mine is r arrived all e = cc
    finish ms (waiting_for_round1_packages_broadcast ps q1 bs) r1 c mine is r arrived all e = cc
    finish ms (round2_packages_ready ps r2) r1 c mine is r arrived all e = cc
    finish ms (waiting_for_round2_packages ps q1 r2) r1 c mine is r arrived all e =
        let known : ps ≡ pubkeys = Run-pubkeys C me pubkeys ps q1 r2 r in
        let same : q1 ≡ r1 = cc in
        let there : c.state ≡ waiting_for_round2_packages pubkeys r1 r2 =
          rw (sym known, sym same) is in
        let run : Run C me pubkeys ms c.state = subst⁻¹ (λ u. Run C me pubkeys ms u) is r in
        (
          ms,
          r2,
          run,
          arrived,
          Run-count C me pubkeys pubkeys r1 r2 (subst (λ u. Run C me pubkeys ms u) there run),
          there,
          mine,
          λ o j pkg big at hj ne.
              let (count, sent, echoed) =
                agreement C me pubkeys pubkeys r1 r2 o j pkg
                  (subst (λ u. Run C me pubkeys ms u) there run) big at hj ne in
              (sent, echoed),
        )

    echoing :
        (rounds : ℕ) (args : Args T S C P)
        → Ensures In
            (echo_broadcast T S C P rounds args)
            (λ u c. In c × (has_round1_broadcast_packages C c.state ≡ true))
    unfolding echo_broadcast
    echoing rounds args =
        ensures_then (ensures_gets {Q = λ ps. In} (λ c. c.pubkeys) (λ c h. h)) (λ ps.
          ensures_then (echo_all-Kept T S C P (Ran T S C P me pubkeys) args ps)
            (λ u. wait_until-Ran T S C P me pubkeys rounds (has_round1_broadcast_packages C)))

    ending :
        (rounds : ℕ) (args : Args T S C P)
        → Ensures In
            (gets (λ c. has_round1_broadcast_packages C c.state) >>= λ skip.
              unless skip (echo_broadcast T S C P rounds args)
              >> (gets (λ c. round1_packages C c.state) >>= λ result.
                  lift (from_session T S result)))
            Agreed
    ending rounds args =
        ensures_then
          (ensures_gets {Q = λ b c. In c × (has_round1_broadcast_packages C c.state ≡ b)}
            (λ c. has_round1_broadcast_packages C c.state) (λ c h. (h, refl)))
          (λ skip.
            ensures_then
              (ensures_unless {Q = λ u c. In c × (has_round1_broadcast_packages C c.state ≡ true)}
                skip (λ c h e. (h.0, h.1 ∙ e))
                (λ e. ensures_weaker (λ c h. h.0) (echoing rounds args)))
              (λ u.
                ensures_then
                  (ensures_gets
                    {Q = λ r c.
                      (In c × (has_round1_broadcast_packages C c.state ≡ true))
                      × (round1_packages C c.state ≡ r)}
                    (λ c. round1_packages C c.state) (λ c h. (h, refl)))
                  (λ result. ensures_lift (from_session T S result) (λ c h r1 e.
                    let ((ms, run, arrived), mine) = h.0.0 in
                    finish ms c.state r1 c mine refl run arrived h.0.1
                      (ap (from_session T S) h.1 ∙ e)))))

    agrees :
        (rounds : ℕ) (args : Args T S C P) (pkg : Round1Package)
        → Ensures In (get_round1_packages T S C P rounds args pkg) Agreed
    unfolding get_round1_packages
    agrees rounds args pkg =
        let missing = message "comm_privkey and comm_participant_pubkey_getter must be specified" in
        ensures_then (lift_keep (ok_or args.comm_privkey missing)) (λ privkey.
          ensures_then (lift_keep (ok_or args.comm_participant_pubkey_getter missing)) (λ getter.
            ensures_then (ensures_gets {Q = λ ps. In} (λ c. keys c.pubkeys) (λ c h. h)) (λ ps.
              ensures_then (lift_keep (known_keys T S C P getter ps)) (λ peers.
                ensures_then (lift_keep (from_cipher T S (Peers.new S privkey peers))) (λ cipher.
                  ensures_then
                    (ensures_modify {Q = λ u. In} (λ c. record c { cipher = some cipher })
                      (λ c h. h))
                    (λ u.
                      ensures_then (send_round1-Kept T S C P (Ran T S C P me pubkeys) args pkg ps)
                        (λ v.
                          ensures_then
                            (wait_until-Ran T S C P me pubkeys rounds (has_round1_packages C))
                            (λ w. ensures_weaker (λ c h. h.0) (ending rounds args)))))))))

  -- When the first round returns its packages, to a participant that knows its identifier and the
  -- participants' keys, the session waits for the second round, and the packages are those of as many
  -- participants as there are others. The session has been given messages that the server returned to
  -- `receive` and that snow opened, and no others. With more than two participants, every package
  -- came from its own participant in such a message, and every other one of these participants has
  -- told this one in such a message that it received the very same package.
  pub get_round1_packages_lem :
      (me : Identifier) (pubkeys : Pubkeys C) (rounds : ℕ) (args : Args T S C P)
      (pkg : Round1Package) (c d : HttpComms T S C P) (r1 : Packages C)
      → c.state ≡ waiting_for_round1_packages pubkeys []
      → c.identifier ≡ some me
      → get_round1_packages T S C P rounds args pkg c ≡ (ok r1, d)
      → Agreed me pubkeys r1 d
  get_round1_packages_lem me pubkeys rounds args pkg c d r1 fresh mine e =
      (agrees me pubkeys rounds args pkg).ensured c
        (([], subst⁻¹ (λ s. Run C me pubkeys [] s) fresh start, tt), mine) r1 d e
