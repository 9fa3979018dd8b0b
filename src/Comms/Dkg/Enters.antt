-- ===== src/Comms/Dkg/Enters.antt =====
-- How a participant enters the DKG over HTTP.
use frost_tools.Prelude.{
  ℕ, ◌≤◌, ◌%◌, ◌^◌, ◌≡◌, refl, ap, sym, ◌∙◌, arith, true, not, Option, none, some, [], Map,
  is_empty, length, ltb, ok_or, ok, ◌>>=◌, ◌>>◌, pure, lift, modify, guard, guard-ok,
}
use frost_tools.Prelude.Contracts.{
  Ensures, ensures_then, ensures_pure, ensures_lift, ensures_gets, ensures_modify, lift_keep,
  ensures_if,
}
use frost_tools.Api.{Uuid, PublicKey, public_key_eq}
use frost_tools.Client.Transport.{Transport}
use frost_tools.Client.Calls.{create_new_session, get_session_info, list_sessions}
use frost_tools.Cipher.Snow.{Snow}
use frost_tools.Session.Suite.{Suite}
use frost_tools.Session.Dkg.{State, Pubkeys, waiting_for_round1_packages}
use frost_tools.Comms.Core.{
  Comms, CommsError, message, frost_error, find_session, only_session, chosen,
}
use frost_tools.Comms.Frames.{InState, calling-InState, log_in-InState}
use frost_tools.Comms.Payloads.{Payloads}
use frost_tools.Comms.Dkg.{
  Args, HttpComms, derive_all, open_session, set_pubkeys, get_identifier_and_max_signers,
}

module _ (T : Transport) (S : Snow) (C : Suite) (P : Payloads C) where
  open C use {Identifier}

  -- The session has been told who takes part, and this participant's identifier.
  unfoldable pub Introduced : Identifier × ℕ → HttpComms T S C P → Type 0
  Introduced who c =
      (pubkeys : Pubkeys C) × (c.state ≡ waiting_for_round1_packages pubkeys [])
      × (c.identifier ≡ some who.0)
      × (c.pubkeys ≡ pubkeys)
      × (who.1 ≡ length pubkeys % 2 ^ 16)
      × (2 ≤ length pubkeys)

  abbrev New : State C → Option Identifier → Type 0
  New s i = s ≡ waiting_for_round1_packages [] []

  find_session-New :
      (given : Option Uuid)
      → Ensures (InState T S New) (find_session T S given) (λ id. InState T S New)
  unfolding find_session
  find_session-New (some id) = ensures_pure id (λ c h. h)
  find_session-New none =
      ensures_then (calling-InState T S New (list_sessions T))
        (λ ids. lift_keep (chosen T S (only_session ids)))

  open_session-New :
      (args : Args T S C P)
      → Ensures (InState T S New) (open_session T S C P args) (λ id. InState T S New)
  unfolding open_session
  open_session-New args =
      ensures_if (is_empty args.participants)
        (ensures_then (ensures_gets {Q = λ i. InState T S New} (λ c. c.session_id) (λ c h. h))
          find_session-New)
        (calling-InState T S New
          (create_new_session T (record { pubkeys = args.participants; message_count = 1 })))

  set_pubkeys-Waits :
      (pubkeys : Map PublicKey Identifier)
      → Ensures
          (λ (c : HttpComms T S C P). New c.state c.identifier × (c.pubkeys ≡ pubkeys))
          (set_pubkeys T S C P pubkeys)
          (λ u c. (c.state ≡ waiting_for_round1_packages pubkeys []) × (c.pubkeys ≡ pubkeys))
  unfolding set_pubkeys
  set_pubkeys-Waits pubkeys = record {
    ensured = λ c h a t e.
        let f = rw (h.0, set_pubkeys) at e in
        (ap (λ x. Comms.state x.1) (sym f), ap (λ x. Comms.pubkeys x.1) (sym f) ∙ h.1);
  }

  enough :
      (pubkeys : Map PublicKey Identifier)
      → not (ltb (length pubkeys) 2) ≡ true
      → 2 ≤ length pubkeys
  enough pubkeys h = ground arith

  named :
      (args : Args T S C P) (id : Uuid) (own : PublicKey) (pubkeys : Map PublicKey Identifier)
      → Ensures {E = CommsError T S}
          (λ (c : HttpComms T S C P).
            (c.state ≡ waiting_for_round1_packages pubkeys [])
            × (c.pubkeys ≡ pubkeys)
            × (2 ≤ length pubkeys))
          (lift (ok_or (P.derive id own) frost_error) >>= λ identifier.
            modify (λ c. record c { identifier = some identifier })
            >> pure (identifier, length pubkeys % 2 ^ 16))
          Introduced
  unfolding Introduced
  named args id own pubkeys =
      ensures_then (lift_keep (ok_or (P.derive id own) frost_error)) (λ identifier.
        ensures_then
          (ensures_modify {Q = λ u. Introduced (identifier, length pubkeys % 2 ^ 16)}
            (λ c. record c { identifier = some identifier })
            (λ c h. (pubkeys, h.0, refl, h.1, refl, h.2)))
          (λ u. ensures_pure (identifier, length pubkeys % 2 ^ 16) (λ c h. h)))

  introduced :
      (args : Args T S C P)
      → Ensures (InState T S New) (get_identifier_and_max_signers T S C P args) Introduced
  unfolding get_identifier_and_max_signers Introduced
  introduced args =
      let few = message "DKG session must have at least 2 participants" in
      ensures_then (log_in-InState T S New P.xed_sign args.comm_privkey args.comm_pubkey) (λ token.
        ensures_then (lift_keep (ok_or args.comm_pubkey (message "comm_pubkey must be specified")))
          (λ own. ensures_then (open_session-New args) (λ id.
            ensures_then
              (ensures_modify {Q = λ u. InState T S New} (λ c. record c { session_id = some id })
                (λ c h. h))
              (λ u. ensures_then (calling-InState T S New (get_session_info T id)) (λ info.
                ensures_then (lift_keep (derive_all T S C P id info.pubkeys [])) (λ pubkeys.
                  ensures_then
                    (ensures_modify {Q = λ u c. New c.state c.identifier × (c.pubkeys ≡ pubkeys)}
                      (λ c. record c { pubkeys = pubkeys }) (λ c h. (h, refl)))
                    (λ v.
                      ensures_then
                        (ensures_lift
                          {Q = λ u c.
                            (New c.state c.identifier × (c.pubkeys ≡ pubkeys))
                            × (2 ≤ length pubkeys)}
                          (guard (not (ltb (length pubkeys) 2)) few)
                          (λ c h x e.
                            (h, enough pubkeys (guard-ok (not (ltb (length pubkeys) 2)) few e))))
                        (λ w.
                          ensures_then
                            {Q = λ x c.
                              (c.state ≡ waiting_for_round1_packages pubkeys [])
                              × (c.pubkeys ≡ pubkeys)
                              × (2 ≤ length pubkeys)}
                            (record {
                              ensured = λ c h x t e.
                                  let (a, b) = (set_pubkeys-Waits pubkeys).ensured c h.0 x t e in
                                  (a, b, h.1);
                            })
                            (λ x. named args id own pubkeys)))))))))

  -- Before the first round: who takes part is known, and which of them this participant is.
  pub get_identifier_and_max_signers_lem :
      (args : Args T S C P) (c d : HttpComms T S C P) (who : Identifier × ℕ)
      → c.state ≡ waiting_for_round1_packages [] []
      → get_identifier_and_max_signers T S C P args c ≡ (ok who, d)
      → Introduced who d
  get_identifier_and_max_signers_lem args c d who fresh e =
      (introduced args).ensured c fresh who d e
