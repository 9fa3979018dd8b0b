-- ===== src/Comms/Coordinator/Collects.antt =====
-- What the coordinator has collected over HTTP when it goes on.
use mathlib.Core.List.{Mem, mem-cons_self, mem-cons_of_mem}
use frost_tools.Prelude.{
  ℕ, ◌≡◌, refl, ap, sym, ◌∙◌, true, Option, some, List, Map, keys, length, ok, ◌>>=◌, ◌>>◌, pure,
  lift, gets, modify, ok_or, guard, ltb,
}
use frost_tools.Prelude.Contracts.{
  Ensures, ensures_then, ensures_pure, ensures_lift, ensures_gets, ensures_modify, lift_keep,
}
use frost_tools.Api.{PublicKey, Msg}
use frost_tools.Client.Transport.{Transport}
use frost_tools.Client.Calls.{create_new_session}
use frost_tools.Cipher.Snow.{Snow}
use frost_tools.Cipher.Peers
use frost_tools.Session.Suite.{Suite}
use frost_tools.Session.Columns.{AreColumns, columns_all}
use frost_tools.Session.Coordinator
use frost_tools.Session.Coordinator.{
  SessionArgs, State, identifier_eq, waiting_for_commitments, waiting_for_signature_shares,
  signature_shares_ready, recv, recv_all, commitments, signature_shares, has_commitments,
  has_signature_shares,
}
use frost_tools.Session.Coordinator.Invariant.{IsValid, run-IsValid}
use frost_tools.Session.Coordinator.Provenance.{Rows, IsFrom, recv-IsFrom, new-IsFrom}
use frost_tools.Comms.Core.{message, from_cipher, from_session}
use frost_tools.Comms.Arrivals.{Arrived}
use frost_tools.Comms.Polling.{from_session-ok, Accepts, none_left, accept}
use frost_tools.Comms.Frames.{
  InState, calling-InState, log_in-InState, Collected, polling_with-Collected,
}
use frost_tools.Comms.Payloads.{Payloads}
use frost_tools.Comms.Coordinator.{Args, HttpComms, get_signing_commitments}

module _ (C : Suite) where
  open C use {Identifier, SigningCommitments, SignatureShare}

  pub Accepts-recv_all :
      {D : Msg → Type 0} {ms : List Msg} {s t : State C}
      → Accepts D (recv C) ms s t
      → recv_all C ms s ≡ t
  unfolding recv_all
  Accepts-recv_all none_left = refl
  Accepts-recv_all (accept {m} {ms} {s} {t} {u} d e a) =
      let same : (recv C m s).1 ≡ t = ap (λ x. x.1) e in rw same (Accepts-recv_all a)

  pub Accepts-IsFrom :
      (M : Msg → Type 0) (started : SessionArgs) (known : Map PublicKey Identifier)
      {D : Msg → Type 0} {ms : List Msg} {s t : State C}
      → ((m : Msg) → Mem m ms → M m)
      → Accepts D (recv C) ms s t
      → IsFrom C M started known s
      → IsFrom C M started known t
  Accepts-IsFrom M started known all none_left h = h
  Accepts-IsFrom M started known all (accept {m} {ms} {s} {t} {u} d e a) h =
      let same : (recv C m s).1 ≡ t = ap (λ x. x.1) e in
      Accepts-IsFrom M started known (λ x i. all x (mem-cons_of_mem m i)) a
        (rw same at (recv-IsFrom C M started known m s (all m mem-cons_self) h))

  module _ (n k : ℕ) (known : Map PublicKey Identifier) where
    abbrev pub started : SessionArgs
    started = record { num_messages = n; num_signers = k }

    -- The commitments `sent` of `k` signers, each of which one of the messages `ms` said, and `tables`
    -- has one map for each of the `n` messages to sign.
    pub record HandsOut (ms : List Msg) (s : State C)
        (tables : List (Map Identifier SigningCommitments)) : Type 0 where
      pub sent : Map Identifier (List SigningCommitments)
      pub shares : Map Identifier (List SignatureShare)
      pub moved_on : s ≡ waiting_for_signature_shares started sent known shares
      pub complete : length sent ≡ k
      pub said : Rows ⦃e = identifier_eq C⦄ (λ m. Mem m ms) known C.read_commitments sent
      pub in_columns : AreColumns ⦃e = identifier_eq C⦄ n sent tables

    hands_out :
        (ms : List Msg) (s : State C) (tables : List (Map Identifier SigningCommitments))
        (pubkeys : Map PublicKey Identifier)
        → IsValid C s
        → IsFrom C (λ m. Mem m ms) started known s
        → has_commitments C s ≡ true
        → commitments C s ≡ ok (tables, pubkeys)
        → HandsOut ms s tables × (pubkeys ≡ known)
    unfolding has_commitments commitments IsFrom
    hands_out ms (waiting_for_commitments args m p) tables pubkeys v f all e = cc
    hands_out ms (signature_shares_ready args m) tables pubkeys v f all e = cc
    hands_out ms (waiting_for_signature_shares args m p shares) tables pubkeys v f all e =
        let (cs, is, at) = columns_all ⦃e = identifier_eq C⦄ args.num_messages m v.0 in
        let out = rw (is, commitments) at e in
        let same : tables ≡ cs = cc in
        let count : args.num_messages ≡ n = ap SessionArgs.num_messages f.0 in
        let signers : args.num_signers ≡ k = ap SessionArgs.num_signers f.0 in
        (
          record {
            sent = m;
            shares = shares;
            moved_on = rw (f.0, f.1) refl;
            complete = v.2 ∙ signers;
            said = f.2;
            in_columns = rw (same, sym count) at;
          },
          (let theirs : pubkeys ≡ p = cc in theirs ∙ f.1),
        )

module _ (T : Transport) (S : Snow) (C : Suite) (P : Payloads C) (args : Args T S C P)
    (n k rounds : ℕ) where
  open C use {Identifier, SigningCommitments, SignatureShare}

  -- The messages that the coordinator has decrypted and taken, and what it hands out.
  unfoldable pub Collects : List (Map Identifier SigningCommitments) → HttpComms T S C P → Type 0
  Collects tables c =
      ((ms : List Msg) × Accepts (Arrived T S true) (recv C) ms (Coordinator.new C n k args.signers)
          c.state
        × HandsOut C n k args.signers ms c.state tables)
      × (c.pubkeys ≡ args.signers)

  abbrev Fresh : State C → Option Identifier → Type 0
  Fresh s i = s ≡ Coordinator.new C n k args.signers

  -- What is true after the loop.
  abbrev Full : HttpComms T S C P → Type 0
  Full c =
      ((ms : List Msg) × Accepts (Arrived T S true) (recv C) ms (Coordinator.new C n k args.signers)
          c.state)
      × (has_commitments C c.state ≡ true)

  Full-HandsOut :
      (c : HttpComms T S C P)
      → Full c
      → (tables : List (Map Identifier SigningCommitments)) (pubkeys : Map PublicKey Identifier)
      → from_session T S (commitments C c.state) ≡ ok (tables, pubkeys)
      → Collects tables (record c { pubkeys = pubkeys })
  unfolding Collects
  Full-HandsOut c ((ms, taken), full) tables pubkeys e =
      let v = rw (Accepts-recv_all C taken) at (run-IsValid C n k args.signers ms) in
      let from =
        Accepts-IsFrom C (λ m. Mem m ms) (started C n k args.signers) args.signers (λ m i. i) taken
          (new-IsFrom C (λ m. Mem m ms) (started C n k args.signers) args.signers) in
      let (out, same) =
        hands_out C n k args.signers ms c.state tables pubkeys v from full
          (from_session-ok T S (commitments C c.state) e) in
      ((ms, taken, out), same)

  handing_out :
      (used : Peers.Cipher S)
      → Ensures Full
          (modify (λ (c : HttpComms T S C P). record c { cipher = some used })
            >> (gets (λ c. commitments C c.state) >>= λ result.
                lift (from_session T S result) >>= λ handed.
                modify (λ c. record c { pubkeys = handed.1 }) >> pure handed.0))
          Collects
  handing_out used =
      ensures_then
        (ensures_modify {Q = λ u. Full} (λ c. record c { cipher = some used }) (λ s h. h))
        (λ u.
          ensures_then
            (ensures_gets {Q = λ r c. Full c × (commitments C c.state ≡ r)}
              (λ c. commitments C c.state) (λ c h. (h, refl)))
            (λ result.
              ensures_then
                (ensures_lift {Q = λ handed c. Collects handed.0 (record c { pubkeys = handed.1 })}
                  (from_session T S result)
                  (λ c h handed e.
                    Full-HandsOut c h.0 handed.0 handed.1 (ap (from_session T S) h.1 ∙ e)))
                (λ handed.
                  ensures_then
                    (ensures_modify {Q = λ u. Collects handed.0}
                      (λ c. record c { pubkeys = handed.1 }) (λ c h. h))
                    (λ u. ensures_pure handed.0 (λ c h. h)))))

  collects :
      Ensures
        (λ c. Fresh c.state c.identifier)
        (get_signing_commitments T S C P rounds args n)
        Collects
  unfolding get_signing_commitments Collected
  collects =
      ensures_then (log_in-InState T S Fresh P.xed_sign args.comm_privkey args.comm_pubkey)
        (λ token. ensures_then (lift_keep (guard (ltb n 256) (message "too many messages"))) (λ u.
          ensures_then
            (calling-InState T S Fresh
              (create_new_session T (record { pubkeys = keys args.signers; message_count = n })))
            (λ id.
              ensures_then
                (ensures_modify {Q = λ u. InState T S Fresh}
                  (λ c. record c { session_id = some id }) (λ s h. h))
                (λ v.
                  ensures_then
                    (lift_keep (ok_or args.comm_privkey (message "comm_privkey must be specified")))
                    (λ privkey.
                      ensures_then
                        (lift_keep (from_cipher T S (Peers.new S privkey (keys args.signers))))
                        (λ cipher.
                          ensures_then
                            (polling_with-Collected T S (recv C) (has_commitments C)
                              (record { session_id = id; as_coordinator = true }) rounds
                              (Coordinator.new C n k args.signers) cipher)
                            handing_out))))))

  -- When the coordinator returns the commitments, its session state is what messages that the
  -- server returned to `receive` and that snow opened have made of a new one: it has commitments
  -- of as many signers as it waited for, each row is what a message of that signer says, and there
  -- is one map for each message to sign.
  pub get_signing_commitments_lem :
      (c d : HttpComms T S C P) (tables : List (Map Identifier SigningCommitments))
      → c.state ≡ Coordinator.new C n k args.signers
      → get_signing_commitments T S C P rounds args n c ≡ (ok tables, d)
      → Collects tables d
  get_signing_commitments_lem c d tables fresh e = collects.ensured c fresh tables d e
