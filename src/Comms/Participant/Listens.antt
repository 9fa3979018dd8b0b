-- ===== src/Comms/Participant/Listens.antt =====
-- A participant that reads from one channel alone.
use mathlib.Core.List.{Mem, mem-cons_self}
use frost_tools.Prelude.{
  Outcome, panic, ℕ, zero, suc, ◌≡◌, refl, ap, ◌∙◌, true, false, Option, none, some, Option-cases,
  inl, inr, List, [], ◌∷◌, get, is_some, ok, err, Outcome-cases, ok_or, ok_or-ok,
}
use frost_tools.Prelude.Contracts.{
  Ensures, ensures_then, ensures_pure, ensures_lift, lift_keep, ensures_keep, ensures_weaker,
}
use frost_tools.Api.{Uuid, Bytes, PublicKey, public_key_eq, Msg, ReceiveArgs}
use frost_tools.Client.Transport.{Transport}
use frost_tools.Client.Calls.{Call, Link, ClientError, send, receive}
use frost_tools.Cipher.Snow.{Snow}
use frost_tools.Cipher.Peers
use frost_tools.Cipher.Peers.{Cipher, encrypt, decrypt, at_peer, unknown_sender}
use frost_tools.Cipher.Noise.{read_message}
use frost_tools.Cipher.Validity.{at_peer-get}
use frost_tools.Cipher.Use.{sender_kept}
use frost_tools.Session.Suite.{Suite}
use frost_tools.Comms.Core.{
  json_error, still_waiting, from_client, from_cipher-ok, calling, encrypting, expect_cipher,
  expect_session_id,
}
use frost_tools.Comms.Payloads.{Payloads}
use frost_tools.Comms.Arrivals.{Arrived, decrypt-Opens}
use frost_tools.Comms.Participant.{
  Act, first_or, HttpComms, wait_for_package, decrypting, get_signing_package,
}

module _ (T : Transport) (S : Snow) (C : Suite) (P : Payloads C) where
  open C use {SigningCommitments}
  open P use {SigningPackage, Randomizer}

  -- The only channel from which the participant reads is that of `coordinator`.
  unfoldable pub Listens : PublicKey → HttpComms T S C P → Type 0
  Listens coordinator c =
      (cipher : Cipher S) × (c.cipher ≡ some cipher)
      × ((p : PublicKey) → is_some (get cipher.recv_noise_map p) ≡ true → p ≡ coordinator)

  calling-Listens :
      {A : Type 0} (coordinator : PublicKey) (m : Call T A)
      → Ensures (Listens coordinator) (calling T S m) (λ a. Listens coordinator)
  unfolding calling Listens
  calling-Listens coordinator m = ensures_keep (λ c h. h)

  encrypt-recv :
      (to : Option PublicKey) (msg : Bytes) (c : Cipher S)
      → (encrypt S to msg c).1.recv_noise_map ≡ c.recv_noise_map
  unfolding encrypt
  encrypt-recv to msg c = elim (Outcome-cases (Peers.recipient_of S to c.send_noise_map)) [
    | inl (p, e) ↦ rw (e, encrypt) refl
    | inr (inl (x, e)) ↦ rw (e, encrypt) refl
    | inr (inr e) ↦ rw (e, encrypt) refl
  ]

  encrypting-Listens :
      (coordinator : PublicKey) (to : Option PublicKey) (msg : Bytes)
      → Ensures (Listens coordinator) (encrypting T S to msg) (λ a. Listens coordinator)
  unfolding encrypting Listens
  encrypting-Listens coordinator to msg = ensures_keep (λ c h.
      let (cipher, is, only) = h in
      rw (is, encrypting)
        (
          (encrypt S to msg cipher).1,
          refl,
          λ p there. only p (rw (encrypt-recv to msg cipher) at there),
        ))

  expect_cipher-Listens :
      (coordinator : PublicKey)
      → Ensures (Listens coordinator) (expect_cipher T S) (λ a. Listens coordinator)
  unfolding expect_cipher Listens
  expect_cipher-Listens coordinator =
      ensures_keep (λ c h. let (cipher, is, only) = h in rw (is, expect_cipher) (cipher, is, only))

  expect_id :
      (coordinator : PublicKey)
      → Ensures (Listens coordinator) (expect_session_id T S) (λ a. Listens coordinator)
  unfolding expect_session_id Listens
  expect_id coordinator = ensures_keep (λ c h. h)

  -- A call that has returned `a`.
  abbrev pub Answered : {A : Type 0} → Call T A → A → Type 0
  Answered m a = (before : Link T) × (after : Link T) × (m before ≡ (ok a, after))

  from_client-ok :
      {A : Type 0} (r : Outcome (ClientError T) A) {a : A} → from_client T S r ≡ ok a → r ≡ ok a
  from_client-ok (ok b) e = let same : b ≡ _ = cc in ap ok same
  from_client-ok (err x) e = cc
  from_client-ok panic e = cc

  pub calling-Answered :
      {A : Type 0} {Q : HttpComms T S C P → Type 0} (m : Call T A)
      → Ensures Q (calling T S m) (λ a c. Q c)
      → Ensures Q (calling T S m) (λ a c. Q c × Answered m a)
  unfolding calling
  calling-Answered m keeps = record {
    ensured = λ c h a t e.
        let r : (m c.link).0 ≡ ok a = from_client-ok (m c.link).0 (ap (λ x. x.0) e) in
        (keeps.ensured c h a t e, (c.link, (m c.link).1, ap (λ x. (x, (m c.link).1)) r));
  }

  -- The message was in a batch that the server returned.
  abbrev Fetched : ReceiveArgs → Msg → Type 0
  Fetched args m = (batch : List Msg) × Answered (receive T args) batch × Mem m batch

  first :
      (coordinator : PublicKey) (args : ReceiveArgs) (again : Act T S C P Msg)
      → Ensures (Listens coordinator) again (λ m c. Listens coordinator c × Fetched args m)
      → (ms : List Msg)
      → Ensures
          (λ c. Listens coordinator c × Answered (receive T args) ms)
          (first_or T S C P again ms)
          (λ m c. Listens coordinator c × Fetched args m)
  first coordinator args again h [] = ensures_weaker (λ c l. l.0) h
  first coordinator args again h (m ∷ rest) =
      ensures_pure m (λ c l. (l.0, (m ∷ rest, l.1, mem-cons_self)))

  waiting-Listens :
      (coordinator : PublicKey) (rounds : ℕ) (args : ReceiveArgs)
      → Ensures
          (Listens coordinator)
          (wait_for_package T S C P rounds args)
          (λ m c. Listens coordinator c × Fetched args m)
  unfolding wait_for_package
  waiting-Listens coordinator zero args = ensures_lift (err still_waiting) (λ c h m e. cc)
  waiting-Listens coordinator (suc n) args =
      ensures_then
        (calling-Answered (receive T args) (calling-Listens coordinator (receive T args)))
        (first coordinator args (wait_for_package T S C P n args)
          (waiting-Listens coordinator n args))

  -- What was decrypted comes from the coordinator.
  decrypt-sender :
      (m clear : Msg) (cipher : Cipher S)
      → (decrypt S m cipher).0 ≡ ok clear
      → (clear.sender ≡ m.sender) × (is_some (get cipher.recv_noise_map m.sender) ≡ true)
  unfolding decrypt
  decrypt-sender m clear cipher e =
      let op = read_message S m.msg in
      let done = at_peer S m.sender unknown_sender op cipher.recv_noise_map in
      let (absent, others, size) = at_peer-get S m.sender unknown_sender op cipher.recv_noise_map in
      (
        sender_kept S m.sender clear done.0 e,
        elim (Option-cases (get cipher.recv_noise_map m.sender)) [
          | inl missing ↦ let f = rw (absent missing) at e in cc
          | inr (n, there) ↦ rw there refl
        ],
      )

  -- A message of the coordinator that the server returned, and that snow opened.
  pub FromCoordinator : PublicKey → Msg → Type 0
  FromCoordinator coordinator clear = (clear.sender ≡ coordinator) × Arrived T S false clear

  decrypting-From :
      (coordinator : PublicKey) (id : Uuid) (m : Msg)
      → Ensures
          (λ c.
            Listens coordinator c × Fetched (record { session_id = id; as_coordinator = false }) m)
          (decrypting T S C P m)
          (λ clear c. FromCoordinator coordinator clear)
  unfolding decrypting FromCoordinator Listens
  decrypting-From coordinator id m = record {
    ensured = λ c h clear t e.
        let ((cipher, is, only), (batch, (before, after, got), there)) = h in
        let f = rw (is, decrypting) at e in
        let opened = from_cipher-ok T S (decrypt S m cipher).0 (ap (λ x. x.0) f) in
        let (same, known) = decrypt-sender m clear cipher opened in
        (
          same ∙ only m.sender known,
          record {
            session_id = id;
            before = before;
            after = after;
            batch = batch;
            sealed = m;
            fetched = got;
            there = there;
            sender = same;
            opened = (decrypt-Opens S m clear cipher opened).1;
          },
        );
  }

  pub packaged :
      (coordinator : PublicKey) (rounds : ℕ) (commitments : List SigningCommitments)
      → Ensures (Listens coordinator) (get_signing_package T S C P rounds commitments) (λ config c.
        (clear : Msg) × FromCoordinator coordinator clear
        × (P.read_signing_package clear.msg ≡ some config))
  unfolding get_signing_package
  packaged coordinator rounds commitments = ensures_then (expect_cipher-Listens coordinator) (λ u.
      ensures_then (expect_id coordinator) (λ id.
        ensures_then (lift_keep (ok_or (P.write_commitments commitments) json_error)) (λ payload.
          ensures_then (encrypting-Listens coordinator none payload) (λ msg.
            ensures_then
              (calling-Listens coordinator
                (send T (record { session_id = id; recipients = []; msg = msg })))
              (λ v.
                ensures_then
                  (waiting-Listens coordinator rounds
                    (record { session_id = id; as_coordinator = false }))
                  (λ received. ensures_then (decrypting-From coordinator id received) (λ clear.
                    ensures_lift (ok_or (P.read_signing_package clear.msg) json_error)
                      (λ c h config e.
                        (clear, h, ok_or-ok (P.read_signing_package clear.msg) json_error e)))))))))
