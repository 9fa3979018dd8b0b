-- ===== src/Comms/Frames.antt =====
-- What the steps of the implementations leave alone, and what the loop that waits adds.
use mathlib.Core.Path.{subst}
use frost_tools.Prelude.{
  ℕ, ◌≡◌, ap, Bool, true, Option, List, Outcome, ok, Method, ok_or, bind-eq-ok, inl, inr,
  Option-cases,
}
use frost_tools.Prelude.Contracts.{Ensures, ensures_then, lift_keep, ensures_keep}
use frost_tools.Api.{Msg, ReceiveArgs, Bytes, Uuid, PublicKey}
use frost_tools.Client.Transport.{Transport}
use frost_tools.Client.Calls.{Call, challenge, login}
use frost_tools.Cipher.Snow.{Snow}
use frost_tools.Cipher.Peers.{Cipher, sign}
use frost_tools.Session.Suite.{SessionError}
use frost_tools.Comms.Core.{
  Comms, CommsError, message, from_cipher, Polling, poll, calling, polling_with, polling, log_in,
  expect_session_id, encrypting, expect_cipher,
}
use frost_tools.Comms.Arrivals.{Arrived}
use frost_tools.Comms.Polling.{Accepts, poll-Accepts}

module _ (T : Transport) (S : Snow) {State Identifier : Type 0}
    (P : State → Option Identifier → Type 0) where
  -- The session state and the identifier.
  abbrev pub InState : Comms T S State Identifier → Type 0
  InState c = P c.state c.identifier

  pub calling-InState : {A : Type 0} (m : Call T A) → Ensures InState (calling T S m) (λ a. InState)
  unfolding calling
  calling-InState m = ensures_keep (λ c p. p)

  pub log_in-InState :
      (f : Bytes → Uuid → Bytes) (k : Option Bytes) (p : Option PublicKey)
      → Ensures InState (log_in T S f k p) (λ a. InState)
  unfolding log_in
  log_in-InState f k p = ensures_then (calling-InState (challenge T)) (λ c.
      ensures_then (lift_keep (ok_or k (message "comm_privkey must be specified"))) (λ privkey.
        ensures_then (lift_keep (from_cipher T S (sign S f privkey c))) (λ signature.
          ensures_then (lift_keep (ok_or p (message "comm_pubkey must be specified"))) (λ pubkey.
            calling-InState
              (login T (record { challenge = c; pubkey = pubkey; signature = signature }))))))

  pub expect_session_id-InState : Ensures InState (expect_session_id T S) (λ a. InState)
  unfolding expect_session_id
  expect_session_id-InState = ensures_keep (λ c p. p)

  pub expect_cipher-InState : Ensures InState (expect_cipher T S) (λ a. InState)
  unfolding expect_cipher
  expect_cipher-InState = ensures_keep (λ c p. elim (Option-cases c.cipher) [
    | inl e ↦ rw (e, expect_cipher) p
    | inr (x, e) ↦ rw (e, expect_cipher) p
  ])

  pub encrypting-InState :
      (to : Option PublicKey) (msg : Bytes) → Ensures InState (encrypting T S to msg) (λ a. InState)
  unfolding encrypting
  encrypting-InState to msg = ensures_keep (λ c p. elim (Option-cases c.cipher) [
    | inl e ↦ rw (e, encrypting) p
    | inr (x, e) ↦ rw (e, encrypting) p
  ])

-- After the loop the session state is what the messages have made of it, and all is there.
module _ (T : Transport) (S : Snow) {State : Type 0}
    (recv : Msg → State → Outcome SessionError (Unit {0}) × State) (done : State → Bool)
    (args : ReceiveArgs) (rounds : ℕ) where
  abbrev waiting : Method (CommsError T S) (Polling T S State) (Unit {0})
  waiting = poll T S recv done args rounds

  collected :
      (s : State) (p : Polling T S State) (u : Unit {0})
      → p.state ≡ s
      → (waiting p).0 ≡ ok u
      → ((ds : List Msg) × Accepts (Arrived T S args.as_coordinator) recv ds s (waiting p).1.state)
        × (done (waiting p).1.state ≡ true)
  collected s p u h e =
      let (went, all) =
        poll-Accepts T S recv done args rounds p (waiting p).1
          (ap (λ (x : Outcome (CommsError T S) (Unit {0})). (x, (waiting p).1)) e) in
      (
        subst
            (λ x.
              (ds : List Msg) × Accepts (Arrived T S args.as_coordinator) recv ds x
                (waiting p).1.state)
            h went,
        all,
      )

  module _ {Identifier : Type 0} where
    unfoldable pub Collected : State → Comms T S State Identifier → Type 0
    Collected s c =
        ((ds : List Msg) × Accepts (Arrived T S args.as_coordinator) recv ds s c.state)
        × (done c.state ≡ true)

    pub polling_with-Collected :
        (s : State) (cipher : Cipher S)
        → Ensures (λ c. c.state ≡ s) (polling_with T S cipher waiting) (λ a. Collected s)
    unfolding polling_with Collected
    polling_with-Collected s cipher = record {
      ensured = λ c h a t e.
          let p : Polling T S State = record { link = c.link; cipher = cipher; state = c.state } in
          let (u, x, y) =
            bind-eq-ok (waiting p).0 (λ _. ok (waiting p).1.cipher) (ap (λ x. x.0) e) in
          let same : (waiting p).1.state ≡ t.state = ap (λ x. Comms.state x.1) e in
          rw same at (collected s p u h x);
    }

    pub polling-Collected :
        (s : State) → Ensures (λ c. c.state ≡ s) (polling T S waiting) (λ a. Collected s)
    unfolding polling Collected
    polling-Collected s = record {
      ensured = λ c h a t e. elim (Option-cases c.cipher) [
        | inl missing ↦ let x = rw (missing, polling) at e in cc
        | inr (cipher, there) ↦
            let p : Polling T S State = record {
              link = c.link;
              cipher = cipher;
              state = c.state;
            } in
            let f = rw (there, polling) at e in
            let same : (waiting p).1.state ≡ t.state = ap (λ x. Comms.state x.1) f in
            rw same at (collected s p a h (ap (λ x. x.0) f))
      ];
    }

    pub polling-identifier :
        (i : Option Identifier)
        → Ensures
            (λ (c : Comms T S State Identifier). c.identifier ≡ i)
            (polling T S waiting)
            (λ a c. c.identifier ≡ i)
    unfolding polling
    polling-identifier i = ensures_keep (λ c h. elim (Option-cases c.cipher) [
      | inl e ↦ rw (e, polling) h
      | inr (x, e) ↦ rw (e, polling) h
    ])
