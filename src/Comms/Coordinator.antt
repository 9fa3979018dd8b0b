-- ===== src/Comms/Coordinator.antt =====
-- coordinator/comms/http.rs
pub mod Collects
pub mod Signs
use frost_tools.Prelude.{
  ℕ, String, Bool, true, false, Option, none, some, List, [], ◌∷◌, Map, keys, length, Outcome, ok,
  err, panic, Method, ◌>>=◌, ◌>>◌, pure, lift, gets, modify, ok_or, guard, ltb, or_default,
}
use frost_tools.Api.{Uuid, Bytes, PublicKey, CreateNewSessionArgs, SendArgs, ReceiveArgs}
use frost_tools.Client.Transport.{Transport}
use frost_tools.Client.Calls
use frost_tools.Client.Calls.{create_new_session, send, close_session, logout}
use frost_tools.Cipher.Snow.{Snow}
use frost_tools.Cipher.Peers
use frost_tools.Session.Suite.{Suite}
use frost_tools.Session.Coordinator
use frost_tools.Session.Coordinator.{
  State, recv, commitments, signature_shares, has_commitments, has_signature_shares,
}
use frost_tools.Comms.Core.{
  Comms, CommsError, message, json_error, from_cipher, from_session, unwrap, poll, calling, polling,
  polling_with, expect_cipher, encrypting, expect_session_id, log_in,
}
use frost_tools.Comms.Payloads.{SendSigningPackageArgs, Payloads}

module _ (T : Transport) (S : Snow) (C : Suite) (P : Payloads C) where
  open C use {Identifier, SigningCommitments, SignatureShare}
  open P use {SigningPackage, Randomizer}

  pub record Args : Type 0 where
    pub signers : Map PublicKey Identifier
    pub url : String
    pub comm_privkey : Option Bytes
    pub comm_pubkey : Option PublicKey

  abbrev pub HttpComms : Type 0
  HttpComms = Comms T S (State C) Identifier

  abbrev pub Act : Type 0 → Type 0
  Act A = Method (CommsError T S) HttpComms A

  unfoldable pub new : ℕ → ℕ → Args → T.World → HttpComms
  new num_messages num_signers args world = record {
    link = record { client = Calls.new args.url; world = world };
    session_id = none;
    state = Coordinator.new C num_messages num_signers args.signers;
    identifier = none;
    pubkeys = [];
    cipher = none;
  }

  -- `rounds` bounds the rounds of the loop.
  unfoldable pub get_signing_commitments :
      ℕ → Args → ℕ → Act (List (Map Identifier SigningCommitments))
  get_signing_commitments rounds args num_messages = do
    token ← log_in T S P.xed_sign args.comm_privkey args.comm_pubkey
    lift (guard (ltb num_messages 256) (message "too many messages"))
    id ← calling T S (
        create_new_session T (record { pubkeys = keys args.signers; message_count = num_messages }))
    modify (λ c. record c { session_id = some id })
    privkey ← lift (ok_or args.comm_privkey (message "comm_privkey must be specified"))
    cipher ← lift (from_cipher T S (Peers.new S privkey (keys args.signers)))
    used ← polling_with T S cipher (
        poll T S (recv C) (has_commitments C) (record { session_id = id; as_coordinator = true })
          rounds)
    modify (λ c. record c { cipher = some used })
    result ← gets (λ c. commitments C c.state)
    handed ← lift (from_session T S result)
    modify (λ c. record c { pubkeys = handed.1 })
    pure handed.0

  -- The loop over the recipients.
  unfoldable pub send_signing_packages :
      SendSigningPackageArgs SigningPackage Randomizer → List PublicKey → Act (Unit {0})
  send_signing_packages outgoing [] = pure tt
  send_signing_packages outgoing (recipient ∷ rest) = do
    payload ← lift (ok_or (P.write_signing_package outgoing) json_error)
    msg ← encrypting T S (some recipient) payload
    id ← expect_session_id T S
    calling T S (send T (record { session_id = id; recipients = recipient ∷ []; msg = msg }))
    send_signing_packages outgoing rest

  unfoldable pub send_signing_package_and_get_signature_shares :
      ℕ
      → List SigningPackage
      → Option (List Randomizer)
      → Option Bytes
      → Act (List (Map Identifier SignatureShare))
  send_signing_package_and_get_signature_shares rounds packages randomizers aux_msg = do
    expect_cipher T S
    recipients ← gets (λ c. keys c.pubkeys)
    send_signing_packages
        (record {
          signing_package = packages;
          aux_msg = or_default aux_msg;
          randomizer = or_default randomizers;
        })
        recipients
    id ← expect_session_id T S
    polling T S (
        poll T S (recv C) (has_signature_shares C)
          (record { session_id = id; as_coordinator = true }) rounds)
    calling T S (close_session T id)
    calling T S (logout T)
    result ← gets (λ c. signature_shares C c.state)
    lift (from_session T S result)

  unfoldable pub cleanup_on_error : Act (Unit {0})
  cleanup_on_error c = elim c.session_id [
    | none ↦ (ok tt, c)
    | some id ↦ calling T S (close_session T id) c
  ]
