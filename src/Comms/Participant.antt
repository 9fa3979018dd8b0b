-- ===== src/Comms/Participant.antt =====
-- participant/comms/http.rs
pub mod Listens
pub mod Trusts
use frost_tools.Prelude.{
  ℕ, zero, suc, String, false, Option, none, some, List, [], ◌∷◌, err, panic, Method, ◌>>=◌, ◌>>◌,
  pure, lift, gets, modify, ok_or,
}
use frost_tools.Api.{Uuid, Bytes, PublicKey, Msg, ReceiveArgs}
use frost_tools.Client.Transport.{Transport}
use frost_tools.Client.Calls
use frost_tools.Client.Calls.{get_session_info, send, receive, logout}
use frost_tools.Cipher.Snow.{Snow}
use frost_tools.Cipher.Peers
use frost_tools.Session.Suite.{Suite}
use frost_tools.Comms.Core.{
  Comms, CommsError, message, json_error, still_waiting, from_cipher, calling, expect_cipher,
  encrypting, expect_session_id, log_in, find_session,
}
use frost_tools.Comms.Payloads.{SendSigningPackageArgs, Payloads}

module _ (T : Transport) (S : Snow) (C : Suite) (P : Payloads C) where
  open C use {Identifier, SigningCommitments, SignatureShare}
  open P use {SigningPackage, Randomizer}

  -- `session_id` is the parsed one; the getter says which key of the address book a coordinator's is.
  pub record Args : Type 0 where
    pub url : String
    pub session_id : Option Uuid
    pub comm_privkey : Option Bytes
    pub comm_pubkey : Option PublicKey
    pub comm_coordinator_pubkey_getter : Option (PublicKey → Option PublicKey)

  abbrev pub HttpComms : Type 0
  HttpComms = Comms T S (Unit {0}) Identifier

  abbrev pub Act : Type 0 → Type 0
  Act A = Method (CommsError T S) HttpComms A

  unfoldable pub new : Args → T.World → HttpComms
  new args world = record {
    link = record { client = Calls.new args.url; world = world };
    session_id = args.session_id;
    state = tt;
    identifier = none;
    pubkeys = [];
    cipher = none;
  }

  unfoldable pub get_message_count : Args → Act ℕ
  get_message_count args = do
    token ← log_in T S P.xed_sign args.comm_privkey args.comm_pubkey
    given ← gets (λ c. c.session_id)
    id ← find_session T S given
    modify (λ c. record c { session_id = some id })
    let missing = message "comm_privkey and comm_coordinator_pubkey_getter must be specified"
    privkey ← lift (ok_or args.comm_privkey missing)
    getter ← lift (ok_or args.comm_coordinator_pubkey_getter missing)
    info ← calling T S (get_session_info T id)
    coordinator ← lift (
        ok_or (getter info.coordinator_pubkey)
          (message "The coordinator is not registered in the user's address book"))
    cipher ← lift (from_cipher T S (Peers.new S privkey (coordinator ∷ [])))
    modify (λ c. record c { cipher = some cipher })
    pure info.message_count

  -- The first of the messages, or else the rest of the loop.
  abbrev pub first_or : Act Msg → List Msg → Act Msg
  first_or again [] = again
  first_or again (m ∷ rest) = pure m

  -- The loop that waits for the signing package; other messages of the same batch are dropped.
  unfoldable pub wait_for_package : ℕ → ReceiveArgs → Act Msg
  wait_for_package zero args = lift (err still_waiting)
  wait_for_package (suc n) args =
      calling T S (receive T args) >>= λ ms. first_or (wait_for_package n args) ms

  unfoldable pub decrypting : Msg → Act Msg
  decrypting msg c = elim c.cipher [
    | none ↦ (panic, c)
    | some cipher ↦
        let (r, cipher') = Peers.decrypt S msg cipher in
        (from_cipher T S r, record c { cipher = some cipher' })
  ]

  unfoldable pub get_signing_package :
      ℕ → List SigningCommitments → Act (SendSigningPackageArgs SigningPackage Randomizer)
  get_signing_package rounds commitments = do
    expect_cipher T S
    id ← expect_session_id T S
    payload ← lift (ok_or (P.write_commitments commitments) json_error)
    msg ← encrypting T S none payload
    calling T S (send T (record { session_id = id; recipients = []; msg = msg }))
    received ← wait_for_package rounds (record { session_id = id; as_coordinator = false })
    clear ← decrypting received
    lift (ok_or (P.read_signing_package clear.msg) json_error)

  unfoldable pub send_signature_share : List SignatureShare → Act (Unit {0})
  send_signature_share shares = do
    expect_cipher T S
    payload ← lift (ok_or (P.write_signature_shares shares) json_error)
    msg ← encrypting T S none payload
    id ← expect_session_id T S
    calling T S (send T (record { session_id = id; recipients = []; msg = msg }))
    calling T S (logout T)
