-- ===== src/Comms/Dkg.antt =====
-- dkg/comms/http.rs
pub mod Enters
pub mod Running
pub mod Agrees
pub mod Ends
pub mod Stuck
use frost_tools.Prelude.{
  ℕ, ◌%◌, ◌^◌, unless, String, Bool, true, false, not, Option, none, some, List, [], ◌∷◌, Map, keys,
  get, insert, length, is_empty, Outcome, ok, err, panic, Method, ◌>>=◌, ◌>>◌, pure, lift, gets,
  modify, ok_or, guard, ltb, bind, PartialEq, ◌==◌, if◌then◌else◌,
}
use frost_tools.Api.{
  Uuid, Bytes, PublicKey, public_key_eq, Msg, CreateNewSessionArgs, SendArgs, ReceiveArgs,
}
use frost_tools.Client.Transport.{Transport}
use frost_tools.Client.Calls
use frost_tools.Client.Calls.{create_new_session, get_session_info, send, close_session, logout}
use frost_tools.Cipher.Snow.{Snow}
use frost_tools.Cipher.Peers
use frost_tools.Session.Suite.{Suite, SessionError}
use frost_tools.Session.Dkg.{
  State, waiting_for_round1_packages, round2_packages_ready, waiting_for_round1_packages_broadcast,
  waiting_for_round2_packages, recv, round1_packages, round2_packages, has_round1_packages,
  has_round1_broadcast_packages, has_round2_packages,
}
use frost_tools.Comms.Core.{
  Comms, CommsError, message, json_error, frost_error, from_cipher, from_session, unwrap, poll,
  calling, polling, expect_cipher, encrypting, expect_session_id, log_in, find_session,
}
use frost_tools.Comms.Payloads.{Payloads}

-- `Some(pubkey) == self.args.comm_pubkey.as_ref()`
abbrev pub is_own : Option PublicKey → PublicKey → Bool
is_own none p = false
is_own (some own) p = p == own

module _ (T : Transport) (S : Snow) (C : Suite) (P : Payloads C) where
  open C use {Identifier, Round1Package, Round2Package}

  instance abbrev pub identifier_eq : PartialEq Identifier
  identifier_eq = C.identifier_eq

  -- The fields of `ProcessedArgs` that the HTTP mode uses.
  pub record Args : Type 0 where
    pub url : String
    pub comm_privkey : Option Bytes
    pub comm_pubkey : Option PublicKey
    pub comm_participant_pubkey_getter : Option (PublicKey → Option PublicKey)
    pub participants : List PublicKey

  abbrev pub HttpComms : Type 0
  HttpComms = Comms T S (State C) Identifier

  abbrev pub Act : Type 0 → Type 0
  Act A = Method (CommsError T S) HttpComms A

  unfoldable pub new : Args → T.World → HttpComms
  new args world = record {
    link = record { client = Calls.new args.url; world = world };
    session_id = none;
    state = waiting_for_round1_packages [] [];
    identifier = none;
    pubkeys = [];
    cipher = none;
  }

  -- The identifiers of the participants, from the session id and their public keys.
  unfoldable pub derive_all :
      Uuid
      → List PublicKey
      → Map PublicKey Identifier
      → Outcome (CommsError T S) (Map PublicKey Identifier)
  derive_all id [] m = ok m
  derive_all id (p ∷ ps) m =
      bind (ok_or (P.derive id p) frost_error) (λ i. derive_all id ps (insert p i m))

  unfoldable pub open_session : Args → Act Uuid
  open_session args =
      if is_empty args.participants
      then (gets (λ c. c.session_id) >>= λ given. find_session T S given)
      else calling T S
          (create_new_session T (record { pubkeys = args.participants; message_count = 1 }))

  -- `match self.state`, which copies the public keys into it.
  unfoldable pub set_pubkeys : Map PublicKey Identifier → Act (Unit {0})
  set_pubkeys pubkeys c = elim c.state [
    | waiting_for_round1_packages ps r1 ↦
        (ok tt, record c { state = waiting_for_round1_packages pubkeys r1 })
    | waiting_for_round1_packages_broadcast ps r1 bs ↦ (panic, c)
    | waiting_for_round2_packages ps r1 r2 ↦ (panic, c)
    | round2_packages_ready ps r2 ↦ (panic, c)
  ]

  unfoldable pub get_identifier_and_max_signers : Args → Act (Identifier × ℕ)
  get_identifier_and_max_signers args = do
    token ← log_in T S P.xed_sign args.comm_privkey args.comm_pubkey
    comm_pubkey ← lift (ok_or args.comm_pubkey (message "comm_pubkey must be specified"))
    id ← open_session args
    modify (λ c. record c { session_id = some id })
    info ← calling T S (get_session_info T id)
    pubkeys ← lift (derive_all id info.pubkeys [])
    modify (λ c. record c { pubkeys = pubkeys })
    lift (
        guard (not (ltb (length pubkeys) 2))
          (message "DKG session must have at least 2 participants"))
    set_pubkeys pubkeys
    identifier ← lift (ok_or (P.derive id comm_pubkey) frost_error)
    modify (λ c. record c { identifier = some identifier })
    pure (identifier, length pubkeys % 2 ^ 16)

  -- The keys of the address book for the given ones.
  unfoldable pub known_keys :
      (PublicKey → Option PublicKey) → List PublicKey → Outcome (CommsError T S) (List PublicKey)
  known_keys getter [] = ok []
  known_keys getter (p ∷ ps) =
      bind (ok_or (getter p) (message "A participant is not registered in the user's address book"))
        (λ q. bind (known_keys getter ps) (λ qs. ok (q ∷ qs)))

  -- Encrypts a message for one participant and sends it.
  unfoldable pub send_to : PublicKey → Outcome (CommsError T S) Bytes → Act (Unit {0})
  send_to pubkey payload = do
    clear ← lift payload
    msg ← encrypting T S (some pubkey) clear
    id ← expect_session_id T S
    calling T S (send T (record { session_id = id; recipients = pubkey ∷ []; msg = msg }))

  unfoldable pub send_round1 : Args → Round1Package → List PublicKey → Act (Unit {0})
  send_round1 args pkg [] = pure tt
  send_round1 args pkg (p ∷ ps) = do
    unless (is_own args.comm_pubkey p) (send_to p (ok_or (P.write_round1_package pkg) json_error))
    send_round1 args pkg ps

  -- The packages that one participant is told of: all but its own.
  unfoldable pub echo_to : PublicKey → Identifier → Map Identifier Round1Package → Act (Unit {0})
  echo_to p recipient [] = pure tt
  echo_to p recipient ((sender, pkg) ∷ rest) = do
    unless (sender == recipient) (send_to p (ok_or (P.write_broadcast (sender, pkg)) json_error))
    echo_to p recipient rest

  unfoldable pub echo_all : Args → Map PublicKey Identifier → Act (Unit {0})
  echo_all args [] = pure tt
  echo_all args ((p, recipient) ∷ rest) = do
    unless (is_own args.comm_pubkey p) (
        (gets (λ c. round1_packages C c.state) >>= λ r.
        lift (from_session T S r) >>= λ packages. echo_to p recipient packages))
    echo_all args rest

  -- `self.state.recv(msg, self.identifier.expect(…))`
  abbrev pub recv_as : Option Identifier → Msg → State C → Outcome SessionError (Unit {0}) × State C
  recv_as none msg s = (panic, s)
  recv_as (some identifier) msg s = recv C identifier msg s

  -- The loop that waits until `done`.
  unfoldable pub wait_until : ℕ → (State C → Bool) → Act (Unit {0})
  wait_until rounds done = do
    id ← expect_session_id T S
    identifier ← gets (λ c. c.identifier)
    polling T S (
        poll T S (recv_as identifier) done (record { session_id = id; as_coordinator = false })
          rounds)

  -- The echo broadcast, which two participants skip.
  unfoldable pub echo_broadcast : ℕ → Args → Act (Unit {0})
  echo_broadcast rounds args = do
    pubkeys ← gets (λ c. c.pubkeys)
    echo_all args pubkeys
    wait_until rounds (has_round1_broadcast_packages C)

  unfoldable pub get_round1_packages : ℕ → Args → Round1Package → Act (Map Identifier Round1Package)
  get_round1_packages rounds args pkg = do
    let missing = message "comm_privkey and comm_participant_pubkey_getter must be specified"
    privkey ← lift (ok_or args.comm_privkey missing)
    getter ← lift (ok_or args.comm_participant_pubkey_getter missing)
    pubkeys ← gets (λ c. keys c.pubkeys)
    peers ← lift (known_keys getter pubkeys)
    cipher ← lift (from_cipher T S (Peers.new S privkey peers))
    modify (λ c. record c { cipher = some cipher })
    send_round1 args pkg pubkeys
    wait_until rounds (has_round1_packages C)
    skip ← gets (λ c. has_round1_broadcast_packages C c.state)
    unless (skip) (echo_broadcast rounds args)
    result ← gets (λ c. round1_packages C c.state)
    lift (from_session T S result)

  unfoldable pub send_round2 :
      Args → Map Identifier Round2Package → Map PublicKey Identifier → Act (Unit {0})
  send_round2 args packages [] = pure tt
  send_round2 args packages ((p, id) ∷ rest) = do
    unless (is_own args.comm_pubkey p) (
        send_to p (
          bind
            (ok_or (get packages id) (message "must have Round 2 Package for the given identifier"))
            (λ pkg. ok_or (P.write_round2_package pkg) json_error)))
    send_round2 args packages rest

  unfoldable pub get_round2_packages :
      ℕ → Args → Map Identifier Round2Package → Act (Map Identifier Round2Package)
  get_round2_packages rounds args packages = do
    expect_cipher T S
    pubkeys ← gets (λ c. c.pubkeys)
    send_round2 args packages pubkeys
    wait_until rounds (has_round2_packages C)
    id ← expect_session_id T S
    unless (is_empty args.participants) (calling T S (close_session T id))
    calling T S (logout T)
    result ← gets (λ c. round2_packages C c.state)
    lift (from_session T S result)

  unfoldable pub get_pubkey_identifier_map :
      HttpComms → Outcome (CommsError T S) (Map PublicKey Identifier)
  get_pubkey_identifier_map c = elim c.state [
    | round2_packages_ready pubkeys r2 ↦ ok pubkeys
    | waiting_for_round1_packages pubkeys r1 ↦ err (message "wrong state")
    | waiting_for_round1_packages_broadcast pubkeys r1 bs ↦ err (message "wrong state")
    | waiting_for_round2_packages pubkeys r1 r2 ↦ err (message "wrong state")
  ]

  unfoldable pub cleanup_on_error : Act (Unit {0})
  cleanup_on_error c = elim c.session_id [
    | none ↦ (ok tt, c)
    | some id ↦ calling T S (close_session T id) c
  ]
