-- ===== src/Session/Coordinator.antt =====
-- The session state of a coordinator, `CoordinatorSessionState`.
pub mod Invariant
pub mod Progress
pub mod Provenance
use frost_tools.Prelude.{
  ℕ, Bool, true, false, Option, none, some, List, [], ◌∷◌, PartialEq, ◌==◌, nat_eq, Map, get,
  insert, contains_key, keys, set_eq, length, if◌then◌else◌, Outcome, ok, err, panic, ok_or, guard,
}
use frost_tools.Api.{PublicKey, public_key_eq, Msg}
use frost_tools.Session.Suite.{
  Suite, SessionError, invalid_json, wrong_state, wrong_number_of_commitments,
  wrong_number_of_shares, unknown_participant, invalid_identifier,
}
use frost_tools.Session.Columns.{columns}

pub record SessionArgs : Type 0 where
  pub num_messages : ℕ
  pub num_signers : ℕ

module _ (C : Suite) where
  open C use {Identifier, SigningCommitments, SignatureShare}

  instance abbrev pub identifier_eq : PartialEq Identifier
  identifier_eq = C.identifier_eq

  pub data State : Type 0 where
    waiting_for_commitments :
        SessionArgs → Map Identifier (List SigningCommitments) → Map PublicKey Identifier → State
    waiting_for_signature_shares :
        SessionArgs
        → Map Identifier (List SigningCommitments)
        → Map PublicKey Identifier
        → Map Identifier (List SignatureShare)
        → State
    signature_shares_ready : SessionArgs → Map Identifier (List SignatureShare) → State

  unfoldable pub new : ℕ → ℕ → Map PublicKey Identifier → State
  new num_messages num_signers pubkeys =
      waiting_for_commitments (record { num_messages = num_messages; num_signers = num_signers }) []
        pubkeys

  -- The state after the commitments are in: the next one, if they are complete.
  abbrev pub commitments_in :
      SessionArgs → Map Identifier (List SigningCommitments) → Map PublicKey Identifier → State
  commitments_in args m pubkeys =
      if length m == args.num_signers
      then waiting_for_signature_shares args m pubkeys []
      else waiting_for_commitments args m pubkeys

  unfoldable pub handle_commitments :
      PublicKey → List SigningCommitments → State → Outcome SessionError (Unit {0}) × State
  handle_commitments pubkey cs (waiting_for_commitments args m pubkeys) =
      if length cs == args.num_messages
      then elim (get pubkeys pubkey) [
        | none ↦ (err unknown_participant, waiting_for_commitments args m pubkeys)
        | some id ↦ (ok tt, commitments_in args (insert id cs m) pubkeys)
      ]
      else (err wrong_number_of_commitments, waiting_for_commitments args m pubkeys)
  handle_commitments pubkey cs s = (panic, s)

  unfoldable pub has_commitments : State → Bool
  has_commitments (waiting_for_signature_shares args m pubkeys shares) = true
  has_commitments _ = false

  -- One map for each message. The panic is that of an index out of bounds, or of a wrong state.
  unfoldable pub commitments :
      State
      → Outcome SessionError (List (Map Identifier SigningCommitments) × Map PublicKey Identifier)
  commitments (waiting_for_signature_shares args m pubkeys shares) =
      elim (columns 0 args.num_messages m) [ none ↦ panic | some cs ↦ ok (cs, pubkeys) ]
  commitments _ = panic

  unfoldable pub has_signature_shares : State → Bool
  has_signature_shares (signature_shares_ready args shares) = true
  has_signature_shares _ = false

  abbrev pub shares_in :
      SessionArgs
      → Map Identifier (List SigningCommitments)
      → Map PublicKey Identifier
      → Map Identifier (List SignatureShare)
      → State
  shares_in args m pubkeys shares =
      if set_eq (keys shares) (keys m)
      then signature_shares_ready args shares
      else waiting_for_signature_shares args m pubkeys shares

  unfoldable pub handle_signature_share :
      PublicKey → List SignatureShare → State → Outcome SessionError (Unit {0}) × State
  handle_signature_share pubkey ss (waiting_for_signature_shares args m pubkeys shares) =
      if length ss == args.num_messages
      then elim (get pubkeys pubkey) [
        | none ↦ (err unknown_participant, waiting_for_signature_shares args m pubkeys shares)
        | some id ↦
            if contains_key m id
            then (ok tt, shares_in args m pubkeys (insert id ss shares))
            else (err invalid_identifier, waiting_for_signature_shares args m pubkeys shares)
      ]
      else (err wrong_number_of_shares, waiting_for_signature_shares args m pubkeys shares)
  handle_signature_share pubkey ss s = (panic, s)

  unfoldable pub signature_shares :
      State → Outcome SessionError (List (Map Identifier SignatureShare))
  signature_shares (signature_shares_ready args shares) =
      elim (columns 0 args.num_messages shares) [ none ↦ panic | some cs ↦ ok cs ]
  signature_shares _ = panic

  unfoldable pub recv : Msg → State → Outcome SessionError (Unit {0}) × State
  unfolding handle_commitments handle_signature_share
  recv msg (waiting_for_commitments args m pubkeys) =
      let s = waiting_for_commitments args m pubkeys in
      elim (C.read_commitments msg.msg) [
        | none ↦ (err invalid_json, s)
        | some cs ↦ handle_commitments msg.sender cs s
      ]
  recv msg (waiting_for_signature_shares args m pubkeys shares) =
      let s = waiting_for_signature_shares args m pubkeys shares in
      elim (C.read_signature_shares msg.msg) [
        | none ↦ (err invalid_json, s)
        | some ss ↦ handle_signature_share msg.sender ss s
      ]
  recv msg (signature_shares_ready args shares) =
      (err wrong_state, signature_shares_ready args shares)

  unfoldable pub recv_all : List Msg → State → State
  recv_all [] s = s
  recv_all (m ∷ ms) s = recv_all ms (recv m s).1
