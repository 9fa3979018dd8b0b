-- ===== src/Session/Suite.antt =====
-- What session.rs takes from frost-core and serde: the types of a ciphersuite and their decoders.
use frost_tools.Prelude.{Option, List, PartialEq}
use frost_tools.Api.{Bytes}

pub record Suite : Type 1 where
  pub Identifier : Type 0
  pub identifier_eq : PartialEq Identifier
  pub SigningCommitments : Type 0
  pub SignatureShare : Type 0
  pub Round1Package : Type 0
  pub round1_package_eq : PartialEq Round1Package
  pub Round2Package : Type 0
  -- `serde_json::from_slice` at the types that messages carry.
  pub read_commitments : Bytes → Option (List SigningCommitments)
  pub read_signature_shares : Bytes → Option (List SignatureShare)
  pub read_round1_package : Bytes → Option Round1Package
  pub read_broadcast : Bytes → Option (Identifier × Round1Package)
  pub read_round2_package : Bytes → Option Round2Package

-- The errors of session.rs, by their messages; `unknown_participant` is spelled in two ways there.
pub data SessionError : Type 0 where
  invalid_json wrong_state wrong_number_of_commitments wrong_number_of_shares : SessionError
  unknown_participant invalid_identifier : SessionError
  own_broadcast redundant_broadcast package_not_found : SessionError
  broadcast_mismatch duplicated_broadcast : SessionError
