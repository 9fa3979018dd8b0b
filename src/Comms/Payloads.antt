-- ===== src/Comms/Payloads.antt =====
-- The messages that pass through the server, and what they take from frost-core, serde_json and xeddsa.
use frost_tools.Prelude.{Option, List}
use frost_tools.Api.{Uuid, Bytes, PublicKey}
use frost_tools.Session.Suite.{Suite}

-- `SendSigningPackageArgs` of api.rs.
pub record SendSigningPackageArgs (SigningPackage Randomizer : Type 0) : Type 0 where
  pub signing_package : List SigningPackage
  pub aux_msg : Bytes
  pub randomizer : List Randomizer

pub record Payloads (C : Suite) : Type 1 where
  pub SigningPackage : Type 0
  pub Randomizer : Type 0
  -- `serde_json::to_vec`.
  pub write_commitments : List C.SigningCommitments → Option Bytes
  pub write_signature_shares : List C.SignatureShare → Option Bytes
  pub write_signing_package : SendSigningPackageArgs SigningPackage Randomizer → Option Bytes
  pub write_round1_package : C.Round1Package → Option Bytes
  pub write_broadcast : C.Identifier × C.Round1Package → Option Bytes
  pub write_round2_package : C.Round2Package → Option Bytes
  -- `serde_json::from_slice`, where session.rs does not call it.
  pub read_signing_package : Bytes → Option (SendSigningPackageArgs SigningPackage Randomizer)
  -- `Identifier::derive` of a session id followed by a public key.
  pub derive : Uuid → PublicKey → Option C.Identifier
  pub xed_sign : Bytes → Uuid → Bytes
