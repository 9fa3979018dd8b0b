-- ===== src/Protocol/Dkg.antt =====
-- dkg/cli.rs
pub mod OverHttp
use frost_tools.Prelude.{
  if◌then◌else◌, ℕ, Bool, true, false, Map, Outcome, ok, err, panic, Method, ◌>>=◌, ◌>>◌, pure,
  lift, bind, Option, none, some,
}
use frost_tools.Api.{PublicKey}
use frost_tools.Session.Suite.{Suite}
use frost_tools.Protocol.Cleanup.{cleaned}
use frost_tools.Protocol.Frost.{Errors, from_frost}

-- `frost::keys::dkg` for the randomness that it draws, and what redpallas converts its keys by.
pub record Keygen (C : Suite) : Type 1 where
  pub SecretPackage1 : Type 0
  pub SecretPackage2 : Type 0
  pub KeyPackage : Type 0
  pub PublicKeyPackage : Type 0
  pub FrostError : Type 0
  pub part1 : C.Identifier → ℕ → ℕ → Outcome FrostError (SecretPackage1 × C.Round1Package)
  pub part2 :
      SecretPackage1
      → Map C.Identifier C.Round1Package
      → Outcome FrostError (SecretPackage2 × Map C.Identifier C.Round2Package)
  pub part3 :
      SecretPackage2
      → Map C.Identifier C.Round1Package
      → Map C.Identifier C.Round2Package
      → Outcome FrostError (KeyPackage × PublicKeyPackage)
  -- Whether the ciphersuite is redpallas, and its conversions, given whether the Y coordinate is even.
  pub is_redpallas : Bool
  pub has_even_y : PublicKeyPackage → Bool
  pub key_into_even_y : Bool → KeyPackage → KeyPackage
  pub package_into_even_y : Bool → PublicKeyPackage → PublicKeyPackage

module _ (C : Suite) (F : Keygen C) (X : Errors F.FrostError) where
  open C use {Identifier, Round1Package, Round2Package}
  open F use {KeyPackage, PublicKeyPackage}
  open X use {Error}

  -- The trait `Comms` of the DKG.
  pub record Comms : Type 1 where
    pub Self : Type 0
    pub get_identifier_and_max_signers : Method Error Self (Identifier × ℕ)
    pub get_round1_packages : Round1Package → Method Error Self (Map Identifier Round1Package)
    pub get_round2_packages :
        Map Identifier Round2Package → Method Error Self (Map Identifier Round2Package)
    pub get_pubkey_identifier_map : Self → Outcome Error (Map PublicKey Identifier)
    pub cleanup_on_error : Method Error Self (Unit {0})

  abbrev pub Generated : Type 0
  Generated = (KeyPackage × PublicKeyPackage) × Map PublicKey Identifier

  -- `MaybeIntoEvenY`, whose default does nothing.
  unfoldable pub into_even_y : KeyPackage × PublicKeyPackage → KeyPackage × PublicKeyPackage
  into_even_y keys =
      if F.is_redpallas
      then (
        F.key_into_even_y (F.has_even_y keys.1) keys.0,
        F.package_into_even_y (F.has_even_y keys.1) keys.1,
      )
      else keys

  -- The block `doit`.
  unfoldable pub doit : (comms : Comms) → ℕ → Method Error comms.Self Generated
  doit comms min_signers = do
    who ← comms.get_identifier_and_max_signers
    first ← lift (from_frost X (F.part1 who.0 who.1 min_signers))
    received1 ← comms.get_round1_packages first.1
    second ← lift (from_frost X (F.part2 first.0 received1))
    received2 ← comms.get_round2_packages second.1
    keys ← lift (from_frost X (F.part3 second.0 received1 received2))
    pubkey_map ← λ s. (comms.get_pubkey_identifier_map s, s)
    pure (into_even_y keys, pubkey_map)

  unfoldable pub with_cleanup : (comms : Comms) → ℕ → Method Error comms.Self Generated
  with_cleanup comms min_signers s =
      let (r, t) = doit comms min_signers s in cleaned comms.cleanup_on_error r t

  -- The choice by the flags `cli` and `http`; `HTTPComms::new` may fail.
  module _ (by_cli by_http : Comms) where
    unfoldable pub cli_for_processed_args :
        Bool → Bool → ℕ → by_cli.Self → Outcome Error by_http.Self → Outcome Error Generated
    cli_for_processed_args true http min_signers self opened =
        (with_cleanup by_cli min_signers self).0
    cli_for_processed_args false true min_signers self opened =
        bind opened (λ self. (with_cleanup by_http min_signers self).0)
    cli_for_processed_args false false min_signers self opened =
        err (X.message "either --cli or --http must be specified")
