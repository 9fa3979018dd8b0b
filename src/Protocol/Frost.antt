-- ===== src/Protocol/Frost.antt =====
-- What the protocols take from frost-core and frost-rerandomized.
use frost_tools.Prelude.{ℕ, String, Map, Outcome, ok, err, panic, ◌≡◌, ap}
use frost_tools.Api.{Bytes}
use frost_tools.Session.Suite.{Suite}
use frost_tools.Comms.Payloads.{Payloads}

pub record Frost (C : Suite) (P : Payloads C) : Type 1 where
  -- `C::ID`, and those of the two supported ciphersuites.
  pub id : String
  pub ed25519_id : String
  pub redpallas_id : String
  pub Signature : Type 0
  pub PublicKeyPackage : Type 0
  pub KeyPackage : Type 0
  pub SigningNonces : Type 0
  pub RandomizedParams : Type 0
  pub FrostError : Type 0
  -- `SigningPackage::new`.
  pub signing_package : Map C.Identifier C.SigningCommitments → Bytes → P.SigningPackage
  -- `RandomizedParams::from_randomizer` at the verifying key of the package.
  pub from_randomizer : PublicKeyPackage → P.Randomizer → RandomizedParams
  pub aggregate :
      P.SigningPackage
      → Map C.Identifier C.SignatureShare
      → PublicKeyPackage
      → Outcome FrostError Signature
  pub aggregate_rerandomized :
      P.SigningPackage
      → Map C.Identifier C.SignatureShare
      → PublicKeyPackage
      → RandomizedParams
      → Outcome FrostError Signature
  pub sign : P.SigningPackage → SigningNonces → KeyPackage → Outcome FrostError C.SignatureShare
  pub sign_rerandomized :
      P.SigningPackage
      → SigningNonces
      → KeyPackage
      → P.Randomizer
      → Outcome FrostError C.SignatureShare
  pub identifier : KeyPackage → C.Identifier
  -- `round1::commit` of a key's share, for the randomness of the given draw.
  pub commit : KeyPackage → ℕ → SigningNonces × C.SigningCommitments

-- How a caller boxes the errors.
pub record Errors (FrostError : Type 0) : Type 1 where
  pub Error : Type 0
  pub message : String → Error
  pub frost_error : FrostError → Error

abbrev pub from_frost : {F A : Type 0} (X : Errors F) → Outcome F A → Outcome X.Error A
from_frost X (ok a) = ok a
from_frost X (err e) = err (X.frost_error e)
from_frost X panic = panic

pub from_frost-ok :
    {G A : Type 0} (X : Errors G) {a : A} (r : Outcome G A) → from_frost X r ≡ ok a → r ≡ ok a
from_frost-ok X (ok b) e = let same : b ≡ _ = cc in ap ok same
from_frost-ok X (err x) e = cc
from_frost-ok X panic e = cc
