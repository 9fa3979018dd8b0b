-- ===== src/Protocol/Coordinator.antt =====
-- coordinator/cli.rs
pub mod Pairing
pub mod Runs
pub mod OverHttp
use frost_tools.Prelude.{
  ℕ, zero, suc, Bool, true, false, not, ◌&&◌, Option, none, some, List, [], ◌∷◌, Map, length,
  get_elem?, is_empty, Outcome, ok, err, panic, Method, ◌>>=◌, ◌>>◌, pure, lift, guard, bind, ◌==◌,
  nat_eq, if◌then◌else◌,
}
use frost_tools.Api.{Bytes}
use frost_tools.Session.Suite.{Suite}
use frost_tools.Comms.Payloads.{Payloads}
use frost_tools.Protocol.Cleanup.{cleaned}
use frost_tools.Protocol.Frost.{Frost, Errors, from_frost}

module _ (C : Suite) (P : Payloads C) (F : Frost C P) (X : Errors F.FrostError) where
  open C use {Identifier, SigningCommitments, SignatureShare}
  open P use {SigningPackage, Randomizer}
  open F use {Signature, PublicKeyPackage}
  open X use {Error}

  -- The trait `Comms` of the coordinator.
  pub record Comms : Type 1 where
    pub Self : Type 0
    pub get_signing_commitments :
        PublicKeyPackage → ℕ → ℕ → Method Error Self (List (Map Identifier SigningCommitments))
    pub send_signing_package_and_get_signature_shares :
        List SigningPackage
        → Option (List Randomizer)
        → Option Bytes
        → Method Error Self (List (Map Identifier SignatureShare))
    pub process_signature : List Signature → Method Error Self (Unit {0})
    pub cleanup_on_error : Method Error Self (Unit {0})

  pub record ProcessedArgs : Type 0 where
    pub num_signers : ℕ
    pub public_key_package : PublicKeyPackage
    pub messages : List Bytes
    pub randomizers : List Randomizer
    pub aux_msg : Option Bytes

  -- From message `i` on; the panic is that of `messages[i]`.
  unfoldable pub signing_packages :
      List Bytes
      → ℕ
      → List (Map Identifier SigningCommitments)
      → Outcome Error (List SigningPackage)
  signing_packages messages i [] = ok []
  signing_packages messages i (c ∷ cs) = elim (get_elem? messages i) [
    | none ↦ panic
    | some m ↦ bind (signing_packages messages (suc i) cs) (λ ps. ok (F.signing_package c m ∷ ps))
  ]

  unfoldable pub aggregate_all :
      PublicKeyPackage
      → List SigningPackage
      → List (Map Identifier SignatureShare)
      → Outcome Error (List Signature)
  aggregate_all key (p ∷ ps) (s ∷ ss) =
      bind (from_frost X (F.aggregate p s key))
        (λ x. bind (aggregate_all key ps ss) (λ xs. ok (x ∷ xs)))
  aggregate_all key ps ss = ok []

  unfoldable pub aggregate_rerandomized_all :
      PublicKeyPackage
      → List Randomizer
      → List SigningPackage
      → List (Map Identifier SignatureShare)
      → Outcome Error (List Signature)
  aggregate_rerandomized_all key (r ∷ rs) (p ∷ ps) (s ∷ ss) =
      bind (from_frost X (F.aggregate_rerandomized p s key (F.from_randomizer key r)))
        (λ x. bind (aggregate_rerandomized_all key rs ps ss) (λ xs. ok (x ∷ xs)))
  aggregate_rerandomized_all key rs ps ss = ok []

  unfoldable pub given : List Randomizer → Option (List Randomizer)
  given [] = none
  given (r ∷ rs) = some (r ∷ rs)

  unfoldable pub aggregated :
      PublicKeyPackage
      → Option (List Randomizer)
      → List SigningPackage
      → List (Map Identifier SignatureShare)
      → Outcome Error (List Signature)
  aggregated key none ps ss = aggregate_all key ps ss
  aggregated key (some rs) ps ss = aggregate_rerandomized_all key rs ps ss

  module _ (comms : Comms) where
    open comms use {Self}

    -- The block `doit`.
    unfoldable pub doit : ProcessedArgs → Method Error Self (List Signature)
    doit pargs = do
      commitments ←
          comms.get_signing_commitments pargs.public_key_package pargs.num_signers
            (length pargs.messages)
      packages ← lift (signing_packages pargs.messages 0 commitments)
      shares ←
          comms.send_signing_package_and_get_signature_shares packages (given pargs.randomizers)
            pargs.aux_msg
      signatures ←
          lift (aggregated pargs.public_key_package (given pargs.randomizers) packages shares)
      comms.process_signature signatures
      pure signatures

    unfoldable pub coordinator : ProcessedArgs → Method Error Self (List Signature)
    coordinator pargs s =
        if not (is_empty pargs.randomizers)
          && not (length pargs.randomizers == length pargs.messages)
        then (err (X.message "Number of randomizers must match number of messages"), s)
        else (let (r, t) = doit pargs s in cleaned comms.cleanup_on_error r t)
