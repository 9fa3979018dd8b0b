-- ===== src/Protocol/Participant.antt =====
-- participant/cli.rs
pub mod Shares
pub mod Runs
use frost_tools.Prelude.{
  ℕ, zero, suc, Bool, true, false, not, ◌&&◌, Option, none, some, List, [], ◌∷◌, map, length,
  is_empty, Outcome, ok, err, panic, Method, ◌>>=◌, ◌>>◌, pure, lift, guard, bind, ◌==◌, nat_eq,
  text_eq, if◌then◌else◌,
}
use frost_tools.Session.Suite.{Suite}
use frost_tools.Comms.Payloads.{Payloads, SendSigningPackageArgs}
use frost_tools.Protocol.Frost.{Frost, Errors, from_frost}

module _ (C : Suite) (P : Payloads C) (F : Frost C P) (X : Errors F.FrostError) where
  open C use {Identifier, SigningCommitments, SignatureShare}
  open P use {SigningPackage, Randomizer}
  open F use {KeyPackage, SigningNonces}
  open X use {Error}

  abbrev pub SigningArgs : Type 0
  SigningArgs = SendSigningPackageArgs SigningPackage Randomizer

  -- The trait `Comms` of the participant.
  pub record Comms : Type 1 where
    pub Self : Type 0
    pub get_message_count : Method Error Self ℕ
    pub get_signing_package :
        List SigningCommitments → Identifier → Bool → Method Error Self SigningArgs
    pub confirm_message : SigningArgs → Method Error Self (Unit {0})
    pub send_signature_share : Identifier → List SignatureShare → Method Error Self (Unit {0})

  unfoldable pub sign_all :
      KeyPackage → List SigningPackage → List SigningNonces → Outcome Error (List SignatureShare)
  sign_all key (p ∷ ps) (n ∷ ns) =
      bind (from_frost X (F.sign p n key)) (λ s. bind (sign_all key ps ns) (λ ss. ok (s ∷ ss)))
  sign_all key ps ns = ok []

  unfoldable pub sign_rerandomized_all :
      KeyPackage
      → List SigningPackage
      → List SigningNonces
      → List Randomizer
      → Outcome Error (List SignatureShare)
  sign_rerandomized_all key (p ∷ ps) (n ∷ ns) (r ∷ rs) =
      bind (from_frost X (F.sign_rerandomized p n key r))
        (λ s. bind (sign_rerandomized_all key ps ns rs) (λ ss. ok (s ∷ ss)))
  sign_rerandomized_all key ps ns rs = ok []

  unfoldable pub generate_signature :
      SigningArgs → KeyPackage → List SigningNonces → Outcome Error (List SignatureShare)
  generate_signature config key nonces =
      if not (length nonces == length config.signing_package)
      then err (X.message "Number of nonces must match number of signing packages")
      else if not (is_empty config.randomizer)
          && not (length config.randomizer == length config.signing_package)
      then err (X.message "Number of randomizers must match number of signing packages")
      else if is_empty config.randomizer
      then sign_all key config.signing_package nonces
      else sign_rerandomized_all key config.signing_package nonces config.randomizer

  -- The draws from `i` on, one for each message.
  unfoldable pub commit_all : KeyPackage → ℕ → ℕ → List (SigningNonces × SigningCommitments)
  commit_all key i zero = []
  commit_all key i (suc n) = F.commit key i ∷ commit_all key (suc i) n

  -- Whether the ciphersuite is rerandomized; the panic is that of another one.
  unfoldable pub rerandomized : Outcome Error Bool
  rerandomized =
      if F.id == F.ed25519_id then ok false else if F.id == F.redpallas_id then ok true else panic

  module _ (comms : Comms) where
    open comms use {Self}

    unfoldable pub participant : KeyPackage → Method Error Self (Unit {0})
    participant key = do
      message_count ← comms.get_message_count
      let drawn = commit_all key 0 message_count
      kind ← lift rerandomized
      config ← comms.get_signing_package (map (λ d. d.1) drawn) (F.identifier key) kind
      comms.confirm_message config
      shares ← lift (generate_signature config key (map (λ d. d.0) drawn))
      comms.send_signature_share (F.identifier key) shares
