-- ===== src/Commands/Coordinator.antt =====
-- cli/coordinator.rs
pub mod Table
pub mod Signed
pub mod Writes
use frost_tools.Prelude.{
  ℕ, ◌%◌, ◌^◌, String, Bool, true, false, ◌||◌, ◌==◌, nat_eq, text_eq, Option, none, some, List, [],
  ◌∷◌, Map, get, insert, length, is_empty, Outcome, ok, err, panic, Method, ◌>>=◌, ◌>>◌, pure, lift,
  guard, bind, ok_or, if◌then◌else◌,
}
use frost_tools.Api.{Bytes, PublicKey, public_key_eq}
use frost_tools.Client.Transport.{Transport}
use frost_tools.Cipher.Snow.{Snow}
use frost_tools.Session.Suite.{Suite}
use frost_tools.Comms.Payloads.{Payloads}
use frost_tools.Comms.Coordinator as Http
use frost_tools.Config.File.{Config, Group, CommunicationKey, Platform, read, participant_by_pubkey}
use frost_tools.Inputs.{Console, is_stdin, read_messages, read_randomizers, read_aux_message}
use frost_tools.Protocol.Frost.{Frost}
use frost_tools.Protocol.Coordinator.{ProcessedArgs, coordinator}
use frost_tools.Protocol.Coordinator.OverHttp.{errors, http_comms}
use frost_tools.Commands.Machine.{
  Urls, Machine, Command, CommandError, message, from_config, from_console, reading, at_terminal,
  over_http, server_url_of, parse_url, address,
}

pub record CoordinatorCommand : Type 0 where
  pub config : Option String
  pub server_url : Option String
  pub group : String
  pub signers : List String
  pub message : List String
  pub randomizer : List String
  pub aux_message : Option String
  pub signature : List String

-- What frost-core, frost-rerandomized and postcard read and write.
pub record Codes (C : Suite) (P : Payloads C) (F : Frost C P) (Failure : Type 0) : Type 0 where
  pub public_key_package : Bytes → Outcome Failure F.PublicKeyPackage
  pub key_package : Bytes → Outcome Failure F.KeyPackage
  pub identifier : Bytes → Outcome Failure C.Identifier
  pub randomizer : Bytes → Outcome Failure P.Randomizer
  pub signature : F.Signature → Outcome Failure Bytes

-- One name for each signature: `-` where none was given.
unfoldable pub all_stdout : {A : Type 0} → List A → List String
all_stdout [] = []
all_stdout (x ∷ xs) = "-" ∷ all_stdout xs

unfoldable pub outputs : {A : Type 0} → List String → List A → List String
unfolding all_stdout
outputs given xs = if is_empty given then all_stdout xs else given

module _ (T : Transport) (S : Snow) (O : Platform) (I : Console O.Files) (U : Urls I.Failure)
    (C : Suite) (P : Payloads C) (F : Frost C P) (E : Codes C P F I.Failure) where
  open C use {Identifier}

  -- The closure of the loop over the signers: a key of the group, and its identifier.
  unfoldable pub signer : Group → String → Outcome (CommandError T S O I) (PublicKey × Identifier)
  signer group s = bind (from_console T S O I (I.hex_decode s)) (λ bytes.
      let pubkey : PublicKey = record { bytes = bytes } in
      bind (from_config T S O I (participant_by_pubkey group pubkey)) (λ contact.
        bind (from_console T S O I (E.identifier contact.identifier)) (λ i. ok (pubkey, i))))

  unfoldable pub signer_table :
      Group
      → List String
      → Map PublicKey Identifier
      → Outcome (CommandError T S O I) (Map PublicKey Identifier)
  signer_table group [] table = ok table
  signer_table group (s ∷ rest) table =
      bind (signer group s) (λ k. signer_table group rest (insert k.0 k.1 table))

  unfoldable pub read_aux : Option String → Command T S O I (Option Bytes)
  read_aux none = pure none
  read_aux (some filename) =
      at_terminal T S O I (λ files. read_aux_message I files filename) >>= λ bytes.
      pure (some bytes)

  unfoldable pub write_signature : F.Signature → String → Command T S O I (Unit {0})
  write_signature x filename = lift (from_console T S O I (E.signature x)) >>= λ bytes.
      if is_stdin I filename
      then at_terminal T S O I (λ files. I.write_line (O.hex bytes))
      else (λ m.
          let (r, files) = I.write_bytes filename bytes m.files in
          (from_console T S O I r, record m { files = files }))

  -- The loop over the pairs.
  unfoldable pub write_signatures : List F.Signature → List String → Command T S O I (Unit {0})
  write_signatures (x ∷ xs) (filename ∷ rest) =
      write_signature x filename >> write_signatures xs rest
  write_signatures xs filenames = pure tt

  abbrev pub processed :
      F.PublicKeyPackage
      → Map PublicKey Identifier
      → List Bytes
      → List P.Randomizer
      → Option Bytes
      → ProcessedArgs C P F (errors T S C P F)
  processed key signers messages randomizers aux_msg = record {
    num_signers = length signers % 2 ^ 16;
    public_key_package = key;
    messages = messages;
    randomizers = randomizers;
    aux_msg = aux_msg;
  }

  abbrev pub http_args : Map PublicKey Identifier → String → CommunicationKey → Http.Args T S C P
  http_args signers url key = record {
    signers = signers;
    url = url;
    comm_privkey = some key.privkey;
    comm_pubkey = some key.pubkey;
  }

  -- `HTTPComms::new` and the protocol; `rounds` bounds the loops that wait for messages.
  unfoldable pub signing :
      ℕ
      → ProcessedArgs C P F (errors T S C P F)
      → Http.Args T S C P
      → Command T S O I (List F.Signature)
  signing rounds pargs args =
      over_http T S O I (Http.new T S C P (length pargs.messages) pargs.num_signers args)
        (coordinator C P F (errors T S C P F) (http_comms T S C P F rounds args) pargs)

  unfoldable pub run_for_ciphersuite : ℕ → CoordinatorCommand → Command T S O I (Unit {0})
  run_for_ciphersuite rounds args = do
    config ← reading T S O I (read O args.config)
    group ← lift (ok_or (get config.group args.group) (message "Group not found"))
    key ← lift (from_console T S O I (E.public_key_package group.public_key_package))
    server_url ← lift (server_url_of T S O I args.server_url group)
    url ← lift (parse_url T S O I U server_url)
    signers ← lift (signer_table group args.signers [])
    messages ← at_terminal T S O I (λ files. read_messages I files args.message)
    randomizers ←
        at_terminal T S O I (λ files. read_randomizers I E.randomizer files args.randomizer)
    aux_msg ← read_aux args.aux_message
    checked ← lift (
        guard (is_empty args.signature || length args.signature == length messages)
          (message "number of signature outputs must match number of messages"))
    base ← lift (address T S O I U url)
    own ← lift (ok_or config.communication_key (message "user not initialized"))
    signatures ←
        signing rounds (processed key signers messages randomizers aux_msg)
          (http_args signers base own)
    write_signatures signatures (outputs args.signature signatures)
