-- ===== src/Commands/Coordinator/Signed.antt =====
-- What a coordinator's command has done when it ends well.
use frost_tools.Prelude.{
  ℕ, ◌≡◌, true, ◌||◌, ◌==◌, nat_eq, text_eq, String, Option, none, some, List, Map, get, length,
  is_empty, ok,
}
use frost_tools.Api.{Bytes, PublicKey}
use frost_tools.Client.Transport.{Transport}
use frost_tools.Cipher.Snow.{Snow}
use frost_tools.Session.Suite.{Suite}
use frost_tools.Comms.Payloads.{Payloads}
use frost_tools.Comms.Coordinator as Http
use frost_tools.Config.File.{Config, Group, CommunicationKey, Platform, read}
use frost_tools.Inputs.{Console, read_randomizers, read_aux_message}
use frost_tools.Inputs.Reads.{Messages}
use frost_tools.Protocol.Frost.{Frost}
use frost_tools.Protocol.Coordinator.Runs.{Results}
use frost_tools.Protocol.Coordinator.OverHttp.{errors, http_comms, http-KeepsCount}
use frost_tools.Commands.Machine.{Urls, Machine, message, server_url_of, parse_url, address}
use frost_tools.Commands.Coordinator.{CoordinatorCommand, Codes, processed, http_args}
use frost_tools.Commands.Coordinator.Writes.{Named, Written}
use frost_tools.Commands.Coordinator.Table.{Members}

module _ (T : Transport) (S : Snow) (O : Platform) (I : Console O.Files) (U : Urls I.Failure)
    (C : Suite) (P : Payloads C) (F : Frost C P) (E : Codes C P F I.Failure) where
  open C use {Identifier}

  -- The server is the one of the arguments, or else of the group; the key pair is that of the
  -- configuration.
  abbrev pub Requested :
      Config → Group → CoordinatorCommand → String → U.Url → String → CommunicationKey → Type 0
  Requested config group args server_url parsed url own =
      (server_url_of T S O I args.server_url group ≡ ok server_url)
      × (parse_url T S O I U server_url ≡ ok parsed)
      × (address T S O I U parsed ≡ ok url)
      × (config.communication_key ≡ some own)

  -- The randomizers and the auxiliary message are what their arguments are read to.
  abbrev pub Randomized : O.Files → List String → List P.Randomizer → Type 0
  Randomized files paths randomizers =
      (s : I.Terminal) × (t : I.Terminal) × (read_randomizers I E.randomizer files paths s
        ≡ (ok randomizers, t))

  abbrev pub Auxiliary : O.Files → Option String → Option Bytes → Type 0
  Auxiliary files none aux_msg = aux_msg ≡ none
  Auxiliary files (some path) aux_msg =
      (bytes : Bytes) × (s : I.Terminal) × (t : I.Terminal) × (read_aux_message I files path s
        ≡ (ok bytes, t))
      × (aux_msg ≡ some bytes)

  -- The signers are participants of the group of the configuration, and the messages are those of
  -- the paths. The signatures are what the protocol returns, one for each message; each is written
  -- to its name once the protocol is done.
  pub record Signed (rounds : ℕ) (args : CoordinatorCommand) (files : O.Files)
      (end : Machine T S O I) : Type 0 where
    pub config : Config
    pub group : Group
    pub key : F.PublicKeyPackage
    pub signers : Map PublicKey Identifier
    pub messages : List Bytes
    pub randomizers : List P.Randomizer
    pub aux_msg : Option Bytes
    pub url : String
    pub own : CommunicationKey
    pub configured : read O args.config files ≡ ok config
    pub found : get config.group args.group ≡ some group
    pub decoded : E.public_key_package group.public_key_package ≡ ok key
    pub members : Members T S O I U C P F E group signers
    pub given : Messages I files args.message messages
    pub server_url : String
    pub parsed : U.Url
    pub requested : Requested config group args server_url parsed url own
    pub randomized : Randomized files args.randomizer randomizers
    pub auxiliary : Auxiliary files args.aux_message aux_msg
    pub xs : List F.Signature
    pub after : Http.HttpComms T S C P
    pub results :
        Results C P F
          (errors T S C P F)
          (http_comms T S C P F rounds (http_args T S O I U C P F E signers url own))
          (processed T S O I U C P F E key signers messages randomizers aux_msg)
          (http-KeepsCount T S C P F rounds
            (http_args T S O I U C P F E signers url own)
            (length messages)
            (processed T S O I U C P F E key signers messages randomizers aux_msg).num_signers)
          xs
          after
    pub names : List String
    pub named : Named args.signature names
    pub done : Machine T S O I
    pub same_files : done.files ≡ files
    pub same_world : done.world ≡ after.link.world
    pub written : Written T S O I U C P F E xs names done end

  -- What is known once the inputs are read.
  abbrev Prepared :
      CoordinatorCommand
      → O.Files
      → Config
      → Group
      → F.PublicKeyPackage
      → Map PublicKey Identifier
      → List Bytes
      → List P.Randomizer
      → Option Bytes
      → String
      → U.Url
      → String
      → CommunicationKey
      → Type 0
  Prepared args files config group key signers messages randomizers aux_msg server_url parsed url
        own =
      (read O args.config files ≡ ok config)
      × (get config.group args.group ≡ some group)
      × (E.public_key_package group.public_key_package ≡ ok key)
      × Members T S O I U C P F E group signers
      × Messages I files args.message messages
      × ((is_empty args.signature || length args.signature == length messages) ≡ true)
      × Requested config group args server_url parsed url own
      × Randomized files args.randomizer randomizers
      × Auxiliary files args.aux_message aux_msg
