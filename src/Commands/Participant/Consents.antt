-- ===== src/Commands/Participant/Consents.antt =====
-- What a participant's command has done when it ends well.
use frost_tools.Prelude.{
  ℕ, ◌≡◌, text_eq, String, Option, some, List, [], ◌∷◌, map, length, get, Outcome, ok,
}
use frost_tools.Api.{Uuid, PublicKey, public_key_eq, Msg, GetSessionInfoOutput}
use frost_tools.Client.Calls.{get_session_info}
use frost_tools.Client.Transport.{Transport}
use frost_tools.Cipher.Snow.{Snow}
use frost_tools.Session.Suite.{Suite}
use frost_tools.Comms.Payloads.{Payloads}
use frost_tools.Comms.Participant as Http
use frost_tools.Comms.Participant.Listens.{Answered, FromCoordinator}
use frost_tools.Comms.Participant.Trusts.{Trusts}
use frost_tools.Config.File.{Config, Group, Participant, Platform, read, participant_by_pubkey}
use frost_tools.Inputs.{Console}
use frost_tools.Protocol.Frost.{Frost}
use frost_tools.Protocol.Participant.{SigningArgs, participant}
use frost_tools.Protocol.Participant.Shares.{Shared}
use frost_tools.Protocol.Participant.Runs.{Draws}
use frost_tools.Commands.Machine.{Urls, Machine, CommandError}
use frost_tools.Commands.Coordinator.{Codes}
use frost_tools.Commands.Participant.{ParticipantCommand, Seat, http_comms, errors}

-- The key is that of a participant of the group.
abbrev pub InGroup : Group → PublicKey → Type 0
InGroup group p = (q : Participant) × (participant_by_pubkey group p ≡ ok q) × (q.pubkey ≡ p)

module _ (T : Transport) (S : Snow) (O : Platform) (I : Console O.Files) (U : Urls I.Failure)
    (C : Suite) (P : Payloads C) (F : Frost C P) (E : Codes C P F I.Failure)
    (parse_uuid : String → Option Uuid) where
  open P use {SigningPackage}

  -- One line after the other has been read at the terminal, one for each package, and each is a `y`.
  abbrev pub Confirmed : List SigningPackage → I.Terminal → I.Terminal → Type 0
  Confirmed [] before after = before ≡ after
  Confirmed (p ∷ ps) before after =
      (line : String) × (between : I.Terminal) × (I.read_line before ≡ (ok line, between))
      × (I.trim line ≡ "y")
      × Confirmed ps between after

  -- What a participant has shared: the shares are made of a signing package of the coordinator of
  -- the session, who is a participant of the group of the configuration, over the channel with its
  -- key, and the user has consented to each message.
  pub record Shares (args : ParticipantCommand) (files : O.Files) : Type 0 where
    pub config : Config
    pub group : Group
    pub key : F.KeyPackage
    pub configured : read O args.config files ≡ ok config
    pub found : get config.group args.group ≡ some group
    pub decoded : E.key_package group.key_package ≡ ok key
    pub coordinator : PublicKey
    pub clear : Msg
    pub packages : SigningArgs C P F (errors T S O I U C P F E parse_uuid)
    pub trusted : InGroup group coordinator
    pub session_id : Uuid
    pub info : GetSessionInfoOutput
    pub told : Answered T S C P (get_session_info T session_id) info
    pub named : info.coordinator_pubkey ≡ coordinator
    pub from : FromCoordinator T S C P coordinator clear
    pub said : P.read_signing_package clear.msg ≡ some packages
    pub before : I.Terminal
    pub after : I.Terminal
    pub consented : Confirmed packages.signing_package before after
    pub count : ℕ
    pub drawn : List (F.SigningNonces × C.SigningCommitments)
    pub draws : Draws C P F (errors T S O I U C P F E parse_uuid) key count drawn
    pub shares : List C.SignatureShare
    pub as_many : length shares ≡ count
    pub signed :
        Shared C P F
          (errors T S O I U C P F E parse_uuid)
          packages
          key
          (map (λ d. d.0) drawn)
          shares

  abbrev went :
      ℕ
      → F.KeyPackage
      → Http.Args T S C P
      → Seat T S O I U C P F E parse_uuid
      → Outcome (CommandError T S O I) (Unit {0}) × Seat T S O I U C P F E parse_uuid
  went rounds key hargs seat =
      participant C P F (errors T S O I U C P F E parse_uuid)
        (http_comms T S O I U C P F E parse_uuid rounds hargs) key seat
