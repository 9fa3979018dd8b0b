-- ===== src/Commands/Participant.antt =====
-- cli/participant.rs, and confirm_message of participant/comms/http.rs
pub mod Consents
use frost_tools.Prelude.{
  ℕ, String, Bool, ◌==◌, text_eq, Option, none, some, List, [], ◌∷◌, get, values, Outcome, ok, err,
  panic, Method, ◌>>=◌, ◌>>◌, pure, lift, guard, ok_or, unless,
}
use frost_tools.Api.{Uuid, PublicKey, public_key_eq}
use frost_tools.Client.Transport.{Transport}
use frost_tools.Cipher.Snow.{Snow}
use frost_tools.Session.Suite.{Suite}
use frost_tools.Comms.Core.{CommsError, frost_error}
use frost_tools.Comms.Payloads.{Payloads}
use frost_tools.Comms.Participant as Http
use frost_tools.Config.File.{Config, Group, Participant, CommunicationKey, Platform, find, read}
use frost_tools.Inputs.{Console}
use frost_tools.Protocol.Frost.{Frost, Errors}
use frost_tools.Protocol.Participant.{Comms, SigningArgs, participant}
use frost_tools.Commands.Machine.{
  Urls, Machine, Command, CommandError, message, comms_error, from_console, from_comms, reading,
  server_url_of, parse_url, address,
}
use frost_tools.Commands.Coordinator.{Codes}

pub record ParticipantCommand : Type 0 where
  pub config : Option String
  pub server_url : Option String
  pub group : String
  pub session : Option String

-- `unwrap_or_default`.
abbrev pub or_default : Option String → String
or_default none = ""
or_default (some text) = text

abbrev pub pubkey_of : Option Participant → Option PublicKey
pubkey_of none = none
pubkey_of (some p) = some p.pubkey

-- The closure `comm_coordinator_pubkey_getter`.
unfoldable pub coordinator_key : Group → PublicKey → Option PublicKey
coordinator_key group asked = pubkey_of (find (λ p. p.pubkey == asked) (values group.participant))

module _ (T : Transport) (S : Snow) (O : Platform) (I : Console O.Files) (U : Urls I.Failure)
    (C : Suite) (P : Payloads C) (F : Frost C P) (E : Codes C P F I.Failure)
    (parse_uuid : String → Option Uuid) where
  open P use {SigningPackage}

  abbrev pub errors : Errors F.FrostError
  errors = record {
    Error = CommandError T S O I;
    message = message;
    frost_error = λ e. comms_error frost_error;
  }

  -- The HTTP implementation at its terminal.
  pub record Seat : Type 0 where
    pub http : Http.HttpComms T S C P
    pub terminal : I.Terminal

  abbrev pub Act : Type 0 → Type 0
  Act A = Method (CommandError T S O I) Seat A

  unfoldable pub by_http : {A : Type 0} → Http.Act T S C P A → Act A
  by_http m s = let (r, c) = m s.http in (from_comms T S O I r, record s { http = c })

  unfoldable pub read_answer : Act String
  read_answer s =
      let (r, t) = I.read_line s.terminal in (from_console T S O I r, record s { terminal = t })

  -- The loop over the packages.
  unfoldable pub confirm_all : List SigningPackage → Act (Unit {0})
  confirm_all [] = pure tt
  confirm_all (p ∷ ps) = do
    sign_it ← read_answer
    lift (guard (I.trim sign_it == "y") (message "signing cancelled"))
    confirm_all ps

  unfoldable pub confirm_message : SigningArgs C P F errors → Act (Unit {0})
  unfolding confirm_all
  confirm_message config = confirm_all config.signing_package

  -- `impl Comms for HTTPComms`; `rounds` bounds the loop that waits for the package.
  abbrev pub http_comms : ℕ → Http.Args T S C P → Comms C P F errors
  http_comms rounds args = record {
    Self = Seat;
    get_message_count = by_http (Http.get_message_count T S C P args);
    get_signing_package = λ commitments id rerandomized.
        by_http (Http.get_signing_package T S C P rounds commitments);
    confirm_message = confirm_message;
    send_signature_share = λ id shares. by_http (Http.send_signature_share T S C P shares);
  }

  abbrev pub http_args : Group → Option String → String → CommunicationKey → Http.Args T S C P
  http_args group session url own = record {
    url = url;
    session_id = parse_uuid (or_default session);
    comm_privkey = some own.privkey;
    comm_pubkey = some own.pubkey;
    comm_coordinator_pubkey_getter = some (coordinator_key group);
  }

  -- `HTTPComms::new` and the protocol.
  unfoldable pub signing : ℕ → F.KeyPackage → Http.Args T S C P → Command T S O I (Unit {0})
  signing rounds key args m =
      let (r, s) =
        participant C P F errors (http_comms rounds args) key
          (record { http = Http.new T S C P args m.world; terminal = m.terminal }) in
      (r, record m { terminal = s.terminal; world = s.http.link.world })

  unfoldable pub run_for_ciphersuite : ℕ → ParticipantCommand → Command T S O I (Unit {0})
  run_for_ciphersuite rounds args = do
    config ← reading T S O I (read O args.config)
    group ← lift (ok_or (get config.group args.group) (message "Group not found"))
    key ← lift (from_console T S O I (E.key_package group.key_package))
    server_url ← lift (server_url_of T S O I args.server_url group)
    url ← lift (parse_url T S O I U server_url)
    base ← lift (address T S O I U url)
    own ← lift (ok_or config.communication_key (message "user not initialized"))
    signing rounds key (http_args group args.session base own)
