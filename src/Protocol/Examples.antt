-- ===== src/Protocol/Examples.antt =====
-- A toy signature scheme, and the theorems about the protocols at runs over it.
pub mod DkgRuns
use frost_tools.Prelude.{
  ℕ, suc, String, ◌≡◌, ◌⊎◌, refl, Bool, true, false, Option, none, some, List, [], ◌∷◌, nat_eq,
  text_eq, ◌==◌, Map, get, insert, Outcome, ok, err, pure, contains, list_beq, set_eq, set_insert,
  contains_key, length, map,
}
use frost_tools.Api.{public_key_eq, public_key_beq}
use frost_tools.Client.Calls as Calls
use frost_tools.Cipher.Examples as Snows
use frost_tools.Cipher.Peers as Peers
use frost_tools.Cipher.Noise as Noise
use frost_tools.Session.Examples.{toy}
use frost_tools.Session.Columns as Columns
use frost_tools.Session.Coordinator as Sessions
use frost_tools.Comms.Core as Core
use frost_tools.Comms.Coordinator as Http
use frost_tools.Comms.Coordinator.{HttpComms}
use frost_tools.Comms.Payloads.{SendSigningPackageArgs}
use frost_tools.Comms.Examples.{payloads}
use frost_tools.Comms.Examples.CoordinatorRuns.{T, args}
use frost_tools.Protocol.Cleanup.{cleaned}
use frost_tools.Protocol.Frost.{Frost, Errors}
use frost_tools.Protocol.Coordinator.{
  ProcessedArgs, coordinator, doit, signing_packages, given, aggregated, aggregate_rerandomized_all,
}
use frost_tools.Protocol.Coordinator.Runs.{Results}
use frost_tools.Protocol.Coordinator.OverHttp.{
  errors, http_comms, http-KeepsCount, http_coordinator_lem,
}
use frost_tools.Protocol.Participant.{
  Comms, participant, generate_signature, commit_all, sign_all, sign_rerandomized_all, rerandomized,
}
use frost_tools.Protocol.Participant.Shares.{Shared, generate_signature_lem}
use frost_tools.Protocol.Participant.Runs.{Ran, participant_lem}

abbrev pub frost : Frost toy payloads
frost = record {
  id = "a";
  ed25519_id = "b";
  redpallas_id = "a";
  Signature = ℕ;
  PublicKeyPackage = ℕ;
  KeyPackage = ℕ;
  SigningNonces = ℕ;
  RandomizedParams = ℕ;
  FrostError = ℕ;
  signing_package = λ c m. length m;
  from_randomizer = λ key r. r;
  aggregate = λ p s key. ok p;
  aggregate_rerandomized = λ p s key r. ok r;
  sign = λ p n key. ok p;
  sign_rerandomized = λ p n key r. ok r;
  identifier = λ key. key;
  commit = λ key i. (i, suc i);
}

abbrev pargs : ProcessedArgs toy payloads frost (errors T Snows.toy toy payloads frost)
pargs = record {
  num_signers = 1;
  public_key_package = 0;
  messages = (1 ∷ []) ∷ [];
  randomizers = 4 ∷ [];
  aux_msg = none;
}

abbrev start : HttpComms T Snows.toy toy payloads
start =
    Http.new T Snows.toy toy payloads 1 1 args
      ("" ∷ "" ∷ "" ∷ "" ∷ "commitments" ∷ "" ∷ "shares" ∷ "" ∷ "" ∷ [])

abbrev run : Outcome (Core.CommsError T Snows.toy) (List ℕ) × HttpComms T Snows.toy toy payloads
run =
    coordinator toy payloads frost (errors T Snows.toy toy payloads frost)
      (http_comms T Snows.toy toy payloads frost 2 args) pargs start

run-ok : run ≡ (ok (4 ∷ []), run.1)
unfolding coordinator doit cleaned signing_packages given aggregated aggregate_rerandomized_all
    Http.new Http.get_signing_commitments Http.send_signing_package_and_get_signature_shares
    Http.send_signing_packages Core.log_in Core.calling Core.polling_with Core.polling Core.poll
    Core.poll_once Core.receiving Core.take_msgs Core.take_msg Core.expect_cipher
    Core.expect_session_id Core.encrypting Calls.new Calls.challenge Calls.login
    Calls.create_new_session Calls.receive Calls.send Calls.close_session Calls.logout Calls.call
    Calls.interpret Peers.sign Peers.new Peers.add_peers Peers.decrypt Peers.encrypt
    Peers.recipient_of Peers.at_peer Noise.new Noise.read_message Noise.write_message
    Noise.after_handshake Sessions.new Sessions.recv Sessions.handle_commitments
    Sessions.handle_signature_share Sessions.has_commitments Sessions.has_signature_shares
    Sessions.commitments Sessions.signature_shares Columns.columns Columns.column get insert
    public_key_beq list_beq contains_key set_eq contains
run-ok = refl

http_coordinator_lem_example :
    Results toy payloads frost
      (errors T Snows.toy toy payloads frost)
      (http_comms T Snows.toy toy payloads frost 2 args)
      pargs
      (http-KeepsCount T Snows.toy toy payloads frost 2 args 1 1)
      (4 ∷ [])
      run.1
unfolding Http.new
http_coordinator_lem_example =
    http_coordinator_lem T Snows.toy toy payloads frost 2 args pargs start run.1 (4 ∷ []) refl
      run-ok

-- A session of two messages, whose packages and randomizers come as they should.
abbrev boxed : Errors ℕ
boxed = record { Error = String; message = λ m. m; frost_error = λ e. "frost" }

abbrev config : SendSigningPackageArgs ℕ ℕ
config = record { signing_package = 5 ∷ 6 ∷ []; aux_msg = []; randomizer = 8 ∷ 9 ∷ [] }

abbrev comms : Comms toy payloads frost boxed
comms = record {
  Self = ℕ;
  get_message_count = pure 2;
  get_signing_package = λ cs id kind s. (ok config, suc s);
  confirm_message = λ c s. (ok tt, suc s);
  send_signature_share = λ id ss s. (ok tt, suc s);
}

signing : participant toy payloads frost boxed comms 3 0 ≡ (ok tt, 3)
unfolding participant commit_all rerandomized generate_signature sign_rerandomized_all
signing = refl

participant_lem_example : Ran toy payloads frost boxed comms 3 0 3
participant_lem_example = participant_lem toy payloads frost boxed comms 3 0 3 signing
