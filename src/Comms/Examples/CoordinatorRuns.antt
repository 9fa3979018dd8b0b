-- ===== src/Comms/Examples/CoordinatorRuns.antt =====
-- The theorems about a coordinator's session over HTTP at runs against the script.
use frost_tools.Prelude.{
  ℕ, String, ◌≡◌, refl, none, some, List, [], ◌∷◌, nat_eq, text_eq, ◌==◌, Map, get, insert, ok,
  contains, list_beq, set_eq, contains_key, if◌then◌else◌,
}
use frost_tools.Api.{public_key_eq, public_key_beq, Msg}
use frost_tools.Client.Transport.{Transport}
use frost_tools.Client.Calls as Calls
use frost_tools.Cipher.Examples as Snows
use frost_tools.Cipher.Peers as Peers
use frost_tools.Cipher.Noise as Noise
use frost_tools.Session.Examples.{toy, key, from}
use frost_tools.Session.Columns as Columns
use frost_tools.Session.Coordinator as Sessions
use frost_tools.Comms.Core as Core
use frost_tools.Comms.Coordinator as Http
use frost_tools.Comms.Coordinator.{
  Args, HttpComms, get_signing_commitments, send_signing_package_and_get_signature_shares,
}
use frost_tools.Comms.Coordinator.Collects.{Collects, get_signing_commitments_lem}
use frost_tools.Comms.Coordinator.Signs.{
  Ran, Finishes, send_signing_package_and_get_signature_shares_lem,
}
use frost_tools.Comms.Examples.{scripted, payloads, zeros}

-- One signer, whose commitments and shares arrive in this order.
abbrev pub batch : String → List Msg
batch text =
    if text == "commitments"
    then from 1 (0 ∷ 5 ∷ []) ∷ []
    else if text == "shares"
    then from 1 (1 ∷ 9 ∷ []) ∷ []
    else []

abbrev pub T : Transport
T = scripted batch

abbrev pub args : Args T Snows.toy toy payloads
args = record {
  signers = (key 1, 101) ∷ [];
  url = "host";
  comm_privkey = some (zeros 32);
  comm_pubkey = some (key 3);
}

abbrev start : HttpComms T Snows.toy toy payloads
start = Http.new T Snows.toy toy payloads 1 1 args ("" ∷ "" ∷ "" ∷ "" ∷ "commitments" ∷ [])

abbrev collected : HttpComms T Snows.toy toy payloads
collected = (get_signing_commitments T Snows.toy toy payloads 2 args 1 start).1

abbrev tables : List (Map ℕ ℕ)
tables = ((101, 5) ∷ []) ∷ []

collecting :
    get_signing_commitments T Snows.toy toy payloads 2 args 1 start ≡ (ok tables, collected)
unfolding Http.new get_signing_commitments Core.log_in Core.calling Core.polling_with Core.poll
    Core.poll_once Core.receiving Core.take_msgs Core.take_msg Calls.new Calls.challenge Calls.login
    Calls.create_new_session Calls.receive Calls.call Calls.interpret Peers.sign Peers.new
    Peers.add_peers Peers.decrypt Peers.at_peer Noise.new Noise.read_message Noise.after_handshake
    Sessions.new Sessions.recv Sessions.handle_commitments Sessions.has_commitments
    Sessions.commitments Columns.columns Columns.column get insert public_key_beq list_beq
collecting = refl

get_signing_commitments_lem_example : Collects T Snows.toy toy payloads args 1 1 2 tables collected
unfolding Http.new
get_signing_commitments_lem_example =
    get_signing_commitments_lem T Snows.toy toy payloads args 1 1 2 start collected tables refl
      collecting

-- The same with the rest of the script.
abbrev resumed : HttpComms T Snows.toy toy payloads
resumed = record collected { link = record collected.link { world = "" ∷ "shares" ∷ "" ∷ "" ∷ [] } }

abbrev signed : HttpComms T Snows.toy toy payloads
signed =
    (send_signing_package_and_get_signature_shares T Snows.toy toy payloads 1 (3 ∷ []) none none
      resumed).1

abbrev share_tables : List (Map ℕ ℕ)
share_tables = ((101, 9) ∷ []) ∷ []

resumed-Ran : (ms : List Msg) × Ran T Snows.toy toy payloads args.signers 1 1 1 ms resumed.state
unfolding Http.new get_signing_commitments Core.log_in Core.calling Core.polling_with Core.poll
    Core.poll_once Core.receiving Core.take_msgs Core.take_msg Calls.new Calls.challenge Calls.login
    Calls.create_new_session Calls.receive Calls.call Calls.interpret Peers.sign Peers.new
    Peers.add_peers Peers.decrypt Peers.at_peer Noise.new Noise.read_message Noise.after_handshake
    Sessions.new Sessions.recv Sessions.handle_commitments Sessions.has_commitments
    Sessions.commitments Columns.columns Columns.column get insert public_key_beq list_beq Collects
resumed-Ran =
    let got =
      get_signing_commitments_lem T Snows.toy toy payloads args 1 1 2 start collected tables refl
        collecting in
    (got.0.0, got.0.1)

signing :
    send_signing_package_and_get_signature_shares T Snows.toy toy payloads 1
      (3 ∷ [])
      none
      none
      resumed
    ≡ (ok share_tables, signed)
unfolding Http.new get_signing_commitments Core.log_in Core.calling Core.polling_with Core.poll
    Core.poll_once Core.receiving Core.take_msgs Core.take_msg Calls.new Calls.challenge Calls.login
    Calls.create_new_session Calls.receive Calls.call Calls.interpret Peers.sign Peers.new
    Peers.add_peers Peers.decrypt Peers.at_peer Noise.new Noise.read_message Noise.after_handshake
    Sessions.new Sessions.recv Sessions.handle_commitments Sessions.has_commitments
    Sessions.commitments Columns.columns Columns.column get insert public_key_beq list_beq
    send_signing_package_and_get_signature_shares Http.send_signing_packages Core.expect_cipher
    Core.expect_session_id Core.encrypting Core.polling Peers.encrypt Peers.recipient_of
    Noise.write_message Calls.send Calls.close_session Calls.logout Sessions.handle_signature_share
    Sessions.has_signature_shares Sessions.signature_shares contains_key set_eq contains
signing = refl

send_signing_package_and_get_signature_shares_lem_example :
    Finishes T Snows.toy toy payloads args.signers 1 1 1 share_tables signed
send_signing_package_and_get_signature_shares_lem_example =
    send_signing_package_and_get_signature_shares_lem T Snows.toy toy payloads args.signers 1 1 1
      resumed-Ran.0 (3 ∷ []) none none resumed signed share_tables resumed-Ran.1 signing
