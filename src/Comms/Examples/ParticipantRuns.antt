-- ===== src/Comms/Examples/ParticipantRuns.antt =====
-- The theorem about a participant of a signing session at a run against the script.
use frost_tools.Prelude.{
  ℕ, String, ◌≡◌, refl, none, some, List, [], ◌∷◌, text_eq, ◌==◌, get, insert, ok, list_beq,
  if◌then◌else◌,
}
use frost_tools.Api.{PublicKey, public_key_eq, public_key_beq, Msg}
use frost_tools.Client.Transport.{Transport}
use frost_tools.Client.Calls as Calls
use frost_tools.Cipher.Examples as Snows
use frost_tools.Cipher.Peers as Peers
use frost_tools.Cipher.Noise as Noise
use frost_tools.Session.Examples.{toy, key, from}
use frost_tools.Comms.Core as Core
use frost_tools.Comms.Payloads.{SendSigningPackageArgs}
use frost_tools.Comms.Participant as Http
use frost_tools.Comms.Participant.{Args, HttpComms, get_message_count, get_signing_package}
use frost_tools.Comms.Participant.Listens.{FromCoordinator}
use frost_tools.Comms.Participant.Trusts.{Trusts, get_signing_package_lem}
use frost_tools.Comms.Examples.{scripted, payloads, zeros}

abbrev batch : String → List Msg
batch text = if text == "package" then from 1 (0 ∷ 5 ∷ 6 ∷ []) ∷ [] else []

abbrev T : Transport
T = scripted batch

abbrev args : Args T Snows.toy toy payloads
args = record {
  url = "host";
  session_id = none;
  comm_privkey = some (zeros 32);
  comm_pubkey = some (key 2);
  comm_coordinator_pubkey_getter = some some;
}

abbrev start : HttpComms T Snows.toy toy payloads
start = Http.new T Snows.toy toy payloads args ("" ∷ "" ∷ "" ∷ "" ∷ "" ∷ "" ∷ "package" ∷ [])

abbrev joined : HttpComms T Snows.toy toy payloads
joined = (get_message_count T Snows.toy toy payloads args start).1

abbrev given : HttpComms T Snows.toy toy payloads
given = (get_signing_package T Snows.toy toy payloads 3 (9 ∷ []) joined).1

abbrev package_of : SendSigningPackageArgs ℕ ℕ
package_of = record { signing_package = 5 ∷ 6 ∷ []; aux_msg = []; randomizer = [] }

joining : get_message_count T Snows.toy toy payloads args start ≡ (ok 1, joined)
unfolding Http.new get_message_count Core.only_session Core.find_session Core.log_in Core.calling
    Calls.new Calls.challenge Calls.login Calls.list_sessions Calls.get_session_info Calls.call
    Calls.interpret Peers.sign Peers.new Peers.add_peers Noise.new get insert public_key_beq
    list_beq
joining = refl

giving : get_signing_package T Snows.toy toy payloads 3 (9 ∷ []) joined ≡ (ok package_of, given)
unfolding Http.new get_message_count get_signing_package Http.wait_for_package Http.decrypting
    Core.only_session Core.find_session Core.log_in Core.calling Core.expect_cipher
    Core.expect_session_id Core.encrypting Calls.new Calls.challenge Calls.login Calls.list_sessions
    Calls.get_session_info Calls.send Calls.receive Calls.call Calls.interpret Peers.sign Peers.new
    Peers.add_peers Peers.decrypt Peers.encrypt Peers.recipient_of Peers.at_peer Noise.new
    Noise.read_message Noise.write_message Noise.after_handshake get insert public_key_beq list_beq
giving = refl

get_signing_package_lem_example :
    (coordinator : PublicKey) × (clear : Msg) × Trusts T Snows.toy toy payloads args coordinator
      joined
    × FromCoordinator T Snows.toy toy payloads coordinator clear
    × (payloads.read_signing_package clear.msg ≡ some package_of)
get_signing_package_lem_example =
    get_signing_package_lem T Snows.toy toy payloads args 3 1 (9 ∷ []) start joined given package_of
      joining giving
