-- ===== src/Protocol/Examples/DkgRuns.antt =====
-- A toy key generation, and the theorem about a DKG of three over HTTP.
use frost_tools.Prelude.{
  ℕ, ◌≡◌, refl, [], ◌∷◌, nat_eq, get, insert, Outcome, ok, contains, list_beq, set_eq, set_insert,
  contains_key, true,
}
use frost_tools.Api.{public_key_eq, public_key_beq}
use frost_tools.Client.Calls as Calls
use frost_tools.Cipher.Examples as Snows
use frost_tools.Cipher.Peers as Peers
use frost_tools.Cipher.Noise as Noise
use frost_tools.Session.Examples.{toy, trio}
use frost_tools.Session.Dkg as Sessions
use frost_tools.Comms.Core as Core
use frost_tools.Comms.Dkg as Http
use frost_tools.Comms.Dkg.{HttpComms}
use frost_tools.Comms.Examples.{payloads}
use frost_tools.Comms.Examples.DkgRuns.{T, args}
use frost_tools.Protocol.Cleanup.{cleaned}
use frost_tools.Protocol.Dkg.{Keygen, Generated, doit, into_even_y, with_cleanup}
use frost_tools.Protocol.Dkg.OverHttp.{errors, http_comms, KeyedBy, http_dkg_lem}

abbrev pub keygen : Keygen toy
keygen = record {
  SecretPackage1 = ℕ;
  SecretPackage2 = ℕ;
  KeyPackage = ℕ;
  PublicKeyPackage = ℕ;
  FrostError = ℕ;
  part1 = λ id max min. ok (id, 13);
  part2 = λ secret r1. ok (secret, (101, 31) ∷ (102, 32) ∷ []);
  part3 = λ secret r1 r2. ok (secret, 5);
  is_redpallas = true;
  has_even_y = λ pkg. true;
  key_into_even_y = λ even key. key;
  package_into_even_y = λ even pkg. pkg;
}

abbrev start : HttpComms T Snows.toy toy payloads
start =
    Http.new T Snows.toy toy payloads args
      ("" ∷ "" ∷ "" ∷ "" ∷ "" ∷ "" ∷ "three" ∷ "" ∷ "" ∷ "seconds" ∷ "" ∷ [])

abbrev keys : Generated toy keygen (errors T Snows.toy toy payloads keygen)
keys = ((103, 5), trio)

abbrev run :
    Outcome
      (Core.CommsError T Snows.toy)
      (Generated toy keygen (errors T Snows.toy toy payloads keygen))
    × HttpComms T Snows.toy toy payloads
run =
    with_cleanup toy keygen (errors T Snows.toy toy payloads keygen)
      (http_comms T Snows.toy toy payloads keygen 2 args) 2 start

run-ok : run ≡ (ok keys, run.1)
unfolding with_cleanup doit into_even_y cleaned Http.new Http.get_identifier_and_max_signers
    Http.derive_all Http.open_session Http.set_pubkeys Http.get_round1_packages Http.known_keys
    Http.send_round1 Http.send_to Http.wait_until Http.echo_broadcast Http.echo_all Http.echo_to
    Http.get_round2_packages Http.send_round2 Http.get_pubkey_identifier_map Core.only_session
    Core.find_session Core.log_in Core.calling Core.polling Core.poll Core.poll_once Core.receiving
    Core.take_msgs Core.take_msg Core.expect_cipher Core.expect_session_id Core.encrypting Calls.new
    Calls.challenge Calls.login Calls.list_sessions Calls.get_session_info Calls.send Calls.receive
    Calls.logout Calls.call Calls.interpret Peers.sign Peers.new Peers.add_peers Peers.decrypt
    Peers.encrypt Peers.recipient_of Peers.at_peer Noise.new Noise.read_message Noise.write_message
    Noise.after_handshake Sessions.recv Sessions.handle_round1_package
    Sessions.handle_round1_package_broadcast Sessions.handle_round2_package Sessions.check_broadcast
    Sessions.take_broadcast Sessions.record_echo Sessions.is_complete Sessions.echoed
    Sessions.is_original Sessions.has_round1_packages Sessions.has_round1_broadcast_packages
    Sessions.has_round2_packages Sessions.round1_packages Sessions.round2_packages get insert
    public_key_beq list_beq set_eq set_insert contains contains_key
run-ok = refl

http_dkg_lem_example : KeyedBy T Snows.toy toy payloads keygen 2 args 2 keys
unfolding Http.new
http_dkg_lem_example =
    http_dkg_lem T Snows.toy toy payloads keygen 2 args 2 start run.1 keys refl run-ok
