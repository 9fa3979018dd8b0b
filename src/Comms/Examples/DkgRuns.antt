-- ===== src/Comms/Examples/DkgRuns.antt =====
-- The theorems about the waiting loop and a DKG over HTTP at runs against the script.
use frost_tools.Prelude.{
  ℕ, String, ◌≡◌, ◌≢◌, refl, arith, Bool, true, false, none, some, List, [], ◌∷◌, text_eq, ◌==◌,
  Map, get, insert, Outcome, ok, contains, list_beq, set_eq, set_insert, contains_key,
  if◌then◌else◌, inl,
}
use frost_tools.Api.{PublicKey, public_key_beq, Msg, ReceiveArgs}
use frost_tools.Client.Transport.{Transport}
use frost_tools.Client.Calls as Calls
use frost_tools.Cipher.Examples as Snows
use frost_tools.Cipher.Peers as Peers
use frost_tools.Cipher.Noise as Noise
use frost_tools.Session.Examples.{toy, key, from, trio}
use frost_tools.Session.Dkg as Sessions
use frost_tools.Session.Dkg.{
  State, waiting_for_round1_packages, round2_packages_ready, has_round1_packages,
}
use frost_tools.Comms.Core as Core
use frost_tools.Comms.Core.{Polling, poll, poll_once}
use frost_tools.Comms.Polling.{at_once, wait, poll-Waits}
use frost_tools.Comms.Dkg as Http
use frost_tools.Comms.Dkg.{Args, HttpComms, recv_as, get_round1_packages}
use frost_tools.Comms.Dkg.Agrees.{Agreed, get_round1_packages_lem}
use frost_tools.Comms.Dkg.Stuck.{overtaken}
use frost_tools.Comms.Examples.{scripted, payloads, zeros}

-- The two others of three: their first packages and their echoes. Then, of two, both packages of
-- the other one at once.
abbrev pub batch : String → List Msg
batch text =
    if text == "three"
    then from 1 (0 ∷ 11 ∷ [])
      ∷ from 2 (0 ∷ 12 ∷ [])
      ∷ from 1 (1 ∷ 102 ∷ 12 ∷ [])
      ∷ from 2 (1 ∷ 101 ∷ 11 ∷ [])
      ∷ []
    else if text == "seconds"
    then from 1 (2 ∷ 21 ∷ []) ∷ from 2 (2 ∷ 22 ∷ []) ∷ []
    else if text == "two"
    then from 1 (0 ∷ 11 ∷ []) ∷ from 1 (1 ∷ 21 ∷ []) ∷ []
    else if text == "one"
    then from 1 (0 ∷ 11 ∷ []) ∷ []
    else []

abbrev pub T : Transport
T = scripted batch

abbrev pub args : Args T Snows.toy toy payloads
args = record {
  url = "host";
  comm_privkey = some (zeros 32);
  comm_pubkey = some (key 3);
  comm_participant_pubkey_getter = some some;
  participants = [];
}

abbrev start : HttpComms T Snows.toy toy payloads
start = record {
  link = record { client = Calls.new "host"; world = "" ∷ "" ∷ "" ∷ "three" ∷ [] };
  session_id = some 7;
  state = waiting_for_round1_packages trio [];
  identifier = some 103;
  pubkeys = trio;
  cipher = none;
}

abbrev over : HttpComms T Snows.toy toy payloads
over = (get_round1_packages T Snows.toy toy payloads 2 args 13 start).1

first_round :
    get_round1_packages T Snows.toy toy payloads 2 args 13 start
    ≡ (ok ((101, 11) ∷ (102, 12) ∷ []), over)
unfolding get_round1_packages Http.known_keys Http.send_round1 Http.send_to Http.wait_until
    Http.echo_broadcast Http.echo_all Http.echo_to Core.calling Core.polling Core.poll
    Core.poll_once Core.receiving Core.take_msgs Core.take_msg Core.expect_session_id
    Core.encrypting Calls.new Calls.send Calls.receive Calls.call Calls.interpret Peers.new
    Peers.add_peers Peers.decrypt Peers.encrypt Peers.recipient_of Peers.at_peer Noise.new
    Noise.read_message Noise.write_message Noise.after_handshake Sessions.recv
    Sessions.handle_round1_package Sessions.handle_round1_package_broadcast Sessions.check_broadcast
    Sessions.take_broadcast Sessions.record_echo Sessions.is_complete Sessions.echoed
    Sessions.is_original Sessions.has_round1_packages Sessions.has_round1_broadcast_packages
    Sessions.round1_packages get insert public_key_beq list_beq set_eq set_insert contains
    contains_key
first_round = refl

get_round1_packages_lem_example :
    Agreed T Snows.toy toy payloads 103 trio ((101, 11) ∷ (102, 12) ∷ []) over
get_round1_packages_lem_example =
    get_round1_packages_lem T Snows.toy toy payloads 103 trio 2 args 13 start over
      ((101, 11) ∷ (102, 12) ∷ []) refl refl first_round

abbrev pair : Map PublicKey ℕ
pair = (key 1, 101) ∷ (key 3, 103) ∷ []

abbrev reading : ReceiveArgs
reading = record { session_id = 7; as_coordinator = false }

-- Waiting for the other one of two.
abbrev before : List String → Polling T Snows.toy (State toy)
before texts = record {
  link = record { client = Calls.new "host"; world = texts };
  cipher = record {
    send_noise_map = (key 1, Noise.new Snows.toy false) ∷ [];
    recv_noise_map = (key 1, Noise.new Snows.toy false) ∷ [];
  };
  state = waiting_for_round1_packages pair [];
}

abbrev round :
    Polling T Snows.toy (State toy)
    → Outcome (Core.CommsError T Snows.toy) Bool × Polling T Snows.toy (State toy)
round =
    poll_once T Snows.toy (recv_as T Snows.toy toy payloads (some 103)) (has_round1_packages toy)
      reading

abbrev after : Polling T Snows.toy (State toy)
after = (round (before ("two" ∷ []))).1

too_far : round (before ("two" ∷ [])) ≡ (ok false, after)
unfolding Core.poll_once Core.receiving Core.take_msgs Core.take_msg Calls.new Calls.receive
    Calls.call Calls.interpret Peers.decrypt Peers.at_peer Noise.new Noise.read_message
    Noise.after_handshake Sessions.recv Sessions.handle_round1_package
    Sessions.handle_round2_package Sessions.has_round1_packages get insert public_key_beq list_beq
    set_eq contains contains_key
too_far = refl

after_ready : after.state ≡ round2_packages_ready pair ((101, 21) ∷ [])
unfolding Core.poll_once Core.receiving Core.take_msgs Core.take_msg Calls.new Calls.receive
    Calls.call Calls.interpret Peers.decrypt Peers.at_peer Noise.new Noise.read_message
    Noise.after_handshake Sessions.recv Sessions.handle_round1_package
    Sessions.handle_round2_package Sessions.has_round1_packages get insert public_key_beq list_beq
    set_eq contains contains_key
after_ready = refl

overtaken_example :
    poll T Snows.toy
      (recv_as T Snows.toy toy payloads (some 103))
      (has_round1_packages toy)
      reading
      100
      (before ("two" ∷ []))
    ≢ (ok tt, after)
overtaken_example =
    overtaken T Snows.toy toy payloads (some 103) reading pair ((101, 21) ∷ []) 100
      (has_round1_packages toy) (before ("two" ∷ [])) after after false (inl refl) too_far
      after_ready

-- An empty round, and one with the package.
abbrev later : Polling T Snows.toy (State toy)
later = (round (before ("" ∷ "one" ∷ []))).1

abbrev done : Polling T Snows.toy (State toy)
done = (round later).1

nothing_yet : round (before ("" ∷ "one" ∷ [])) ≡ (ok false, later)
unfolding Core.poll_once Core.receiving Core.take_msgs Core.take_msg Calls.new Calls.receive
    Calls.call Calls.interpret Peers.decrypt Peers.at_peer Noise.new Noise.read_message
    Noise.after_handshake Sessions.recv Sessions.handle_round1_package
    Sessions.handle_round2_package Sessions.has_round1_packages get insert public_key_beq list_beq
    set_eq contains contains_key
nothing_yet = refl

then_all : round later ≡ (ok true, done)
unfolding Core.poll_once Core.receiving Core.take_msgs Core.take_msg Calls.new Calls.receive
    Calls.call Calls.interpret Peers.decrypt Peers.at_peer Noise.new Noise.read_message
    Noise.after_handshake Sessions.recv Sessions.handle_round1_package
    Sessions.handle_round2_package Sessions.has_round1_packages get insert public_key_beq list_beq
    set_eq contains contains_key
then_all = refl

abbrev polled :
    ℕ → Outcome (Core.CommsError T Snows.toy) (Unit {0}) × Polling T Snows.toy (State toy)
polled n =
    poll T Snows.toy (recv_as T Snows.toy toy payloads (some 103)) (has_round1_packages toy) reading
      n (before ("" ∷ "one" ∷ []))

two_rounds : polled 2 ≡ (ok tt, done)
two_rounds =
    poll-Waits T Snows.toy (recv_as T Snows.toy toy payloads (some 103)) (has_round1_packages toy)
      reading 2 done (omega arith) (wait nothing_yet at_once) then_all
