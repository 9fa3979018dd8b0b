-- ===== src/Commands/Examples/DkgRuns.antt =====
-- The theorem about a DKG command at a run against a script.
use Prim.Native.String as Texts
use frost_tools.Prelude.{
  ℕ, zero, suc, ◌≡◌, refl, ap, String, some, none, [], ◌∷◌, ok, get, insert, list_beq, set_eq,
  set_insert, contains, contains_key,
}
use frost_tools.Api.{Bytes, public_key_beq}
use frost_tools.Client.Calls as Calls
use frost_tools.Cipher.Examples as Snows
use frost_tools.Cipher.Peers as Peers
use frost_tools.Cipher.Noise as Noise
use frost_tools.Session.Examples.{toy, key}
use frost_tools.Session.Dkg as Sessions
use frost_tools.Comms.Core as Core
use frost_tools.Comms.Dkg as Http
use frost_tools.Comms.Examples.{payloads, zeros}
use frost_tools.Comms.Examples.DkgRuns.{T}
use frost_tools.Config.File.{
  Config, Platform, empty_config, read, write, parse_path, find, contact_by_pubkey,
}
use frost_tools.Protocol.Cleanup.{cleaned}
use frost_tools.Protocol.Examples.DkgRuns.{keygen}
use frost_tools.Protocol.Dkg as Protocol
use frost_tools.Commands.Machine as Machines
use frost_tools.Commands.Machine.{Machine}
use frost_tools.Commands.Dkg as Command
use frost_tools.Commands.Dkg.{DkgCommand, DkgCodes, dkg_for_ciphersuite}
use frost_tools.Commands.Dkg.Creates.{Created, dkg_for_ciphersuite_lem}
use frost_tools.Commands.Examples.{platform, console, urls}

-- A number in unary, so that different ones have different texts.
unary : ℕ → String
unary zero = ""
unary (suc n) = Texts.◌∷◌ "1" (unary n)

unary_distinct : (m n : ℕ) → unary m ≡ unary n → m ≡ n
unfolding unary
unary_distinct zero zero e = refl
unary_distinct zero (suc n) e = cc
unary_distinct (suc m) zero e = cc
unary_distinct (suc m) (suc n) e =
    let rest : unary m ≡ unary n = cc in ap suc (unary_distinct m n rest)

abbrev text_of : Bytes → String
text_of [] = ""
text_of (b ∷ bs) = unary b

-- The third of three users, who knows the others.
abbrev friends : Config
friends = record empty_config {
  path = some "frost.toml";
  communication_key = some (record { privkey = zeros 32; pubkey = key 3 });
  contact =
      ("alice", record { version = none; name = "alice"; pubkey = key 1 })
      ∷ ("bob", record { version = none; name = "bob"; pubkey = key 2 })
      ∷ [];
}

abbrev disk : Platform
disk = record platform { parse_toml = λ bytes. ok friends; hex = text_of }

abbrev codes : DkgCodes toy keygen ℕ
codes = record {
  id = "toy";
  verifying_shares = λ p. 101 ∷ 102 ∷ 103 ∷ [];
  serialize = λ i. i ∷ [];
  verifying_key = λ p. ok (4 ∷ []);
  key_package = λ p. ok (p ∷ []);
  public_key_package = λ p. ok (p ∷ []);
}

abbrev args : DkgCommand
args = record {
  config = some "frost.toml";
  description = "three";
  server_url = "server";
  threshold = 2;
  participants = [];
}

abbrev start : Machine T Snows.toy disk console
start = record {
  files = [];
  terminal = [];
  world = "" ∷ "" ∷ "" ∷ "" ∷ "" ∷ "" ∷ "three" ∷ "" ∷ "" ∷ "seconds" ∷ "" ∷ [];
}

abbrev end : Machine T Snows.toy disk console
end = (dkg_for_ciphersuite T Snows.toy disk console urls toy payloads keygen codes 2 args start).1

creating :
    dkg_for_ciphersuite T Snows.toy disk console urls toy payloads keygen codes 2 args start
    ≡ (ok tt, end)
unfolding dkg_for_ciphersuite Command.generating Command.with_own Command.decode_keys
    Command.participant_key Command.reversed Command.participants_map Command.new_group
    Machines.reading Machines.writing Machines.over_http Machines.parse_url Machines.address read
    write parse_path find contact_by_pubkey Protocol.with_cleanup Protocol.doit Protocol.into_even_y
    cleaned Http.new Http.get_identifier_and_max_signers Http.derive_all Http.open_session
    Http.set_pubkeys Http.get_round1_packages Http.known_keys Http.send_round1 Http.send_to
    Http.wait_until Http.echo_broadcast Http.echo_all Http.echo_to Http.get_round2_packages
    Http.send_round2 Http.get_pubkey_identifier_map Core.only_session Core.find_session Core.log_in
    Core.calling Core.polling Core.poll Core.poll_once Core.receiving Core.take_msgs Core.take_msg
    Core.expect_cipher Core.expect_session_id Core.encrypting Calls.new Calls.challenge Calls.login
    Calls.list_sessions Calls.get_session_info Calls.send Calls.receive Calls.logout Calls.call
    Calls.interpret Peers.sign Peers.new Peers.add_peers Peers.decrypt Peers.encrypt
    Peers.recipient_of Peers.at_peer Noise.new Noise.read_message Noise.write_message
    Noise.after_handshake Sessions.recv Sessions.handle_round1_package
    Sessions.handle_round1_package_broadcast Sessions.handle_round2_package Sessions.check_broadcast
    Sessions.take_broadcast Sessions.record_echo Sessions.is_complete Sessions.echoed
    Sessions.is_original Sessions.has_round1_packages Sessions.has_round1_broadcast_packages
    Sessions.has_round2_packages Sessions.round1_packages Sessions.round2_packages get insert
    public_key_beq list_beq set_eq set_insert contains contains_key unary
creating = refl

dkg_for_ciphersuite_lem_example :
    Created T Snows.toy disk console urls toy payloads keygen codes unary_distinct 2 args []
      end.files
dkg_for_ciphersuite_lem_example =
    dkg_for_ciphersuite_lem T Snows.toy disk console urls toy payloads keygen codes unary_distinct 2
      args start end creating
