-- ===== src/Comms/Examples.antt =====
-- A scripted server, for runs of the HTTP implementations against it.
pub mod CoordinatorRuns
pub mod DkgRuns
mod ParticipantRuns
use frost_tools.Prelude.{
  ℕ, zero, suc, String, ◌+◌, ◌≡◌, ◌≢◌, refl, Bool, true, false, Option, none, some, List, [], ◌∷◌,
  ◌++◌, map, arith, nat_eq, text_eq, ◌==◌, Map, get, insert, Outcome, ok, err, panic, if◌then◌else◌,
  contains, list_beq, set_eq, set_insert, contains_key, inl, inr, length,
}
use frost_tools.Api.{PublicKey, public_key_eq, public_key_beq, Msg, Bytes, ReceiveArgs}
use frost_tools.Client.Transport.{Transport, HttpResponse, Writers, Readers}
use frost_tools.Client.Calls
use frost_tools.Client.Calls.{Link}
use frost_tools.Cipher.Examples
use frost_tools.Session.Examples.{toy}
use frost_tools.Comms.Core.{Comms, Polling, poll_once, poll}
use frost_tools.Comms.Payloads.{Payloads}

-- Every response is the next text of the script.
abbrev pub scripted : (String → List Msg) → Transport
scripted batch = record {
  World = List String;
  ConnectionError = ℕ;
  JsonError = ℕ;
  Json = String;
  null = "null";
  is_empty = λ t. t == "";
  writers = record {
    write_login = λ a. "login";
    write_create_new_session = λ a. "create";
    write_session_id = λ a. "id";
    write_send = λ a. "send";
    write_receive = λ a. "receive";
  };
  readers = record {
    read_unit = λ t. ok tt;
    read_uuid = λ t. ok 7;
    read_uuids = λ t. ok (7 ∷ []);
    read_info = λ t. ok (record {
      message_count = 1;
      pubkeys = map (λ n. record { bytes = n ∷ [] }) (1 ∷ 2 ∷ 3 ∷ []);
      coordinator_pubkey = record { bytes = 1 ∷ [] };
    });
    read_msgs = λ t. ok (batch t);
    read_low_error = λ t. err 2;
  };
  post = λ url bearer json w. elim w [
    | [] ↦ (err 3, [])
    | text ∷ rest ↦ (ok (record { status = 200; text = ok text }), rest)
  ];
  status_error = λ s. s;
}

abbrev pub derived : Bytes → Option ℕ
derived [] = none
derived (b ∷ bs) = some (100 + b)

abbrev pub payloads : Payloads toy
payloads = record {
  SigningPackage = ℕ;
  Randomizer = ℕ;
  write_commitments = some;
  write_signature_shares = some;
  write_signing_package = λ a. some a.signing_package;
  write_round1_package = λ p. some (p ∷ []);
  write_broadcast = λ p. some (p.0 ∷ p.1 ∷ []);
  write_round2_package = λ p. some (p ∷ []);
  read_signing_package = λ b. some (record { signing_package = b; aux_msg = []; randomizer = [] });
  derive = λ id p. derived p.bytes;
  xed_sign = λ key c. c ∷ [];
}

abbrev pub zeros : ℕ → Bytes
zeros zero = []
zeros (suc n) = 0 ∷ zeros n
