-- ===== src/Client/Examples.antt =====
-- A toy encoding of the bodies, and the theorem about the client at a run over a toy server.
use frost_tools.Prelude.{
  ℕ, String, refl, Bool, true, false, Option, none, some, List, [], Outcome, ok, err, text_eq, ◌==◌,
  ◌+◌, if◌then◌else◌,
}
use frost_tools.Api.{
  Uuid, LoginArgs, CreateNewSessionArgs, GetSessionInfoOutput, SendArgs, Msg, ReceiveArgs, LowError,
}
use frost_tools.Frostd.State.{new}
use frost_tools.Frostd.Examples.Store
use frost_tools.Client.Calls.{Link}
use frost_tools.Client.Server.{Codec, IsFaithful, server}
use frost_tools.Client.Served.{Serves, client_lem}

pub data Body : Type 0 where
  no_body null_body : Body
  uuid_body : Uuid → Body
  uuids_body : List Uuid → Body
  info_body : GetSessionInfoOutput → Body
  msgs_body : List Msg → Body
  error_body : LowError → Body
  login_body : LoginArgs → Body
  create_body : CreateNewSessionArgs → Body
  send_body : SendArgs → Body
  receive_body : ReceiveArgs → Body

abbrev pub blank : Body → Bool
blank no_body = true
blank _ = false

abbrev pub uuid_of : Body → Outcome ℕ Uuid
uuid_of (uuid_body u) = ok u
uuid_of _ = err 0

abbrev pub uuids_of : Body → Outcome ℕ (List Uuid)
uuids_of (uuids_body us) = ok us
uuids_of _ = err 0

abbrev pub info_of : Body → Outcome ℕ GetSessionInfoOutput
info_of (info_body i) = ok i
info_of _ = err 0

abbrev pub msgs_of : Body → Outcome ℕ (List Msg)
msgs_of (msgs_body ms) = ok ms
msgs_of _ = err 0

abbrev pub unit_of : Body → Outcome ℕ (Unit {0})
unit_of null_body = ok tt
unit_of _ = err 0

abbrev pub low_error_of : Body → Outcome ℕ LowError
low_error_of (error_body e) = ok e
low_error_of _ = err 0

abbrev pub path_of : String → String
path_of url =
    if url == "host/challenge"
    then "/challenge"
    else if url == "host/login"
    then "/login"
    else if url == "host/logout"
    then "/logout"
    else if url == "host/create_new_session"
    then "/create_new_session"
    else if url == "host/list_sessions"
    then "/list_sessions"
    else if url == "host/get_session_info"
    then "/get_session_info"
    else if url == "host/send"
    then "/send"
    else if url == "host/receive"
    then "/receive"
    else if url == "host/close_session"
    then "/close_session"
    else "/"

abbrev login_of : Body → Option LoginArgs
login_of (login_body a) = some a
login_of _ = none

abbrev create_of : Body → Option CreateNewSessionArgs
create_of (create_body a) = some a
create_of _ = none

abbrev session_id_of : Body → Option Uuid
session_id_of (uuid_body a) = some a
session_id_of _ = none

abbrev send_of : Body → Option SendArgs
send_of (send_body a) = some a
send_of _ = none

abbrev receive_of : Body → Option ReceiveArgs
receive_of (receive_body a) = some a
receive_of _ = none

abbrev pub codec : Codec
codec = record {
  ConnectionError = ℕ;
  JsonError = ℕ;
  Json = Body;
  null = null_body;
  empty = no_body;
  is_empty = blank;
  writers = record {
    write_login = login_body;
    write_create_new_session = create_body;
    write_session_id = uuid_body;
    write_send = send_body;
    write_receive = receive_body;
  };
  readers = record {
    read_unit = unit_of;
    read_uuid = uuid_of;
    read_uuids = uuids_of;
    read_info = info_of;
    read_msgs = msgs_of;
    read_low_error = low_error_of;
  };
  status_error = λ s. s;
  closed = 1;
  path_of = path_of;
  extractors = record {
    login_args = login_of;
    create_new_session_args = create_of;
    session_id_args = session_id_of;
    send_args = send_of;
    receive_args = receive_of;
  };
  write_uuid = uuid_body;
  write_uuids = uuids_body;
  write_info = info_body;
  write_msgs = msgs_body;
  write_low_error = error_body;
}

pub codec-IsFaithful : IsFaithful codec "host"
codec-IsFaithful = record {
  paths = (refl, (refl, (refl, (refl, (refl, (refl, (refl, (refl, (refl, tt)))))))));
  login_in = λ a. refl;
  create_new_session_in = λ a. refl;
  session_id_in = λ id. refl;
  send_in = λ a. refl;
  receive_in = λ a. refl;
  empty_is = refl;
  null_is = refl;
  unit_back = refl;
  uuid_back = λ u. refl;
  uuid_written = λ u. refl;
  uuids_back = λ us. refl;
  uuids_written = λ us. refl;
  info_back = λ i. refl;
  info_written = λ i. refl;
  msgs_back = λ ms. refl;
  msgs_written = λ ms. refl;
  low_error_back = λ e. refl;
}

-- A client at a new server, where nobody else is; its requests are a second apart.
abbrev link : Link (server Store.server codec (λ n. []) (λ n. n) (λ n. 10 + n))
link = record {
  client = record { host_port = "host"; access_token = none };
  world = record { state = new Store.server; count = 0 };
}

client_lem_example : Serves Store.server codec (λ n. []) (λ n. n) (λ n. 10 + n) link
client_lem_example =
    client_lem Store.server codec (λ n. []) (λ n. n) (λ n. 10 + n) link codec-IsFaithful
