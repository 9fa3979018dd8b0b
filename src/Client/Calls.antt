-- ===== src/Client/Calls.antt =====
-- `Client` and its methods.
use frost_tools.Prelude.{
  ℕ, String, ◌<>◌, Bool, ◌&&◌, Option, none, some, List, Outcome, ok, err, panic, Method, ◌>>=◌,
  ◌>>◌, pure, modify, ◌==◌, text_eq, nat_eq, leb, ltb, if◌then◌else◌, bind,
}
use frost_tools.Api.{
  Uuid, LoginArgs, CreateNewSessionArgs, GetSessionInfoOutput, SendArgs, Msg, ReceiveArgs, Error,
  from_low_error,
}
use frost_tools.Client.Transport.{Transport, HttpResponse}

pub record Client : Type 0 where
  pub host_port : String
  pub access_token : Option Uuid

unfoldable pub new : String → Client
new host_port = record { host_port = host_port; access_token = none }

-- `StatusCode::is_success`.
abbrev pub is_success : ℕ → Bool
is_success status = leb 200 status && ltb status 300

-- `StatusCode::INTERNAL_SERVER_ERROR`.
abbrev pub internal_server_error : ℕ
internal_server_error = 500

module _ (T : Transport) where
  open T use {World, ConnectionError, JsonError, Json}

  pub data ClientError : Type 0 where
    server_error : Error → ClientError
    connection_error : ConnectionError → ClientError
    json_error : JsonError → ClientError

  -- A client and the world that it is in.
  pub record Link : Type 0 where
    pub client : Client
    pub world : World

  abbrev pub Call : Type 0 → Type 0
  Call A = Method ClientError Link A

  -- `?` at a result of reqwest and at one of serde_json.
  abbrev pub from_reqwest : {A : Type 0} → Outcome ConnectionError A → Outcome ClientError A
  from_reqwest (ok a) = ok a
  from_reqwest (err e) = err (connection_error e)
  from_reqwest panic = panic

  abbrev pub from_json : {A : Type 0} → Outcome JsonError A → Outcome ClientError A
  from_json (ok a) = ok a
  from_json (err e) = err (json_error e)
  from_json panic = panic

  -- What `call` makes of a response.
  unfoldable pub interpret :
      {O : Type 0}
      → (Json → Outcome JsonError O)
      → HttpResponse ConnectionError Json
      → Outcome ClientError O
  interpret read r =
      if is_success r.status
      then bind (from_reqwest r.text)
          (λ body. from_json (read (if T.is_empty body then T.null else body)))
      else if r.status == internal_server_error
      then bind (from_reqwest (bind r.text T.readers.read_low_error))
          (λ low. err (server_error (from_low_error low)))
      else err (connection_error (T.status_error r.status))

  abbrev pub answer :
      {O : Type 0}
      → (Json → Outcome JsonError O)
      → Outcome ConnectionError (HttpResponse ConnectionError Json)
      → Outcome ClientError O
  answer read r = bind (from_reqwest r) (interpret read)

  unfoldable pub call : {O : Type 0} → (Json → Outcome JsonError O) → String → Json → Call O
  unfolding interpret
  call read name args l =
      let (r, w) = T.post (l.client.host_port <> "/" <> name) l.client.access_token args l.world in
      (answer read r, record l { world = w })

  unfoldable pub challenge : Call Uuid
  challenge = call T.readers.read_uuid "challenge" T.null

  abbrev pub set_token : Option Uuid → Link → Link
  set_token t l = record l { client = record l.client { access_token = t } }

  unfoldable pub login : LoginArgs → Call Uuid
  login args = do
    token ← call T.readers.read_uuid "login" (T.writers.write_login args)
    modify (set_token (some token))
    pure token

  unfoldable pub logout : Call (Unit {0})
  logout = do call T.readers.read_unit "logout" T.null; modify (set_token none)

  unfoldable pub create_new_session : CreateNewSessionArgs → Call Uuid
  create_new_session args =
      call T.readers.read_uuid "create_new_session" (T.writers.write_create_new_session args)

  unfoldable pub list_sessions : Call (List Uuid)
  list_sessions = call T.readers.read_uuids "list_sessions" T.null

  unfoldable pub get_session_info : Uuid → Call GetSessionInfoOutput
  get_session_info id = call T.readers.read_info "get_session_info" (T.writers.write_session_id id)

  unfoldable pub send : SendArgs → Call (Unit {0})
  send args = call T.readers.read_unit "send" (T.writers.write_send args)

  unfoldable pub receive : ReceiveArgs → Call (List Msg)
  receive args = call T.readers.read_msgs "receive" (T.writers.write_receive args)

  unfoldable pub close_session : Uuid → Call (Unit {0})
  close_session id = call T.readers.read_unit "close_session" (T.writers.write_session_id id)
