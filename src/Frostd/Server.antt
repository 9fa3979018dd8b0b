-- ===== src/Frostd/Server.antt =====
-- frostd/src/lib.rs: the router, and the server as a machine that takes one event at a time.
-- A handler or a round of a task is one step here. `login` and the task that drops sessions release
-- one lock before they take the next, and what others do in between is not modelled.
use mathlib.Core.Option
use frost_tools.Prelude.{
  String, ◌==◌, text_eq, if◌then◌else◌, none, some, ℕ, Option, List, [], ◌∷◌, Method, ◌>>=◌, ◌>>◌,
  pure,
}
use frost_tools.Api.{
  Uuid, LoginArgs, CreateNewSessionArgs, GetSessionInfoOutput, SendArgs, Msg, ReceiveArgs, Error,
}
use frost_tools.Frostd.State.{Env, AppState, expire_session, expire_challenge, expire_access_token}
use frost_tools.Frostd.Functions

pub data Request : Type 0 where
  challenge logout list_sessions : Request
  login : LoginArgs → Request
  create_new_session : CreateNewSessionArgs → Request
  get_session_info : Uuid → Request
  send : SendArgs → Request
  receive : ReceiveArgs → Request
  close_session : Uuid → Request

pub data Response : Type 0 where
  done : Response
  uuid : Uuid → Response
  uuids : List Uuid → Response
  session_info : GetSessionInfoOutput → Response
  msgs : List Msg → Response

-- A request comes with the time, the UUID that `new_v4` would return, and its bearer token.
pub record Call : Type 0 where
  pub now : ℕ
  pub fresh : Uuid
  pub bearer : Option Uuid
  pub request : Request

pub data Event : Type 0 where
  call : Call → Event
  session_timer challenge_timer access_token_timer : ℕ → Event

-- axum's extractors of arguments; none where the body is not that of the arguments.
pub record Extractors (Json : Type 0) : Type 0 where
  pub login_args : Json → Option LoginArgs
  pub create_new_session_args : Json → Option CreateNewSessionArgs
  pub session_id_args : Json → Option Uuid
  pub send_args : Json → Option SendArgs
  pub receive_args : Json → Option ReceiveArgs

-- The routes of `router`: which path goes to which handler, with the arguments that it extracts.
unfoldable pub router : {Json : Type 0} → Extractors Json → String → Json → Option Request
router x path json =
    if path == "/challenge"
    then some challenge
    else if path == "/login"
    then Option.map login (x.login_args json)
    else if path == "/logout"
    then some logout
    else if path == "/create_new_session"
    then Option.map create_new_session (x.create_new_session_args json)
    else if path == "/list_sessions"
    then some list_sessions
    else if path == "/get_session_info"
    then Option.map get_session_info (x.session_id_args json)
    else if path == "/send"
    then Option.map send (x.send_args json)
    else if path == "/receive"
    then Option.map receive (x.receive_args json)
    else if path == "/close_session"
    then Option.map close_session (x.session_id_args json)
    else none

module _ (E : Env) where
  -- Each endpoint but the first two has a `User` argument, which authenticates the request.
  unfoldable pub dispatch : ℕ → Uuid → Option Uuid → Request → Method Error (AppState E) Response
  dispatch now fresh bearer challenge = do c ← Functions.challenge E now fresh; pure (uuid c)
  dispatch now fresh bearer (login args) = do t ← Functions.login E now fresh args; pure (uuid t)
  dispatch now fresh bearer logout = do
    user ← Functions.authenticate E bearer
    Functions.logout E user
    pure done
  dispatch now fresh bearer (create_new_session args) = do
    user ← Functions.authenticate E bearer
    id ← Functions.create_new_session E now fresh user args
    pure (uuid id)
  dispatch now fresh bearer list_sessions = do
    user ← Functions.authenticate E bearer
    ids ← Functions.list_sessions E user
    pure (uuids ids)
  dispatch now fresh bearer (get_session_info id) = do
    user ← Functions.authenticate E bearer
    info ← Functions.get_session_info E user id
    pure (session_info info)
  dispatch now fresh bearer (send args) = do
    user ← Functions.authenticate E bearer
    Functions.send E now user args
    pure done
  dispatch now fresh bearer (receive args) = do
    user ← Functions.authenticate E bearer
    ms ← Functions.receive E now user args
    pure (msgs ms)
  dispatch now fresh bearer (close_session id) = do
    user ← Functions.authenticate E bearer
    Functions.close_session E user id
    pure done

  unfoldable pub handle : Call → Method Error (AppState E) Response
  unfolding dispatch
  handle c = dispatch c.now c.fresh c.bearer c.request

  unfoldable pub step : AppState E → Event → AppState E
  step s (call c) = (handle c s).1
  step s (session_timer now) = expire_session E now s
  step s (challenge_timer now) = expire_challenge E now s
  step s (access_token_timer now) = expire_access_token E now s

  unfoldable pub run : AppState E → List Event → AppState E
  run s [] = s
  run s (e ∷ es) = run (step s e) es
