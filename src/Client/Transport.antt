-- ===== src/Client/Transport.antt =====
-- What client.rs takes from reqwest and serde_json.
use frost_tools.Prelude.{ℕ, String, Bool, Outcome, Option, List}
use frost_tools.Api.{
  Uuid, LoginArgs, CreateNewSessionArgs, GetSessionInfoOutput, SendArgs, Msg, ReceiveArgs, LowError,
}

-- A response: its status code, and its text, which may fail to arrive.
pub record HttpResponse (ConnectionError Json : Type 0) : Type 0 where
  pub status : ℕ
  pub text : Outcome ConnectionError Json

-- The arguments of the endpoints as JSON texts.
pub record Writers (Json : Type 0) : Type 0 where
  pub write_login : LoginArgs → Json
  pub write_create_new_session : CreateNewSessionArgs → Json
  pub write_session_id : Uuid → Json
  pub write_send : SendArgs → Json
  pub write_receive : ReceiveArgs → Json

-- The outputs, from the JSON texts; `read_low_error` is reqwest's `json` at a failed call.
pub record Readers (ConnectionError JsonError Json : Type 0) : Type 0 where
  pub read_unit : Json → Outcome JsonError (Unit {0})
  pub read_uuid : Json → Outcome JsonError Uuid
  pub read_uuids : Json → Outcome JsonError (List Uuid)
  pub read_info : Json → Outcome JsonError GetSessionInfoOutput
  pub read_msgs : Json → Outcome JsonError (List Msg)
  pub read_low_error : Json → Outcome ConnectionError LowError

-- `post url bearer json` sends a request into the world, which is all that is not this client.
pub record Transport : Type 1 where
  pub World : Type 0
  pub ConnectionError : Type 0
  pub JsonError : Type 0
  -- The texts of bodies, the one of `()` and the test for the empty one.
  pub Json : Type 0
  pub null : Json
  pub is_empty : Json → Bool
  pub writers : Writers Json
  pub readers : Readers ConnectionError JsonError Json
  pub post :
      String
      → Option Uuid
      → Json
      → World
      → Outcome ConnectionError (HttpResponse ConnectionError Json) × World
  -- `error_for_status` of a response that is no success.
  pub status_error : ℕ → ConnectionError
