-- ===== src/Api.antt =====
-- frost-client/src/api.rs: the types of the server's API, its errors and their codes.
use frost_tools.Prelude.{
  ℕ, String, ◌<>◌, ◌≡◌, ◌↔◌, Bool, List, arith, PartialEq, nat_eq, list_beq, list_beq_iff, true,
}

-- The 128 bits of a UUID, as a number.
abbrev pub Uuid : Type 0
Uuid = ℕ

abbrev pub Bytes : Type 0
Bytes = List ℕ

abbrev pub max_msg_size : ℕ
max_msg_size = 65535

pub record PublicKey : Type 0 where
  pub bytes : Bytes

unfoldable pub public_key_beq : PublicKey → PublicKey → Bool
public_key_beq a b = list_beq a.bytes b.bytes

pub public_key_beq_iff : (a b : PublicKey) → (public_key_beq a b ≡ true) ↔ (a ≡ b)
unfolding public_key_beq
public_key_beq_iff a b = ground (arith, list_beq_iff a.bytes b.bytes)

instance abbrev pub public_key_eq : PartialEq PublicKey
public_key_eq = record { eq = public_key_beq; eq_law = public_key_beq_iff }

pub record LoginArgs : Type 0 where
  pub challenge : Uuid
  pub pubkey : PublicKey
  pub signature : Bytes

pub record CreateNewSessionArgs : Type 0 where
  pub pubkeys : List PublicKey
  pub message_count : ℕ

pub record GetSessionInfoOutput : Type 0 where
  pub message_count : ℕ
  pub pubkeys : List PublicKey
  pub coordinator_pubkey : PublicKey

pub record SendArgs : Type 0 where
  pub session_id : Uuid
  pub recipients : List PublicKey
  pub msg : Bytes

pub record Msg : Type 0 where
  pub sender : PublicKey
  pub msg : Bytes

pub record ReceiveArgs : Type 0 where
  pub session_id : Uuid
  pub as_coordinator : Bool

pub data Error : Type 0 where
  invalid_argument : String → Error
  unauthorized session_not_found not_coordinator not_in_session unknown : Error

-- `Error::error_code` and the constants that it returns.
unfoldable pub error_code : Error → ℕ
error_code (invalid_argument _) = 1
error_code unauthorized = 2
error_code session_not_found = 3
error_code not_coordinator = 4
error_code not_in_session = 5
error_code unknown = 255

-- The `Display` of an error, from its attributes.
unfoldable pub to_string : Error → String
to_string (invalid_argument what) = "invalid or missing argument: " <> what
to_string unauthorized = "client did not provide proper authorization credentials"
to_string session_not_found = "session was not found"
to_string not_coordinator = "user is not the coordinator"
to_string not_in_session = "user is not part of the given session"
to_string unknown = "unknown error"

-- What the server sends where a handler fails.
pub record LowError : Type 0 where
  pub code : ℕ
  pub msg : String
  pub error : Error

-- `From<Error> for LowError`, and `From<LowError> for Error`.
unfoldable pub low_error : Error → LowError
low_error e = record { code = error_code e; msg = to_string e; error = e }

unfoldable pub from_low_error : LowError → Error
from_low_error low = low.error
