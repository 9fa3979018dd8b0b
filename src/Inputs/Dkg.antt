-- ===== src/Inputs/Dkg.antt =====
-- dkg/inputs.rs: the inputs of the DKG at the terminal.
use frost_tools.Prelude.{
  ℕ, String, ltb, if◌then◌else◌, Outcome, ok, err, panic, Method, ◌>>=◌, ◌>>◌, pure, lift, ok_or,
}
use frost_tools.Api.{Bytes}
use frost_tools.Session.Suite.{Suite}
use frost_tools.Inputs.{Console, prompted}

-- `try_into` and `deserialize` of an identifier, and serde_json at the packages.
pub record Readers (C : Suite) : Type 1 where
  pub FrostError : Type 0
  pub JsonError : Type 0
  pub from_u16 : ℕ → Outcome FrostError C.Identifier
  pub deserialize : Bytes → Outcome FrostError C.Identifier
  pub read_round1 : String → Outcome JsonError C.Round1Package
  pub read_round2 : String → Outcome JsonError C.Round2Package

module _ {Files : Type 0} (I : Console Files) (C : Suite) (R : Readers C) where
  open I use {Terminal, Failure}
  open C use {Identifier, Round1Package, Round2Package}

  pub record DkgConfig : Type 0 where
    pub min_signers : ℕ
    pub max_signers : ℕ
    pub identifier : Identifier

  pub data InputError : Type 0 where
    failure : Failure → InputError
    frost_error : R.FrostError → InputError
    json_error : R.JsonError → InputError
    invalid_min_signers invalid_max_signers malformed_identifier : InputError

  abbrev pub Asked : Type 0 → Type 0
  Asked A = Method InputError Terminal A

  abbrev pub from_console : {A : Type 0} → Outcome Failure A → Outcome InputError A
  from_console (ok a) = ok a
  from_console (err e) = err (failure e)
  from_console panic = panic

  abbrev pub from_frost : {A : Type 0} → Outcome R.FrostError A → Outcome InputError A
  from_frost (ok a) = ok a
  from_frost (err e) = err (frost_error e)
  from_frost panic = panic

  abbrev pub from_json : {A : Type 0} → Outcome R.JsonError A → Outcome InputError A
  from_json (ok a) = ok a
  from_json (err e) = err (json_error e)
  from_json panic = panic

  abbrev pub console : {A : Type 0} → Method Failure Terminal A → Asked A
  console m t = let (r, u) = m t in (from_console r, u)

  unfoldable pub validate_inputs : DkgConfig → Outcome InputError (Unit {0})
  validate_inputs config =
      if ltb config.min_signers 2
      then err invalid_min_signers
      else if ltb config.max_signers 2
      then err invalid_max_signers
      else if ltb config.max_signers config.min_signers
      then err invalid_min_signers
      else ok tt

  -- A number that is asked for, with the error of a text that is none.
  unfoldable pub ask_number : String → InputError → Asked ℕ
  ask_number prompt error =
      console (prompted I prompt) >>= λ line. lift (ok_or (I.parse_u16 (I.trim line)) error)

  unfoldable pub request_inputs : Asked DkgConfig
  request_inputs = do
    min_signers ← ask_number "The minimum number of signers: (2 or more)" invalid_min_signers
    max_signers ← ask_number "The maximum number of signers:" invalid_max_signers
    number ←
        ask_number "Your identifier (this should be an integer between 1 and 65535):"
          malformed_identifier
    identifier ← lift (from_frost (R.from_u16 number))
    let config : DkgConfig = record {
      min_signers = min_signers;
      max_signers = max_signers;
      identifier = identifier;
    }
    checked ← lift (validate_inputs config)
    pure config

  unfoldable pub read_identifier : Asked Identifier
  read_identifier = do
    line ← console I.read_line
    bytes ← lift (from_console (I.hex_decode (I.trim line)))
    lift (from_frost (R.deserialize bytes))

  unfoldable pub read_round1_package : Asked (Identifier × Round1Package)
  read_round1_package = do
    console (I.write_line "The sender's identifier (hex string):")
    identifier ← read_identifier
    line ← console (prompted I "Their JSON-encoded Round 1 Package:")
    received ← lift (from_json (R.read_round1 line))
    pure (identifier, received)

  unfoldable pub read_round2_package : Asked (Identifier × Round2Package)
  read_round2_package = do
    console (I.write_line "The sender's identifier (hex string):")
    identifier ← read_identifier
    line ← console (prompted I "Their JSON-encoded Round 2 Package:")
    received ← lift (from_json (R.read_round2 line))
    pure (identifier, received)
