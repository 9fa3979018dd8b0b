-- ===== src/Commands/Machine.antt =====
-- What the commands share: the machine that they run on, their errors, and the address of the server.
use frost_tools.Prelude.{
  ℕ, String, ◌<>◌, Option, none, some, Outcome, ok, err, panic, Method, ok_or, bind,
}
use frost_tools.Client.Transport.{Transport}
use frost_tools.Cipher.Snow.{Snow}
use frost_tools.Comms.Core.{Comms, CommsError}
use frost_tools.Config.File.{Platform, ConfigError, Group}
use frost_tools.Inputs.{Console}

-- `Url` of reqwest; `show` prints a port.
pub record Urls (Failure : Type 0) : Type 1 where
  pub Url : Type 0
  pub parse : String → Outcome Failure Url
  pub host_str : Url → Option String
  pub port_or_known_default : Url → Option ℕ
  pub show : ℕ → String

module _ (T : Transport) (S : Snow) (O : Platform) (I : Console O.Files) where
  open I use {Terminal, Failure}

  -- The files, the terminal and the rest of the world.
  pub record Machine : Type 0 where
    pub files : O.Files
    pub terminal : Terminal
    pub world : T.World

  pub data CommandError : Type 0 where
    config_error : ConfigError → CommandError
    failure : Failure → CommandError
    comms_error : CommsError T S → CommandError
    message : String → CommandError

  abbrev pub Command : Type 0 → Type 0
  Command A = Method CommandError Machine A

  abbrev pub from_config : {A : Type 0} → Outcome ConfigError A → Outcome CommandError A
  from_config (ok a) = ok a
  from_config (err e) = err (config_error e)
  from_config panic = panic

  abbrev pub from_console : {A : Type 0} → Outcome Failure A → Outcome CommandError A
  from_console (ok a) = ok a
  from_console (err e) = err (failure e)
  from_console panic = panic

  abbrev pub from_comms : {A : Type 0} → Outcome (CommsError T S) A → Outcome CommandError A
  from_comms (ok a) = ok a
  from_comms (err e) = err (comms_error e)
  from_comms panic = panic

  unfoldable pub reading : {A : Type 0} → (O.Files → Outcome ConfigError A) → Command A
  reading f m = (from_config (f m.files), m)

  unfoldable pub writing : (O.Files → Outcome ConfigError (Unit {0}) × O.Files) → Command (Unit {0})
  writing f m = let (r, files) = f m.files in (from_config r, record m { files = files })

  unfoldable pub at_terminal : {A : Type 0} → (O.Files → Method Failure Terminal A) → Command A
  at_terminal f m =
      let (r, terminal) = f m.files m.terminal in (from_console r, record m { terminal = terminal })

  -- A run of an HTTP implementation, from its `new`.
  unfoldable pub over_http :
      {State Identifier A : Type 0}
      → (T.World → Comms T S State Identifier)
      → Method (CommsError T S) (Comms T S State Identifier) A
      → Command A
  over_http new run m =
      let (r, c) = run (new m.world) in (from_comms r, record m { world = c.link.world })

  unfoldable pub server_url_of : Option String → Group → Outcome CommandError String
  server_url_of (some server_url) group = ok server_url
  server_url_of none group = ok_or group.server_url (message "server-url required")

  module _ (U : Urls Failure) where
    unfoldable pub parse_url : String → Outcome CommandError U.Url
    parse_url server_url = from_console (U.parse ("https://" <> server_url))

    -- `ip` and `port` of the arguments, as the text that each `new` makes of them.
    unfoldable pub address : U.Url → Outcome CommandError String
    address url = bind (ok_or (U.host_str url) (message "host missing in URL")) (λ ip.
        elim (U.port_or_known_default url) [
          | none ↦ panic
          | some port ↦ ok ("https://" <> ip <> ":" <> U.show port)
        ])
