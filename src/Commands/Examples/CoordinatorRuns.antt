-- ===== src/Commands/Examples/CoordinatorRuns.antt =====
-- The theorem about a coordinator's command at a run against the script.
use frost_tools.Prelude.{none, some, [], ◌∷◌}
use frost_tools.Client.Calls as Calls
use frost_tools.Cipher.Examples as Snows
use frost_tools.Cipher.Peers as Peers
use frost_tools.Cipher.Noise as Noise
use frost_tools.Session.Examples.{toy}
use frost_tools.Session.Columns as Columns
use frost_tools.Session.Coordinator as Sessions
use frost_tools.Comms.Core as Core
use frost_tools.Comms.Coordinator as Http
use frost_tools.Comms.Examples.CoordinatorRuns.{T}
use frost_tools.Inputs as Inputs
use frost_tools.Protocol.Coordinator as Protocol
use frost_tools.Commands.Machine as Machines
use frost_tools.Commands.Machine.{Machine}
use frost_tools.Commands.Coordinator as Command
use frost_tools.Commands.Coordinator.{CoordinatorCommand}
use frost_tools.Commands.Coordinator.Signed.{Signed}
use frost_tools.Commands.Examples.{platform, console}

abbrev args : CoordinatorCommand
args = record {
  config = some "frost.toml";
  server_url = none;
  group = "g";
  signers = "01" ∷ [];
  message = "message" ∷ [];
  randomizer = "randomizer" ∷ [];
  aux_message = none;
  signature = "signature" ∷ [];
}

abbrev start : Machine T Snows.toy platform console
start = record {
  files = [];
  terminal = [];
  world = "" ∷ "" ∷ "" ∷ "" ∷ "commitments" ∷ "" ∷ "shares" ∷ "" ∷ "" ∷ [];
}

abbrev end : Machine T Snows.toy platform console
end = record { files = (7 ∷ []) ∷ []; terminal = []; world = [] }
