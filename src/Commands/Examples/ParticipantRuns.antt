-- ===== src/Commands/Examples/ParticipantRuns.antt =====
-- The theorem about a participant's command at a run against a script.
use frost_tools.Prelude.{String, Option, none, some, List, [], ◌∷◌, ◌==◌, text_eq, if◌then◌else◌}
use frost_tools.Api.{Uuid, Msg}
use frost_tools.Client.Transport.{Transport}
use frost_tools.Client.Calls as Calls
use frost_tools.Cipher.Examples as Snows
use frost_tools.Cipher.Peers as Peers
use frost_tools.Cipher.Noise as Noise
use frost_tools.Session.Examples.{toy, from}
use frost_tools.Comms.Core as Core
use frost_tools.Comms.Participant as Http
use frost_tools.Comms.Examples.{scripted}
use frost_tools.Protocol.Participant as Protocol
use frost_tools.Commands.Machine as Machines
use frost_tools.Commands.Machine.{Machine}
use frost_tools.Commands.Participant as Command
use frost_tools.Commands.Participant.{ParticipantCommand}
use frost_tools.Commands.Examples.{platform, console}

abbrev batch : String → List Msg
batch text = if text == "package" then from 1 (0 ∷ 5 ∷ []) ∷ [] else []

abbrev T : Transport
T = scripted batch

abbrev no_uuid : String → Option Uuid
no_uuid text = none

abbrev args : ParticipantCommand
args = record { config = some "frost.toml"; server_url = none; group = "g"; session = none }

abbrev start : Machine T Snows.toy platform console
start = record {
  files = [];
  terminal = "y" ∷ [];
  world = "" ∷ "" ∷ "" ∷ "" ∷ "" ∷ "" ∷ "package" ∷ "" ∷ "" ∷ [];
}

abbrev end : Machine T Snows.toy platform console
end = record { files = []; terminal = []; world = [] }
