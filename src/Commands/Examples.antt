-- ===== src/Commands/Examples.antt =====
-- A toy machine, for runs of the commands.
mod CoordinatorRuns
mod ParticipantRuns
mod DkgRuns
use frost_tools.Prelude.{
  ℕ, String, ◌==◌, text_eq, Bool, true, false, Option, none, some, List, [], ◌∷◌, Outcome, ok, err,
  if◌then◌else◌,
}
use frost_tools.Api.{Bytes, PublicKey}
use frost_tools.Config.File.{Config, Group, Platform, empty_config, unreadable}
use frost_tools.Inputs.{Console}
use frost_tools.Session.Examples.{toy, key}
use frost_tools.Comms.Examples.{payloads, zeros}
use frost_tools.Protocol.Examples.{frost}
use frost_tools.Commands.Machine.{Urls}
use frost_tools.Commands.Coordinator.{Codes}

-- The group `g` of the users 1 and 2, of whom the user of the file is number 2.
abbrev pub group : Group
group = record {
  description = "toy";
  ciphersuite = "a";
  public_key_package = [];
  key_package = [];
  server_url = some "server";
  participant =
      ("65", record { identifier = 101 ∷ []; pubkey = key 1 })
      ∷ ("66", record { identifier = 102 ∷ []; pubkey = key 2 })
      ∷ [];
}

abbrev pub saved : Config
saved = record empty_config {
  path = some "frost.toml";
  communication_key = some (record { privkey = zeros 32; pubkey = key 2 });
  group = ("g", group) ∷ [];
}

-- The files are what has been written, the latest first.
abbrev pub platform : Platform
platform = record {
  Files = List Bytes;
  config_local_dir = none;
  join = λ a b. b;
  read_file = λ files path. some (ok []);
  write_file = λ path bytes files. (ok tt, bytes ∷ files);
  parse_toml = λ bytes. ok saved;
  print_toml = λ config. ok [];
  hex = λ bytes. "hex";
  bech32_decode = λ text. ok ("", []);
  bech32_encode = λ hrp bytes. ok "";
  to_allocvec = λ c. ok [];
  from_bytes = λ bytes. err unreadable;
}

abbrev next_line : List String → Outcome ℕ String × List String
next_line [] = (err 1, [])
next_line (line ∷ lines) = (ok line, lines)

-- A text in hex stands for its only byte 1, but for `bad`.
abbrev decoded : String → Outcome ℕ Bytes
decoded text = if text == "bad" then err 2 else ok (1 ∷ [])

abbrev pub console : Console (List Bytes)
console = record {
  Terminal = List String;
  Failure = ℕ;
  write_line = λ text lines. (ok tt, lines);
  read_line = next_line;
  trim = λ text. text;
  parse_u16 = λ text. some 3;
  hex_decode = decoded;
  exists = λ files path. true;
  read_bytes = λ files path. ok (7 ∷ []);
  read_to_string = λ files path. ok "";
  write_bytes = λ path bytes files. (ok tt, bytes ∷ files);
}

abbrev pub urls : Urls ℕ
urls = record {
  Url = String;
  parse = λ text. ok text;
  host_str = some;
  port_or_known_default = λ url. some 443;
  show = λ port. "443";
}

abbrev only_byte : Bytes → Outcome ℕ ℕ
only_byte [] = err 3
only_byte (b ∷ bs) = ok b

abbrev pub codes : Codes toy payloads frost ℕ
codes = record {
  public_key_package = λ bytes. ok 0;
  key_package = λ bytes. ok 3;
  identifier = only_byte;
  randomizer = only_byte;
  signature = λ x. ok (x ∷ []);
}
