-- ===== src/Inputs.antt =====
-- The inputs of the programs: coordinator/args.rs, coordinator/input.rs and dkg/inputs.rs.
pub mod Dkg
pub mod Reads
mod Examples
use frost_tools.Prelude.{
  ℕ, String, ◌<>◌, Bool, true, false, ◌||◌, Option, none, some, List, [], ◌∷◌, ◌==◌, text_eq,
  if◌then◌else◌, Outcome, ok, err, panic, Method, ◌>>=◌, ◌>>◌, pure, lift,
}
use frost_tools.Api.{Bytes}

-- The terminal, the files as std::fs sees them, and the crate hex. `Failure` is what their errors box to.
pub record Console (Files : Type 0) : Type 1 where
  pub Terminal : Type 0
  pub Failure : Type 0
  pub write_line : String → Method Failure Terminal (Unit {0})
  pub read_line : Method Failure Terminal String
  pub trim : String → String
  pub parse_u16 : String → Option ℕ
  pub hex_decode : String → Outcome Failure Bytes
  pub exists : Files → String → Bool
  pub read_bytes : Files → String → Outcome Failure Bytes
  pub read_to_string : Files → String → Outcome Failure String
  pub write_bytes : String → Bytes → Files → Outcome Failure (Unit {0}) × Files

module _ {Files : Type 0} (I : Console Files) where
  open I use {Terminal, Failure}

  abbrev pub Reading : Type 0 → Type 0
  Reading A = Method Failure Terminal A

  -- A prompt, and the line that answers it.
  unfoldable pub prompted : String → Reading String
  prompted prompt = I.write_line prompt >> I.read_line

  -- A prompt, and the bytes of the line in hex.
  unfoldable pub ask_hex : String → Reading Bytes
  unfolding prompted
  ask_hex prompt = prompted prompt >>= λ line. lift (I.hex_decode (I.trim line))

  -- The names that stand for standard input.
  abbrev pub is_stdin : String → Bool
  is_stdin filename = filename == "-" || filename == ""

  unfoldable pub read_source : String → Files → String → Reading Bytes
  unfolding ask_hex
  read_source prompt files filename =
      if is_stdin filename then ask_hex prompt else lift (I.read_bytes files filename)

  unfoldable pub read_message : Files → String → Reading Bytes
  unfolding read_source
  read_message = read_source "The message to be signed (hex encoded)"

  unfoldable pub read_each : {A : Type 0} → (String → Reading A) → List String → Reading (List A)
  read_each read [] = pure []
  read_each read (filename ∷ rest) =
      read filename >>= λ a. read_each read rest >>= λ others. pure (a ∷ others)

  unfoldable pub read_messages : Files → List String → Reading (List Bytes)
  unfolding read_each read_message ask_hex
  read_messages files [] =
      ask_hex "The message to be signed (hex encoded)" >>= λ msg. pure (msg ∷ [])
  read_messages files (path ∷ paths) = read_each (read_message files) (path ∷ paths)

  unfoldable pub read_aux_message : Files → String → Reading Bytes
  unfolding read_source
  read_aux_message = read_source "The aux message to be sent (hex encoded)"

  -- `Randomizer::deserialize` is that of frost-rerandomized.
  module _ {Randomizer : Type 0} (deserialize : Bytes → Outcome Failure Randomizer) where
    unfoldable pub read_randomizer : Files → String → Reading Randomizer
    unfolding read_source
    read_randomizer files filename =
        read_source "Enter the randomizer (hex string):" files filename >>= λ bytes.
        lift (deserialize bytes)

    unfoldable pub read_randomizers : Files → List String → Reading (List Randomizer)
    unfolding read_each read_randomizer
    read_randomizers files paths = read_each (read_randomizer files) paths

  -- A file that does not exist is read from standard input as well.
  unfoldable pub read_from_file_or_stdin : Files → String → String → Reading String
  unfolding prompted
  read_from_file_or_stdin files object_name file_path =
      let from_stdin : Reading String = prompted ("Paste the " <> object_name <> ": ") in
      if file_path == "-"
      then from_stdin
      else if I.exists files file_path
      then I.write_line ("Reading " <> object_name <> " from " <> file_path)
        >> lift (I.read_to_string files file_path)
      else I.write_line ("File not found: " <> file_path <> "\nWill read from stdin") >> from_stdin
