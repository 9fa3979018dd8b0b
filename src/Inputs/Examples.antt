-- ===== src/Inputs/Examples.antt =====
-- Runs of the readers: the terminal's lines are a list.
use frost_tools.Prelude.{
  ℕ, ◌≡◌, refl, String, ◌==◌, text_eq, some, List, [], ◌∷◌, Outcome, ok, err, if◌then◌else◌,
}
use frost_tools.Api.{Bytes}
use frost_tools.Inputs.{
  Console, read_source, read_messages, read_randomizers, read_from_file_or_stdin,
}

abbrev next_line : List String → Outcome ℕ String × List String
next_line [] = (err 1, [])
next_line (line ∷ lines) = (ok line, lines)

abbrev decoded : String → Outcome ℕ Bytes
decoded text = if text == "bad" then err 2 else ok (5 ∷ [])

abbrev console : Console (Unit {0})
console = record {
  Terminal = List String;
  Failure = ℕ;
  write_line = λ text lines. (ok tt, lines);
  read_line = next_line;
  trim = λ text. text;
  parse_u16 = λ text. some 3;
  hex_decode = decoded;
  exists = λ files path. path == "key.json";
  read_bytes = λ files path. ok (7 ∷ []);
  read_to_string = λ files path. ok "contents";
  write_bytes = λ path bytes files. (ok tt, files);
}

-- A file and the terminal, in the order of the paths.
mixed :
    read_messages console tt ("file" ∷ "-" ∷ []) ("05" ∷ "rest" ∷ [])
    ≡ (ok ((7 ∷ []) ∷ (5 ∷ []) ∷ []), "rest" ∷ [])
unfolding read_messages read_source
mixed = refl

-- Without a path one message is asked for, and no randomizer.
one_asked : read_messages console tt [] ("05" ∷ []) ≡ (ok ((5 ∷ []) ∷ []), [])
unfolding read_messages
one_asked = refl

none_asked : read_randomizers console ok tt [] ("05" ∷ []) ≡ (ok [], "05" ∷ [])
unfolding read_randomizers
none_asked = refl

-- A line that is not hex ends the reading.
bad_line : read_messages console tt ("-" ∷ "file" ∷ []) ("bad" ∷ []) ≡ (err 2, [])
unfolding read_messages read_source
bad_line = refl

-- A file that is missing is asked for.
missing : read_from_file_or_stdin console tt "key" "other.json" ("pasted" ∷ []) ≡ (ok "pasted", [])
unfolding read_from_file_or_stdin
missing = refl
