-- ===== src/Config/File.antt =====
-- frost-client/src/cli/config.rs: the configuration and where it is kept.
use frost_tools.Prelude.{
  ℕ, String, Bool, false, Option, none, some, List, [], ◌∷◌, ◌==◌, Map, values, if◌then◌else◌,
  Outcome, ok, err, panic, ok_or, bind,
}
use frost_tools.Api.{Bytes, PublicKey, public_key_eq}

-- `Contact` of contact.rs, and the errors of the two files by their messages.
pub record Contact : Type 0 where
  pub version : Option ℕ
  pub name : String
  pub pubkey : PublicKey

pub data ConfigError : Type 0 where
  contact_not_found participant_not_found : ConfigError
  invalid_contact_format invalid_contact_version invalid_text : ConfigError
  name_taken pubkey_taken own_pubkey pubkey_not_generated : ConfigError
  path_not_specified invalid_path unreadable invalid_config write_failed : ConfigError

pub record CommunicationKey : Type 0 where
  pub privkey : Bytes
  pub pubkey : PublicKey

pub record Participant : Type 0 where
  pub identifier : Bytes
  pub pubkey : PublicKey

pub record Group : Type 0 where
  pub description : String
  pub ciphersuite : String
  pub public_key_package : Bytes
  pub key_package : Bytes
  pub server_url : Option String
  pub participant : Map String Participant

pub record Config : Type 0 where
  pub path : Option String
  pub version : ℕ
  pub communication_key : Option CommunicationKey
  pub contact : Map String Contact
  pub group : Map String Group

-- `Default`.
abbrev pub empty_config : Config
empty_config = record {
  path = none;
  version = 0;
  communication_key = none;
  contact = [];
  group = [];
}

-- `iter().find(…)`.
unfoldable pub find {ℓ} : {A : Type ℓ} → (A → Bool) → List A → Option A
find p [] = none
find p (x ∷ xs) = if p x then some x else find p xs

-- The user's own public key, if there is one yet.
abbrev pub own_pubkey_of : Config → Option PublicKey
own_pubkey_of config = elim config.communication_key [ none ↦ none | some c ↦ some c.pubkey ]

-- `Some(pubkey) == …`
abbrev pub is_key : Option PublicKey → PublicKey → Bool
is_key none p = false
is_key (some q) p = p == q

unfoldable pub contact_by_pubkey : Config → PublicKey → Outcome ConfigError Contact
contact_by_pubkey config pubkey =
    if is_key (own_pubkey_of config) pubkey
    then ok (record { version = some 0; name = ""; pubkey = pubkey })
    else ok_or (find (λ c. c.pubkey == pubkey) (values config.contact)) contact_not_found

unfoldable pub participant_by_pubkey : Group → PublicKey → Outcome ConfigError Participant
participant_by_pubkey group pubkey =
    ok_or (find (λ p. p.pubkey == pubkey) (values group.participant)) participant_not_found

-- The file system, the crate toml and the platform's directories; `read_file` is none at a path that
-- does not exist.
pub record Platform : Type 1 where
  pub Files : Type 0
  pub config_local_dir : Option String
  pub join : String → String → String
  pub read_file : Files → String → Option (Outcome ConfigError Bytes)
  pub write_file : String → Bytes → Files → Outcome ConfigError (Unit {0}) × Files
  pub parse_toml : Bytes → Outcome ConfigError Config
  pub print_toml : Config → Outcome ConfigError Bytes
  pub hex : Bytes → String
  -- The crates bech32 and postcard; the first part of a Bech32 text is the human-readable one.
  pub bech32_decode : String → Outcome ConfigError (String × Bytes)
  pub bech32_encode : String → Bytes → Outcome ConfigError String
  pub to_allocvec : Contact → Outcome ConfigError Bytes
  pub from_bytes : Bytes → Outcome ConfigError Contact

module _ (P : Platform) where
  -- The `unwrap` of the platform's directory panics where there is none.
  unfoldable pub parse_path : Option String → Outcome ConfigError String
  parse_path (some path) = ok path
  parse_path none = elim P.config_local_dir [
    | none ↦ panic
    | some dir ↦ ok (P.join (P.join dir "frost") "credentials.toml")
  ]

  unfoldable pub read : Option String → P.Files → Outcome ConfigError Config
  read given files = bind (parse_path given) (λ path. elim (P.read_file files path) [
    | none ↦ ok (record empty_config { path = some path })
    | some contents ↦
        bind contents
          (λ bytes. bind (P.parse_toml bytes) (λ config. ok (record config { path = some path })))
  ])

  -- A failure leaves the files as `write_file` left them.
  unfoldable pub write : Config → P.Files → Outcome ConfigError (Unit {0}) × P.Files
  write config files = elim (P.print_toml config) [
    | ok bytes ↦ elim config.path [
      | some path ↦ P.write_file path bytes files
      | none ↦ (err path_not_specified, files)
    ]
    | err e ↦ (err e, files)
    | panic ↦ (panic, files)
  ]
