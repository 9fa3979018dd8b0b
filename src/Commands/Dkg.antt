-- ===== src/Commands/Dkg.antt =====
-- cli/dkg.rs
pub mod Members
pub mod Creates
use frost_tools.Prelude.{
  ℕ, String, Bool, true, false, not, ◌&&◌, Option, none, some, List, [], ◌∷◌, ◌++◌, Map, get,
  insert, contains, is_empty, if◌then◌else◌, PartialEq, text_eq, Outcome, ok, err, panic, Method,
  ◌>>=◌, ◌>>◌, pure, lift, bind, ok_or,
}
use frost_tools.Api.{Bytes, PublicKey, public_key_eq}
use frost_tools.Client.Transport.{Transport}
use frost_tools.Cipher.Snow.{Snow}
use frost_tools.Session.Suite.{Suite}
use frost_tools.Comms.Payloads.{Payloads}
use frost_tools.Comms.Dkg as Http
use frost_tools.Config.File.{
  Config, Contact, ConfigError, Group, Participant, CommunicationKey, Platform, read, write,
  contact_by_pubkey,
}
use frost_tools.Inputs.{Console}
use frost_tools.Protocol.Dkg.{Keygen, Generated, with_cleanup}
use frost_tools.Protocol.Dkg.OverHttp.{errors, http_comms}
use frost_tools.Commands.Machine.{
  Urls, Machine, Command, CommandError, message, from_console, reading, writing, over_http,
  parse_url, address,
}

pub record DkgCommand : Type 0 where
  pub config : Option String
  pub description : String
  pub server_url : String
  pub threshold : ℕ
  pub participants : List String

-- What frost-core and postcard write: `C::ID`, the keys of `verifying_shares`, and the encodings.
pub record DkgCodes (C : Suite) (F : Keygen C) (Failure : Type 0) : Type 0 where
  pub id : String
  pub verifying_shares : F.PublicKeyPackage → List C.Identifier
  pub serialize : C.Identifier → Bytes
  pub verifying_key : F.PublicKeyPackage → Outcome Failure Bytes
  pub key_package : F.KeyPackage → Outcome Failure Bytes
  pub public_key_package : F.PublicKeyPackage → Outcome Failure Bytes

-- `push` of our own key, if there are others and it is not among them.
unfoldable pub with_own : PublicKey → List PublicKey → List PublicKey
with_own own participants =
    if not (is_empty participants) && not (contains participants own)
    then participants ++ own ∷ []
    else participants

abbrev pub pubkey_of : Outcome ConfigError Contact → Option PublicKey
pubkey_of (ok c) = some c.pubkey
pubkey_of (err e) = none
pubkey_of panic = none

-- The closure `comm_participant_pubkey_getter`.
unfoldable pub participant_key : Config → PublicKey → Option PublicKey
participant_key config asked = pubkey_of (contact_by_pubkey config asked)

module _ (T : Transport) (S : Snow) (O : Platform) (I : Console O.Files) (U : Urls I.Failure)
    (C : Suite) (P : Payloads C) (F : Keygen C) (E : DkgCodes C F I.Failure) where
  open C use {Identifier}

  instance abbrev pub identifier_eq : PartialEq Identifier
  identifier_eq = C.identifier_eq

  unfoldable pub decode_keys : List String → Outcome (CommandError T S O I) (List PublicKey)
  decode_keys [] = ok []
  decode_keys (s ∷ rest) =
      bind (from_console T S O I (I.hex_decode s))
        (λ bytes. bind (decode_keys rest) (λ keys. ok (record { bytes = bytes } ∷ keys)))

  -- The table of the DKG the other way round, from the entries that are left.
  unfoldable pub reversed :
      Map PublicKey Identifier → Map Identifier PublicKey → Map Identifier PublicKey
  reversed [] made = made
  reversed ((p, i) ∷ rest) made = reversed rest (insert i p made)

  -- The participants map, from the identifiers that are left.
  unfoldable pub participants_map :
      Map Identifier PublicKey
      → List Identifier
      → Map String Participant
      → Outcome (CommandError T S O I) (Map String Participant)
  participants_map keys [] made = ok made
  participants_map keys (i ∷ rest) made =
      bind (ok_or (get keys i) (message "missing pubkey")) (λ pubkey. participants_map keys rest (
        insert (O.hex (E.serialize i)) (record { identifier = E.serialize i; pubkey = pubkey })
          made))

  abbrev pub group_with : DkgCommand → Map String Participant → Bytes → Bytes → Group
  group_with args participants key public_key = record {
    description = args.description;
    ciphersuite = E.id;
    public_key_package = public_key;
    key_package = key;
    server_url = some args.server_url;
    participant = participants;
  }

  unfoldable pub new_group :
      DkgCommand → Generated C F (errors T S C P F) → Outcome (CommandError T S O I) Group
  new_group args g =
      bind (participants_map (reversed g.1 []) (E.verifying_shares g.0.1) []) (λ participants.
        bind (from_console T S O I (E.key_package g.0.0)) (λ key.
          bind (from_console T S O I (E.public_key_package g.0.1))
            (λ public_key. ok (group_with args participants key public_key))))

  abbrev pub http_args : Config → CommunicationKey → List PublicKey → String → Http.Args T S C P
  http_args config own participants url = record {
    url = url;
    comm_privkey = some own.privkey;
    comm_pubkey = some own.pubkey;
    comm_participant_pubkey_getter = some (participant_key config);
    participants = participants;
  }

  -- `cli_for_processed_args` with the flags that the command sets.
  unfoldable pub generating :
      ℕ → Http.Args T S C P → ℕ → Command T S O I (Generated C F (errors T S C P F))
  generating rounds args min_signers =
      over_http T S O I (Http.new T S C P args)
        (with_cleanup C F (errors T S C P F) (http_comms T S C P F rounds args) min_signers)

  abbrev pub with_group : String → Group → Config → Config
  with_group name group config = record config { group = insert name group config.group }

  unfoldable pub dkg_for_ciphersuite : ℕ → DkgCommand → Command T S O I (Unit {0})
  dkg_for_ciphersuite rounds args = do
    config ← reading T S O I (read O args.config)
    url ← lift (parse_url T S O I U args.server_url)
    own ← lift (ok_or config.communication_key (message "user not initialized"))
    keys ← lift (decode_keys args.participants)
    base ← lift (address T S O I U url)
    g ← generating rounds (http_args config own (with_own own.pubkey keys) base) args.threshold
    group ← lift (new_group args g)
    config' ← reading T S O I (read O args.config)
    name ← lift (from_console T S O I (E.verifying_key g.0.1))
    writing T S O I (write O (with_group (O.hex name) group config'))
