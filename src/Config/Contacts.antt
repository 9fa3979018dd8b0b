-- ===== src/Config/Contacts.antt =====
-- frost-client/src/cli/contact.rs: the address book's commands.
use frost_tools.Prelude.{
  ℕ, String, Bool, false, Option, none, some, List, [], ◌∷◌, ◌==◌, text_eq, nat_eq, Map, insert,
  contains_key, values, any, if◌then◌else◌, Outcome, ok, err, ok_or, bind, Method, ◌>>=◌, lift,
  gets,
}
use frost_tools.Api.{public_key_eq}
use frost_tools.Config.File.{
  Config, Contact, ConfigError, Platform, read, write, own_pubkey_of, is_key, contact_not_found,
  invalid_contact_format, invalid_contact_version, name_taken, pubkey_taken, own_pubkey,
  pubkey_not_generated,
}

abbrev pub is_version_0 : Option ℕ → Bool
is_version_0 none = false
is_version_0 (some v) = v == 0

module _ (P : Platform) where
  unfoldable pub as_text : Contact → Outcome ConfigError String
  as_text c = bind (P.to_allocvec c) (λ bytes. P.bech32_encode "zffrost" bytes)

  unfoldable pub from_text : String → Outcome ConfigError Contact
  from_text text = bind (P.bech32_decode text) (λ decoded.
      if decoded.0 == "zffrost"
      then bind (P.from_bytes decoded.1) (λ contact.
        if is_version_0 contact.version then ok contact else err invalid_contact_version)
      else err invalid_contact_format)

  -- The checks of `import`, and the address book with the contact.
  unfoldable pub add_contact : Contact → Config → Outcome ConfigError Config
  add_contact contact config =
      if contains_key config.contact contact.name
      then err name_taken
      else if any (λ c. c.pubkey == contact.pubkey) (values config.contact)
      then err pubkey_taken
      else if is_key (own_pubkey_of config) contact.pubkey
      then err own_pubkey
      else ok (record config {
        contact = insert contact.name (record contact { version = none }) config.contact;
      })

  unfoldable pub import : String → Option String → Method ConfigError P.Files (Unit {0})
  import text_contact path = do
    found ← gets (read P path)
    config ← lift found
    contact ← lift (from_text text_contact)
    added ← lift (add_contact contact config)
    write P added

  -- What `export` prints.
  unfoldable pub export : String → Option String → P.Files → Outcome ConfigError String
  export name path files = bind (read P path files) (λ config.
      bind (ok_or (own_pubkey_of config) pubkey_not_generated)
        (λ pubkey. as_text (record { version = some 0; name = name; pubkey = pubkey })))

  -- What `list` prints, the encoded contacts of the loop from the first on.
  unfoldable pub texts : List Contact → Outcome ConfigError (List String)
  texts [] = ok []
  texts (c ∷ cs) = bind (as_text c) (λ t. bind (texts cs) (λ ts. ok (t ∷ ts)))

  unfoldable pub list : Option String → P.Files → Outcome ConfigError (List String)
  list path files = bind (read P path files) (λ config. texts (values config.contact))

  -- The name of the first contact whose key has the given hex form.
  unfoldable pub name_of : String → Map String Contact → Option String
  name_of pubkey [] = none
  name_of pubkey ((name, c) ∷ m) =
      if P.hex c.pubkey.bytes == pubkey then some name else name_of pubkey m

  -- `BTreeMap::remove`.
  unfoldable pub drop_name : String → Map String Contact → Map String Contact
  drop_name name [] = []
  drop_name name ((k, c) ∷ m) =
      let rest = drop_name name m in if k == name then rest else (k, c) ∷ rest

  unfoldable pub remove_contact : String → Config → Outcome ConfigError Config
  remove_contact pubkey config =
      bind (ok_or (name_of pubkey config.contact) contact_not_found)
        (λ name. ok (record config { contact = drop_name name config.contact }))

  unfoldable pub remove : Option String → String → Method ConfigError P.Files (Unit {0})
  remove path pubkey = do
    found ← gets (read P path)
    config ← lift found
    removed ← lift (remove_contact pubkey config)
    write P removed
