-- ===== src/Config/AddressBook/Transfer.antt =====
-- From the export of one user to the import of another.
use frost_tools.Prelude.{
  String, ◌≡◌, ◌∙◌, refl, sym, some, Option, text_eq, nat_eq, ok, err, bind-eq-ok, if◌then◌else◌,
}
use frost_tools.Api.{Bytes}
use frost_tools.Config.File.{
  Config, Contact, CommunicationKey, Platform, read, invalid_contact_version,
}
use frost_tools.Config.Contacts.{as_text, from_text, export, is_version_0}

-- What bech32 and postcard document: they read back what they have written, bech32 with the
-- human-readable part of contacts, which is in lower case.
pub record ReadsBack (P : Platform) : Type 0 where
  pub bech32 :
      (text : String) (bytes : Bytes)
      → P.bech32_encode "zffrost" bytes ≡ ok text
      → P.bech32_decode text ≡ ok ("zffrost", bytes)
  pub postcard :
      (c : Contact) (bytes : Bytes) → P.to_allocvec c ≡ ok bytes → P.from_bytes bytes ≡ ok c

module _ (P : Platform) (R : ReadsBack P) where
  -- The text of a contact reads back as that contact if its version is 0, and is refused for its
  -- version if not.
  pub text_roundtrip :
      (c : Contact) (text : String)
      → as_text P c ≡ ok text
      → from_text P text ≡ (if is_version_0 c.version then ok c else err invalid_contact_version)
  unfolding as_text from_text
  text_roundtrip c text e =
      let (bytes, packed, encoded) = bind-eq-ok (P.to_allocvec c) _ e in
      rw (R.bech32 text bytes encoded, R.postcard c bytes packed) refl

  -- What a user exports under a name reads back as a contact with that name and the user's own key.
  pub export_lem :
      (name text : String) (path : Option String) (files : P.Files) (config : Config)
      (key : CommunicationKey)
      → read P path files ≡ ok config
      → config.communication_key ≡ some key
      → export P name path files ≡ ok text
      → from_text P text ≡ ok (record { version = some 0; name = name; pubkey = key.pubkey })
  unfolding export
  export_lem name text path files config key found own e =
      text_roundtrip (record { version = some 0; name = name; pubkey = key.pubkey }) text
        (sym exported ∙ e)
    where
      exported :
          export P name path files
          ≡ as_text P (record { version = some 0; name = name; pubkey = key.pubkey })
      exported = rw (export, found, own) refl
