-- ===== src/Config/Examples.antt =====
-- A toy platform with one contact, and the theorems about the address book at it.
use frost_tools.Prelude.{
  ℕ, String, ◌≡◌, ◌≢◌, ◌⊎◌, refl, Bool, true, false, ◌&&◌, Option, none, some, [], ◌∷◌, arith,
  nat_eq, text_eq, ◌==◌, eq_iff, list_beq, list_beq_iff, get, insert, contains_key, ok, err,
  if◌then◌else◌,
}
use frost_tools.Api.{PublicKey, public_key_eq, public_key_beq, public_key_beq_iff}
use frost_tools.Config.File.{
  Config, Contact, Platform, empty_config, invalid_text, contact_not_found, read, contact_by_pubkey,
  parse_path,
}
use frost_tools.Config.Contacts.{
  add_contact, remove_contact, as_text, from_text, export, is_version_0,
}
use frost_tools.Config.Commands.{Imports, import-Writes}
use frost_tools.Config.AddressBook.{IsValid, add_contact-IsValid}
use frost_tools.Config.AddressBook.Removal.{HasNone, Removes, remove_contact-IsValid}
use frost_tools.Config.AddressBook.Transfer.{ReadsBack, export_lem}

abbrev key : ℕ → PublicKey
key n = record { bytes = n ∷ [] }

abbrev card : Contact
card = record { version = some 0; name = "alice"; pubkey = key 1 }

abbrev is_card : Contact → Bool
is_card c = is_version_0 c.version && c.name == "alice" && c.pubkey == key 1

abbrev saved : Config
saved = record empty_config {
  path = some "frost.toml";
  communication_key = some (record { privkey = 9 ∷ []; pubkey = key 1 });
}

abbrev toy : Platform
toy = record {
  Files = Bool;
  config_local_dir = none;
  join = λ a b. b;
  read_file = λ files path. some (ok []);
  write_file = λ path bytes files. (ok tt, true);
  parse_toml = λ bytes. ok saved;
  print_toml = λ config. ok [];
  hex = λ bytes. if list_beq bytes (1 ∷ []) then "01" else "other";
  bech32_decode = λ text. ok ("zffrost", 0 ∷ []);
  bech32_encode = λ hrp bytes.
      if hrp == "zffrost" && list_beq bytes (0 ∷ []) then ok "zffrost1" else err invalid_text;
  to_allocvec = λ c. if is_card c then ok (0 ∷ []) else err invalid_text;
  from_bytes = λ bytes. ok card;
}

is_version_0_lem : (v : Option ℕ) → is_version_0 v ≡ true → v ≡ some 0
is_version_0_lem none h = cc
is_version_0_lem (some v) h = ground arith

toy_reads : ReadsBack toy
toy_reads = record {
  bech32 = λ text bytes e. ground (arith, list_beq_iff bytes (0 ∷ []));
  postcard = λ c bytes e. ground (
    arith,
    is_version_0_lem c.version,
    eq_iff c.name "alice",
    public_key_beq_iff c.pubkey (key 1),
  );
}

export_lem_example : from_text toy "zffrost1" ≡ ok card
unfolding export read parse_path as_text public_key_beq list_beq
export_lem_example =
    export_lem toy toy_reads "alice" "zffrost1" (some "frost.toml") false saved
      (record { privkey = 9 ∷ []; pubkey = key 1 }) refl refl refl

-- A book with nobody in it, of a user with another key.
abbrev book : Config
book = record empty_config {
  communication_key = some (record { privkey = 9 ∷ []; pubkey = key 2 });
}

abbrev full : Config
full = record book { contact = ("alice", record card { version = none }) ∷ [] }

book-IsValid : IsValid toy book
unfolding get
book-IsValid = record {
  is_map = tt;
  named = λ n c h. absurd (ground arith);
  unversioned = λ n c h. absurd (ground arith);
  one_name = λ n o c d h g e. absurd (ground arith);
  not_own = λ n c h. absurd (ground arith);
}

add_contact-IsValid_example :
    IsValid toy full
    × ((n : String) → n ≢ card.name → get full.contact n ≡ get book.contact n)
    × (contact_by_pubkey full card.pubkey ≡ ok (record card { version = none }))
unfolding add_contact contains_key get insert public_key_beq list_beq
add_contact-IsValid_example = add_contact-IsValid toy card book full book-IsValid refl

full-IsValid : IsValid toy full
unfolding add_contact contains_key get insert public_key_beq list_beq
full-IsValid = (add_contact-IsValid toy card book full book-IsValid refl).0

remove_contact-IsValid_example :
    (HasNone toy "01" full.contact × (remove_contact toy "01" full ≡ err contact_not_found))
    ⊎ ((config' : Config) × (remove_contact toy "01" full ≡ ok config')
        × Removes toy "01" full config'
        × IsValid toy config')
remove_contact-IsValid_example = remove_contact-IsValid toy "01" full full-IsValid

import-Writes_example : Imports toy "zffrost1" (some "frost.toml") false
import-Writes_example = import-Writes toy "zffrost1" (some "frost.toml") false
