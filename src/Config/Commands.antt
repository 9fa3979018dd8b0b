-- ===== src/Config/Commands.antt =====
-- What the commands that change the address book write.
use mathlib.Core.Path.{ap, subst⁻¹}
use frost_tools.Prelude.{
  ◌≡◌, ◌⊎◌, ◌∙◌, sym, refl, String, false, Option, Option-cases, none, some, inl, inr, Outcome, ok,
  err, panic, bind, bind-eq-ok, is_ok, Outcome-cases, get, insert, any, values, ◌==◌, text_eq,
}
use frost_tools.Api.{Bytes, public_key_eq}
use frost_tools.Config.File.{
  Config, Contact, ConfigError, Platform, read, write, parse_path, empty_config, is_key,
  own_pubkey_of,
}
use frost_tools.Config.AddressBook.{add_contact_iff, added_ok}
use frost_tools.Config.Contacts.{import, remove, from_text, add_contact, remove_contact}

module _ (P : Platform) where
  -- The configuration has been printed and written to its path.
  pub record Stored (config : Config) (files after : P.Files) : Type 0 where
    pub path : String
    pub bytes : Bytes
    pub placed : config.path ≡ some path
    pub printed : P.print_toml config ≡ ok bytes
    pub written : P.write_file path bytes files ≡ (ok tt, after)

  pub write-Stored :
      (config : Config) (files after : P.Files)
      → write P config files ≡ (ok tt, after)
      → Stored config files after
  unfolding write
  write-Stored config files after e = elim (Outcome-cases (P.print_toml config)) [
    | inl (bytes, p) ↦ elim (Option-cases config.path) [
      | inl nowhere ↦ let f = rw (p, nowhere, write) at e in cc
      | inr (path, there) ↦ record {
        path = path;
        bytes = bytes;
        placed = there;
        printed = p;
        written = rw (p, there, write) at e;
      }
    ]
    | inr (inl (x, p)) ↦ let f = rw (p, write) at e in cc
    | inr (inr p) ↦ let f = rw (p, write) at e in cc
  ]

  -- The configuration that an import writes: it has to be read, the text has to be that of a contact,
  -- and the contact has to be added.
  abbrev pub imported : String → Option String → P.Files → Outcome ConfigError Config
  imported text path files =
      bind (read P path files) (λ config. bind (from_text P text) (λ c. add_contact P c config))

  abbrev pub removed : Option String → String → P.Files → Outcome ConfigError Config
  removed path pubkey files = bind (read P path files) (λ config. remove_contact P pubkey config)

  -- The command writes what it has prepared; where it could prepare nothing, it fails and leaves the
  -- files as they were.
  pub record Writes (prepared : Outcome ConfigError Config) (files : P.Files)
      (done : Outcome ConfigError (Unit {0}) × P.Files) : Type 0 where
    pub written : (config : Config) → prepared ≡ ok config → done ≡ write P config files
    pub refused : is_ok prepared ≡ false → (is_ok done.0 ≡ false) × (done.1 ≡ files)

  abbrev run : P.Files → Outcome ConfigError Config → Outcome ConfigError (Unit {0}) × P.Files
  run files (ok config) = write P config files
  run files (err e) = (err e, files)
  run files panic = (panic, files)

  run_lem :
      (files : P.Files) (prepared : Outcome ConfigError Config)
      → Writes prepared files (run files prepared)
  run_lem files (ok config) = record {
    written = λ other e. ap (λ x. run files x) e;
    refused = λ e. absurd cc;
  }
  run_lem files (err e) = record { written = λ other h. absurd cc; refused = λ h. (refl, refl) }
  run_lem files panic = record { written = λ other h. absurd cc; refused = λ h. (refl, refl) }

  import-run :
      (text : String) (path : Option String) (files : P.Files)
      → import P text path files ≡ run files (imported text path files)
  unfolding import
  import-run text path files = elim (Outcome-cases (read P path files)) [
    | inl (config, e) ↦ elim (Outcome-cases (from_text P text)) [
      | inl (c, ec) ↦ elim (Outcome-cases (add_contact P c config)) [
        | inl (a, ea) ↦ rw (e, ec, ea) refl
        | inr (inl (x, ea)) ↦ rw (e, ec, ea) refl
        | inr (inr ea) ↦ rw (e, ec, ea) refl
      ]
      | inr (inl (x, ec)) ↦ rw (e, ec) refl
      | inr (inr ec) ↦ rw (e, ec) refl
    ]
    | inr (inl (x, e)) ↦ rw e refl
    | inr (inr e) ↦ rw e refl
  ]

  remove-run :
      (path : Option String) (pubkey : String) (files : P.Files)
      → remove P path pubkey files ≡ run files (removed path pubkey files)
  unfolding remove
  remove-run path pubkey files = elim (Outcome-cases (read P path files)) [
    | inl (config, e) ↦ elim (Outcome-cases (remove_contact P pubkey config)) [
      | inl (a, ea) ↦ rw (e, ea) refl
      | inr (inl (x, ea)) ↦ rw (e, ea) refl
      | inr (inr ea) ↦ rw (e, ea) refl
    ]
    | inr (inl (x, e)) ↦ rw e refl
    | inr (inr e) ↦ rw e refl
  ]

  abbrev pub with_contact : Contact → Config → Config
  with_contact c config = record config {
    contact = insert c.name (record c { version = none }) config.contact;
  }

  -- The configuration reads, the text is that of a contact, nobody in the address book has its name or
  -- its key, its key is not the user's own, and the new configuration can be printed.
  pub record Ready (text : String) (path : Option String) (files : P.Files) (config : Config)
      (c : Contact) (bytes : Bytes) : Type 0 where
    pub reads : read P path files ≡ ok config
    pub said : from_text P text ≡ ok c
    pub name_free : get config.contact c.name ≡ none
    pub key_free : any (λ d. d.pubkey == c.pubkey) (values config.contact) ≡ false
    pub others_key : is_key (own_pubkey_of config) c.pubkey ≡ false
    pub printed : P.print_toml (with_contact c config) ≡ ok bytes

  Ready-imported :
      (text : String) (path : Option String) (files : P.Files) (config : Config) (c : Contact)
      (bytes : Bytes)
      → Ready text path files config c bytes
      → imported text path files ≡ ok (with_contact c config)
  Ready-imported text path files config c bytes r =
      let fine = (add_contact_iff P c config).1 (r.name_free, r.key_free, r.others_key) in
      rw (r.reads, r.said) (added_ok P c config fine)

  read-path :
      (path : Option String) (files : P.Files) (config : Config)
      → read P path files ≡ ok config
      → (file : String) × (parse_path P path ≡ ok file) × (config.path ≡ some file)
  unfolding read
  read-path path files config e =
      let (file, at, more) = bind-eq-ok (parse_path P path) _ e in
      (
        file,
        at,
        elim (Option-cases (P.read_file files file)) [
          | inl missing ↦
              let f = rw missing at more in
              let same : record empty_config { path = some file } ≡ config = cc in
              sym (ap Config.path same)
          | inr (contents, there) ↦
              let f = rw there at more in
              let (bytes, a, f1) = bind-eq-ok contents _ f in
              let (old, b, f2) = bind-eq-ok (P.parse_toml bytes) _ f1 in
              let same : record old { path = some file } ≡ config = cc in sym (ap Config.path same)
        ],
      )

  -- What an import has done: the file of the configuration is written, or nothing is.
  abbrev pub Imports : String → Option String → P.Files → Type 0
  Imports text path files =
      ((config : Config) × (c : Contact) × (file : String) × (bytes : Bytes) × Ready text path files
          config c bytes
        × (parse_path P path ≡ ok file)
        × (import P text path files ≡ P.write_file file bytes files))
      ⊎ ((¬ (
            (config : Config) × (c : Contact) × (bytes : Bytes) × Ready text path files config c
              bytes))
          × (is_ok (import P text path files).0 ≡ false)
          × ((import P text path files).1 ≡ files))

  refused :
      (text : String) (path : Option String) (files : P.Files)
      → is_ok (imported text path files) ≡ false
      → Imports text path files
  refused text path files no_way =
      let (bad, same) =
        (subst⁻¹ (Writes (imported text path files) files) (import-run text path files)
            (run_lem files (imported text path files))).refused
          no_way in
      inr (
        λ h.
            let (config, c, bytes, r) = h in
            let fine = Ready-imported text path files config c bytes r in
            let x = ap is_ok fine in cc,
        bad,
        same,
      )

  prepared :
      (text : String) (path : Option String) (files : P.Files) (config : Config) (c : Contact)
      → read P path files ≡ ok config
      → from_text P text ≡ ok c
      → add_contact P c config ≡ ok (with_contact c config)
      → Imports text path files
  unfolding write
  prepared text path files config c reads said adds =
      let (name_free, key_free, others_key) = (add_contact_iff P c config).0 (ap is_ok adds) in
      let is : imported text path files ≡ ok (with_contact c config) = rw (reads, said) adds in
      let ran : import P text path files ≡ write P (with_contact c config) files =
        import-run text path files ∙ ap (λ x. run files x) is in
      let (file, at, placed) = read-path path files config reads in
      elim (Outcome-cases (P.print_toml (with_contact c config))) [
        | inl (bytes, p) ↦ inl (
          config,
          c,
          file,
          bytes,
          record {
            reads = reads;
            said = said;
            name_free = name_free;
            key_free = key_free;
            others_key = others_key;
            printed = p;
          },
          at,
          rw ran (rw (p, placed, write) refl),
        )
        | inr bad ↦ inr (
          λ h.
              let (config', c', bytes, r) = h in
              let same : config ≡ config' = okay (sym reads ∙ r.reads) in
              let same_c : c ≡ c' = okay (sym said ∙ r.said) in
              let printed : P.print_toml (with_contact c config) ≡ ok bytes =
                rw (same, same_c) r.printed in
              elim bad [
                | inl (x, p) ↦ let y = ap is_ok (sym p ∙ printed) in cc
                | inr p ↦ let y = ap is_ok (sym p ∙ printed) in cc
              ],
          elim bad [
            | inl (x, p) ↦ rw ran (rw (p, write) refl)
            | inr p ↦ rw ran (rw (p, write) refl)
          ],
          elim bad [
            | inl (x, p) ↦ rw ran (rw (p, write) refl)
            | inr p ↦ rw ran (rw (p, write) refl)
          ],
        )
      ]
    where
      okay : {A : Type 0} {x y : A} → ◌≡◌ {A = Outcome ConfigError A} (ok x) (ok y) → x ≡ y
      okay e = cc

  -- Exactly if the configuration reads, the text is that of a contact whose name and key are free and
  -- whose key is not the user's own, and the configuration with this contact can be printed, an import
  -- writes that to the file of the configuration, without the contact's version. If not, it fails and
  -- leaves the files as they were.
  pub import-Writes :
      (text : String) (path : Option String) (files : P.Files) → Imports text path files
  import-Writes text path files = elim (Outcome-cases (read P path files)) [
    | inl (config, e) ↦ elim (Outcome-cases (from_text P text)) [
      | inl (c, ec) ↦ elim (Outcome-cases (add_contact P c config)) [
        | inl (a, ea) ↦ prepared text path files config c e ec (added_ok P c config (ap is_ok ea))
        | inr (inl (x, ea)) ↦ refused text path files (rw (e, ec, ea) refl)
        | inr (inr ea) ↦ refused text path files (rw (e, ec, ea) refl)
      ]
      | inr (inl (x, ec)) ↦ refused text path files (rw (e, ec) refl)
      | inr (inr ec) ↦ refused text path files (rw (e, ec) refl)
    ]
    | inr (inl (x, e)) ↦ refused text path files (rw e refl)
    | inr (inr e) ↦ refused text path files (rw e refl)
  ]

  -- A removal writes the configuration without the contact, if the configuration reads and has the
  -- contact; otherwise it fails and leaves the files as they were.
  pub remove-Writes :
      (path : Option String) (pubkey : String) (files : P.Files)
      → Writes (removed path pubkey files) files (remove P path pubkey files)
  remove-Writes path pubkey files =
      subst⁻¹ (Writes (removed path pubkey files) files) (remove-run path pubkey files)
        (run_lem files (removed path pubkey files))
