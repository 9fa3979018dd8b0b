-- ===== src/Config/AddressBook.antt =====
-- The address book over imports and removals: one name and one key for each contact.
pub mod Removal
pub mod Transfer
use mathlib.Core.Path.{subst, subst⁻¹}
use frost_tools.Prelude.{
  ℕ, String, ◌≡◌, ◌≢◌, ◌↔◌, ◌⊎◌, ◌∙◌, refl, sym, ap, inl, inr, Bool, true, false, not, ◌&&◌, ◌||◌,
  Option, none, some, List, [], ◌∷◌, arith, ◌==◌, text_eq, eq_iff, eq_self, Map, get, insert,
  get-insert, contains_key, values, any, is_some, if◌then◌else◌, Outcome, ok, err, panic, ok_or,
  is_ok, bind, bind-eq-ok, Bool-cases, Option-cases, nat_eq,
}
use frost_tools.Api.{Bytes, PublicKey, public_key_eq, public_key_beq_iff}
use frost_tools.Config.File.{
  Config, Contact, ConfigError, Platform, own_pubkey_of, is_key, find, contact_by_pubkey,
  contact_not_found,
}
use frost_tools.Config.Contacts.{add_contact, remove_contact, name_of, drop_name}

-- An address book is valid if each entry is kept under its own name and without a version, no two
-- have the same key, and none has the user's key.
module _ (P : Platform) where
  -- A map has one entry for each key.
  abbrev pub IsMap : Map String Contact → Type 0
  IsMap [] = Unit
  IsMap ((k, c) ∷ m) = (get m k ≡ none) × IsMap m

  insert-IsMap :
      (n : String) (c : Contact) (m : Map String Contact) → IsMap m → IsMap (insert n c m)
  unfolding insert get
  insert-IsMap n c [] d = (refl, tt)
  insert-IsMap n c ((k, b) ∷ m) d =
      ground (arith, insert-IsMap n c m d.1, get-insert n k c m, eq_iff k n, eq_iff n k, d.0)

  pub record IsValid (config : Config) : Type 0 where
    pub is_map : IsMap config.contact
    pub named : (n : String) (c : Contact) → get config.contact n ≡ some c → c.name ≡ n
    pub unversioned : (n : String) (c : Contact) → get config.contact n ≡ some c → c.version ≡ none
    pub one_name :
        (n o : String) (c d : Contact)
        → get config.contact n ≡ some c
        → get config.contact o ≡ some d
        → c.pubkey ≡ d.pubkey
        → n ≡ o
    pub not_own :
        (n : String) (c : Contact)
        → get config.contact n ≡ some c
        → is_key (own_pubkey_of config) c.pubkey ≡ false

  any-get :
      (p : Contact → Bool) (m : Map String Contact) (n : String) (c : Contact)
      → any p (values m) ≡ false
      → get m n ≡ some c
      → p c ≡ false
  unfolding get
  any-get p [] n c none_has there = absurd (ground arith)
  any-get p ((k, d) ∷ m) n c none_has there = ground (arith, any-get p m n c)

  find-insert :
      (p : Contact → Bool) (m : Map String Contact) (n : String) (c : Contact)
      → any p (values m) ≡ false
      → p c ≡ true
      → find p (values (insert n c m)) ≡ some c
  unfolding insert find
  find-insert p [] n c none_has has = ground arith
  find-insert p ((k, d) ∷ m) n c none_has has = ground (arith, find-insert p m n c)

  -- A contact is added exactly if nobody in the book has its name or its key, and its key is not the
  -- user's own.
  pub add_contact_iff :
      (c : Contact) (config : Config)
      → (is_ok (add_contact P c config) ≡ true) ↔ (
          (get config.contact c.name ≡ none)
          × (any (λ d. d.pubkey == c.pubkey) (values config.contact) ≡ false)
          × (is_key (own_pubkey_of config) c.pubkey ≡ false))
  unfolding add_contact contains_key
  add_contact_iff c config = ground arith

  pub ok_same : (a b : Config) → ◌≡◌ {A = Outcome ConfigError Config} (ok a) (ok b) → a ≡ b
  ok_same a b e = cc

  pub added_ok :
      (c : Contact) (config : Config)
      → is_ok (add_contact P c config) ≡ true
      → add_contact P c config
        ≡ ok
            (record config { contact = insert c.name (record c { version = none }) config.contact })
  unfolding add_contact contains_key
  added_ok c config h = ground (arith, h)

  pub added :
      (c : Contact) (config config' : Config)
      → add_contact P c config ≡ ok config'
      → config'
        ≡ record config { contact = insert c.name (record c { version = none }) config.contact }
  added c config config' e =
      let same =
        ok_same config'
          (record config { contact = insert c.name (record c { version = none }) config.contact })
          (sym e ∙ added_ok c config (ap is_ok e)) in
      same

  abbrev stored : Contact → Contact
  stored c = record c { version = none }

  abbrev with_contact : Contact → Config → Config
  with_contact c config = record config { contact = insert c.name (stored c) config.contact }

  module _ (c : Contact) (config : Config) (valid : IsValid config)
      (key_free : any (λ d. d.pubkey == c.pubkey) (values config.contact) ≡ false)
      (others_key : is_key (own_pubkey_of config) c.pubkey ≡ false) where
    -- What is in the new book is the new contact, or another one of the old book.
    entry_of :
        (n : String) (d : Contact)
        → get (with_contact c config).contact n ≡ some d
        → ((c.name ≡ n) × (stored c ≡ d))
          ⊎ ((get config.contact n ≡ some d) × ((d.pubkey == c.pubkey) ≡ false))
    entry_of n d h = elim (Bool-cases (c.name == n)) [
      | inl same ↦
          inl (
            (eq_iff c.name n).0 same,
            ground (arith, get-insert c.name n (stored c) config.contact),
          )
      | inr other ↦
          let there : get config.contact n ≡ some d =
            ground (arith, get-insert c.name n (stored c) config.contact) in
          inr (there, any-get (λ x. x.pubkey == c.pubkey) config.contact n d key_free there)
    ]

    with_contact-IsValid : IsValid (with_contact c config)
    with_contact-IsValid = record {
      is_map = insert-IsMap c.name (stored c) config.contact valid.is_map;
      named = λ n d h. elim (entry_of n d h) [
        | inl (e, same) ↦ sym (ap (λ (x : Contact). x.name) same) ∙ e
        | inr (old, other) ↦ valid.named n d old
      ];
      unversioned = λ n d h. elim (entry_of n d h) [
        | inl (e, same) ↦ sym (ap (λ (x : Contact). x.version) same)
        | inr (old, other) ↦ valid.unversioned n d old
      ];
      one_name = λ n o a b ha hb same. elim (entry_of n a ha) [
        | inl (en, ea) ↦ elim (entry_of o b hb) [
          | inl (eo, eb) ↦ sym en ∙ eo
          | inr (old, other) ↦ absurd (ground (arith, other, ea, same, eq_iff b.pubkey c.pubkey))
        ]
        | inr (old, other) ↦ elim (entry_of o b hb) [
          | inl (eo, eb) ↦ absurd (ground (arith, other, eb, same, eq_iff a.pubkey c.pubkey))
          | inr (old', other') ↦ valid.one_name n o a b old old' same
        ]
      ];
      not_own = λ n d h. elim (entry_of n d h) [
        | inl (e, same) ↦
            ap (λ (x : Contact). is_key (own_pubkey_of config) x.pubkey) (sym same) ∙ others_key
        | inr (old, other) ↦ valid.not_own n d old
      ];
    }

    with_contact-found : contact_by_pubkey (with_contact c config) c.pubkey ≡ ok (stored c)
    unfolding contact_by_pubkey
    with_contact-found =
        rw
          (
            others_key,
            find-insert (λ x. x.pubkey == c.pubkey) config.contact c.name (stored c) key_free
                (eq_self c.pubkey),
          )
          refl

  -- Adding a contact keeps a valid address book valid, and no other entry is changed; the contact is
  -- then found by its key, without its version.
  pub add_contact-IsValid :
      (c : Contact) (config config' : Config)
      → IsValid config
      → add_contact P c config ≡ ok config'
      → IsValid config'
        × ((n : String) → n ≢ c.name → get config'.contact n ≡ get config.contact n)
        × (contact_by_pubkey config' c.pubkey ≡ ok (record c { version = none }))
  add_contact-IsValid c config config' valid e =
      let (name_free, key_free, others_key) = (add_contact_iff c config).0 (ap is_ok e) in
      subst⁻¹
        (λ x.
          IsValid x
          × ((n : String) → n ≢ c.name → get x.contact n ≡ get config.contact n)
          × (contact_by_pubkey x c.pubkey ≡ ok (record c { version = none })))
        (added c config config' e)
        (
          with_contact-IsValid c config valid key_free others_key,
          λ n other.
              ground (arith, get-insert c.name n (stored c) config.contact, eq_iff c.name n, other),
          with_contact-found c config valid key_free others_key,
        )
