-- ===== src/Config/AddressBook/Removal.antt =====
-- Removing a contact from the address book.
use frost_tools.Prelude.{
  String, ◌≡◌, ◌⊎◌, refl, ap, false, inl, inr, none, some, [], ◌∷◌, ◌++◌, values, any, Option-cases,
  err, arith, ◌==◌, text_eq, eq_iff, Map, get, if◌then◌else◌, ok, Bool-cases, nat_eq,
}
use frost_tools.Api.{public_key_eq}
use frost_tools.Config.File.{Config, Contact, Platform, contact_not_found}
use frost_tools.Config.Contacts.{remove_contact, name_of, drop_name}
use frost_tools.Config.AddressBook.{IsValid, IsMap}

module _ (P : Platform) where
  get-drop_name :
      (n o : String) (m : Map String Contact)
      → get (drop_name P n m) o ≡ (if n == o then none else get m o)
  unfolding get drop_name
  get-drop_name n o [] = ground arith
  get-drop_name n o ((k, c) ∷ m) =
      ground (arith, get-drop_name n o m, eq_iff k n, eq_iff k o, eq_iff n o)

  name_of_lem :
      (pubkey name : String) (m : Map String Contact)
      → IsMap P m
      → name_of P pubkey m ≡ some name
      → (c : Contact) × (get m name ≡ some c) × (P.hex c.pubkey.bytes ≡ pubkey)
  unfolding name_of get
  name_of_lem pubkey name [] d h = absurd (ground arith)
  name_of_lem pubkey name ((k, c) ∷ m) d h = elim (Bool-cases (P.hex c.pubkey.bytes == pubkey)) [
    | inl here ↦
        (c, ground (arith, here, eq_iff k name), (eq_iff (P.hex c.pubkey.bytes) pubkey).0 here)
    | inr later ↦
        let (b, at, hex) = name_of_lem pubkey name m d.1 (ground (arith, later)) in
        (b, ground (arith, at, d.0, eq_iff k name), hex)
  ]

  abbrev without : String → Config → Config
  without name config = record config { contact = drop_name P name config.contact }

  drop_name-IsMap : (n : String) (m : Map String Contact) → IsMap P m → IsMap P (drop_name P n m)
  unfolding drop_name
  drop_name-IsMap n [] d = tt
  drop_name-IsMap n ((k, c) ∷ m) d =
      ground (arith, drop_name-IsMap n m d.1, get-drop_name n k m, d.0)

  kept :
      (name n : String) (c : Contact) (m : Map String Contact)
      → get (drop_name P name m) n ≡ some c
      → get m n ≡ some c
  kept name n c m h = ground (arith, get-drop_name name n m, h)

  without-IsValid :
      (name : String) (config : Config) → IsValid P config → IsValid P (without name config)
  without-IsValid name config valid =
      let k = λ (n : String) (c : Contact). kept name n c config.contact in
      record {
        is_map = drop_name-IsMap name config.contact valid.is_map;
        named = λ n c h. valid.named n c (k n c h);
        unversioned = λ n c h. valid.unversioned n c (k n c h);
        one_name = λ n o c d h g same. valid.one_name n o c d (k n c h) (k o d g) same;
        not_own = λ n c h. valid.not_own n c (k n c h);
      }

  -- Nobody in the list has a key with the given hex form.
  abbrev pub HasNone : String → Map String Contact → Type 0
  HasNone pubkey m = any (λ c. P.hex c.pubkey.bytes == pubkey) (values m) ≡ false

  -- The book splits at the first contact whose key has the hex form, and is left without it.
  pub record Removes (pubkey : String) (config config' : Config) : Type 0 where
    pub before : Map String Contact
    pub name : String
    pub contact : Contact
    pub after : Map String Contact
    pub splits : config.contact ≡ before ++ (name, contact) ∷ after
    pub first : HasNone pubkey before
    pub found : P.hex contact.pubkey.bytes ≡ pubkey
    pub removed : config' ≡ record config { contact = before ++ after }

  drop_name-absent : (n : String) (m : Map String Contact) → get m n ≡ none → drop_name P n m ≡ m
  unfolding drop_name get
  drop_name-absent n [] h = refl
  drop_name-absent n ((k, c) ∷ m) h = ground (arith, drop_name-absent n m)

  drop_name-found :
      (pubkey name : String) (m : Map String Contact)
      → IsMap P m
      → name_of P pubkey m ≡ some name
      → (before : Map String Contact) × (c : Contact) × (after : Map String Contact) × (m
          ≡ before ++ (name, c) ∷ after)
        × HasNone pubkey before
        × (P.hex c.pubkey.bytes ≡ pubkey)
        × (drop_name P name m ≡ before ++ after)
  unfolding name_of drop_name
  drop_name-found pubkey name [] d h = absurd (ground arith)
  drop_name-found pubkey name ((k, c) ∷ m) d h =
      elim (Bool-cases (P.hex c.pubkey.bytes == pubkey)) [
        | inl here ↦
            let same : k ≡ name = ground (arith, here) in
            (
              [],
              c,
              m,
              rw same refl,
              refl,
              (eq_iff (P.hex c.pubkey.bytes) pubkey).0 here,
              ground (arith, eq_iff k name, drop_name-absent name m, d.0),
            )
        | inr later ↦
            let there : name_of P pubkey m ≡ some name = ground (arith, later) in
            let (before, b, after, splits, first, found, rest) =
              drop_name-found pubkey name m d.1 there in
            let (b', at, hex) = name_of_lem pubkey name m d.1 there in
            (
              (k, c) ∷ before,
              b,
              after,
              ap (λ (x : Map String Contact). (k, c) ∷ x) splits,
              ground (arith, later, first),
              found,
              ground (arith, rest, at, d.0, eq_iff k name),
            )
      ]

  name_of-none :
      (pubkey : String) (m : Map String Contact) → name_of P pubkey m ≡ none → HasNone pubkey m
  unfolding name_of
  name_of-none pubkey [] h = refl
  name_of-none pubkey ((k, c) ∷ m) h = ground (arith, name_of-none pubkey m)

  -- In a valid address book, either no contact has a key with the given hex form, and the removal is
  -- refused as such; or the first such contact in the order of the names is removed, all others are
  -- left as they were, and the address book stays valid.
  pub remove_contact-IsValid :
      (pubkey : String) (config : Config)
      → IsValid P config
      → (HasNone pubkey config.contact × (remove_contact P pubkey config ≡ err contact_not_found))
        ⊎ ((config' : Config) × (remove_contact P pubkey config ≡ ok config')
            × Removes pubkey config config'
            × IsValid P config')
  unfolding remove_contact
  remove_contact-IsValid pubkey config valid =
      elim (Option-cases (name_of P pubkey config.contact)) [
        | inl e ↦ inl (name_of-none pubkey config.contact e, rw e refl)
        | inr (name, e) ↦
            let (before, c, after, splits, first, found, rest) =
              drop_name-found pubkey name config.contact valid.is_map e in
            inr (
              without name config,
              rw e refl,
              record {
                before = before;
                name = name;
                contact = c;
                after = after;
                splits = splits;
                first = first;
                found = found;
                removed = ap (λ (x : Map String Contact). record config { contact = x }) rest;
              },
              without-IsValid name config valid,
            )
      ]
