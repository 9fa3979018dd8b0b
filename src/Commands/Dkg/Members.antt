-- ===== src/Commands/Dkg/Members.antt =====
-- The participants of a new group, with the keys of the DKG's table.
use mathlib.Core.Path.{subst}
use frost_tools.Prelude.{
  ℕ, zero, suc, ◌≡◌, refl, sym, ◌∙◌, ◌⊎◌, inl, inr, true, Bool-cases, String, some, List, [], ◌∷◌,
  Map, get, insert, get-insert, get_elem?, contains, PartialEq, text_eq, ◌==◌, eq_iff, eq_self, ok,
  bind-eq-ok, ok_or, ok_or-ok,
}
use frost_tools.Api.{PublicKey}
use frost_tools.Client.Transport.{Transport}
use frost_tools.Cipher.Snow.{Snow}
use frost_tools.Session.Suite.{Suite}
use frost_tools.Comms.Payloads.{Payloads}
use frost_tools.Config.File.{Participant, Platform}
use frost_tools.Inputs.{Console}
use frost_tools.Protocol.Dkg.{Keygen}
use frost_tools.Commands.Machine.{Urls, message}
use frost_tools.Commands.Dkg.{DkgCodes, reversed, participants_map}

module _ (T : Transport) (S : Snow) (O : Platform) (I : Console O.Files) (U : Urls I.Failure)
    (C : Suite) (P : Payloads C) (F : Keygen C) (E : DkgCodes C F I.Failure) where
  open C use {Identifier}

  instance abbrev here_eq : PartialEq Identifier
  here_eq = C.identifier_eq

  -- An entry of the table of the DKG.
  abbrev pub Entry : Map PublicKey Identifier → PublicKey → Identifier → Type 0
  Entry m p i = (j : ℕ) × (get_elem? m j ≡ some (p, i))

  pub reversed-Entry :
      (m : Map PublicKey Identifier) (made : Map Identifier PublicKey) (p : PublicKey)
      (i : Identifier)
      → get (reversed T S O I U C P F E m made) i ≡ some p
      → Entry m p i ⊎ (get made i ≡ some p)
  unfolding reversed
  reversed-Entry [] made p i e = inr e
  reversed-Entry ((q, k) ∷ rest) made p i e = elim (reversed-Entry rest (insert k q made) p i e) [
    | inl (j, at) ↦ inl (suc j, at)
    | inr there ↦ elim (Bool-cases (k == i)) [
      | inl same ↦
          let is : k ≡ i = (eq_iff k i).0 same in
          let found : some q ≡ some p = rw same at (sym (get-insert k i q made) ∙ there) in
          let value : q ≡ p = cc in inl (zero, rw (is, value) refl)
      | inr other ↦ inr (rw other at (sym (get-insert k i q made) ∙ there))
    ]
  ]

  abbrev name_of : Identifier → String
  name_of i = O.hex (E.serialize i)

  abbrev pub participant_of : Identifier → PublicKey → Participant
  participant_of i p = record { identifier = E.serialize i; pubkey = p }

  -- The participant `i` stands in the map, with its key.
  abbrev pub Stands : Map Identifier PublicKey → Identifier → Map String Participant → Type 0
  Stands keys i m =
      (p : PublicKey) × (get keys i ≡ some p) × (get m (name_of i) ≡ some (participant_of i p))

  -- Different identifiers have different texts.
  module _ (distinct : (i j : Identifier) → name_of i ≡ name_of j → i ≡ j) where
    Stands-insert :
        (keys : Map Identifier PublicKey) (i j : Identifier) (p : PublicKey)
        (m : Map String Participant)
        → get keys i ≡ some p
        → Stands keys j m
        → Stands keys j (insert (name_of i) (participant_of i p) m)
    Stands-insert keys i j p m known (q, key_is, at) = elim (Bool-cases (name_of i == name_of j)) [
      | inl same ↦
          let is : i ≡ j = distinct i j ((eq_iff (name_of i) (name_of j)).0 same) in
          (
            p,
            rw (← is) known,
            get-insert (name_of i) (name_of j) (participant_of i p) m ∙ rw (same, is) refl,
          )
      | inr other ↦
          (q, key_is, get-insert (name_of i) (name_of j) (participant_of i p) m ∙ rw other at)
    ]

    Stands-new :
        (keys : Map Identifier PublicKey) (i : Identifier) (p : PublicKey)
        (m : Map String Participant)
        → get keys i ≡ some p
        → Stands keys i (insert (name_of i) (participant_of i p) m)
    Stands-new keys i p m known = (
      p,
      known,
      get-insert (name_of i) (name_of i) (participant_of i p) m ∙ rw (eq_self (name_of i)) refl,
    )

    stays :
        (keys : Map Identifier PublicKey) (ids : List Identifier)
        (made result : Map String Participant) (i : Identifier)
        → participants_map T S O I U C P F E keys ids made ≡ ok result
        → Stands keys i made
        → Stands keys i result
    unfolding participants_map
    stays keys [] made result i e h = let same : made ≡ result = cc in rw (← same) h
    stays keys (x ∷ ids) made result i e h =
        let (p, found, rest) =
          bind-eq-ok (ok_or (get keys x) (message "missing pubkey"))
            (λ p.
              participants_map T S O I U C P F E keys ids
                (insert (name_of x) (participant_of x p) made))
            e in
        stays keys ids (insert (name_of x) (participant_of x p) made) result i rest
          (Stands-insert keys x i p made (ok_or-ok (get keys x) (message "missing pubkey") found) h)

    pub participants_map-Stands :
        (keys : Map Identifier PublicKey) (ids : List Identifier)
        (made result : Map String Participant) (i : Identifier)
        → participants_map T S O I U C P F E keys ids made ≡ ok result
        → contains ids i ≡ true
        → Stands keys i result
    unfolding participants_map contains
    participants_map-Stands keys [] made result i e h = cc
    participants_map-Stands keys (x ∷ ids) made result i e h =
        let (p, found, rest) =
          bind-eq-ok (ok_or (get keys x) (message "missing pubkey"))
            (λ p.
              participants_map T S O I U C P F E keys ids
                (insert (name_of x) (participant_of x p) made))
            e in
        let known = ok_or-ok (get keys x) (message "missing pubkey") found in
        elim (Bool-cases (x == i)) [
          | inl same ↦
              let is : x ≡ i = (eq_iff x i).0 same in
              subst (λ k. Stands keys k result) is
                (stays keys ids (insert (name_of x) (participant_of x p) made) result x rest
                  (Stands-new keys x p made known))
          | inr other ↦
              participants_map-Stands keys ids (insert (name_of x) (participant_of x p) made) result
                i rest (rw other at h)
        ]
