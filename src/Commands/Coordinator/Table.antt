-- ===== src/Commands/Coordinator/Table.antt =====
-- The signers of a session are participants of the group.
use frost_tools.Prelude.{
  ◌≡◌, sym, ◌∙◌, String, some, List, [], ◌∷◌, Map, get, insert, get-insert, ◌==◌, eq_iff, ok, bind,
  bind-eq-ok, Bool-cases, inl, inr,
}
use frost_tools.Api.{PublicKey, public_key_eq}
use frost_tools.Client.Transport.{Transport}
use frost_tools.Cipher.Snow.{Snow}
use frost_tools.Session.Suite.{Suite}
use frost_tools.Comms.Payloads.{Payloads}
use frost_tools.Config.File.{Group, Participant, Platform, participant_by_pubkey}
use frost_tools.Inputs.{Console}
use frost_tools.Protocol.Frost.{Frost}
use frost_tools.Commands.Machine.{Urls, from_config, from_console}
use frost_tools.Commands.Groups.{participant_by_pubkey-pubkey}
use frost_tools.Commands.Steps.{from_config-ok, from_console-ok}
use frost_tools.Commands.Coordinator.{Codes, signer, signer_table}

module _ (T : Transport) (S : Snow) (O : Platform) (I : Console O.Files) where
  module _ (U : Urls I.Failure) (C : Suite) (P : Payloads C) (F : Frost C P)
      (E : Codes C P F I.Failure) where
    open C use {Identifier}

    -- A participant of the group with this key and this identifier.
    abbrev pub Member : Group → PublicKey → Identifier → Type 0
    Member group p i =
        (q : Participant) × (participant_by_pubkey group p ≡ ok q)
        × (q.pubkey ≡ p)
        × (E.identifier q.identifier ≡ ok i)

    -- Every key of the table is that of a participant, and has its identifier.
    unfoldable pub Members : Group → Map PublicKey Identifier → Type 0
    Members group table = (p : PublicKey) (i : Identifier) → get table p ≡ some i → Member group p i

    pub Members-nil : (group : Group) → Members group []
    unfolding Members get
    Members-nil group p i e = cc

    Members-insert :
        (group : Group) (p : PublicKey) (i : Identifier) (table : Map PublicKey Identifier)
        → Member group p i
        → Members group table
        → Members group (insert p i table)
    unfolding Members
    Members-insert group p i table member all q j e = elim (Bool-cases (p == q)) [
      | inl same ↦
          let is : p ≡ q = (eq_iff p q).0 same in
          let found : some i ≡ some j = rw same at (sym (get-insert p q i table) ∙ e) in
          let value : i ≡ j = cc in rw (← is, ← value) member
      | inr other ↦ all q j (rw other at (sym (get-insert p q i table) ∙ e))
    ]

    signer-Member :
        (group : Group) (s : String) (p : PublicKey) (i : Identifier)
        → signer T S O I U C P F E group s ≡ ok (p, i)
        → Member group p i
    unfolding signer
    signer-Member group s p i e =
        let (bytes, read, e1) =
          bind-eq-ok (from_console T S O I (I.hex_decode s))
            (λ bytes.
              let pubkey : PublicKey = record { bytes = bytes } in
              bind (from_config T S O I (participant_by_pubkey group pubkey)) (λ q.
                bind (from_console T S O I (E.identifier q.identifier)) (λ i. ok (pubkey, i))))
            e in
        let pubkey : PublicKey = record { bytes = bytes } in
        let (q, found, e2) =
          bind-eq-ok (from_config T S O I (participant_by_pubkey group pubkey))
            (λ q. bind (from_console T S O I (E.identifier q.identifier)) (λ i. ok (pubkey, i)))
            e1 in
        let (j, decoded, e3) =
          bind-eq-ok (from_console T S O I (E.identifier q.identifier)) (λ i. ok (pubkey, i)) e2 in
        let there = from_config-ok T S O I (participant_by_pubkey group pubkey) found in
        let is : pubkey ≡ p = cc in
        let value : j ≡ i = cc in
        rw (← is, ← value)
          (
            q,
            there,
            participant_by_pubkey-pubkey group pubkey q there,
            from_console-ok T S O I (E.identifier q.identifier) decoded,
          )

    pub signer_table-Members :
        (group : Group) (signers : List String) (table result : Map PublicKey Identifier)
        → Members group table
        → signer_table T S O I U C P F E group signers table ≡ ok result
        → Members group result
    unfolding signer_table
    signer_table-Members group [] table result all e =
        let same : table ≡ result = cc in rw (← same) all
    signer_table-Members group (s ∷ rest) table result all e =
        let (k, one, others) =
          bind-eq-ok (signer T S O I U C P F E group s)
            (λ k. signer_table T S O I U C P F E group rest (insert k.0 k.1 table)) e in
        signer_table-Members group rest (insert k.0 k.1 table) result
          (Members-insert group k.0 k.1 table (signer-Member group s k.0 k.1 one) all) others
