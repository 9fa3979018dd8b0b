-- ===== src/Session/Coordinator/Provenance.antt =====
-- Whose commitments and shares a coordinator's session holds.
use frost_tools.Prelude.{
  ◌≡◌, refl, Option, some, List, [], arith, ◌==◌, Map, get, insert, get-insert, contains_key, keys,
  set_eq, length, is_some, eq_iff, nat_eq, Bool-cases, Option-cases, inl, inr, PartialEq,
}
use frost_tools.Api.{PublicKey, public_key_eq, Bytes, Msg}
use frost_tools.Session.Suite.{Suite}
use frost_tools.Session.Coordinator.{
  SessionArgs, identifier_eq, handle_commitments, handle_signature_share, State,
  waiting_for_commitments, waiting_for_signature_shares, signature_shares_ready, new, recv,
}

-- Each row is what a message in `M` says whose sender is known by the row's identifier.
unfoldable pub Rows :
    {K V : Type 0} ⦃e : PartialEq K⦄
    → (Msg → Type 0)
    → Map PublicKey K
    → (Bytes → Option V)
    → Map K V
    → Type 0
Rows {K} {V} M known read table =
    (id : K) (row : V)
    → get table id ≡ some row
    → (m : Msg) × M m × (get known m.sender ≡ some id) × (read m.msg ≡ some row)

Rows-nil :
    {K V : Type 0} ⦃e : PartialEq K⦄ (M : Msg → Type 0) (known : Map PublicKey K)
    (read : Bytes → Option V)
    → Rows M known read []
unfolding Rows get
Rows-nil M known read id row g = cc

Rows-insert :
    {K V : Type 0} ⦃e : PartialEq K⦄ (M : Msg → Type 0) (known : Map PublicKey K)
    (read : Bytes → Option V) (m : Msg) (id : K) (row : V) (table : Map K V)
    → M m
    → get known m.sender ≡ some id
    → read m.msg ≡ some row
    → Rows M known read table
    → Rows M known read (insert id row table)
unfolding Rows
Rows-insert M known read m id row table is from says h j other g = elim (Bool-cases (id == j)) [
  | inl same ↦
      let x : id ≡ j = ground (arith, eq_iff id j) in
      let y : row ≡ other = ground (arith, get-insert id j row table) in (m, is, cc, cc)
  | inr differ ↦ h j other (ground (arith, get-insert id j row table))
]

module _ (C : Suite) (M : Msg → Type 0) (started : SessionArgs)
    (known : Map PublicKey C.Identifier) where
  open C use {Identifier, SigningCommitments, SignatureShare}

  -- The session is the one that was started, and its rows come from messages in `M`.
  unfoldable pub IsFrom : State C → Type 0
  IsFrom (waiting_for_commitments args m pubkeys) =
      (args ≡ started) × (pubkeys ≡ known) × Rows ⦃e = identifier_eq C⦄ M known C.read_commitments m
  IsFrom (waiting_for_signature_shares args m pubkeys shares) =
      (args ≡ started)
      × (pubkeys ≡ known)
      × Rows ⦃e = identifier_eq C⦄ M known C.read_commitments m
      × Rows ⦃e = identifier_eq C⦄ M known C.read_signature_shares shares
  IsFrom (signature_shares_ready args shares) =
      (args ≡ started) × Rows ⦃e = identifier_eq C⦄ M known C.read_signature_shares shares

  handle_commitments-IsFrom :
      (msg : Msg) (cs : List SigningCommitments) (args : SessionArgs)
      (m : Map Identifier (List SigningCommitments)) (pubkeys : Map PublicKey Identifier)
      → M msg
      → C.read_commitments msg.msg ≡ some cs
      → IsFrom (waiting_for_commitments args m pubkeys)
      → IsFrom (handle_commitments C msg.sender cs (waiting_for_commitments args m pubkeys)).1
  unfolding handle_commitments IsFrom
  handle_commitments-IsFrom msg cs args m pubkeys is says h =
      elim (Bool-cases (length cs == args.num_messages)) [
        | inr e ↦ rw (e, handle_commitments) h
        | inl e ↦ elim (Option-cases (get pubkeys msg.sender)) [
          | inl f ↦ rw (e, f, handle_commitments) h
          | inr (id, f) ↦
              let from : get known msg.sender ≡ some id = rw h.1 at f in
              let rows =
                Rows-insert ⦃e = identifier_eq C⦄ M known C.read_commitments msg id cs m is from
                  says h.2 in
              rw (e, f, handle_commitments)
                (elim (Bool-cases
                  (length (insert ⦃e = identifier_eq C⦄ id cs m) == args.num_signers)) [
                    | inl all ↦ rw all (
                      h.0,
                      h.1,
                      rows,
                      Rows-nil ⦃e = identifier_eq C⦄ M known C.read_signature_shares,
                    )
                    | inr more ↦ rw more (h.0, h.1, rows)
                  ])
        ]
      ]

  handle_signature_share-IsFrom :
      (msg : Msg) (ss : List SignatureShare) (args : SessionArgs)
      (m : Map Identifier (List SigningCommitments)) (pubkeys : Map PublicKey Identifier)
      (shares : Map Identifier (List SignatureShare))
      → M msg
      → C.read_signature_shares msg.msg ≡ some ss
      → IsFrom (waiting_for_signature_shares args m pubkeys shares)
      → IsFrom
          (handle_signature_share C msg.sender ss
            (waiting_for_signature_shares args m pubkeys shares)).1
  unfolding handle_signature_share IsFrom contains_key
  handle_signature_share-IsFrom msg ss args m pubkeys shares is says h =
      elim (Bool-cases (length ss == args.num_messages)) [
        | inr e ↦ rw (e, handle_signature_share) h
        | inl e ↦ elim (Option-cases (get pubkeys msg.sender)) [
          | inl f ↦ rw (e, f, handle_signature_share) h
          | inr (id, f) ↦ elim (Bool-cases (is_some (get ⦃e = identifier_eq C⦄ m id))) [
            | inr g ↦ rw (e, f, g, handle_signature_share) h
            | inl g ↦
                let from : get known msg.sender ≡ some id = rw h.1 at f in
                let shares' = insert ⦃e = identifier_eq C⦄ id ss shares in
                let rows =
                  Rows-insert ⦃e = identifier_eq C⦄ M known C.read_signature_shares msg id ss shares
                    is from says h.3 in
                rw (e, f, g, handle_signature_share)
                  (elim (Bool-cases (set_eq ⦃e = identifier_eq C⦄ (keys shares') (keys m))) [
                    | inl all ↦ rw all (h.0, rows)
                    | inr more ↦ rw more (h.0, h.1, h.2, rows)
                  ])
          ]
        ]
      ]

  pub recv-IsFrom : (msg : Msg) (s : State C) → M msg → IsFrom s → IsFrom (recv C msg s).1
  unfolding recv
  recv-IsFrom msg (waiting_for_commitments args m pubkeys) is h =
      elim (Option-cases (C.read_commitments msg.msg)) [
        | inl e ↦ rw (e, recv) h
        | inr (cs, e) ↦ rw (e, recv) (handle_commitments-IsFrom msg cs args m pubkeys is e h)
      ]
  recv-IsFrom msg (waiting_for_signature_shares args m pubkeys shares) is h =
      elim (Option-cases (C.read_signature_shares msg.msg)) [
        | inl e ↦ rw (e, recv) h
        | inr (ss, e) ↦
            rw (e, recv) (handle_signature_share-IsFrom msg ss args m pubkeys shares is e h)
      ]
  recv-IsFrom msg (signature_shares_ready args shares) is h = h

  pub new-IsFrom : IsFrom (new C started.num_messages started.num_signers known)
  unfolding new IsFrom
  new-IsFrom = (refl, refl, Rows-nil ⦃e = identifier_eq C⦄ M known C.read_commitments)
