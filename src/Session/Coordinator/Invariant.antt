-- ===== src/Session/Coordinator/Invariant.antt =====
-- What holds of a coordinator's session in every state, and what its results are.
use frost_tools.Prelude.{
  ℕ, ◌≡◌, refl, true, List, [], ◌∷◌, arith, ◌==◌, Map, get, insert, get-insert, contains_key, keys,
  set_eq, length, is_some, eq_iff, nat_eq, Bool-cases, Option-cases, inl, inr,
}
use frost_tools.Api.{PublicKey, public_key_eq, Msg}
use frost_tools.Session.Suite.{Suite}
use frost_tools.Session.Columns.{HasWidth, HasWidth-insert}
use frost_tools.Session.Coordinator.{
  SessionArgs, identifier_eq, commitments_in, shares_in, handle_commitments, handle_signature_share,
  State, waiting_for_commitments, waiting_for_signature_shares, signature_shares_ready, new, recv,
  recv_all,
}

module _ (C : Suite) where
  open C use {Identifier, SigningCommitments, SignatureShare}

  -- Every row is as long as there are messages; shares come only from those who committed; and the
  -- commitments are complete exactly in the second state.
  abbrev pub IsValid : State C → Type 0
  IsValid (waiting_for_commitments args m pubkeys) =
      HasWidth args.num_messages m × (length m ≡ args.num_signers → m ≡ [])
  IsValid (waiting_for_signature_shares args m pubkeys shares) =
      HasWidth args.num_messages m
      × HasWidth args.num_messages shares
      × (length m ≡ args.num_signers)
      × ((id : Identifier)
          → is_some (get ⦃e = identifier_eq C⦄ shares id) ≡ true
          → is_some (get ⦃e = identifier_eq C⦄ m id) ≡ true)
  IsValid (signature_shares_ready args shares) = HasWidth args.num_messages shares

  commitments_in-IsValid :
      (args : SessionArgs) (m : Map Identifier (List SigningCommitments))
      (pubkeys : Map PublicKey Identifier)
      → HasWidth args.num_messages m
      → IsValid (commitments_in C args m pubkeys)
  unfolding get
  commitments_in-IsValid args m pubkeys w = elim (Bool-cases (length m == args.num_signers)) [
    | inl e ↦ rw e (w, tt, ground arith, λ id h. cc)
    | inr e ↦ rw e (w, λ h. absurd (ground arith))
  ]

  shares_in-IsValid :
      (args : SessionArgs) (m : Map Identifier (List SigningCommitments))
      (pubkeys : Map PublicKey Identifier) (shares : Map Identifier (List SignatureShare))
      → IsValid (waiting_for_signature_shares args m pubkeys shares)
      → IsValid (shares_in C args m pubkeys shares)
  shares_in-IsValid args m pubkeys shares v =
      elim (Bool-cases (set_eq ⦃e = identifier_eq C⦄ (keys shares) (keys m))) [
        | inl e ↦ rw e v.1
        | inr e ↦ rw e v
      ]

  handle_commitments-IsValid :
      (p : PublicKey) (cs : List SigningCommitments) (s : State C)
      → IsValid s
      → IsValid (handle_commitments C p cs s).1
  unfolding handle_commitments
  handle_commitments-IsValid p cs (waiting_for_commitments args m pubkeys) v =
      elim (Bool-cases (length cs == args.num_messages)) [
        | inr e ↦ rw (e, handle_commitments) v
        | inl e ↦ elim (Option-cases (get pubkeys p)) [
          | inl f ↦ rw (e, f, handle_commitments) v
          | inr (id, f) ↦
              rw (e, f, handle_commitments)
                (commitments_in-IsValid args (insert ⦃e = identifier_eq C⦄ id cs m) pubkeys (
                  HasWidth-insert ⦃e = identifier_eq C⦄ args.num_messages id cs m v.0
                    (ground arith)))
        ]
      ]
  handle_commitments-IsValid p cs s v = v

  handle_signature_share-IsValid :
      (p : PublicKey) (ss : List SignatureShare) (s : State C)
      → IsValid s
      → IsValid (handle_signature_share C p ss s).1
  unfolding handle_signature_share contains_key
  handle_signature_share-IsValid p ss (waiting_for_signature_shares args m pubkeys shares) v =
      elim (Bool-cases (length ss == args.num_messages)) [
        | inr e ↦ rw (e, handle_signature_share) v
        | inl e ↦ elim (Option-cases (get pubkeys p)) [
          | inl f ↦ rw (e, f, handle_signature_share) v
          | inr (id, f) ↦ elim (Bool-cases (is_some (get ⦃e = identifier_eq C⦄ m id))) [
            | inr g ↦ rw (e, f, g, handle_signature_share) v
            | inl g ↦
                rw (e, f, g, handle_signature_share)
                  (shares_in-IsValid args m pubkeys (insert ⦃e = identifier_eq C⦄ id ss shares) (
                    v.0,
                    HasWidth-insert ⦃e = identifier_eq C⦄ args.num_messages id ss shares v.1
                        (ground arith),
                    v.2,
                    λ j h. ground (
                      arith,
                      v.3 j,
                      get-insert ⦃e = identifier_eq C⦄ id j ss shares,
                      eq_iff ⦃e = identifier_eq C⦄ id j,
                    ),
                  ))
          ]
        ]
      ]
  handle_signature_share-IsValid p ss s v = v

  recv-IsValid : (msg : Msg) (s : State C) → IsValid s → IsValid (recv C msg s).1
  unfolding recv
  recv-IsValid msg (waiting_for_commitments args m pubkeys) v =
      elim (Option-cases (C.read_commitments msg.msg)) [
        | inl e ↦ rw (e, recv) v
        | inr (cs, e) ↦
            rw (e, recv)
              (handle_commitments-IsValid msg.sender cs (waiting_for_commitments args m pubkeys) v)
      ]
  recv-IsValid msg (waiting_for_signature_shares args m pubkeys shares) v =
      elim (Option-cases (C.read_signature_shares msg.msg)) [
        | inl e ↦ rw (e, recv) v
        | inr (ss, e) ↦
            rw (e, recv)
              (handle_signature_share-IsValid msg.sender ss
                (waiting_for_signature_shares args m pubkeys shares) v)
      ]
  recv-IsValid msg (signature_shares_ready args shares) v = v

  recv_all-IsValid : (ms : List Msg) (s : State C) → IsValid s → IsValid (recv_all C ms s)
  unfolding recv_all
  recv_all-IsValid [] s v = v
  recv_all-IsValid (m ∷ ms) s v = recv_all-IsValid ms (recv C m s).1 (recv-IsValid m s v)

  -- Whatever messages have come, valid or not, no row is ever of another length than the number of
  -- messages to sign.
  pub run-IsValid :
      (num_messages num_signers : ℕ) (pubkeys : Map PublicKey Identifier) (ms : List Msg)
      → IsValid (recv_all C ms (new C num_messages num_signers pubkeys))
  unfolding new
  run-IsValid n k pubkeys ms = recv_all-IsValid ms (new C n k pubkeys) (tt, λ h. refl)
