-- ===== src/Session/Coordinator/Progress.antt =====
-- When a coordinator's session moves on, and what it hands out then.
use frost_tools.Prelude.{
  ℕ, ◌+◌, ◌≡◌, ◌≢◌, ◌↔◌, ◌⊎◌, inl, inr, Bool-cases, set_eq, ap, ◌∙◌, ◌<◌, ◌≤◌, refl, true, false,
  none, some, List, [], ◌∷◌, arith, Map, get, insert, get-insert, length-insert, contains-keys,
  contains_key, keys, set_eq-contains, set_eq-of_contains, length, ok, panic, is_some, eq_iff,
  nat_eq, ◌==◌,
}
use frost_tools.Api.{PublicKey, public_key_eq, Msg}
use frost_tools.Session.Suite.{Suite}
use frost_tools.Session.Columns.{AreColumns, columns_all}
use frost_tools.Session.Coordinator.{
  SessionArgs, identifier_eq, commitments_in, handle_signature_share, State,
  waiting_for_commitments, waiting_for_signature_shares, signature_shares_ready, new, recv,
  recv_all, commitments, has_commitments, signature_shares, has_signature_shares,
}
use frost_tools.Session.Coordinator.Invariant.{IsValid, run-IsValid}

module _ (C : Suite) where
  open C use {Identifier, SigningCommitments, SignatureShare}

  -- After any messages: once the commitments are in, `commitments` returns without a panic, with
  -- one map for each message to sign, in which each identifier has what it sent for that message.
  pub commitments_lem :
      (num_messages num_signers : ℕ) (known : Map PublicKey Identifier) (ms : List Msg)
      (args : SessionArgs) (m : Map Identifier (List SigningCommitments))
      (pubkeys : Map PublicKey Identifier) (shares : Map Identifier (List SignatureShare))
      → recv_all C ms (new C num_messages num_signers known)
        ≡ waiting_for_signature_shares args m pubkeys shares
      → (cs : List (Map Identifier SigningCommitments)) × (commitments C
            (recv_all C ms (new C num_messages num_signers known))
          ≡ ok (cs, pubkeys))
        × AreColumns ⦃e = identifier_eq C⦄ args.num_messages m cs
  unfolding commitments
  commitments_lem n k known ms args m pubkeys shares e =
      let v : IsValid C (waiting_for_signature_shares args m pubkeys shares) =
        rw e at (run-IsValid C n k known ms) in
      let (cs, is, at) = columns_all ⦃e = identifier_eq C⦄ args.num_messages m v.0 in
      (cs, rw (e, is, commitments) refl, at)

  -- The same of the signature shares at the end.
  pub signature_shares_lem :
      (num_messages num_signers : ℕ) (known : Map PublicKey Identifier) (ms : List Msg)
      (args : SessionArgs) (shares : Map Identifier (List SignatureShare))
      → recv_all C ms (new C num_messages num_signers known) ≡ signature_shares_ready args shares
      → (cs : List (Map Identifier SignatureShare)) × (signature_shares C
            (recv_all C ms (new C num_messages num_signers known))
          ≡ ok cs)
        × AreColumns ⦃e = identifier_eq C⦄ args.num_messages shares cs
  unfolding signature_shares
  signature_shares_lem n k known ms args shares e =
      let v : IsValid C (signature_shares_ready args shares) =
        rw e at (run-IsValid C n k known ms) in
      let (cs, is, at) = columns_all ⦃e = identifier_eq C⦄ args.num_messages shares v in
      (cs, rw (e, is, signature_shares) refl, at)

  -- A message that is refused changes nothing, and none makes the coordinator panic.
  pub recv_refused :
      (msg : Msg) (s : State C)
      → (recv C msg s).0 ≢ ok tt
      → ((recv C msg s).1 ≡ s) × ((recv C msg s).0 ≢ panic)
  unfolding recv
  recv_refused msg (waiting_for_commitments args m pubkeys) h = ground arith
  recv_refused msg (waiting_for_signature_shares args m pubkeys shares) h = ground arith
  recv_refused msg (signature_shares_ready args shares) h = ground arith

  -- The messages commit for signers that have not committed before.
  abbrev pub Commit :
      SessionArgs
      → Map PublicKey Identifier
      → Map Identifier (List SigningCommitments)
      → List Msg
      → Type 0
  Commit args pubkeys m [] = Unit
  Commit args pubkeys m (msg ∷ ms) =
      (cs : List SigningCommitments) × (id : Identifier) × (C.read_commitments msg.msg ≡ some cs)
      × (length cs ≡ args.num_messages)
      × (get pubkeys msg.sender ≡ some id)
      × (get ⦃e = identifier_eq C⦄ m id ≡ none)
      × Commit args pubkeys (insert ⦃e = identifier_eq C⦄ id cs m) ms

  commit_step :
      (args : SessionArgs) (pubkeys : Map PublicKey Identifier)
      (m : Map Identifier (List SigningCommitments)) (msg : Msg) (cs : List SigningCommitments)
      (id : Identifier)
      → C.read_commitments msg.msg ≡ some cs
      → length cs ≡ args.num_messages
      → get pubkeys msg.sender ≡ some id
      → (recv C msg (waiting_for_commitments args m pubkeys)).1
        ≡ commitments_in C args (insert ⦃e = identifier_eq C⦄ id cs m) pubkeys
  unfolding recv
  commit_step args pubkeys m msg cs id r l k = ground arith

  commits :
      (args : SessionArgs) (pubkeys : Map PublicKey Identifier)
      (m : Map Identifier (List SigningCommitments)) (msg : Msg) (ms : List Msg)
      → Commit args pubkeys m (msg ∷ ms)
      → length m + length (msg ∷ ms) ≤ args.num_signers
      → has_commitments C (recv_all C (msg ∷ ms) (waiting_for_commitments args m pubkeys))
        ≡ (length m + length (msg ∷ ms) == args.num_signers)
  unfolding recv_all has_commitments
  commits args pubkeys m msg [] (cs, id, r, l, k, new, rest) h =
      rw (commit_step args pubkeys m msg cs id r l k) (
        one (insert ⦃e = identifier_eq C⦄ id cs m)
          (ground (arith, length-insert ⦃e = identifier_eq C⦄ id cs m)))
    where
      one :
          (m' : Map Identifier (List SigningCommitments))
          → length m' ≡ length m + 1
          → has_commitments C (commitments_in C args m' pubkeys)
            ≡ (length m + 1 == args.num_signers)
      one m' len = elim (Bool-cases (length m' == args.num_signers)) [
        | inl e ↦ rw e (ground arith)
        | inr e ↦ rw e (ground arith)
      ]
  commits args pubkeys m msg (msg' ∷ ms) (cs, id, r, l, k, new, rest) h =
      let m' = insert ⦃e = identifier_eq C⦄ id cs m in
      let longer : length m' ≡ length m + 1 =
        ground (arith, length-insert ⦃e = identifier_eq C⦄ id cs m) in
      let more : (length m' == args.num_signers) ≡ false =
        ground (arith, length-insert ⦃e = identifier_eq C⦄ id cs m) in
      rw (commit_step args pubkeys m msg cs id r l k) (
        rw more (
          commits args pubkeys m' msg' ms rest
            (ground (arith, length-insert ⦃e = identifier_eq C⦄ id cs m))
          ∙ ap (λ (x : ℕ). x == args.num_signers) (omega (arith, longer))))

  -- After valid commitments of different signers, at most as many as were asked for, the session
  -- has moved on exactly if they are as many as were asked for.
  pub commitments_complete :
      (num_messages num_signers : ℕ) (pubkeys : Map PublicKey Identifier) (ms : List Msg)
      → 0 < num_signers
      → length ms ≤ num_signers
      → Commit (record { num_messages = num_messages; num_signers = num_signers }) pubkeys [] ms
      → has_commitments C (recv_all C ms (new C num_messages num_signers pubkeys))
        ≡ (length ms == num_signers)
  unfolding new recv_all has_commitments
  commitments_complete n k pubkeys [] pos len c = ground arith
  commitments_complete n k pubkeys (msg ∷ ms) pos len c =
      commits (record { num_messages = n; num_signers = k }) pubkeys [] msg ms c
        (omega (arith, len))
      ∙ ap (λ (x : ℕ). x == k) (omega arith)

  -- Valid shares of a signer who committed are kept under its identifier, with those that were there,
  -- and the session is over exactly if every signer who committed has sent shares by then.
  pub shares_complete :
      (args : SessionArgs) (m : Map Identifier (List SigningCommitments))
      (pubkeys : Map PublicKey Identifier) (shares : Map Identifier (List SignatureShare))
      (p : PublicKey) (ss : List SignatureShare) (id : Identifier)
      → IsValid C (waiting_for_signature_shares args m pubkeys shares)
      → length ss ≡ args.num_messages
      → get pubkeys p ≡ some id
      → is_some (get ⦃e = identifier_eq C⦄ m id) ≡ true
      → let (r, t) =
          handle_signature_share C p ss (waiting_for_signature_shares args m pubkeys shares) in
        let shares' = insert ⦃e = identifier_eq C⦄ id ss shares in
        (r ≡ ok tt)
        × ((t ≡ signature_shares_ready args shares')
            ⊎ (t ≡ waiting_for_signature_shares args m pubkeys shares'))
        × ((has_signature_shares C t ≡ true) ↔ (
            (j : Identifier)
            → is_some (get ⦃e = identifier_eq C⦄ m j) ≡ true
            → is_some (get ⦃e = identifier_eq C⦄ shares' j) ≡ true))
  unfolding handle_signature_share contains_key has_signature_shares
  shares_complete args m pubkeys shares p ss id v l k c =
      let I = identifier_eq C in
      let shares' = insert ⦃e = I⦄ id ss shares in
      (
        ground arith,
        (elim (Bool-cases (set_eq ⦃e = I⦄ (keys shares') (keys m))) [
          | inl all ↦ inl (ground (arith, all))
          | inr more ↦ inr (ground (arith, more))
        ]),
        (
          λ done j h. ground (
            arith,
            set_eq-contains ⦃e = I⦄ (keys shares') (keys m) j,
            contains-keys ⦃e = I⦄ shares' j,
            contains-keys ⦃e = I⦄ m j,
          ),
          λ all.
              let same = set_eq-of_contains ⦃e = I⦄ (keys shares') (keys m) λ j. ground (
                arith,
                all j,
                v.3 j,
                eq_iff ⦃e = I⦄ id j,
                get-insert ⦃e = I⦄ id j ss shares,
                contains-keys ⦃e = I⦄ shares' j,
                contains-keys ⦃e = I⦄ m j,
              ) in
              ground (arith, same),
        ),
      )
