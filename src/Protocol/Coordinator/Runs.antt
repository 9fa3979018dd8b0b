-- ===== src/Protocol/Coordinator/Runs.antt =====
-- The signatures of a run, over any communication that keeps to the counts.
use frost_tools.Prelude.{
  ℕ, ◌≡◌, ◌⊎◌, inl, inr, refl, sym, ◌∙◌, arith, true, false, not, ◌&&◌, Bool-cases, Option, List,
  [], ◌∷◌, Map, length, EachAt, is_empty, ok, ◌==◌, nat_eq,
}
use frost_tools.Prelude.Contracts.{Ensures, ensures_then, ensures_lift, ensures_pure}
use frost_tools.Protocol.Coordinator.Pairing.{
  PackageAt, SignedAt, signing_packages_lem, aggregated_lem,
}
use frost_tools.Api.{Bytes}
use frost_tools.Session.Suite.{Suite}
use frost_tools.Comms.Payloads.{Payloads}
use frost_tools.Protocol.Cleanup.{cleaned-ok}
use frost_tools.Protocol.Frost.{Frost, Errors}
use frost_tools.Protocol.Coordinator.{
  Comms, ProcessedArgs, signing_packages, aggregated, given, doit, coordinator,
}

module _ (C : Suite) (P : Payloads C) (F : Frost C P) (X : Errors F.FrostError) where
  open C use {Identifier, SigningCommitments, SignatureShare}
  open P use {SigningPackage, Randomizer}
  open F use {Signature, PublicKeyPackage}
  open X use {Error}

  -- What the protocol relies on: `n` tables of commitments from a fresh state, then `n` of shares.
  pub record KeepsCount (comms : Comms C P F X) (n : ℕ) : Type 1 where
    pub Fresh : comms.Self → Type 0
    pub Collected : List (Map Identifier SigningCommitments) → comms.Self → Type 0
    pub Signed : List (Map Identifier SignatureShare) → comms.Self → Type 0
    pub collects :
        (key : PublicKeyPackage) (k : ℕ)
        → Ensures Fresh (comms.get_signing_commitments key k n) Collected
    pub signs :
        (tables : List (Map Identifier SigningCommitments)) (packages : List SigningPackage)
        (randomizers : Option (List Randomizer)) (aux_msg : Option Bytes)
        → Ensures
            (Collected tables)
            (comms.send_signing_package_and_get_signature_shares packages randomizers aux_msg)
            Signed
    pub processes :
        (shares : List (Map Identifier SignatureShare)) (xs : List Signature)
        → Ensures (Signed shares) (comms.process_signature xs) (λ u. Signed shares)
    pub count_collected :
        (tables : List (Map Identifier SigningCommitments)) (s : comms.Self)
        → Collected tables s
        → length tables ≡ n
    pub count_signed :
        (shares : List (Map Identifier SignatureShare)) (s : comms.Self)
        → Signed shares s
        → length shares ≡ n

  module _ (comms : Comms C P F X) (pargs : ProcessedArgs C P F X)
      (L : KeepsCount comms (length pargs.messages)) where
    open pargs use {public_key_package, messages, randomizers}

    -- One signature for each message: signature `j` aggregates the shares of table `j` over the
    -- package of message `j` and of the commitments of table `j`, with randomizer `j` if there are any.
    pub record Signs (xs : List Signature) (shares : List (Map Identifier SignatureShare))
        : Type 0 where
      pub tables : List (Map Identifier SigningCommitments)
      pub packages : List SigningPackage
      pub before : comms.Self
      pub collected : L.Collected tables before
      pub count : length xs ≡ length messages
      pub packed : EachAt (PackageAt C P F X messages tables 0) packages
      pub made :
          EachAt
            (SignedAt C P F X public_key_package (given C P F X randomizers) packages shares)
            xs

    abbrev pub Results : List Signature → comms.Self → Type 0
    Results xs t =
        (shares : List (Map Identifier SignatureShare)) × Signs xs shares × L.Signed shares t

    abbrev Packed :
        List (Map Identifier SigningCommitments) → List SigningPackage → comms.Self → Type 0
    Packed tables packages s =
        L.Collected tables s
        × (length packages ≡ length tables)
        × EachAt (PackageAt C P F X messages tables 0) packages

    aggregating :
        (tables : List (Map Identifier SigningCommitments)) (packages : List SigningPackage)
        (shares : List (Map Identifier SignatureShare)) (s t : comms.Self) (xs : List Signature)
        → (randomizers ≡ []) ⊎ (length randomizers ≡ length messages)
        → Packed tables packages s
        → L.Signed shares t
        → aggregated C P F X public_key_package (given C P F X randomizers) packages shares ≡ ok xs
        → Signs xs shares
    aggregating tables packages shares s t xs fit (collected, len, packed) signed e =
        let n_tables = L.count_collected tables s collected in
        let n_shares = L.count_signed shares t signed in
        let (count, made) =
          aggregated_lem C P F X public_key_package randomizers packages shares xs e
            (len ∙ n_tables ∙ sym n_shares)
            (elim fit [
              | inl none_there ↦ inl none_there
              | inr as_many ↦ inr (as_many ∙ sym n_tables ∙ sym len)
            ]) in
        record {
          tables = tables;
          packages = packages;
          before = s;
          collected = collected;
          count = count ∙ len ∙ n_tables;
          packed = packed;
          made = made;
        }

    doit-Results :
        (randomizers ≡ []) ⊎ (length randomizers ≡ length messages)
        → Ensures L.Fresh (doit C P F X comms pargs) Results
    unfolding doit
    doit-Results fit = ensures_then (L.collects public_key_package pargs.num_signers) (λ tables.
        ensures_then
          (ensures_lift {Q = Packed tables} (signing_packages C P F X messages 0 tables)
            (λ s h packages e.
              let (len, packed) = signing_packages_lem C P F X messages 0 tables packages e in
              (h, len, packed)))
          (λ packages.
            ensures_then
              {Q = λ shares t. ((s : comms.Self) × Packed tables packages s) × L.Signed shares t}
              (record {
                ensured = λ s h shares t e. (
                  (s, h),
                  (L.signs tables packages (given C P F X randomizers) pargs.aux_msg).ensured s h.0
                      shares t e,
                );
              })
              (λ shares.
                ensures_then
                  (ensures_lift {Q = λ xs t. Signs xs shares × L.Signed shares t}
                    (aggregated C P F X public_key_package (given C P F X randomizers) packages
                      shares)
                    (λ t h xs e.
                      let ((s, before), signed) = h in
                      (aggregating tables packages shares s t xs fit before signed e, signed)))
                  (λ xs.
                    ensures_then {Q = λ u. Results xs}
                      (record {
                        ensured =
                            λ s h u t e. (shares, h.0, (L.processes shares xs).ensured s h.1 u t e);
                      })
                      (λ u. ensures_pure xs (λ t h. h))))))

    fits :
        (not (is_empty randomizers) && not (length randomizers == length messages)) ≡ false
        → (randomizers ≡ []) ⊎ (length randomizers ≡ length messages)
    fits h = elim (Bool-cases (length randomizers == length messages)) [
      | inl same ↦ inr (ground arith)
      | inr differ ↦ inl (empty randomizers (ground arith))
    ]
      where
        empty : (rs : List Randomizer) → is_empty rs ≡ true → rs ≡ []
        empty [] e = refl
        empty (r ∷ rs) e = cc

    -- If the protocol returns, there is one signature for each message, and each is made of the
    -- package of its own message and of the shares for it.
    pub coordinator_lem :
        (s t : comms.Self) (xs : List Signature)
        → L.Fresh s
        → coordinator C P F X comms pargs s ≡ (ok xs, t)
        → Results xs t
    unfolding coordinator
    coordinator_lem s t xs fresh e =
        elim (Bool-cases
          (not (is_empty randomizers) && not (length randomizers == length messages))) [
            | inl wrong ↦ let x = rw (wrong, coordinator) at e in cc
            | inr fine ↦ (doit-Results (fits fine)).ensured s fresh xs t (
                cleaned-ok comms.cleanup_on_error (doit C P F X comms pargs s) xs t
                  (rw (fine, coordinator) at e))
          ]
