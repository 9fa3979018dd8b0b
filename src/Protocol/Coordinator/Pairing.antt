-- ===== src/Protocol/Coordinator/Pairing.antt =====
-- Which messages, commitments and shares each signature is made of.
use mathlib.Core.Path.{subst}
use frost_tools.Prelude.{
  ℕ, suc, ◌+◌, ◌≡◌, ◌⊎◌, inl, inr, refl, ap, sym, ◌∙◌, arith, Option, none, some, Option-cases,
  List, [], ◌∷◌, Map, length, get_elem?, EachAt, EachAt-nil, EachAt-cons, EachAt-map, ok, bind,
  bind-eq-ok, nat_eq,
}
use frost_tools.Api.{Bytes}
use frost_tools.Session.Suite.{Suite}
use frost_tools.Comms.Payloads.{Payloads}
use frost_tools.Protocol.Frost.{Frost, Errors, from_frost, from_frost-ok}
use frost_tools.Protocol.Coordinator.{
  signing_packages, aggregate_all, aggregate_rerandomized_all, aggregated, given,
}

module _ (C : Suite) (P : Payloads C) (F : Frost C P) (X : Errors F.FrostError) where
  open C use {Identifier, SigningCommitments, SignatureShare}
  open P use {SigningPackage, Randomizer}
  open F use {Signature, PublicKeyPackage}
  open X use {Error}

  -- The package of a table and of the message of the same index, from `i` on.
  pub PackageAt :
      List Bytes → List (Map Identifier SigningCommitments) → ℕ → ℕ → SigningPackage → Type 0
  PackageAt messages cs i j p =
      (c : Map Identifier SigningCommitments) × (m : Bytes) × (get_elem? cs j ≡ some c)
      × (get_elem? messages (i + j) ≡ some m)
      × (p ≡ F.signing_package c m)

  pub signing_packages_lem :
      (messages : List Bytes) (i : ℕ) (cs : List (Map Identifier SigningCommitments))
      (ps : List SigningPackage)
      → signing_packages C P F X messages i cs ≡ ok ps
      → (length ps ≡ length cs) × EachAt (PackageAt messages cs i) ps
  unfolding signing_packages PackageAt
  signing_packages_lem messages i [] ps e =
      let same : [] ≡ ps = cc in
      subst (λ ps. (length ps ≡ 0) × EachAt (PackageAt messages [] i) ps) same
        (refl, EachAt-nil (PackageAt messages [] i))
  signing_packages_lem messages i (c ∷ cs) ps e = elim (Option-cases (get_elem? messages i)) [
    | inl none_there ↦ let x = rw (none_there, signing_packages) at e in cc
    | inr (m, there) ↦
        let (qs, rest, made) =
          bind-eq-ok (signing_packages C P F X messages (suc i) cs)
            (λ ps. ok (F.signing_package c m ∷ ps)) (rw (there, signing_packages) at e) in
        let (len, at) = signing_packages_lem messages (suc i) cs qs rest in
        let same : F.signing_package c m ∷ qs ≡ ps = cc in
        subst (λ ps. (length ps ≡ suc (length cs)) × EachAt (PackageAt messages (c ∷ cs) i) ps) same
          (
            ap suc len,
            EachAt-cons (PackageAt messages (c ∷ cs) i) (F.signing_package c m) qs
                (c, m, refl, ap (get_elem? messages) (omega arith) ∙ there, refl)
                (EachAt-map qs
                  (λ j p h.
                    let (d, n, a, b, f) = h in
                    (d, n, a, ap (get_elem? messages) (omega arith) ∙ b, f))
                  at),
          )
  ]

  -- The aggregation of package `j` and the shares for it, rerandomized by randomizer `j` if there is one.
  pub SignedAt :
      PublicKeyPackage
      → Option (List Randomizer)
      → List SigningPackage
      → List (Map Identifier SignatureShare)
      → ℕ
      → Signature
      → Type 0
  SignedAt key none ps ss j x =
      (p : SigningPackage) × (s : Map Identifier SignatureShare) × (get_elem? ps j ≡ some p)
      × (get_elem? ss j ≡ some s)
      × (F.aggregate p s key ≡ ok x)
  SignedAt key (some rs) ps ss j x =
      (r : Randomizer) × (p : SigningPackage) × (s : Map Identifier SignatureShare) × (get_elem? rs
          j
        ≡ some r)
      × (get_elem? ps j ≡ some p)
      × (get_elem? ss j ≡ some s)
      × (F.aggregate_rerandomized p s key (F.from_randomizer key r) ≡ ok x)

  aggregate_all_lem :
      (key : PublicKeyPackage) (ps : List SigningPackage)
      (ss : List (Map Identifier SignatureShare)) (xs : List Signature)
      → aggregate_all C P F X key ps ss ≡ ok xs
      → length ps ≡ length ss
      → (length xs ≡ length ps) × EachAt (SignedAt key none ps ss) xs
  unfolding aggregate_all SignedAt
  aggregate_all_lem key [] ss xs e l =
      let same : [] ≡ xs = cc in
      subst (λ xs. (length xs ≡ 0) × EachAt (SignedAt key none [] ss) xs) same
        (refl, EachAt-nil (SignedAt key none [] ss))
  aggregate_all_lem key (p ∷ ps) [] xs e l = absurd (omega arith)
  aggregate_all_lem key (p ∷ ps) (s ∷ ss) xs e l =
      let (y, one, more) =
        bind-eq-ok (from_frost X (F.aggregate p s key))
          (λ x. bind (aggregate_all C P F X key ps ss) (λ xs. ok (x ∷ xs))) e in
      let (ys, rest, made) =
        bind-eq-ok (aggregate_all C P F X key ps ss) (λ xs. ok (y ∷ xs)) more in
      let (len, at) = aggregate_all_lem key ps ss ys rest (omega arith) in
      let same : y ∷ ys ≡ xs = cc in
      subst (λ xs. (length xs ≡ suc (length ps)) × EachAt (SignedAt key none (p ∷ ps) (s ∷ ss)) xs)
        same
        (
          ap suc len,
          EachAt-cons (SignedAt key none (p ∷ ps) (s ∷ ss)) y ys
              (p, s, refl, refl, from_frost-ok X (F.aggregate p s key) one)
              (EachAt-map ys (λ j x h. h) at),
        )

  aggregate_rerandomized_all_lem :
      (key : PublicKeyPackage) (rs : List Randomizer) (ps : List SigningPackage)
      (ss : List (Map Identifier SignatureShare)) (xs : List Signature)
      → aggregate_rerandomized_all C P F X key rs ps ss ≡ ok xs
      → length ps ≡ length ss
      → length ps ≡ length rs
      → (length xs ≡ length ps) × EachAt (SignedAt key (some rs) ps ss) xs
  unfolding aggregate_rerandomized_all SignedAt
  aggregate_rerandomized_all_lem key [] [] ss xs e l k =
      let same : [] ≡ xs = cc in
      subst (λ xs. (length xs ≡ 0) × EachAt (SignedAt key (some []) [] ss) xs) same
        (refl, EachAt-nil (SignedAt key (some []) [] ss))
  aggregate_rerandomized_all_lem key [] (p ∷ ps) ss xs e l k = absurd (omega arith)
  aggregate_rerandomized_all_lem key (r ∷ rs) [] ss xs e l k = absurd (omega arith)
  aggregate_rerandomized_all_lem key (r ∷ rs) (p ∷ ps) [] xs e l k = absurd (omega arith)
  aggregate_rerandomized_all_lem key (r ∷ rs) (p ∷ ps) (s ∷ ss) xs e l k =
      let made_of = F.aggregate_rerandomized p s key (F.from_randomizer key r) in
      let (y, one, more) =
        bind-eq-ok (from_frost X made_of)
          (λ x. bind (aggregate_rerandomized_all C P F X key rs ps ss) (λ xs. ok (x ∷ xs))) e in
      let (ys, rest, made) =
        bind-eq-ok (aggregate_rerandomized_all C P F X key rs ps ss) (λ xs. ok (y ∷ xs)) more in
      let (len, at) =
        aggregate_rerandomized_all_lem key rs ps ss ys rest (omega arith) (omega arith) in
      let same : y ∷ ys ≡ xs = cc in
      subst
        (λ xs.
          (length xs ≡ suc (length ps))
          × EachAt (SignedAt key (some (r ∷ rs)) (p ∷ ps) (s ∷ ss)) xs)
        same
        (
          ap suc len,
          EachAt-cons (SignedAt key (some (r ∷ rs)) (p ∷ ps) (s ∷ ss)) y ys
              (r, p, s, refl, refl, refl, from_frost-ok X made_of one)
              (EachAt-map ys (λ j x h. h) at),
        )

  -- With a randomizer for each package, or none.
  pub aggregated_lem :
      (key : PublicKeyPackage) (rs : List Randomizer) (ps : List SigningPackage)
      (ss : List (Map Identifier SignatureShare)) (xs : List Signature)
      → aggregated C P F X key (given C P F X rs) ps ss ≡ ok xs
      → length ps ≡ length ss
      → (rs ≡ []) ⊎ (length rs ≡ length ps)
      → (length xs ≡ length ps) × EachAt (SignedAt key (given C P F X rs) ps ss) xs
  unfolding aggregated given
  aggregated_lem key [] ps ss xs e l k = aggregate_all_lem key ps ss xs e l
  aggregated_lem key (r ∷ rs) ps ss xs e l (inl none_there) = cc
  aggregated_lem key (r ∷ rs) ps ss xs e l (inr k) =
      aggregate_rerandomized_all_lem key (r ∷ rs) ps ss xs e l (sym k)
