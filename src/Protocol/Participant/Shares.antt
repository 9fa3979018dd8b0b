-- ===== src/Protocol/Participant/Shares.antt =====
-- Which package, nonces and randomizer each signature share is made of.
use mathlib.Core.Path.{subst}
use frost_tools.Prelude.{
  ℕ, suc, ◌≡◌, ◌⊎◌, inl, inr, refl, ap, arith, true, Bool-cases, some, List, [], ◌∷◌, length,
  get_elem?, EachAt, EachAt-nil, EachAt-cons, EachAt-map, ok, bind, bind-eq-ok, ◌==◌, nat_eq,
}
use frost_tools.Session.Suite.{Suite}
use frost_tools.Comms.Payloads.{Payloads}
use frost_tools.Protocol.Frost.{Frost, Errors, from_frost, from_frost-ok}
use frost_tools.Protocol.Participant.{
  SigningArgs, sign_all, sign_rerandomized_all, generate_signature,
}

module _ (C : Suite) (P : Payloads C) (F : Frost C P) (X : Errors F.FrostError) where
  open C use {Identifier, SigningCommitments, SignatureShare}
  open P use {SigningPackage, Randomizer}
  open F use {KeyPackage, SigningNonces}
  open X use {Error}

  -- Share `j` signs package `j` with nonces `j`, and with randomizer `j` if there are any.
  pub SharedAt :
      KeyPackage
      → List SigningPackage
      → List SigningNonces
      → List Randomizer
      → ℕ
      → SignatureShare
      → Type 0
  SharedAt key ps ns [] j x =
      (p : SigningPackage) × (n : SigningNonces) × (get_elem? ps j ≡ some p)
      × (get_elem? ns j ≡ some n)
      × (F.sign p n key ≡ ok x)
  SharedAt key ps ns (r0 ∷ rs) j x =
      (p : SigningPackage) × (n : SigningNonces) × (r : Randomizer) × (get_elem? ps j ≡ some p)
      × (get_elem? ns j ≡ some n)
      × (get_elem? (r0 ∷ rs) j ≡ some r)
      × (F.sign_rerandomized p n key r ≡ ok x)

  sign_all_lem :
      (key : KeyPackage) (ps : List SigningPackage) (ns : List SigningNonces)
      (xs : List SignatureShare)
      → sign_all C P F X key ps ns ≡ ok xs
      → length ns ≡ length ps
      → (length xs ≡ length ps) × EachAt (SharedAt key ps ns []) xs
  unfolding sign_all SharedAt
  sign_all_lem key [] ns xs e l =
      let same : [] ≡ xs = cc in
      subst (λ xs. (length xs ≡ 0) × EachAt (SharedAt key [] ns []) xs) same
        (refl, EachAt-nil (SharedAt key [] ns []))
  sign_all_lem key (p ∷ ps) [] xs e l = absurd (omega arith)
  sign_all_lem key (p ∷ ps) (n ∷ ns) xs e l =
      let (y, one, more) =
        bind-eq-ok (from_frost X (F.sign p n key))
          (λ x. bind (sign_all C P F X key ps ns) (λ xs. ok (x ∷ xs))) e in
      let (ys, rest, made) = bind-eq-ok (sign_all C P F X key ps ns) (λ xs. ok (y ∷ xs)) more in
      let (len, at) = sign_all_lem key ps ns ys rest (omega arith) in
      let same : y ∷ ys ≡ xs = cc in
      subst (λ xs. (length xs ≡ suc (length ps)) × EachAt (SharedAt key (p ∷ ps) (n ∷ ns) []) xs)
        same
        (
          ap suc len,
          EachAt-cons (SharedAt key (p ∷ ps) (n ∷ ns) []) y ys
              (p, n, refl, refl, from_frost-ok X (F.sign p n key) one)
              (EachAt-map ys (λ j x h. h) at),
        )

  -- The same with randomizers, of which there may be none left.
  RandomizedAt :
      KeyPackage
      → List SigningPackage
      → List SigningNonces
      → List Randomizer
      → ℕ
      → SignatureShare
      → Type 0
  RandomizedAt key ps ns rs j x =
      (p : SigningPackage) × (n : SigningNonces) × (r : Randomizer) × (get_elem? ps j ≡ some p)
      × (get_elem? ns j ≡ some n)
      × (get_elem? rs j ≡ some r)
      × (F.sign_rerandomized p n key r ≡ ok x)

  sign_rerandomized_all_lem :
      (key : KeyPackage) (ps : List SigningPackage) (ns : List SigningNonces) (rs : List Randomizer)
      (xs : List SignatureShare)
      → sign_rerandomized_all C P F X key ps ns rs ≡ ok xs
      → length ns ≡ length ps
      → length rs ≡ length ps
      → (length xs ≡ length ps) × EachAt (RandomizedAt key ps ns rs) xs
  unfolding sign_rerandomized_all RandomizedAt
  sign_rerandomized_all_lem key [] ns rs xs e l k =
      let same : [] ≡ xs = cc in
      subst (λ xs. (length xs ≡ 0) × EachAt (RandomizedAt key [] ns rs) xs) same
        (refl, EachAt-nil (RandomizedAt key [] ns rs))
  sign_rerandomized_all_lem key (p ∷ ps) [] rs xs e l k = absurd (omega arith)
  sign_rerandomized_all_lem key (p ∷ ps) (n ∷ ns) [] xs e l k = absurd (omega arith)
  sign_rerandomized_all_lem key (p ∷ ps) (n ∷ ns) (r ∷ rs) xs e l k =
      let made_of = F.sign_rerandomized p n key r in
      let (y, one, more) =
        bind-eq-ok (from_frost X made_of)
          (λ x. bind (sign_rerandomized_all C P F X key ps ns rs) (λ xs. ok (x ∷ xs))) e in
      let (ys, rest, made) =
        bind-eq-ok (sign_rerandomized_all C P F X key ps ns rs) (λ xs. ok (y ∷ xs)) more in
      let (len, at) = sign_rerandomized_all_lem key ps ns rs ys rest (omega arith) (omega arith) in
      let same : y ∷ ys ≡ xs = cc in
      subst
        (λ xs.
          (length xs ≡ suc (length ps)) × EachAt (RandomizedAt key (p ∷ ps) (n ∷ ns) (r ∷ rs)) xs)
        same
        (
          ap suc len,
          EachAt-cons (RandomizedAt key (p ∷ ps) (n ∷ ns) (r ∷ rs)) y ys
              (p, n, r, refl, refl, refl, from_frost-ok X made_of one)
              (EachAt-map ys (λ j x h. h) at),
        )

  abbrev made : List SigningPackage → List ℕ → List Randomizer → SigningArgs C P F X
  made ps aux rs = record { signing_package = ps; aux_msg = aux; randomizer = rs }

  unfoldable pub Shared :
      SigningArgs C P F X → KeyPackage → List SigningNonces → List SignatureShare → Type 0
  Shared config key nonces xs =
      (length nonces ≡ length config.signing_package)
      × ((config.randomizer ≡ []) ⊎ (length config.randomizer ≡ length config.signing_package))
      × (length xs ≡ length config.signing_package)
      × EachAt (SharedAt key config.signing_package nonces config.randomizer) xs

  shared :
      (ps : List SigningPackage) (aux : List ℕ) (rs : List Randomizer) (key : KeyPackage)
      (nonces : List SigningNonces) (xs : List SignatureShare)
      → (length nonces == length ps) ≡ true
      → generate_signature C P F X (made ps aux rs) key nonces ≡ ok xs
      → Shared (made ps aux rs) key nonces xs
  unfolding generate_signature Shared SharedAt RandomizedAt
  shared ps aux [] key ns xs same e =
      let l : length ns ≡ length ps = ground arith in
      let (count, at) = sign_all_lem key ps ns xs (rw (same, generate_signature) at e) l in
      (l, inl refl, count, at)
  shared ps aux (r ∷ rs) key ns xs same e = elim (Bool-cases (length (r ∷ rs) == length ps)) [
    | inr uneven ↦ let x = rw (same, uneven, generate_signature) at e in cc
    | inl as_many ↦
        let l : length ns ≡ length ps = ground arith in
        let k : length (r ∷ rs) ≡ length ps = ground arith in
        let (count, at) =
          sign_rerandomized_all_lem key ps ns (r ∷ rs) xs
            (rw (same, as_many, generate_signature) at e) l k in
        (l, inr k, count, at)
  ]

  -- `generate_signature` refuses numbers of nonces or randomizers that do not fit; where it returns,
  -- there is one share for each package, made with the nonces and the randomizer of the same index.
  pub generate_signature_lem :
      (config : SigningArgs C P F X) (key : KeyPackage) (nonces : List SigningNonces)
      (xs : List SignatureShare)
      → generate_signature C P F X config key nonces ≡ ok xs
      → Shared config key nonces xs
  unfolding generate_signature
  generate_signature_lem config key nonces xs e =
      elim (Bool-cases (length nonces == length config.signing_package)) [
        | inr differ ↦ let x = rw (differ, generate_signature) at e in cc
        | inl same ↦
            shared config.signing_package config.aux_msg config.randomizer key nonces xs same e
      ]
