-- ===== src/Session/Dkg/Echo.antt =====
-- The table of echoes: look-ups in it, and what the completeness check establishes.
use frost_tools.Prelude.{
  ◌≡◌, ◌≢◌, Bool, true, ◌&&◌, Option, some, [], ◌∷◌, arith, PartialEq, ◌==◌, Map, get, insert,
  get-insert, contains-keys, contains-set_insert, keys, values, set_insert, set_eq-contains,
  or_default, all, is_some, eq_iff, if◌then◌else◌, Option-cases, inl, inr,
}
use frost_tools.Session.Suite.{Suite}
use frost_tools.Session.Dkg.{
  identifier_eq, package_eq, Packages, Broadcasts, is_original, echoed, is_complete, record_echo,
}

module _ {K V : Type 0} ⦃e : PartialEq K⦄ where
  -- A test that all entries pass, or all values, is passed by what a look-up finds.
  pub all-get :
      (p : K × V → Bool) (m : Map K V) (k : K) (v : V)
      → all p m ≡ true
      → get m k ≡ some v
      → p (k, v) ≡ true
  unfolding get
  all-get p [] k v h g = cc
  all-get p ((j, w) ∷ m) k v h g = ground (arith, eq_iff j k, all-get p m k v)

  pub all-values-get :
      (p : V → Bool) (m : Map K V) (k : K) (v : V)
      → all p (values m) ≡ true
      → get m k ≡ some v
      → p v ≡ true
  unfolding get
  all-values-get p [] k v h g = cc
  all-values-get p ((j, w) ∷ m) k v h g = ground (arith, eq_iff j k, all-values-get p m k v)

module _ (C : Suite) where
  open C use {Identifier, Round1Package}

  -- What `sender` has broadcast as the package of `original`.
  unfoldable pub echo : Broadcasts C → Identifier → Identifier → Option Round1Package
  echo bs original sender =
      get ⦃e = identifier_eq C⦄ (or_default (get ⦃e = identifier_eq C⦄ bs original)) sender

  pub echo-record_echo :
      (o j : Identifier) (pkg : Round1Package) (bs : Broadcasts C) (a b : Identifier)
      → echo (record_echo C o j pkg bs) a b ≡ (
          if ◌==◌ ⦃e = identifier_eq C⦄ o a && ◌==◌ ⦃e = identifier_eq C⦄ j b
          then some pkg
          else echo bs a b)
  unfolding echo record_echo
  echo-record_echo o j pkg bs a b = ground (
    arith,
    eq_iff ⦃e = identifier_eq C⦄ o a,
    get-insert ⦃e = identifier_eq C⦄ o a
        (insert ⦃e = identifier_eq C⦄ j pkg (or_default (get ⦃e = identifier_eq C⦄ bs o))) bs,
    get-insert ⦃e = identifier_eq C⦄ j b pkg (or_default (get ⦃e = identifier_eq C⦄ bs o)),
  )

  is_original-get :
      (r1 : Packages C) (o : Identifier) (q : Round1Package)
      → is_original C r1 o q ≡ true
      → get ⦃e = identifier_eq C⦄ r1 o ≡ some q
  unfolding is_original
  is_original-get r1 o q h = elim (Option-cases (get ⦃e = identifier_eq C⦄ r1 o)) [
    | inl e ↦ absurd (ground arith)
    | inr (p, e) ↦ ground (arith, eq_iff ⦃e = package_eq C⦄ q p)
  ]

  echoed-get :
      (r1 m : Packages C) (o j : Identifier)
      → echoed C r1 (o, m) ≡ true
      → is_some (get ⦃e = identifier_eq C⦄ r1 j) ≡ true
      → o ≢ j
      → (q : Round1Package) × (get ⦃e = identifier_eq C⦄ m j ≡ some q)
        × (get ⦃e = identifier_eq C⦄ r1 o ≡ some q)
  unfolding echoed
  echoed-get r1 m o j h hj ne = elim (Option-cases (get ⦃e = identifier_eq C⦄ m j)) [
    | inl missing ↦ absurd (
        ground (
          arith,
          set_eq-contains ⦃e = identifier_eq C⦄ (set_insert ⦃e = identifier_eq C⦄ o (keys m))
              (keys r1) j,
          contains-set_insert ⦃e = identifier_eq C⦄ o j (keys m),
          contains-keys ⦃e = identifier_eq C⦄ m j,
          contains-keys ⦃e = identifier_eq C⦄ r1 j,
          eq_iff ⦃e = identifier_eq C⦄ o j,
        ))
    | inr (q, e) ↦ (
      q,
      e,
      is_original-get r1 o q
          (all-values-get ⦃e = identifier_eq C⦄ (is_original C r1 o) m j q (ground arith) e),
    )
  ]

  -- If the check passes, every participant but the original sender has broadcast the package that
  -- the original sender sent.
  pub is_complete-echo :
      (r1 : Packages C) (bs : Broadcasts C) (o j : Identifier)
      → is_complete C r1 bs ≡ true
      → is_some (get ⦃e = identifier_eq C⦄ r1 o) ≡ true
      → is_some (get ⦃e = identifier_eq C⦄ r1 j) ≡ true
      → o ≢ j
      → (q : Round1Package) × (echo bs o j ≡ some q) × (get ⦃e = identifier_eq C⦄ r1 o ≡ some q)
  unfolding is_complete echo
  is_complete-echo r1 bs o j c ho hj ne = elim (Option-cases (get ⦃e = identifier_eq C⦄ bs o)) [
    | inl missing ↦ absurd (
        ground (
          arith,
          set_eq-contains ⦃e = identifier_eq C⦄ (keys bs) (keys r1) o,
          contains-keys ⦃e = identifier_eq C⦄ bs o,
          contains-keys ⦃e = identifier_eq C⦄ r1 o,
        ))
    | inr (m, em) ↦
        let passed = all-get ⦃e = identifier_eq C⦄ (echoed C r1) bs o m (ground arith) em in
        let (q, eq, er) = echoed-get r1 m o j passed hj ne in (q, rw em eq, er)
  ]
