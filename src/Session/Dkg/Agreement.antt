-- ===== src/Session/Dkg/Agreement.antt =====
-- Agreement by echo broadcast: what a participant knows when the first round is over.
pub mod Broadcast
pub mod Rounds
use frost_tools.Prelude.{
  ℕ, ◌-◌, ◌<◌, ◌≡◌, ◌≢◌, ◌⊎◌, refl, Bool, true, false, ◌&&◌, Option, none, some, List, [], ◌∷◌,
  arith, PartialEq, ◌==◌, nat_eq, Map, get, insert, get-insert, contains, contains_key, keys,
  values, set_eq, or_default, length, ltb, is_some, eq_iff, if◌then◌else◌, Option-cases, Bool-cases,
  inl, inr, Outcome, ok, err, panic,
}
use frost_tools.Api.{PublicKey, public_key_eq, Msg}
use frost_tools.Session.Suite.{Suite, SessionError}
use frost_tools.Session.Dkg.{
  identifier_eq, package_eq, Pubkeys, Packages, Broadcasts, State, waiting_for_round1_packages,
  waiting_for_round1_packages_broadcast, waiting_for_round2_packages, round2_packages_ready,
  round1_in, broadcast_in, round2_in, handle_round1_package, handle_round1_package_broadcast,
  handle_round2_package, check_broadcast, take_broadcast, record_echo, is_complete, recv,
}
use frost_tools.Session.Dkg.Echo.{echo, echo-record_echo, is_complete-echo}

module _ (C : Suite) (me : C.Identifier) (pubkeys : Pubkeys C) where
  open C use {Identifier, Round1Package, Round2Package}

  -- The participant has received the messages `ms`, the latest first, since it knows the keys.
  pub data Run : List Msg → State C → Type 0 where
    start : Run [] (waiting_for_round1_packages pubkeys [])
    next : {ms : List Msg} {s : State C} → Run ms s → (m : Msg) → Run (m ∷ ms) (recv C me m s).1

  -- Among the messages is one from `id` with the first-round package `pkg`.
  abbrev pub Sent : List Msg → Identifier → Round1Package → Type 0
  Sent [] id pkg = ⊥
  Sent (m ∷ ms) id pkg =
      ((get pubkeys m.sender ≡ some id) × (C.read_round1_package m.msg ≡ some pkg)) ⊎ Sent ms id pkg

  -- Among them is one from `j` that says that `pkg` is what `o` sent.
  abbrev pub Echoed : List Msg → Identifier → Identifier → Round1Package → Type 0
  Echoed [] o j pkg = ⊥
  Echoed (m ∷ ms) o j pkg =
      ((get pubkeys m.sender ≡ some j) × (C.read_broadcast m.msg ≡ some (o, pkg)))
      ⊎ Echoed ms o j pkg

  pub AllSent : List Msg → Packages C → Type 0
  AllSent ms r1 =
      (id : Identifier) (pkg : Round1Package)
      → get ⦃e = identifier_eq C⦄ r1 id ≡ some pkg
      → Sent ms id pkg

  pub Agrees : List Msg → Packages C → Type 0
  Agrees ms r1 =
      (o j : Identifier)
      → is_some (get ⦃e = identifier_eq C⦄ r1 o) ≡ true
      → is_some (get ⦃e = identifier_eq C⦄ r1 j) ≡ true
      → o ≢ j
      → (pkg : Round1Package) × (get ⦃e = identifier_eq C⦄ r1 o ≡ some pkg) × Echoed ms o j pkg

  -- What holds after the messages, state by state.
  pub Holds : List Msg → State C → Type 0
  Holds ms (waiting_for_round1_packages ps r1) = (ps ≡ pubkeys) × AllSent ms r1
  Holds ms (waiting_for_round1_packages_broadcast ps r1 bs) =
      (ps ≡ pubkeys)
      × AllSent ms r1
      × ((o j : Identifier) (pkg : Round1Package)
          → echo C bs o j ≡ some pkg
          → Echoed ms o j pkg × (get ⦃e = identifier_eq C⦄ r1 o ≡ some pkg))
      × (length r1 ≡ length pubkeys - 1)
  Holds ms (waiting_for_round2_packages ps r1 r2) =
      (ps ≡ pubkeys)
      × AllSent ms r1
      × (2 < length pubkeys → Agrees ms r1)
      × (length r1 ≡ length pubkeys - 1)
  Holds ms (round2_packages_ready ps r2) = ps ≡ pubkeys

  module _ (m : Msg) (ms : List Msg) where
    -- More messages keep what held.
    Holds-more : (s : State C) → Holds ms s → Holds (m ∷ ms) s
    unfolding Holds AllSent Agrees
    Holds-more (waiting_for_round1_packages ps r1) h = (h.0, λ id pkg g. inr (h.1 id pkg g))
    Holds-more (waiting_for_round1_packages_broadcast ps r1 bs) h = (
      h.0,
      λ id pkg g. inr (h.1 id pkg g),
      λ o j pkg g. let (a, b) = h.2 o j pkg g in (inr a, b),
      h.3,
    )
    Holds-more (waiting_for_round2_packages ps r1 r2) h = (
      h.0,
      λ id pkg g. inr (h.1 id pkg g),
      λ big o j a b ne. let (pkg, g, x) = h.2 big o j a b ne in (pkg, g, inr x),
      h.3,
    )
    Holds-more (round2_packages_ready ps r2) h = h

    round1_in-Holds :
        (r1 : Packages C) → AllSent (m ∷ ms) r1 → Holds (m ∷ ms) (round1_in C pubkeys r1)
    unfolding Holds AllSent echo get
    round1_in-Holds r1 h = elim (Bool-cases (length r1 == length pubkeys - 1)) [
      | inr e ↦ rw e (refl, h)
      | inl e ↦ rw e (elim (Bool-cases (ltb 2 (length pubkeys))) [
        | inl big ↦ rw big (refl, h, λ o j pkg g. cc, ground arith)
        | inr small ↦ rw small (refl, h, λ big. absurd (ground arith), ground arith)
      ])
    ]

    handle_round1-Holds :
        (pkg : Round1Package) (r1 : Packages C)
        → C.read_round1_package m.msg ≡ some pkg
        → Holds ms (waiting_for_round1_packages pubkeys r1)
        → Holds
            (m ∷ ms)
            (handle_round1_package C m.sender pkg (waiting_for_round1_packages pubkeys r1)).1
    unfolding handle_round1_package
    handle_round1-Holds pkg r1 read h = elim (Option-cases (get pubkeys m.sender)) [
      | inl e ↦
          rw (e, handle_round1_package) (Holds-more (waiting_for_round1_packages pubkeys r1) h)
      | inr (id, e) ↦
          rw (e, handle_round1_package)
            (round1_in-Holds (insert ⦃e = identifier_eq C⦄ id pkg r1) (
              unfold AllSent Holds in
              λ j q g. elim (Bool-cases (◌==◌ ⦃e = identifier_eq C⦄ id j)) [
                | inl same ↦ inl (
                  ground (arith, eq_iff ⦃e = identifier_eq C⦄ id j),
                  ground (arith, get-insert ⦃e = identifier_eq C⦄ id j pkg r1),
                )
                | inr other ↦
                    inr (h.1 j q (ground (arith, get-insert ⦃e = identifier_eq C⦄ id j pkg r1)))
              ]))
    ]
