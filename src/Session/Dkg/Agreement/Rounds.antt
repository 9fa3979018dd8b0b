-- ===== src/Session/Dkg/Agreement/Rounds.antt =====
-- All rounds together.
use frost_tools.Prelude.{
  ◌+◌, ◌-◌, ◌<◌, ◌≡◌, ◌≢◌, refl, true, some, List, ◌∷◌, arith, Map, get, length, is_some, eq_iff,
  Option-cases, inl, inr, ok, Outcome-cases, or_default,
}
use frost_tools.Api.{public_key_eq, Msg}
use frost_tools.Session.Suite.{Suite}
use frost_tools.Session.Dkg.{
  identifier_eq, package_eq, Pubkeys, Packages, Broadcasts, State, waiting_for_round1_packages,
  waiting_for_round1_packages_broadcast, waiting_for_round2_packages, round2_packages_ready, recv,
  check_broadcast, take_broadcast, handle_round1_package_broadcast,
}
use frost_tools.Session.Dkg.Echo.{echo, echo-record_echo}
use frost_tools.Session.Dkg.Agreement.{
  Run, start, next, Sent, Echoed, AllSent, Agrees, Holds, Holds-more, handle_round1-Holds,
}
use frost_tools.Session.Dkg.Agreement.Broadcast.{
  handle_broadcast-Holds, handle_round2-Holds, check_broadcast-get,
}

module _ (C : Suite) (me : C.Identifier) (pubkeys : Pubkeys C) where
  open C use {Identifier, Round1Package, Round2Package}

  recv-Holds :
      (m : Msg) (ms : List Msg) (s : State C)
      → Holds C me pubkeys ms s
      → Holds C me pubkeys (m ∷ ms) (recv C me m s).1
  unfolding recv Holds
  recv-Holds m ms (waiting_for_round1_packages ps r1) h =
      elim (Option-cases (C.read_round1_package m.msg)) [
        | inl e ↦ rw (e, recv) (Holds-more C me pubkeys m ms (waiting_for_round1_packages ps r1) h)
        | inr (pkg, e) ↦
            rw (e, recv) (rw h.0 (handle_round1-Holds C me pubkeys m ms pkg r1 e (refl, h.1)))
      ]
  recv-Holds m ms (waiting_for_round1_packages_broadcast ps r1 bs) h =
      elim (Option-cases (C.read_broadcast m.msg)) [
        | inl e ↦
            rw (e, recv)
              (Holds-more C me pubkeys m ms (waiting_for_round1_packages_broadcast ps r1 bs) h)
        | inr ((o, pkg), e) ↦
            rw (e, recv)
              (rw h.0
                (handle_broadcast-Holds C me pubkeys m ms r1 bs o pkg e (refl, h.1, h.2, h.3)))
      ]
  recv-Holds m ms (waiting_for_round2_packages ps r1 r2) h =
      elim (Option-cases (C.read_round2_package m.msg)) [
        | inl e ↦
            rw (e, recv) (Holds-more C me pubkeys m ms (waiting_for_round2_packages ps r1 r2) h)
        | inr (pkg, e) ↦
            rw (e, recv)
              (rw h.0 (handle_round2-Holds C me pubkeys m ms r1 pkg r2 (refl, h.1, h.2, h.3)))
      ]
  recv-Holds m ms (round2_packages_ready ps r2) h = h

  Run-Holds : {ms : List Msg} {s : State C} → Run C me pubkeys ms s → Holds C me pubkeys ms s
  unfolding Holds AllSent get
  Run-Holds start = (refl, λ id pkg g. cc)
  Run-Holds (next {ms} {s} r m) = recv-Holds m ms s (Run-Holds r)

  pub Run-pubkeys :
      {ms : List Msg} (ps : Pubkeys C) (r1 : Packages C) (r2 : Map Identifier Round2Package)
      → Run C me pubkeys ms (waiting_for_round2_packages ps r1 r2)
      → ps ≡ pubkeys
  unfolding Holds
  Run-pubkeys ps r1 r2 r = (Run-Holds r).0

  pub Run-count :
      {ms : List Msg} (ps : Pubkeys C) (r1 : Packages C) (r2 : Map Identifier Round2Package)
      → Run C me pubkeys ms (waiting_for_round2_packages ps r1 r2)
      → length r1 ≡ length pubkeys - 1
  unfolding Holds
  Run-count ps r1 r2 r = (Run-Holds r).3

  pub ready-pubkeys :
      {ms : List Msg} (ps : Pubkeys C) (r2 : Map Identifier Round2Package)
      → Run C me pubkeys ms (round2_packages_ready ps r2)
      → ps ≡ pubkeys
  unfolding Holds
  ready-pubkeys ps r2 r = Run-Holds r

  -- When a participant in a DKG of more than two goes on to the second round, it has first-round
  -- packages of as many participants as there are others. Each came from its own participant, and
  -- every other one of these participants has told it that it received the very same package.
  pub agreement :
      {ms : List Msg} (ps : Pubkeys C) (r1 : Packages C) (r2 : Map Identifier Round2Package)
      (o j : Identifier) (pkg : Round1Package)
      → Run C me pubkeys ms (waiting_for_round2_packages ps r1 r2)
      → 2 < length pubkeys
      → get ⦃e = identifier_eq C⦄ r1 o ≡ some pkg
      → is_some (get ⦃e = identifier_eq C⦄ r1 j) ≡ true
      → o ≢ j
      → (length r1 + 1 ≡ length pubkeys)
        × Sent C me pubkeys ms o pkg
        × Echoed C me pubkeys ms o j pkg
  unfolding Holds AllSent Agrees
  agreement ps r1 r2 o j pkg r big g hj ne =
      let (same, sent, agrees, count) = Run-Holds r in
      let (q, gq, heard) = agrees big o j (rw g refl) hj ne in
      let same_q : q ≡ pkg = cc in (omega (arith, count, big), sent o pkg g, rw same_q at heard)

  -- A message that is refused leaves every look-up as it was: the state itself is the same, but for
  -- a duplicated broadcast, which is entered again over the equal package.
  abbrev pub SameTables : State C → State C → Type 0
  SameTables (waiting_for_round1_packages_broadcast ps r1 bs)
        (waiting_for_round1_packages_broadcast ps' r1' bs') =
      (ps ≡ ps') × (r1 ≡ r1') × ((o j : Identifier) → echo C bs o j ≡ echo C bs' o j)
  SameTables s t = s ≡ t

  SameTables-refl : (s : State C) → SameTables s s
  SameTables-refl (waiting_for_round1_packages ps r1) = refl
  SameTables-refl (waiting_for_round1_packages_broadcast ps r1 bs) = (refl, refl, λ o j. refl)
  SameTables-refl (waiting_for_round2_packages ps r1 r2) = refl
  SameTables-refl (round2_packages_ready ps r2) = refl

  broadcast_refused :
      (m : Msg) (o : Identifier) (pkg : Round1Package) (ps : Pubkeys C) (r1 : Packages C)
      (bs : Broadcasts C)
      → ((a b : Identifier) (q : Round1Package)
          → echo C bs a b ≡ some q
          → get ⦃e = identifier_eq C⦄ r1 a ≡ some q)
      → let s = waiting_for_round1_packages_broadcast ps r1 bs in
        let (r, t) = handle_round1_package_broadcast C m.sender me o pkg s in
        r ≢ ok tt → SameTables s t
  unfolding handle_round1_package_broadcast take_broadcast echo
  broadcast_refused m o pkg ps r1 bs h refused = elim (Option-cases (get ps m.sender)) [
    | inl e ↦ rw (e, handle_round1_package_broadcast) (refl, refl, λ a b. refl)
    | inr (j, e) ↦ elim (Outcome-cases (check_broadcast C ps r1 me j o pkg)) [
      | inr (inl (x, f)) ↦ rw (e, f, handle_round1_package_broadcast) (refl, refl, λ a b. refl)
      | inr (inr f) ↦ rw (e, f, handle_round1_package_broadcast) (refl, refl, λ a b. refl)
      | inl (u, f) ↦
          elim (Option-cases
            (get ⦃e = identifier_eq C⦄ (or_default (get ⦃e = identifier_eq C⦄ bs o)) j)) [
              | inl g ↦ absurd (
                  refused
                    (rw (e, f, handle_round1_package_broadcast) (rw (g, take_broadcast) refl)))
              | inr (old, g) ↦
                  rw (e, f, handle_round1_package_broadcast)
                    (rw (g, take_broadcast)
                      (
                        refl,
                        refl,
                        λ a b. ground (
                          arith,
                          echo-record_echo C o j pkg bs a b,
                          check_broadcast-get C me ps r1 j o pkg u f,
                          h o j old g,
                          eq_iff ⦃e = identifier_eq C⦄ o a,
                          eq_iff ⦃e = identifier_eq C⦄ j b,
                        ),
                      ))
            ]
    ]
  ]

  -- After any messages, a message that is refused leaves every look-up in the state as it was.
  pub refused_tables :
      {ms : List Msg} (s : State C) (m : Msg)
      → Run C me pubkeys ms s
      → (recv C me m s).0 ≢ ok tt
      → SameTables s (recv C me m s).1
  unfolding recv Holds
  refused_tables (waiting_for_round1_packages ps r1) m r refused =
      let s = waiting_for_round1_packages ps r1 in
      let same : (recv C me m s).1 ≡ s = ground arith in rw same refl
  refused_tables (waiting_for_round1_packages_broadcast ps r1 bs) m r refused =
      elim (Option-cases (C.read_broadcast m.msg)) [
        | inl e ↦ rw (e, recv) (refl, refl, λ a b. refl)
        | inr ((o, pkg), e) ↦
            rw (e, recv)
              (broadcast_refused m o pkg ps r1 bs (λ a b q g. ((Run-Holds r).2 a b q g).1)
                (λ x. refused (rw (e, recv) x)))
      ]
  refused_tables (waiting_for_round2_packages ps r1 r2) m r refused =
      let s = waiting_for_round2_packages ps r1 r2 in
      let same : (recv C me m s).1 ≡ s = ground arith in rw same refl
  refused_tables (round2_packages_ready ps r2) m r refused = refl
